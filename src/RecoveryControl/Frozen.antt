-- ===== src/RecoveryControl/Frozen.antt =====
-- The checkpoints of internal/recoverycontrol/checkpoint.go: what is frozen is found again.
use geoflow_updater.Prelude.{
  ◌≡◌, refl, subst, inl, inr, String, true, ◌&&◌, Bool-cases, Option, none, some, List, [], ◌∷◌,
  str_eq, eq_iff, eq_refl, arith,
}
use geoflow_updater.Prelude.Result.{Result, ok, err}
use geoflow_updater.Prelude.Action.{Leaves, lift_rule, Leaves-value}
use geoflow_updater.Coordination.Patterns.{identifier, hex64, point_id}
use geoflow_updater.Coordination.Files.{find, put}
use geoflow_updater.RecoveryControl.Records.{Failure, not_exist, refused, io, Authority, Checkpoint}
use geoflow_updater.RecoveryControl.Disk.{Disk, Ends, attempt}
use geoflow_updater.RecoveryControl.Checkpoints.{
  checkpoint, decoded, frozen, freeze, capture, capture_checkpoint, write_checkpoint,
}
use geoflow_updater.RecoveryControl.Advances.{atomic_rule}
use geoflow_updater.RecoveryControl.Commits.{Whatever, write_rule}
use geoflow_updater.RecoveryControl.Apart.{IsApart, Any, change_after}
use geoflow_updater.RecoveryControl.Commands.{guarded-eq-ok}
use geoflow_updater.Coordination.Accept.{find-put}

module _ (point transaction : String) where
  -- The checkpoint is there, with this digest.
  abbrev pub Holds : String → Disk → Type 0
  Holds digest d =
      (c : Checkpoint) × (checkpoint "primary" point transaction d ≡ ok c)
      × (c.admin_digest ≡ digest)

  pub Holds-IsApart : (digest : String) → IsApart (Holds digest)
  unfolding checkpoint
  Holds-IsApart digest = record {
    floor = λ s h. h;
    marker = λ s h. h;
    authority = λ a s h. h;
    public = λ a s h. h;
  }

module _ (point transaction digest : String)
    (valid : (point_id point && identifier transaction && hex64 digest) ≡ true) where
  found_put :
      (files : List (String × Option Checkpoint))
      → find transaction (put transaction (frozen point transaction digest) files)
        ≡ some (some (frozen point transaction digest))
  unfolding find put
  found_put [] = ground (arith, eq_refl transaction)
  found_put ((key, old) ∷ files) =
      ground (arith, eq_iff key transaction, eq_refl transaction, found_put files)

  written-Holds :
      (d : Disk) → Holds point transaction digest (write_checkpoint point transaction digest d)
  unfolding checkpoint
  written-Holds d =
      let g : (point_id point && identifier transaction) ≡ true = ground arith in
      (
        frozen point transaction digest,
        rw (g, found_put d.checkpoints) (ground (arith, eq_refl point, eq_refl transaction)),
        refl,
      )

  freeze-Holds :
      (w : Ends) (a : Authority) (r : Result Failure Checkpoint) (d : Disk)
      → checkpoint "primary" point transaction d ≡ r
      → Leaves Whatever
          (λ b t. Holds point transaction digest t)
          (freeze w point transaction digest a r d)
  unfolding freeze
  freeze-Holds w a (ok previous) d e = elim (Bool-cases (str_eq previous.admin_digest digest)) [
    | inl t ↦ rw t (tt, (previous, e, (eq_iff previous.admin_digest digest).0 t))
    | inr t ↦ rw t tt
  ]
  freeze-Holds w a (err (refused m)) d e = tt
  freeze-Holds w a (err (io m)) d e = tt
  freeze-Holds w a (err not_exist) d e =
      let R : Authority → Disk → Type 0 = λ b t. Holds point transaction digest t in
      lift_rule Whatever R d (attempt w.checkpoint_directory) _ tt (λ u q.
        write_rule R w.checkpoint_end (write_checkpoint point transaction digest) d _
          (tt, written-Holds d))

  capture-Holds :
      (w : Ends) (a : Authority) (d : Disk)
      → Leaves Whatever
          (λ b t. Holds point transaction digest t)
          (capture w "primary" point transaction digest a d)
  unfolding capture
  capture-Holds w a d = elim (Bool-cases (str_eq a.state.phase "ready")) [
    | inl t ↦ rw t (freeze-Holds w a (checkpoint "primary" point transaction d) d refl)
    | inr t ↦ rw t tt
  ]

-- A checkpoint that `CaptureCheckpoint` reports as captured is found again, with the digest that was
-- given, whatever checkpoints there were.
pub checkpoint-capture_checkpoint :
    (w : Ends) (point transaction digest : String) (d s : Disk) (b : Authority)
    → capture_checkpoint w "primary" point transaction digest d ≡ (s, ok b)
    → Holds point transaction digest s
unfolding capture_checkpoint
checkpoint-capture_checkpoint w point transaction digest d s b h =
    elim (Bool-cases (point_id point && identifier transaction && hex64 digest)) [
      | inl v ↦
          Leaves-value Whatever (λ b t. Holds point transaction digest t) _
            (change_after w (Holds point transaction digest)
              (Holds-IsApart point transaction digest) "primary" true
              (capture w "primary" point transaction digest)
              (capture-Holds point transaction digest v w) d)
            (guarded-eq-ok (point_id point && identifier transaction && hex64 digest) _ _ d s b h)
      | inr v ↦ absurd (ground arith)
    ]

module _ (point transaction digest : String) where
  abbrev pub I : Disk → Type 0
  I = Holds point transaction digest

  -- A missing checkpoint is not the one that is there.
  decoded_missing :
      (file : Option (Option Checkpoint)) (p t : String)
      → decoded file p t ≡ err not_exist
      → file ≡ none
  decoded_missing none p t h = refl
  decoded_missing (some none) p t h = absurd (ground arith)
  decoded_missing (some (some c)) p t h = absurd (ground arith)

  pub checkpoint_missing :
      (instance p t : String) (d : Disk)
      → checkpoint instance p t d ≡ err not_exist
      → find t d.checkpoints ≡ none
  unfolding checkpoint
  checkpoint_missing instance p t d h =
      elim (Bool-cases (str_eq instance "primary" && point_id p && identifier t)) [
        | inl v ↦ decoded_missing (find t d.checkpoints) p t (rw v at h)
        | inr v ↦ absurd (ground arith)
      ]

  write_other :
      (p t g : String) (d : Disk) → find t d.checkpoints ≡ none → I d → I (write_checkpoint p t g d)
  unfolding checkpoint
  write_other p t g d missing (c, e, q) = elim (Bool-cases (str_eq t transaction)) [
    | inl v ↦
        let same : t ≡ transaction = (eq_iff t transaction).0 v in
        absurd (ground (arith, subst (λ x. find x d.checkpoints ≡ none) same missing))
    | inr v ↦ (c, rw (find-put t transaction (frozen p t g) d.checkpoints, v) e, q)
  ]

  pub freeze_keeps :
      (w : Ends) (p t g : String) (a : Authority) (r : Result Failure Checkpoint) (d : Disk)
      → (r ≡ err not_exist → find t d.checkpoints ≡ none)
      → I d
      → Leaves I Any (freeze w p t g a r d)
  unfolding freeze
  freeze_keeps w p t g a (ok previous) d m h = elim (Bool-cases (str_eq previous.admin_digest g)) [
    | inl u ↦ rw u (h, tt)
    | inr u ↦ rw u h
  ]
  freeze_keeps w p t g a (err (refused e)) d m h = h
  freeze_keeps w p t g a (err (io e)) d m h = h
  freeze_keeps w p t g a (err not_exist) d m h =
      let k = write_other p t g d (m refl) h in
      lift_rule I Any d (attempt w.checkpoint_directory) _ h
        (λ u q. atomic_rule I Any w.checkpoint_end (write_checkpoint p t g) d _ h k (k, tt))
