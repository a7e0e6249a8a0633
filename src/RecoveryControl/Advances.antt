-- ===== src/RecoveryControl/Advances.antt =====
-- What each operation of internal/recoverycontrol does to the authority that it is given.
use geoflow_updater.Prelude.{
  ◌≡◌, ◌≢◌, refl, sym, ◌∙◌, inl, inr, String, true, false, not, ◌&&◌, ◌||◌, Bool-cases, Option,
  none, some, str_eq, eq_iff, arith,
}
use geoflow_updater.Prelude.Result.{Result, ok, err}
use geoflow_updater.Prelude.Action.{Leaves, proceed, lift_rule}
use geoflow_updater.Coordination.Patterns.{hex64}
use geoflow_updater.Coordination.Files.{WriteEnd, clean, early, late}
use geoflow_updater.RecoveryControl.Records.{
  Failure, not_exist, refused, io, Authority, Checkpoint, is_blank,
}
use geoflow_updater.RecoveryControl.Disk.{Disk, Ends, Control, attempt, atomic}
use geoflow_updater.RecoveryControl.Store.{
  is_transaction, begin_transaction, mark_restored, mark_opened, mark_prepared, mark_quarantined,
  in_phase, rotated,
}
use geoflow_updater.RecoveryControl.Checkpoints.{checkpoint, freeze, capture, write_checkpoint}
use geoflow_updater.RecoveryControl.Machine.{rotate, finish, prepare, quarantine, expose, Moves}
use geoflow_updater.RecoveryControl.Operations.{
  restore_of, evidence_of, phase_of, IsCoherent, phase_of-lost,
}

-- The authority's file and the marker stay as they are.
abbrev pub Agrees : Disk → Disk → Type 0
Agrees d s = (s.authority ≡ d.authority) × (s.initialized ≡ d.initialized)

-- The new authority is at most one move further.
abbrev pub Next : Authority → Authority → Disk → Type 0
Next a b s = Moves (phase_of a) (phase_of b)

-- A change of an authority leaves its file and the marker alone, and makes at most one move.
abbrev pub Advances : Authority → Control Authority → Type 0
Advances a m = (d : Disk) → Leaves (Agrees d) (Next a) (m d)

-- The rule of an atomic write: what holds before and after it, on every end.
pub atomic_rule :
    {A : Type 0} (I : Disk → Type 0) (R : A → Disk → Type 0) (end : WriteEnd) (write : Disk → Disk)
    (s : Disk) (rest : Unit {0} → Control A)
    → I s
    → I (write s)
    → Leaves I R (rest tt (write s))
    → Leaves I R (proceed (atomic end write s) rest)
atomic_rule I R clean write s rest h k l = l
atomic_rule I R (early e) write s rest h k l = h
atomic_rule I R (late e) write s rest h k l = k

module _ (a : Authority) where
  unchanged : Advances a (λ d. (d, ok a))
  unchanged d = ((refl, refl), inl refl)

  other_transaction :
      (t : Option String) (transaction : String)
      → is_transaction t transaction ≡ false
      → t ≢ some transaction
  other_transaction none transaction h e = cc
  other_transaction (some t) transaction h e = ground (arith, eq_iff t transaction)

  in_phase_named :
      (transaction name : String) → in_phase transaction name a ≡ true → a.state.phase ≡ name
  in_phase_named transaction name t = ground (arith, eq_iff a.state.phase name)

  pub begin_transaction-Advances :
      (w : Ends) (point transaction digest : String)
      → IsCoherent a
      → Advances a (begin_transaction w point transaction digest a)
  unfolding begin_transaction
  begin_transaction-Advances w point transaction digest c d =
      elim (Bool-cases (is_transaction a.state.transaction_id transaction)) [
        | inl e ↦
            rw e (elim (Bool-cases (str_eq a.point_id point && str_eq a.admin_digest digest)) [
              | inl t ↦ rw t (unchanged d)
              | inr t ↦ rw t (refl, refl)
            ])
        | inr e ↦ rw e (
            lift_rule (Agrees d) (Next a) d w.next_epoch _ (refl, refl)
              (λ epoch q. (
                (refl, refl),
                inr (
                    rotate (restore_of (rotated epoch point transaction digest a)) (phase_of-lost a)
                      (λ p. other_transaction _ transaction e (sym c ∙ p)) refl),
              )))
      ]

  pub mark_restored-Advances : (transaction : String) → Advances a (mark_restored transaction a)
  unfolding mark_restored
  mark_restored-Advances transaction d = elim (Bool-cases (in_phase transaction "restoring" a)) [
    | inr t ↦ rw t (refl, refl)
    | inl t ↦
        let e = in_phase_named transaction "restoring" t in
        rw t ((refl, refl), inr (finish (restore_of a) (evidence_of a) (rw e refl) refl))
  ]

  pub mark_opened-Advances : (transaction : String) → Advances a (mark_opened transaction a)
  unfolding mark_opened
  mark_opened-Advances transaction d =
      elim (Bool-cases (
        is_transaction a.state.transaction_id transaction
        && a.data_restored
        && not (is_blank a.redis_manifest_sha256)
        && not (is_blank a.preparation_sha256)
        && (str_eq a.state.phase "validating" || str_eq a.state.phase "http_ready"))) [
          | inr t ↦ rw t (refl, refl)
          | inl t ↦ rw t (elim (Bool-cases (str_eq a.state.phase "validating")) [
            | inl v ↦
                let e : a.state.phase ≡ "validating" =
                  ground (arith, eq_iff a.state.phase "validating") in
                (
                  (refl, refl),
                  inr (
                      expose (restore_of a) (evidence_of a) (rw e refl)
                        (ground (arith, eq_iff a.redis_manifest_sha256 ""))
                        (ground (arith, eq_iff a.preparation_sha256 "")) refl),
                )
            | inr v ↦
                let e : a.state.phase ≡ "http_ready" =
                  ground (arith, eq_iff a.state.phase "http_ready") in
                ((refl, refl), inl (rw e refl))
          ])
        ]

  pub mark_prepared-Advances :
      (transaction digest : String)
      → hex64 digest ≡ true
      → Advances a (mark_prepared transaction digest a)
  unfolding mark_prepared
  mark_prepared-Advances transaction digest h d =
      elim (Bool-cases (in_phase transaction "validating" a)) [
        | inr t ↦ rw t (refl, refl)
        | inl t ↦
            let e = in_phase_named transaction "validating" t in
            elim (Bool-cases
              (is_blank a.preparation_sha256 || str_eq a.preparation_sha256 digest)) [
                | inr u ↦ rw (t, u) (refl, refl)
                | inl u ↦
                    rw (t, u)
                      (elim (Bool-cases (is_blank a.preparation_sha256)) [
                        | inl b ↦ (
                          (refl, refl),
                          inr (
                              prepare (restore_of a) (evidence_of a) digest (rw e refl)
                                ((eq_iff a.preparation_sha256 "").0 b) h (rw e refl)),
                        )
                        | inr b ↦
                            let q : a.preparation_sha256 ≡ digest =
                              ground (arith, eq_iff a.preparation_sha256 digest) in
                            ((refl, refl), inl (rw e (rw q refl)))
                      ])
              ]
      ]

  pub mark_quarantined-Advances :
      (transaction digest : String)
      → hex64 digest ≡ true
      → Advances a (mark_quarantined transaction digest a)
  unfolding mark_quarantined
  mark_quarantined-Advances transaction digest h d =
      elim (Bool-cases (in_phase transaction "validating" a)) [
        | inr t ↦ rw t (refl, refl)
        | inl t ↦
            let e = in_phase_named transaction "validating" t in
            elim (Bool-cases
              (is_blank a.redis_manifest_sha256 || str_eq a.redis_manifest_sha256 digest)) [
                | inr u ↦ rw (t, u) (refl, refl)
                | inl u ↦
                    rw (t, u)
                      (elim (Bool-cases (is_blank a.redis_manifest_sha256)) [
                        | inl b ↦ (
                          (refl, refl),
                          inr (
                              quarantine (restore_of a) (evidence_of a) digest (rw e refl)
                                ((eq_iff a.redis_manifest_sha256 "").0 b) h (rw e refl)),
                        )
                        | inr b ↦
                            let q : a.redis_manifest_sha256 ≡ digest =
                              ground (arith, eq_iff a.redis_manifest_sha256 digest) in
                            ((refl, refl), inl (rw e (rw q refl)))
                      ])
              ]
      ]

  freeze-Advances :
      (w : Ends) (point transaction digest : String) (r : Result Failure Checkpoint)
      → Advances a (freeze w point transaction digest a r)
  unfolding freeze
  freeze-Advances w point transaction digest (ok previous) d =
      elim (Bool-cases (str_eq previous.admin_digest digest)) [
        | inl t ↦ rw t (unchanged d)
        | inr t ↦ rw t (refl, refl)
      ]
  freeze-Advances w point transaction digest (err not_exist) d =
      lift_rule (Agrees d) (Next a) d (attempt w.checkpoint_directory) _ (refl, refl)
        (λ t q.
          atomic_rule (Agrees d) (Next a) w.checkpoint_end
            (write_checkpoint point transaction digest) d _ (refl, refl) (refl, refl)
            ((refl, refl), inl refl))
  freeze-Advances w point transaction digest (err (refused e)) d = (refl, refl)
  freeze-Advances w point transaction digest (err (io e)) d = (refl, refl)

  pub capture-Advances :
      (w : Ends) (instance point transaction digest : String)
      → Advances a (capture w instance point transaction digest a)
  unfolding capture
  capture-Advances w instance point transaction digest d =
      elim (Bool-cases (str_eq a.state.phase "ready")) [
        | inl t ↦
            rw t (
              freeze-Advances w point transaction digest (checkpoint instance point transaction d)
                d)
        | inr t ↦ rw t (refl, refl)
      ]
