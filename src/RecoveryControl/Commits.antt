-- ===== src/RecoveryControl/Commits.antt =====
-- What `change` of internal/recoverycontrol/store.go leaves on the disk where it succeeds.
use geoflow_updater.Prelude.{◌≡◌, refl, String, Bool, some, eq_iff, arith}
use geoflow_updater.Prelude.Result.{ok}
use geoflow_updater.Prelude.Action.{
  Leaves, proceed, lift_rule, Leaves-proceed, Leaves-trivial, Leaves-value, lift, ◌>>=◌, ◌>>◌,
}
use geoflow_updater.Coordination.Files.{WriteEnd, clean, early, late}
use geoflow_updater.RecoveryControl.Records.{Authority, minimum_protocol, validate}
use geoflow_updater.RecoveryControl.Disk.{
  Disk, Ends, Control, attempt, atomic, check_protocol, location, read,
}
use geoflow_updater.RecoveryControl.Store.{
  floor_text, write_floor, write_authority, write_public, current, publish, change,
}

-- The authority and the public state are those of the result, which is valid, behind the floor.
pub record IsCommitted (instance : String) (b : Authority) (s : Disk) : Type 0 where
  pub stored : s.authority ≡ some (some b)
  pub shown : s.public ≡ some b.state
  pub guarded : s.floor ≡ some (some floor_text)
  pub valid : validate b instance ≡ ok tt
  pub place : instance ≡ "primary"

abbrev pub Whatever : Disk → Type 0
Whatever s = Unit {0}

-- The rule of a write whose error ends the function.
pub write_rule :
    {A : Type 0} (R : A → Disk → Type 0) (end : WriteEnd) (write : Disk → Disk) (s : Disk)
    (rest : Unit {0} → Control A)
    → Leaves Whatever R (rest tt (write s))
    → Leaves Whatever R (proceed (atomic end write s) rest)
write_rule R clean write s rest h = h
write_rule R (early e) write s rest h = tt
write_rule R (late e) write s rest h = tt

module _ (w : Ends) where
  publish_commits :
      (Q : Authority → Type 0) (instance : String) (b : Authority) (s : Disk)
      → Q b
      → validate b instance ≡ ok tt
      → instance ≡ "primary"
      → Leaves Whatever (λ c t. Q c × IsCommitted instance c t) (publish w b s)
  unfolding publish
  publish_commits Q instance b s q v p =
      let R = λ (c : Authority) (t : Disk). Q c × IsCommitted instance c t in
      let t = write_floor s in
      lift_rule Whatever R s (attempt w.public_directory) _ tt (λ u e.
        write_rule R w.floor_end write_floor s _ (
          write_rule R w.authority_end (write_authority b) t _ (
            write_rule R w.public_end (write_public b) (write_authority b t) _ (
              tt,
              (q, record { stored = refl; shown = refl; guarded = refl; valid = v; place = p }),
            ))))

  primary_location :
      (instance : String) (u : Unit {0}) → location w instance ≡ ok u → instance ≡ "primary"
  unfolding location
  primary_location instance u e = ground (arith, eq_iff instance "primary")

  -- Whatever holds of each result of `mutate` holds of what is committed.
  pub change_commits :
      (Q : Authority → Type 0) (instance : String) (init : Bool)
      (mutate : Authority → Control Authority) (d : Disk)
      → ((a : Authority) (t : Disk) → Leaves Whatever (λ b s. Q b) (mutate a t))
      → Leaves Whatever (λ b s. Q b × IsCommitted instance b s) (change w instance init mutate d)
  unfolding change
  change_commits Q instance init mutate d h =
      let R = λ (c : Authority) (t : Disk). Q c × IsCommitted instance c t in
      lift_rule Whatever R d (location w instance) _ tt (λ u p.
        lift_rule Whatever R d (check_protocol d.floor minimum_protocol) _ tt (λ u q.
          lift_rule Whatever R d (attempt w.directories) _ tt (λ u r.
            lift_rule Whatever R d (attempt w.locked) _ tt (λ u s.
              Leaves-proceed Whatever (λ a t. Unit {0}) R
                (current w instance init (read w instance d) d) (after instance)
                (Leaves-trivial (current w instance init (read w instance d) d))
                (λ a t k.
                  Leaves-proceed Whatever (λ b t. Q b) R (mutate a t) (finished instance) (h a t)
                    (λ b s k. lift_rule Whatever R s (validate b instance) _ tt (λ u v.
                      publish_commits Q instance b s k.1 v (primary_location instance tt p))))))))
    where
      finished : String → Authority → Control Authority
      finished instance b = do lift (validate b instance); publish w b

      after : String → Authority → Control Authority
      after instance a = mutate a >>= finished instance

  -- A change that reports success has committed its result: the authority's file and the public
  -- state hold it, and it is valid.
  pub change-IsCommitted :
      (instance : String) (init : Bool) (mutate : Authority → Control Authority) (d s : Disk)
      (b : Authority)
      → change w instance init mutate d ≡ (s, ok b)
      → IsCommitted instance b s
  change-IsCommitted instance init mutate d s b e =
      (Leaves-value Whatever (λ c t. Unit {0} × IsCommitted instance c t) _
        (change_commits (λ c. Unit) instance init mutate d (λ a t. Leaves-trivial (mutate a t)))
        e).1
