-- ===== src/RecoveryControl/Apart.antt =====
-- What `change` of internal/recoverycontrol/store.go keeps of the files that it does not write itself.
use geoflow_updater.Prelude.{String, Bool, true, false, not}
use geoflow_updater.Prelude.Result.{Result, ok, err, require}
use geoflow_updater.Prelude.Action.{
  Leaves, lift_rule, Leaves-proceed, Leaves-trivial, lift, ◌>>=◌, ◌>>◌,
}
use geoflow_updater.RecoveryControl.Records.{
  Failure, not_exist, refused, io, Authority, minimum_protocol, validate,
}
use geoflow_updater.RecoveryControl.Disk.{
  Disk, Ends, Control, attempt, check_protocol, location, read,
}
use geoflow_updater.RecoveryControl.Store.{
  write_floor, write_marker, write_authority, write_public, initialized_authority, current, publish,
  change,
}
use geoflow_updater.RecoveryControl.Advances.{atomic_rule}
use geoflow_updater.RecoveryControl.Commits.{Whatever}

-- What the writes of the authority do not touch.
pub record IsApart (I : Disk → Type 0) : Type 0 where
  pub floor : (s : Disk) → I s → I (write_floor s)
  pub marker : (s : Disk) → I s → I (write_marker s)
  pub authority : (a : Authority) (s : Disk) → I s → I (write_authority a s)
  pub public : (a : Authority) (s : Disk) → I s → I (write_public a s)

abbrev pub Any : Authority → Disk → Type 0
Any a s = Unit {0}

-- A property apart from the authority is kept by a change whose own part keeps it.
module _ (w : Ends) (I : Disk → Type 0) (apart : IsApart I) where
  publish_keeps : (b : Authority) (s : Disk) → I s → Leaves I Any (publish w b s)
  unfolding publish
  publish_keeps b s h =
      let k = apart.floor s h in
      let l = apart.authority b (write_floor s) k in
      let m = apart.public b (write_authority b (write_floor s)) l in
      lift_rule I Any s (attempt w.public_directory) _ h (λ u e.
        atomic_rule I Any w.floor_end write_floor s _ h k (
          atomic_rule I Any w.authority_end (write_authority b) (write_floor s) _ k l (
            atomic_rule I Any w.public_end (write_public b) (write_authority b (write_floor s)) _ l
              m (m, tt))))

  initialized_keeps :
      (instance : String) (d : Disk) → I d → Leaves I Any (initialized_authority w instance d)
  unfolding initialized_authority
  initialized_keeps instance d h =
      let k = apart.floor d h in
      let l = apart.marker (write_floor d) k in
      lift_rule I Any d
        (require (not d.initialized) (refused "recovery authority is missing after initialization"))
        _ h
        (λ u e. lift_rule I Any d w.host_id _ h (λ host p.
          lift_rule I Any d w.first_epoch _ h (λ epoch q.
            atomic_rule I Any w.first_floor_end write_floor d _ h k
              (atomic_rule I Any w.marker_end write_marker (write_floor d) _ k l (l, tt)))))

  current_keeps :
      (instance : String) (init : Bool) (r : Result Failure Authority) (d : Disk)
      → I d
      → Leaves I Any (current w instance init r d)
  unfolding current
  current_keeps instance true (ok a) d h = (h, tt)
  current_keeps instance false (ok a) d h = (h, tt)
  current_keeps instance true (err not_exist) d h = initialized_keeps instance d h
  current_keeps instance false (err not_exist) d h = h
  current_keeps instance true (err (refused e)) d h = h
  current_keeps instance false (err (refused e)) d h = h
  current_keeps instance true (err (io e)) d h = h
  current_keeps instance false (err (io e)) d h = h

  kept_then :
      (o : Disk × Result Failure Authority) → Leaves I Any o → Leaves Whatever (λ b t. I t) o
  kept_then (s, err e) h = tt
  kept_then (s, ok b) h = (tt, h.0)

  module _ (instance : String) (init : Bool) (mutate : Authority → Control Authority) where
    finished : Authority → Control Authority
    finished b = do lift (validate b instance); publish w b

    pub change_keeps :
        ((a : Authority) (s : Disk) → I s → Leaves I Any (mutate a s))
        → (d : Disk) → I d
        → Leaves I Any (change w instance init mutate d)
    unfolding change finished
    change_keeps own d h = lift_rule I Any d (location w instance) _ h (λ u p.
        lift_rule I Any d (check_protocol d.floor minimum_protocol) _ h (λ u q.
          lift_rule I Any d (attempt w.directories) _ h (λ u r.
            lift_rule I Any d (attempt w.locked) _ h (λ u s.
              Leaves-proceed I Any Any (current w instance init (read w instance d) d)
                (λ a. mutate a >>= finished) (current_keeps instance init (read w instance d) d h)
                (λ a t k. Leaves-proceed I Any Any (mutate a t) finished (own a t k.0) (λ b s l.
                  lift_rule I Any s (validate b instance) _ l.0 (λ u v. publish_keeps b s l.0)))))))

    -- And what its own part brings about is still there at the end.
    pub change_after :
        ((a : Authority) (s : Disk) → Leaves Whatever (λ b t. I t) (mutate a s))
        → (d : Disk) → Leaves Whatever (λ b t. I t) (change w instance init mutate d)
    unfolding change finished
    change_after own d =
        let R : Authority → Disk → Type 0 = λ b t. I t in
        lift_rule Whatever R d (location w instance) _ tt (λ u p.
          lift_rule Whatever R d (check_protocol d.floor minimum_protocol) _ tt (λ u q.
            lift_rule Whatever R d (attempt w.directories) _ tt (λ u r.
              lift_rule Whatever R d (attempt w.locked) _ tt (λ u s.
                Leaves-proceed Whatever Any R (current w instance init (read w instance d) d)
                  (λ a. mutate a >>= finished)
                  (Leaves-trivial (current w instance init (read w instance d) d))
                  (λ a t k. Leaves-proceed Whatever R R (mutate a t) finished (own a t) (λ b s l.
                    lift_rule Whatever R s (validate b instance) _ tt
                      (λ u v. kept_then (publish w b s) (publish_keeps b s l.1))))))))
