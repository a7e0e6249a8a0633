-- ===== src/RecoveryControl/Kept.antt =====
-- What no operation of internal/recoverycontrol undoes: the checkpoints that were frozen.
use geoflow_updater.Prelude.{
  ◌≡◌, sym, subst, inl, inr, String, Bool, true, false, ◌&&◌, Bool-cases, List, [], ◌∷◌, str_eq,
  arith,
}
use geoflow_updater.Prelude.Result.{Result, ok, err, require}
use geoflow_updater.Prelude.Action.{Leaves, proceed, Leaves-state, done}
use geoflow_updater.Coordination.Patterns.{identifier, hex64, point_id}
use geoflow_updater.RecoveryControl.Records.{Failure, Authority}
use geoflow_updater.RecoveryControl.Disk.{Disk, Ends, Control}
use geoflow_updater.RecoveryControl.Store.{
  begin, begin_transaction, initialize, restored, mark_restored, open_http, mark_opened,
  record_preparation, mark_prepared, record_redis_manifest, mark_quarantined, change,
}
use geoflow_updater.RecoveryControl.Checkpoints.{checkpoint, capture, capture_checkpoint}
use geoflow_updater.RecoveryControl.Apart.{Any, change_keeps}
use geoflow_updater.RecoveryControl.Commands.{
  Command, initialize_host, begin_restore, mark_complete, expose_http, prepared, quarantined,
  freeze_checkpoint, run,
}
use geoflow_updater.RecoveryControl.Frozen.{Holds, Holds-IsApart, checkpoint_missing, freeze_keeps}
use geoflow_updater.RecoveryControl.Histories.{history}

-- A mutation that only computes leaves the disk alone.
begin_transaction-disk :
    (w : Ends) (point transaction digest : String) (a : Authority) (d : Disk)
    → (begin_transaction w point transaction digest a d).0 ≡ d
unfolding begin_transaction
begin_transaction-disk w point transaction digest a d = ground arith

mark_restored-disk :
    (transaction : String) (a : Authority) (d : Disk) → (mark_restored transaction a d).0 ≡ d
unfolding mark_restored
mark_restored-disk transaction a d = ground arith

mark_opened-disk :
    (transaction : String) (a : Authority) (d : Disk) → (mark_opened transaction a d).0 ≡ d
unfolding mark_opened
mark_opened-disk transaction a d = ground arith

mark_prepared-disk :
    (transaction digest : String) (a : Authority) (d : Disk)
    → (mark_prepared transaction digest a d).0 ≡ d
unfolding mark_prepared
mark_prepared-disk transaction digest a d = ground arith

mark_quarantined-disk :
    (transaction digest : String) (a : Authority) (d : Disk)
    → (mark_quarantined transaction digest a d).0 ≡ d
unfolding mark_quarantined
mark_quarantined-disk transaction digest a d = ground arith

module _ (point transaction digest : String) where
  abbrev I : Disk → Type 0
  I = Holds point transaction digest

  pure_keeps : (o : Disk × Result Failure Authority) (d : Disk) → o.0 ≡ d → I d → Leaves I Any o
  pure_keeps (s, err e) d p h = subst I (sym p) h
  pure_keeps (s, ok b) d p h = (subst I (sym p) h, tt)

  capture_keeps :
      (w : Ends) (instance p t g : String) (a : Authority) (d : Disk)
      → I d
      → Leaves I Any (capture w instance p t g a d)
  unfolding capture
  capture_keeps w instance p t g a d h = elim (Bool-cases (str_eq a.state.phase "ready")) [
    | inl u ↦ rw u (
        freeze_keeps point transaction digest w p t g a (checkpoint instance p t d) d
          (checkpoint_missing point transaction digest instance p t d) h)
    | inr u ↦ rw u h
  ]

  guarded_keeps :
      (d : Disk) (test : Bool) (failure : Failure) (call : Control Authority)
      → I d
      → I (call d).0
      → I (proceed (d, require test failure) (λ u. call)).0
  guarded_keeps d false failure call h k = h
  guarded_keeps d true failure call h k = k

  changed :
      (w : Ends) (instance : String) (init : Bool) (mutate : Authority → Control Authority)
      → ((a : Authority) (s : Disk) → I s → Leaves I Any (mutate a s))
      → (d : Disk) → I d
      → I (change w instance init mutate d).0
  changed w instance init mutate own d h =
      Leaves-state I Any _
        (change_keeps w I (Holds-IsApart point transaction digest) instance init mutate own d h)

  run_holds :
      (w : Ends) (instance : String) (command : Command) (d : Disk)
      → I d
      → I (run w instance command d).0
  unfolding run begin initialize restored open_http record_preparation record_redis_manifest
      capture_checkpoint
  run_holds w instance initialize_host d h = changed w instance true done (λ a s k. (k, tt)) d h
  run_holds w instance (begin_restore p t g) d h =
      guarded_keeps d (point_id p && identifier t && hex64 g) _ _ h (
        changed w instance true (begin_transaction w p t g)
          (λ a s k.
            pure_keeps (begin_transaction w p t g a s) s (begin_transaction-disk w p t g a s) k)
          d h)
  run_holds w instance (mark_complete t) d h =
      changed w instance false (mark_restored t)
        (λ a s k. pure_keeps (mark_restored t a s) s (mark_restored-disk t a s) k) d h
  run_holds w instance (expose_http t) d h =
      changed w instance false (mark_opened t)
        (λ a s k. pure_keeps (mark_opened t a s) s (mark_opened-disk t a s) k) d h
  run_holds w instance (prepared t g) d h = guarded_keeps d (hex64 g) _ _ h (
      changed w instance false (mark_prepared t g)
        (λ a s k. pure_keeps (mark_prepared t g a s) s (mark_prepared-disk t g a s) k) d h)
  run_holds w instance (quarantined t g) d h = guarded_keeps d (hex64 g) _ _ h (
      changed w instance false (mark_quarantined t g)
        (λ a s k. pure_keeps (mark_quarantined t g a s) s (mark_quarantined-disk t g a s) k) d h)
  run_holds w instance (freeze_checkpoint p t g) d h =
      guarded_keeps d (point_id p && identifier t && hex64 g) _ _ h (
        changed w instance true (capture w instance p t g)
          (λ a s k. capture_keeps w instance p t g a s k) d h)

  -- A checkpoint that is there keeps its digest through any history of operations, whatever they
  -- are asked and their writes come to.
  pub history-Holds : (events : List (Ends × Command)) (d : Disk) → I d → I (history events d)
  unfolding history
  history-Holds [] d h = h
  history-Holds ((w, command) ∷ rest) d h =
      history-Holds rest (run w "primary" command d).0 (run_holds w "primary" command d h)
