-- ===== src/RecoveryControl/Commands.antt =====
-- Every operation of internal/recoverycontrol makes at most one move of the machine, whatever its
-- writes come to.
use geoflow_updater.Prelude.{◌≡◌, refl, inl, String, Bool, true, false, ◌&&◌, arith}
use geoflow_updater.Prelude.Result.{ok, require}
use geoflow_updater.Prelude.Action.{proceed, done}
use geoflow_updater.Coordination.Patterns.{identifier, hex64, point_id}
use geoflow_updater.RecoveryControl.Records.{Failure, Authority}
use geoflow_updater.RecoveryControl.Disk.{Disk, Ends, Control}
use geoflow_updater.RecoveryControl.Store.{
  initialize, begin, begin_transaction, restored, mark_restored, open_http, mark_opened,
  record_preparation, mark_prepared, record_redis_manifest, mark_quarantined,
}
use geoflow_updater.RecoveryControl.Checkpoints.{capture, capture_checkpoint}
use geoflow_updater.RecoveryControl.Machine.{Moves}
use geoflow_updater.RecoveryControl.Operations.{phase}
use geoflow_updater.RecoveryControl.Advances.{
  begin_transaction-Advances, mark_restored-Advances, mark_opened-Advances, mark_prepared-Advances,
  mark_quarantined-Advances, capture-Advances,
}
use geoflow_updater.RecoveryControl.Change.{change-Moves}
use geoflow_updater.RecoveryControl.Commits.{IsCommitted, change-IsCommitted}

-- The operations, each with the arguments that it takes beside the instance.
pub data Command : Type 0 where
  initialize_host : Command
  begin_restore : String → String → String → Command
  mark_complete expose_http : String → Command
  prepared quarantined : String → String → Command
  freeze_checkpoint : String → String → String → Command

unfoldable pub run : Ends → String → Command → Control Authority
unfolding initialize begin restored open_http record_preparation record_redis_manifest
    capture_checkpoint
run w instance initialize_host = initialize w instance
run w instance (begin_restore point transaction digest) = begin w instance point transaction digest
run w instance (mark_complete transaction) = restored w instance transaction
run w instance (expose_http transaction) = open_http w instance transaction
run w instance (prepared transaction digest) = record_preparation w instance transaction digest
run w instance (quarantined transaction digest) =
    record_redis_manifest w instance transaction digest
run w instance (freeze_checkpoint point transaction digest) =
    capture_checkpoint w instance point transaction digest

-- An operation that is guarded by a test of its arguments.
guarded :
    (d : Disk) (test : Bool) (failure : Failure) (call : Control Authority)
    → (test ≡ true → Moves (phase d) (phase (call d).0))
    → Moves (phase d) (phase (proceed (d, require test failure) (λ u. call)).0)
guarded d false failure call h = inl refl
guarded d true failure call h = h refl

initialize-Moves :
    (w : Ends) (instance : String) (d : Disk) → Moves (phase d) (phase (initialize w instance d).0)
unfolding initialize
initialize-Moves w instance d =
    change-Moves w done (λ a c s. ((refl, refl), inl refl)) instance true d

-- An operation leaves the host in the same phase or takes it one move further, whatever its
-- arguments are and its writes come to.
pub run-Moves :
    (w : Ends) (instance : String) (command : Command) (d : Disk)
    → Moves (phase d) (phase (run w instance command d).0)
unfolding run begin restored open_http record_preparation record_redis_manifest capture_checkpoint
run-Moves w instance initialize_host d = initialize-Moves w instance d
run-Moves w instance (begin_restore point transaction digest) d =
    guarded d (point_id point && identifier transaction && hex64 digest) _ _ (λ t.
      change-Moves w (begin_transaction w point transaction digest)
        (λ a c. begin_transaction-Advances a w point transaction digest c) instance true d)
run-Moves w instance (mark_complete transaction) d =
    change-Moves w (mark_restored transaction) (λ a c. mark_restored-Advances a transaction)
      instance false d
run-Moves w instance (expose_http transaction) d =
    change-Moves w (mark_opened transaction) (λ a c. mark_opened-Advances a transaction) instance
      false d
run-Moves w instance (prepared transaction digest) d = guarded d (hex64 digest) _ _ (λ t.
    change-Moves w (mark_prepared transaction digest)
      (λ a c. mark_prepared-Advances a transaction digest t) instance false d)
run-Moves w instance (quarantined transaction digest) d = guarded d (hex64 digest) _ _ (λ t.
    change-Moves w (mark_quarantined transaction digest)
      (λ a c. mark_quarantined-Advances a transaction digest t) instance false d)
run-Moves w instance (freeze_checkpoint point transaction digest) d =
    guarded d (point_id point && identifier transaction && hex64 digest) _ _ (λ t.
      change-Moves w (capture w instance point transaction digest)
        (λ a c. capture-Advances a w instance point transaction digest) instance true d)

pub guarded-eq-ok :
    (test : Bool) (failure : Failure) (call : Control Authority) (d s : Disk) (b : Authority)
    → proceed (d, require test failure) (λ u. call) ≡ (s, ok b)
    → call d ≡ (s, ok b)
guarded-eq-ok false failure call d s b h = absurd (ground arith)
guarded-eq-ok true failure call d s b h = h

-- An operation that reports success has committed the authority that it returns: the authority's
-- file and the public state hold it, the floor is in place, and it is valid.
pub run-IsCommitted :
    (w : Ends) (instance : String) (command : Command) (d s : Disk) (b : Authority)
    → run w instance command d ≡ (s, ok b)
    → IsCommitted instance b s
unfolding run begin initialize restored open_http record_preparation record_redis_manifest
    capture_checkpoint
run-IsCommitted w instance initialize_host d s b h = change-IsCommitted w instance true done d s b h
run-IsCommitted w instance (begin_restore point transaction digest) d s b h =
    change-IsCommitted w instance true (begin_transaction w point transaction digest) d s b
      (guarded-eq-ok (point_id point && identifier transaction && hex64 digest) _ _ d s b h)
run-IsCommitted w instance (mark_complete transaction) d s b h =
    change-IsCommitted w instance false (mark_restored transaction) d s b h
run-IsCommitted w instance (expose_http transaction) d s b h =
    change-IsCommitted w instance false (mark_opened transaction) d s b h
run-IsCommitted w instance (prepared transaction digest) d s b h =
    change-IsCommitted w instance false (mark_prepared transaction digest) d s b
      (guarded-eq-ok (hex64 digest) _ _ d s b h)
run-IsCommitted w instance (quarantined transaction digest) d s b h =
    change-IsCommitted w instance false (mark_quarantined transaction digest) d s b
      (guarded-eq-ok (hex64 digest) _ _ d s b h)
run-IsCommitted w instance (freeze_checkpoint point transaction digest) d s b h =
    change-IsCommitted w instance true (capture w instance point transaction digest) d s b
      (guarded-eq-ok (point_id point && identifier transaction && hex64 digest) _ _ d s b h)
