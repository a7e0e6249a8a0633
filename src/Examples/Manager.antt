-- ===== src/Examples/Manager.antt =====
-- Operations that run, and operations that were interrupted, on a host that answers every call.
use geoflow_updater.Prelude.{◌≡◌, refl, inr, true, Option, none, some, [], ◌∷◌}
use geoflow_updater.Prelude.Result.{err}
use geoflow_updater.Coordination.Files.{not_exist}
use geoflow_updater.Update.Journal.{Result as ReleaseResult}
use geoflow_updater.Update.Engine.Emit.{stage_of}
use geoflow_updater.Operation.Stages.{has_durable_resume_boundary, is_durable_resume_boundary}
use geoflow_updater.Operation.Records.{
  Kind, update, rollback, backup, OperationStatus, Operation, Host,
}
use geoflow_updater.Operation.Runners.{rollback_runner}
use geoflow_updater.Operation.Smooth.{rollback_runner-succeeded}
use geoflow_updater.Operation.Outcomes.{Recovers, rollback_runner-Recovers}
use geoflow_updater.Operation.Reconcile.{reconcile_operation}
use geoflow_updater.Operation.Held.{IsHeld, reconcile_operation-IsHeld}
use geoflow_updater.Operation.Verified.{IsVerified, reconcile_operation-IsVerified}

instance abbrev willing : Host
willing = record {
  available = true;
  answer = λ l m. none;
  point = λ l. "20240101T000000Z-01234567";
  save = λ l o. none;
}

abbrev sample : Kind → Operation
sample kind = record {
  id = "20240101T000000.000000000Z-0123456789abcdef";
  instance_id = "primary";
  kind = kind;
  status = OperationStatus.running;
  current_stage = "resume";
  stages = stage_of "preflight" "running" "" ∷ [];
  target_version = "";
  recovery_point_id = "20240101T000000Z-01234567";
  error = "";
  reconcile_attempts = 0;
  next_reconcile_at = none;
}

rollback_runner-Recovers_example :
    Recovers "20240101T000000Z-01234567"
      (rollback_runner "20240101T000000Z-01234567" (sample rollback, []))
rollback_runner-Recovers_example =
    rollback_runner-Recovers "20240101T000000Z-01234567" (sample rollback, []) tt

-- `ReconcileRelease` of a deployment that keeps no journal of the operation.
abbrev no_journal : Option (Operation → Option ReleaseResult)
no_journal = some λ o. none

reconcile_operation-IsHeld_example :
    IsHeld
      (sample update, [])
      (reconcile_operation (λ e. "unreadable") (err not_exist) no_journal (sample update, []))
unfolding has_durable_resume_boundary is_durable_resume_boundary
reconcile_operation-IsHeld_example =
    reconcile_operation-IsHeld (λ e. "unreadable") (err not_exist) no_journal (sample update, [])
      (inr (refl, refl, refl))

reconcile_operation-IsVerified_example :
    IsVerified backup
      (reconcile_operation (λ e. "unreadable") (err not_exist) no_journal (sample backup, []))
reconcile_operation-IsVerified_example =
    reconcile_operation-IsVerified no_journal (sample backup, []) refl (λ e. "unreadable")
      (err not_exist)

-- A host on which the journal cannot be written.
abbrev full : Host
full = record willing { save = λ l o. some "no space left on device" }

rollback_runner-succeeded_example :
    (rollback_runner ⦃host = willing⦄ "20240101T000000Z-01234567" (sample rollback, [])).0.status
    ≡ OperationStatus.succeeded
rollback_runner-succeeded_example =
    rollback_runner-succeeded willing "20240101T000000Z-01234567" (sample rollback, []) refl
      (λ l m. refl) (λ l o. refl)
