-- ===== src/Operation/Runners.antt =====
-- The runners of internal/operation/manager.go for a backup, a data recovery and a verification.
use geoflow_updater.Prelude.{String, Bool, true, false, none, some, Error}
use geoflow_updater.Operation.Records.{
  OperationStatus, verifies, quiesces, resumes, validates_point, quiesces_for_recovery, restores,
  Host, State,
}
use geoflow_updater.Operation.Steps.{
  with_status, call, create_point, step, guarded, resume_after_failure, require_deployment, save,
}

abbrev pub set_status : OperationStatus → State → State
set_status status (o, l) = (with_status status o, l)

abbrev pub needs_recovery : State → State
needs_recovery = set_status OperationStatus.recovery_required

abbrev pub succeeds : State → State
succeeds = set_status OperationStatus.succeeded

abbrev pub unchanged : State → State
unchanged s = s

module _ ⦃host : Host⦄ where
  -- `verifyRunner`: the function that `StartVerify` runs.
  unfoldable pub verify_runner : State → State
  verify_runner s =
      require_deployment s λ s. guarded (step "verify" (call verifies) s) unchanged succeeds

  -- The steps of a data recovery that change the host.
  abbrev pub recovery_steps : String → State → State
  recovery_steps point s =
      guarded (step "quiesce" (call (quiesces_for_recovery point)) s) needs_recovery λ s.
        guarded (step "rollback" (call (restores point s.0.id)) s) needs_recovery λ s.
          guarded (step "resume" (call resumes) s) needs_recovery
            λ s. guarded (step "verify" (call verifies) s) needs_recovery succeeds

  -- `rollbackRunner`.
  unfoldable pub rollback_runner : String → State → State
  rollback_runner point s = require_deployment s λ s.
      guarded (step "preflight" (call (validates_point point)) s) unchanged (recovery_steps point)

  -- The end of a backup: the services were resumed, after a backup that was made or not.
  abbrev pub backup_verified : Bool → State → State
  backup_verified true s = guarded (step "verify" (call verifies) s) needs_recovery succeeds
  backup_verified false s = s

  abbrev pub backup_resumed : Bool × State → State
  backup_resumed (made, s) =
      guarded (step "resume" (call resumes) s) (λ s. resume_after_failure (needs_recovery s))
        (backup_verified made)

  -- `backupRunner`. A backup starts with no recovery point, so that the assignment after its step
  -- changes nothing.
  unfoldable pub backup_runner : State → State
  backup_runner s = require_deployment s λ s.
      guarded (step "preflight" (call verifies) s) unchanged λ s.
        guarded (step "quiesce" (call quiesces) s) resume_after_failure
          λ s. backup_resumed (step "backup" (create_point "manual-backup") s)

  -- The end of the goroutine that `startAccepted` starts.
  abbrev pub settled : State → State
  settled (o, l) = elim o.status [
    | OperationStatus.running ↦ (
      record o {
        status = OperationStatus.failed;
        error = "operation ended without a terminal result";
      },
      l,
    )
    | _ ↦ (o, l)
  ]

  abbrev pub started : (State → State) → Error × State → State
  started run (some e, s) = s
  started run (none, s) = (save (settled (run s))).1

  -- The goroutine that `startAccepted` starts, without its bookkeeping.
  unfoldable pub run_operation : (State → State) → State → State
  run_operation run s = started run (save (set_status OperationStatus.running s))
