-- ===== src/Update/Engine/Recovery.antt =====
-- `rollback` and `resumeAfterPersistenceFailure` of internal/update/engine.go.
use geoflow_updater.Prelude.{String, some, [], ◌∷◌, join, joined, concat, if◌then◌else◌}
use geoflow_updater.Managed.Release.{Release}
use geoflow_updater.Update.Journal.{
  Status, Result, detached, quiesce, quiesce_for_recovery, rollback, Env,
}
use geoflow_updater.Update.Routine.{Act, lift, check, ◌>>=◌, ◌>>◌, run_body, pure}
use geoflow_updater.Update.Engine.Emit.{outcome, wrapped, emit, call, resume_and_verify}

module _ ⦃env : Env⦄ (target : Release) where
  -- The restore cannot be made: the deployment stays as it is, and the journal says so.
  unfoldable pub give_up : String → String → String → String → Act Result
  give_up point cause prefix e t =
      let combined = joined cause (some (concat (prefix ∷ e ∷ []))) in
      let (_, t') = emit "rollback" "failed" combined t in
      (outcome Status.failed target point combined, t')

  -- `rollback`: the automatic restore of the recovery point, then the restart of the services.
  unfoldable pub restore : String → String → String → Act Result
  restore point transaction cause = run_body do
    observe_error ← lift (emit "rollback" "running" "")
    check
        (call detached
          (if env.deployment.quiesces_for_recovery then quiesce_for_recovery point else quiesce))
        (give_up point (joined cause observe_error) "quiesce before automatic rollback: ")
    check (call detached (rollback point transaction))
        (give_up point (joined cause observe_error) "automatic rollback: ")
    check (emit "rollback" "succeeded" "") (λ e. pure (
        outcome Status.recovery_required target point (
          joined (joined cause observe_error)
            (some (concat ("persist completed data recovery: " ∷ e ∷ []))))))
    check (resume_and_verify detached) (λ e. pure (
        outcome Status.recovery_required target point
          (joined (joined cause observe_error) (some e))))
    last_error ← lift (emit "rolled_back" "succeeded" cause)
    lift (
        pure (
          outcome Status.rolled_back target point (
            joined cause
              (wrapped ("persist rollback state: " ∷ []) (join observe_error last_error)))))

  unfoldable pub resume_after_persistence_failure : String → String → Act Result
  resume_after_persistence_failure stage persist_error =
      let cause = concat ("persist " ∷ stage ∷ " stage: " ∷ persist_error ∷ []) in
      run_body do
        check (resume_and_verify detached)
            (λ e. pure (outcome Status.recovery_required target "" (joined cause (some e))))
        _ ← lift (emit stage "failed" cause)
        lift (pure (outcome Status.failed target "" cause))
