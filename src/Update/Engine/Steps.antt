-- ===== src/Update/Engine/Steps.antt =====
-- The steps of `RunWithOptions` for a release without an upgrade plan.
use geoflow_updater.Prelude.{
  String, ◌||◌, none, some, List, [], ◌∷◌, Error, joined, concat, if◌then◌else◌, str_eq,
}
use geoflow_updater.Managed.Release.{Release}
use geoflow_updater.Update.Journal.{
  Status, Result, request, detached, Call, preflight, pull, migrate, activate, quiesce, resume,
  verify, freeze, created, not_created, Env,
}
use geoflow_updater.Update.Routine.{
  Act, Routine, lift, give_back, check, ◌>>=◌, ◌>>◌, run_body, pure,
}
use geoflow_updater.Update.Engine.Emit.{
  outcome, wrapped, emit, fail, persistence_failure, call, resume_services, resume_and_verify,
}
use geoflow_updater.Update.Engine.Recovery.{restore, resume_after_persistence_failure}

abbrev pub create_point_result : String → String → Error → Act (String × Error)
create_point_result label point none t = ((point, none), created label point ∷ t)
create_point_result label point (some e) t = ((point, some e), not_created label e ∷ t)

module _ ⦃env : Env⦄ (target : Release) where
  -- One of the steps after the recovery point. A failure at `resume` or `verify` keeps the data.
  unfoldable pub abandon : String → String → String → String → String → Act Result
  abandon point transaction name bare message =
      if str_eq name "resume" || str_eq name "verify"
      then pure (outcome Status.recovery_required target point bare)
      else restore target point transaction message

  unfoldable pub broken_step : String → String → String → String → Act Result
  broken_step point transaction name e t =
      let (observe_error, t') = emit name "failed" e t in
      let e' = joined e (wrapped ("persist " ∷ name ∷ " failure: " ∷ []) observe_error) in
      abandon point transaction name e' e' t'

  unfoldable pub protected_step : String → String → String → Call → Routine Result (Unit {0})
  protected_step point transaction name method = do
    check (emit name "running" "")
        (λ e. abandon point transaction name e (concat ("persist " ∷ name ∷ " stage: " ∷ e ∷ [])))
    check (call request method) (broken_step point transaction name)
    check (emit name "succeeded" "") (λ e.
        abandon point transaction name e (concat ("persist " ∷ name ∷ " completion: " ∷ e ∷ [])))

  unfoldable pub protected_steps :
      String → String → List (String × Call) → Routine Result (Unit {0})
  protected_steps point transaction [] = lift (pure tt)
  protected_steps point transaction ((name, method) ∷ rest) = do
    protected_step point transaction name method
    protected_steps point transaction rest

  -- The two steps before the services stop.
  unfoldable pub early_step : String → Call → Routine Result (Unit {0})
  early_step name method = do
    check (emit name "running" "") (persistence_failure name)
    check (call request method) (fail name)
    check (emit name "succeeded" "") (persistence_failure name)

  unfoldable pub quiesce_failure : String → Act Result
  quiesce_failure e = run_body do
    check (resume_and_verify detached)
        (λ r. pure (outcome Status.recovery_required target "" (joined e (some r))))
    give_back (fail "quiesce" e)

  unfoldable pub backup_failure : String → Act Result
  backup_failure e = run_body do
    check (resume_services detached)
        (λ r. pure (outcome Status.recovery_required target "" (joined e (some r))))
    give_back (fail "backup" e)

  unfoldable pub quiesce_step : Routine Result (Unit {0})
  quiesce_step = do
    check (emit "quiesce" "running" "") (persistence_failure "quiesce")
    check (call request quiesce) quiesce_failure
    check (emit "quiesce" "succeeded" "") (resume_after_persistence_failure target "quiesce")

  unfoldable pub create_point : String → Act (String × Error)
  create_point label t =
      let (point, e) = env.deployment.create_recovery_point t label in
      create_point_result label point e t

  -- The backup, whose recovery point is journaled before anything is changed.
  unfoldable pub backup_step : String → Routine Result String
  backup_step transaction = do
    check (emit "backup" "running" "") (resume_after_persistence_failure target "backup")
    made ← lift (create_point (concat ("update-to-" ∷ target.version ∷ [])))
    check (pure made.1) backup_failure
    check (emit "backup" "succeeded" made.0) (λ e.
        restore target made.0 transaction (concat ("persist backup recovery point: " ∷ e ∷ [])))
    lift (pure made.0)

  -- `FreezeRecoveryCheckpoint`, where the deployment has it.
  unfoldable pub freeze_step : String → String → Routine Result (Unit {0})
  freeze_step point transaction =
      if env.deployment.freezes_checkpoints
      then check (call request (freeze point transaction)) (λ e. pure (
          outcome Status.recovery_required target point
            (concat ("freeze recovery checkpoint: " ∷ e ∷ []))))
      else lift (pure tt)

  -- The update of a release without an upgrade plan.
  unfoldable pub maintenance_update : String → Act Result
  maintenance_update transaction = run_body do
    early_step "preflight" (preflight target)
    early_step "pull" (pull target)
    quiesce_step
    point ← backup_step transaction
    freeze_step point transaction
    protected_steps point transaction (
        ("migrate", migrate target)
        ∷ ("activate", activate target)
        ∷ ("resume", resume)
        ∷ ("verify", verify)
        ∷ [])
    check (emit "succeeded" "succeeded" "") (λ e. pure (
        outcome Status.recovery_required target point
          (concat ("persist update completion: " ∷ e ∷ []))))
    lift (pure (outcome Status.succeeded target point ""))
