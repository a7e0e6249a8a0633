-- ===== src/Deployment/Execute.antt =====
-- The steps of `ExecuteRelease` of internal/deployment/bluegreen.go, and what comes after them.
use geoflow_updater.Prelude.{String, Bool, true, not, ◌||◌, [], ◌∷◌, str_eq, if◌then◌else◌}
use geoflow_updater.Prelude.Result.{Result, ok, err}
use geoflow_updater.Update.Journal.{succeeded}
use geoflow_updater.Deployment.Journal.{
  Config, ended, Transaction, source, candidate, prepare_release, copy_assets, quiesce,
  create_point, freeze_point, start_redis, wait_redis, online_backup, apply, verify,
  install_infrastructure, prepare_views, artisan_up, start, drain, start_background,
  drain_background, wait_http, switch_ingress, activate_slot, wait_workers, observe_release, Env,
}
use geoflow_updater.Deployment.Task.{
  Task, ◌>>=◌, ◌>>◌, done, get, modify, look, call, save_transaction, report, try, wrap,
}
use geoflow_updater.Deployment.Recover.{
  Outcome, blue_green, is_maintenance, outcome_of, fail_release,
}

-- `otherSlot`.
abbrev pub other_slot : String → String
other_slot slot = if str_eq slot "blue" then "green" else "blue"

abbrev pub is_blue_green : Config → Bool
is_blue_green config = str_eq config.layout blue_green

-- The slot of the candidate.
abbrev pub target_slot : Config → String
target_slot config = if is_blue_green config then other_slot config.active_slot else "blue"

module _ ⦃env : Env⦄ where
  -- A step of the release, written to the journal and reported before and after.
  unfoldable pub step : String → Task (Unit {0}) → Task (Unit {0})
  step name body = do
    modify (λ tx. record tx { stage = name })
    save_transaction
    report name "running"
    wrap name body
    save_transaction
    report name "succeeded"

  -- Where the candidate is prepared from now on.
  unfoldable pub prepare_candidate : (Config → Config) → Task (Unit {0})
  prepare_candidate change = do
    tx ← get
    call (prepare_release "slot")
    config ← look (λ log. env.prepared log tx.source tx.target (target_slot tx.source))
    modify (λ t. record t { candidate = change config })

  unfoldable pub pull_step : Task (Unit {0})
  unfolding prepare_candidate
  pull_step = prepare_candidate (λ config. config) >> save_transaction

  unfoldable pub backup_step : Task (Unit {0})
  backup_step = do
    call create_point
    point ← look env.point
    modify (λ tx. record tx { recovery_point_id = point })
    call freeze_point

  unfoldable pub layout_step : (Config → Config) → Task (Unit {0})
  unfolding prepare_candidate
  layout_step infrastructure = do
    prepare_candidate infrastructure
    modify (λ tx. record tx { layout_started = true })
    save_transaction
    call install_infrastructure

  unfoldable pub candidate_step : Transaction → Task (Unit {0})
  candidate_step tx = do
    call prepare_views
    call (start candidate ("app" ∷ "reverb" ∷ "web" ∷ []))
    (if is_maintenance tx then call artisan_up else done tt)
    call (verify (is_maintenance tx))
    call (wait_http candidate)
    call (copy_assets candidate)

  unfoldable pub switch_step : Transaction → Task (Unit {0})
  switch_step tx = do
    modify (λ t. record t { traffic_opened = true })
    save_transaction
    switched ← try (call (switch_ingress candidate (is_blue_green tx.source)))
    workers ← look env.workers
    modify (λ t. record t { old_ingress_workers = workers })
    (λ s. (s, switched))
    call (activate_slot candidate)

  unfoldable pub workers_step : Transaction → Task (Unit {0})
  workers_step tx = do
    (if is_blue_green tx.source then call (drain_background source) else done tt)
    call (start_background candidate)
    modify (λ t. record t { workers_handed_over = true })

  unfoldable pub drain_step : Task (Unit {0})
  drain_step = do
    tx ← get
    call (drain source ("reverb" ∷ []))
    call (wait_workers candidate tx.old_ingress_workers)
    call (drain source ("web" ∷ "reverb" ∷ "app" ∷ []))

  -- The preparation of the retained data, by the strategy.
  unfoldable pub secure : Transaction → Task (Unit {0})
  unfolding step backup_step
  secure tx =
      if is_maintenance tx
      then (do
        step "quiesce" (call quiesce)
        step "backup" backup_step
        call start_redis
        call wait_redis)
      else step "online-backup" (call online_backup)

  -- The configuration of the shared infrastructure, for an instance directory.
  unfoldable pub with_infrastructure : (Config → Config) → Transaction → Task (Unit {0})
  unfolding step layout_step
  with_infrastructure infrastructure tx = do
    pins ← look env.pins_match
    (if not (is_blue_green tx.source) || not pins
        then step "layout" (layout_step infrastructure)
        else done tt)

  -- The steps of a release, after the transaction was first written.
  unfoldable pub run_release : (Config → Config) → Transaction → Task (Unit {0})
  unfolding step pull_step secure with_infrastructure candidate_step switch_step workers_step
      drain_step
  run_release infrastructure tx = do
    (if is_blue_green tx.source
        then step "pull" pull_step
        else step "retain-assets" (call (copy_assets source)))
    secure tx
    step "upgrade" (call (apply (is_maintenance tx)))
    with_infrastructure infrastructure tx
    step "candidate" (candidate_step tx)
    step "switch" (switch_step tx)
    step "workers" (workers_step tx)
    step "observe" (call observe_release)
    (if is_blue_green tx.source then step "drain" drain_step else done tt)

  unfoldable pub finish_release : Task (Unit {0})
  finish_release = do
    modify (λ tx. record tx { status = ended succeeded; stage = "succeeded" })
    save_transaction
    report "succeeded" "succeeded"

  abbrev pub released : Result String (Unit {0}) → Task Outcome
  released (err e) = fail_release e true
  released (ok nothing) = do tx ← get; done (record (outcome_of tx) { error = "" })

  -- Everything after the transaction was first written.
  unfoldable pub execute_started : (Config → Config) → Task Outcome
  unfolding run_release finish_release fail_release
  execute_started infrastructure = do
    tx ← get
    ended_well ← try (run_release infrastructure tx >> finish_release)
    released ended_well
