-- ===== src/Deployment/Admit.antt =====
-- `ExecuteRelease` of internal/deployment/bluegreen.go from its start, and the choice of the strategy
-- in `summarize`.
use geoflow_updater.Prelude.{
  String, Bool, true, false, not, ◌&&◌, ◌||◌, Option, some, [], str_eq, if◌then◌else◌,
}
use geoflow_updater.Prelude.Result.{Result, ok, err}
use geoflow_updater.Managed.Json.{Json}
use geoflow_updater.Managed.Release.{Bytes, Release}
use geoflow_updater.Managed.Upgrade.{UpgradePlan, allows_source}
use geoflow_updater.Managed.Decode.{decode_upgrade_plan}
use geoflow_updater.Update.Journal.{Options, failed, recovery_required}
use geoflow_updater.Deployment.Journal.{
  Config, Progress, running, ended, load_config, preflight, read_version, make_preparation,
  pull_images, inspect, slot_free, prepare_release, Env,
}
use geoflow_updater.Deployment.Task.{
  Task, ◌>>=◌, ◌>>◌, done, fail, modify, look, call, save_transaction, report, ignore, try, require,
}
use geoflow_updater.Deployment.Recover.{Outcome, refusal, valid_slot, safe_operation_id}
use geoflow_updater.Deployment.Reconcile.{Reading, not_exist, unreadable, found, read_transaction}
use geoflow_updater.Deployment.Execute.{is_blue_green, target_slot, execute_started}

-- The strategy of a release on a host: online only where its plan is, the host is laid out for it and
-- the infrastructure keeps its images.
unfoldable pub strategy_of : UpgradePlan → Config → Bool → String
strategy_of plan config pins_match =
    if not (is_blue_green config) || not pins_match then "maintenance" else plan.strategy

abbrev pub is_unfinished : Progress → Bool
is_unfinished running = true
is_unfinished (ended recovery_required) = true
is_unfinished (ended _) = false

-- A transaction that is there must have come to an end.
abbrev pub check_previous : Reading → Task (Unit {0})
check_previous not_exist = done tt
check_previous (unreadable e) = fail e
check_previous (found tx) =
    require (not (is_unfinished tx.status)) "the previous deployment requires recovery"

abbrev with_slot : String → Config → Config
with_slot slot config =
    if valid_slot config.active_slot then config else record config { active_slot = slot }

-- What the options allow of a strategy and a plan.
unfoldable pub check_options : Options → String → String → Task (Unit {0})
check_options options strategy digest = do
  require (not (str_eq strategy "maintenance" && not options.allow_maintenance))
      "this plan requires a maintenance window; explicitly allow maintenance to execute"
  require (str_eq options.expected_plan_sha256 "" || str_eq options.expected_plan_sha256 digest)
      "upgrade plan changed after preview"

abbrev pub is_own : String → Reading → Bool
is_own operation_id (found tx) = str_eq tx.operation_id operation_id
is_own operation_id _ = false

module _ ⦃env : Env⦄ where
  -- `failBefore`.
  unfoldable pub fail_before : Release → String → Task Outcome
  fail_before release e = do
    ignore (report "preflight" "failed")
    done (record (refusal (ended failed) e) { target = some release })

module _ (parse : Bytes → Option Json) ⦃env : Env⦄ where
  -- `summarize`, as far as the execution uses it: the strategy.
  unfoldable pub choose_strategy : Config → Release → Task String
  unfolding decode_upgrade_plan allows_source strategy_of
  choose_strategy config release = do
    plan ← (λ s. (s, decode_upgrade_plan parse release.upgrade_plan))
    require (allows_source plan config.release_sequence)
        "installed release is outside the signed upgrade source range"
    pins ← look env.pins_match
    let strategy = strategy_of plan config pins
    eligible ← look env.eligible_online
    require (not (str_eq strategy "online" && not eligible))
        "pending migrations or application contracts require maintenance"
    done strategy

  unfoldable pub prepare_transaction : String → Release → Options → Task (Unit {0})
  unfolding read_transaction choose_strategy check_options safe_operation_id
  prepare_transaction id release options = do
    require (safe_operation_id options.operation_id)
        "an operation identity is required for a planned update"
    call load_config
    config ← look env.config
    call preflight
    reading ← (λ s. (s, ok (read_transaction parse id s.file)))
    check_previous reading
    call (slot_free (target_slot config))
    call read_version
    version ← look env.contents
    call make_preparation
    call (prepare_release "preparation")
    candidate ← look (λ log.
        env.prepared log config release (if is_blue_green config then target_slot config else ""))
    call pull_images
    call inspect
    strategy ← choose_strategy config release
    digest ← (λ s. (s, env.plan_digest s.log))
    check_options options strategy digest
    modify (λ old. record {
      schema_version = 1;
      operation_id = options.operation_id;
      status = running;
      stage = "";
      strategy = strategy;
      source = config;
      candidate = with_slot (target_slot config) candidate;
      target = release;
      source_version = version;
      recovery_point_id = "";
      traffic_opened = false;
      layout_started = false;
      workers_handed_over = false;
      old_ingress_workers = [];
      plan_sha256 = digest;
      failure = "";
    })

  unfoldable pub first_saved :
      String → Release → Options → (Config → Config) → Result String (Unit {0}) → Task Outcome
  unfolding read_transaction fail_before execute_started
  first_saved id release options infrastructure (ok nothing) = execute_started infrastructure
  first_saved id release options infrastructure (err e) = do
    reading ← (λ s. (s, ok (read_transaction parse id s.file)))
    (if is_own options.operation_id reading
        then done (record (refusal (ended recovery_required) e) { target = some release })
        else fail_before release e)

  abbrev pub transaction_prepared :
      String → Release → Options → (Config → Config) → Result String (Unit {0}) → Task Outcome
  transaction_prepared id release options infrastructure (err e) = fail_before release e
  transaction_prepared id release options infrastructure (ok nothing) = do
    saved ← try save_transaction
    first_saved id release options infrastructure saved

  -- `ExecuteRelease`. `infrastructure` names the files of the shared services in a configuration.
  unfoldable pub execute_release : String → Release → Options → (Config → Config) → Task Outcome
  unfolding prepare_transaction first_saved fail_before
  execute_release id release options infrastructure = do
    prepared ← try (prepare_transaction id release options)
    transaction_prepared id release options infrastructure prepared
