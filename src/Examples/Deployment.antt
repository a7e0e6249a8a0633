-- ===== src/Examples/Deployment.antt =====
-- A release whose candidate does not start: the data is restored and the source resumed; a later
-- process finds the updater interrupted.
use geoflow_updater.Prelude.{◌≡◌, refl, String, Bool, true, false, Error, none, some, [], any}
use geoflow_updater.Prelude.Regex.{is_digit, is_lower, is_upper, is_hex, matches, matches_then}
use geoflow_updater.Prelude.Result.{Result, ok}
use geoflow_updater.Coordination.Files.{clean}
use geoflow_updater.Coordination.Patterns.{hex64}
use geoflow_updater.Managed.Upgrade.{
  allows_source, migration_name_pattern, plan_step_pattern, check_sources, check_migrations,
  check_steps, validate_plan,
}
use geoflow_updater.Managed.Decode.{
  check_fields, upgrade_plan_object, check_entries, validate_upgrade_plan_fields, as_migration,
  as_step, as_compatibility, as_plan, decode_upgrade_plan, parsed,
}
use geoflow_updater.Update.Journal.{Options, rolled_back}
use geoflow_updater.Deployment.Journal.{
  Config, running, ended, Transaction, candidate, Call, start, restore, resume, Event, made, Run,
  Env,
}
use geoflow_updater.Deployment.Task.{
  ◌>>=◌, done, fail, get, modify, look, call, save_transaction, report, ignore, try, wrap,
}
use geoflow_updater.Deployment.Recover.{
  Outcome, instance_id_pattern, safe_operation_id, resume_source, restore_application,
  stop_applications, restore_before_traffic, undo, after_wait, fail_release,
}
use geoflow_updater.Deployment.Reconcile.{read_transaction, reconcile_release}
use geoflow_updater.Deployment.Execute.{
  step, prepare_candidate, pull_step, backup_step, layout_step, candidate_step, switch_step,
  workers_step, drain_step, secure, with_infrastructure, run_release, finish_release,
  execute_started,
}
use geoflow_updater.Deployment.Admit.{
  strategy_of, check_options, choose_strategy, prepare_transaction, fail_before, first_saved,
  execute_release,
}
use geoflow_updater.Deployment.Protocol.{Follows}
use geoflow_updater.Deployment.Reached.{executed, interrupted, reconciled, reached-Follows}
use geoflow_updater.Examples.Managed.{reader, sample_release}

abbrev config : Config
config = record {
  schema_version = 1;
  id = "primary";
  root = "/srv/geoflow";
  layout = "";
  active_slot = "";
  compose_file = "/var/lib/geoflow/primary/docker-compose.yml";
  environment_file = "/var/lib/geoflow/primary/release.env";
  infra_compose_file = "";
  infra_environment_file = "";
  release_sequence = 42;
  version = "2.0.0";
  postgres_major = "16";
  postgres_data_dir = "";
  postgres_mount = "";
  redis_major = "7";
  control_token = "";
  enrolled_release_sha256 = "";
  enrolled_at = "";
}

-- Every call succeeds, but the candidate does not start.
abbrev not_started : Call → Error
not_started (start candidate names) = some "unhealthy"
not_started _ = none

abbrev host : Env
host = record {
  answer = λ log c. not_started c;
  write_end = λ log. clean;
  observer = none;
  recoveries = true;
  config = λ log. config;
  contents = λ log. [];
  prepared = λ log old release slot. record old { active_slot = slot };
  preparation = λ log. "/var/lib/geoflow/primary/.release-1";
  point = λ log. "point";
  workers = λ log. [];
  eligible_online = λ log. true;
  pins_match = λ log. true;
  plan_digest = λ log. ok "digest";
  inside = λ path. true;
}

abbrev no_transaction : Transaction
no_transaction = record {
  schema_version = 0;
  operation_id = "";
  status = running;
  stage = "";
  strategy = "";
  source = config;
  candidate = config;
  target = sample_release;
  source_version = [];
  recovery_point_id = "";
  traffic_opened = false;
  layout_started = false;
  workers_handed_over = false;
  old_ingress_workers = [];
  plan_sha256 = "";
  failure = "";
}

abbrev idle : Run
idle = record { tx = no_transaction; file = none; log = [] }

abbrev options : Options
options = record {
  pinned_target = none;
  legacy_request = false;
  allow_maintenance = true;
  expected_plan_sha256 = "";
  operation_id = "update-1";
}

abbrev same : Config → Config
same c = c

abbrev ended_run : Run × Result String Outcome
ended_run = execute_release reader ⦃env = host⦄ "primary" sample_release options same idle

abbrev restores : Event → Bool
restores (made restore none) = true
restores _ = false

abbrev resumes : Event → Bool
resumes (made resume none) = true
resumes _ = false

-- The data was restored, and the source resumed.
rolled_back_test :
    (any restores ended_run.0.log ≡ true)
    × (any resumes ended_run.0.log ≡ true)
    × (ended_run.0.tx.status ≡ ended rolled_back)
unfolding execute_release prepare_transaction fail_before first_saved check_options choose_strategy
    strategy_of safe_operation_id instance_id_pattern read_transaction execute_started run_release
    finish_release step prepare_candidate pull_step backup_step layout_step candidate_step
    switch_step workers_step drain_step secure with_infrastructure fail_release after_wait undo
    restore_before_traffic stop_applications restore_application resume_source ◌>>=◌ done fail get
    modify look call save_transaction report ignore try wrap allows_source decode_upgrade_plan
    parsed validate_upgrade_plan_fields upgrade_plan_object check_fields check_entries as_plan
    as_migration as_step as_compatibility validate_plan check_sources check_migrations check_steps
    migration_name_pattern plan_step_pattern matches_then matches hex64 is_digit is_lower is_upper
    is_hex
rolled_back_test = (refl, refl, refl)

-- It was interrupted, and reconciled by a process that sees only what is in the file.
abbrev reconciled_run : Run
reconciled_run = (reconcile_release reader ⦃env = host⦄ "primary" "update-1" ended_run.0).0

reached-Follows_example : Follows reconciled_run.log
reached-Follows_example = reached-Follows reader "primary" reconciled_run (
    reconciled host "update-1" ended_run.0 (
      interrupted ended_run.0 ended_run.0 [] refl
        (executed host sample_release options same idle refl)))
