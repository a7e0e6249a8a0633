-- ===== src/Deployment/Reconcile.antt =====
-- `readTransaction` and `ReconcileRelease` of internal/deployment/bluegreen.go, and switchback.go.
use geoflow_updater.Prelude.{
  String, Bool, true, false, not, ◌&&◌, Option, none, some, [], ◌∷◌, ◌==◌, str_eq, joined, concat,
  if◌then◌else◌,
}
use geoflow_updater.Prelude.Result.{Result, ok, err}
use geoflow_updater.Managed.Json.{Json}
use geoflow_updater.Managed.Release.{Bytes, Release}
use geoflow_updater.Managed.Validate.{validate_release}
use geoflow_updater.Update.Journal.{succeeded, failed, rolled_back, recovery_required}
use geoflow_updater.Deployment.Journal.{
  Config, Progress, running, ended, Transaction, source, candidate, load_config, require_ready,
  drain, wait_workers, Env,
}
use geoflow_updater.Deployment.Task.{
  Task, ◌>>=◌, ◌>>◌, done, fail, get, modify, look, call, save_transaction, report, ignore, try,
  require,
}
use geoflow_updater.Deployment.Recover.{
  Outcome, blue_green, is_online, outcome_of, refusal, valid_slot, instance_id_pattern,
  safe_operation_id, restore_application, fail_release,
}

pub data Reading : Type 0 where
  not_exist : Reading
  unreadable : String → Reading
  found : Transaction → Reading

-- `StatusSucceeded`, `StatusRolledBack` or `StatusFailed`.
abbrev pub is_settled : Progress → Bool
is_settled running = false
is_settled (ended succeeded) = true
is_settled (ended failed) = true
is_settled (ended rolled_back) = true
is_settled (ended recovery_required) = false

abbrev pub is_succeeded : Progress → Bool
is_succeeded (ended succeeded) = true
is_succeeded _ = false

abbrev pub read_found : Reading → Task Transaction
read_found not_exist = fail "no release transaction"
read_found (unreadable e) = fail e
read_found (found tx) = done tx

module _ ⦃env : Env⦄ where
  -- The end of an online release whose old connections were still draining.
  unfoldable pub finish_drain : Task (Unit {0})
  finish_drain = do
    tx ← get
    call (wait_workers candidate tx.old_ingress_workers)
    call (drain source ("web" ∷ "reverb" ∷ "app" ∷ []))
    modify (λ t. record t { status = ended succeeded; stage = "succeeded"; failure = "" })
    save_transaction

  abbrev pub interrupted : Transaction → String
  interrupted tx = concat ("updater interrupted during " ∷ tx.stage ∷ [])

  unfoldable pub after_drain : Result String (Unit {0}) → Task Outcome
  unfolding fail_release
  after_drain (ok nothing) = do
    tx ← get
    done
        (record { status = tx.status; target = some tx.target; recovery_point_id = ""; error = "" })
  after_drain (err e) = do tx ← get; fail_release (interrupted tx) false

  unfoldable pub after_reverb : Result String (Unit {0}) → Task Outcome
  unfolding finish_drain after_drain fail_release
  after_reverb (err e) = fail_release e false
  after_reverb (ok nothing) = do finished ← try finish_drain; after_drain finished

  abbrev pub note_save : Result String (Unit {0}) → Task (Unit {0})
  note_save (ok nothing) = done tt
  note_save (err e) = modify (λ tx. record tx { failure = joined tx.failure (some e) })

  -- An interrupted release that may not be continued without an authorised recovery.
  unfoldable pub refuse_recovery : Task Outcome
  refuse_recovery = do
    modify (λ tx. record tx {
      status = ended recovery_required;
      failure =
          "interrupted maintenance recovery has no durable resume boundary; start a new explicit data recovery";
    })
    saved ← try save_transaction
    note_save saved
    tx ← get
    done (outcome_of tx)

  unfoldable pub reconcile_found : Transaction → Task Outcome
  unfolding refuse_recovery after_reverb fail_release
  reconcile_found tx =
      if is_settled tx.status
      then done (outcome_of tx)
      else if not (is_online tx) && not (str_eq tx.stage "resume" && tx.traffic_opened)
      then refuse_recovery
      else if is_online tx && str_eq tx.stage "drain"
      then (do drained ← try (call (drain source ("reverb" ∷ []))); after_reverb drained)
      else fail_release (interrupted tx) false

  -- `none` where there is no transaction of this operation.
  unfoldable pub reconcile_read : String → Reading → Task (Option Outcome)
  unfolding reconcile_found
  reconcile_read operation_id not_exist = done none
  reconcile_read operation_id (unreadable e) = done (some (refusal (ended recovery_required) e))
  reconcile_read operation_id (found tx) =
      if not (str_eq tx.operation_id operation_id)
      then done none
      else (do modify (λ old. tx); outcome ← reconcile_found tx; done (some outcome))

  -- The release that a switch back names: its version and its number.
  abbrev retained : Config → Release
  retained config = record {
    sequence = config.release_sequence;
    minimum_updater_protocol = 0;
    version = config.version;
    source_commit = "";
    app_image = "";
    web_image = "";
    postgres_images = [];
    redis_images = [];
    compose_template = [];
    version_document = [];
    upgrade_plan = [];
  }

  abbrev pub reported_back : Result String (Unit {0}) → Task Outcome
  reported_back (err e) = done (refusal (ended recovery_required) e)
  reported_back (ok nothing) = do
    tx ← get
    done (record (refusal (ended succeeded) "") { target = some (retained tx.source) })

  abbrev pub saved_back : Result String (Unit {0}) → Task Outcome
  saved_back (err e) = done (refusal (ended recovery_required) e)
  saved_back (ok nothing) = do told ← try (report "switch-back" "succeeded"); reported_back told

  abbrev pub restored_back : Result String (Unit {0}) → Task Outcome
  restored_back (err e) = do
    modify (λ tx. record tx { status = ended recovery_required; failure = e })
    ignore save_transaction
    done (refusal (ended recovery_required) e)
  restored_back (ok nothing) = do
    modify (λ tx. record tx { status = ended rolled_back; failure = "" })
    saved ← try save_transaction
    saved_back saved

  abbrev pub told_back : Result String (Unit {0}) → Task Outcome
  told_back (err e) = fail_release e false
  told_back (ok nothing) = do restored ← try restore_application; restored_back restored

  abbrev pub admitted_back : Result String (Unit {0}) → Task Outcome
  admitted_back (err e) = done (refusal (ended failed) e)
  admitted_back (ok nothing) = do told ← try (report "switch-back" "running"); told_back told

-- What encoding/json reads from the text of an upgrade plan or a version document.
module _ (parse : Bytes → Option Json) ⦃env : Env⦄ where
  abbrev read_checked : Transaction → Result String (Unit {0}) → Reading
  read_checked tx (ok nothing) = found tx
  read_checked tx (err e) = unreadable e

  paths_inside : Config → Bool
  paths_inside config = env.inside config.compose_file && env.inside config.environment_file

  -- The file itself.
  read_file : String → Option (Option Transaction) → Reading
  unfolding paths_inside validate_release safe_operation_id
  read_file id none = not_exist
  read_file id (some none) = unreadable "invalid release transaction"
  read_file id (some (some tx)) =
      if not (
        tx.schema_version == 1
        && str_eq tx.source.id id
        && str_eq tx.candidate.id id
        && valid_slot tx.candidate.active_slot
        && safe_operation_id tx.operation_id)
      then unreadable "invalid release transaction"
      else if not (paths_inside tx.source && paths_inside tx.candidate)
      then unreadable "release transaction path escaped managed state"
      else read_checked tx (validate_release parse tx.target)

  -- `readTransaction`.
  unfoldable pub read_transaction : String → Option (Option Transaction) → Reading
  unfolding instance_id_pattern read_file
  read_transaction id file =
      if not (instance_id_pattern id) then unreadable "invalid instance" else read_file id file

  -- `ReconcileRelease`.
  unfoldable pub reconcile_release : String → String → Task (Option Outcome)
  unfolding read_transaction reconcile_read
  reconcile_release id operation_id s = reconcile_read operation_id (read_transaction id s.file) s

  -- `SwitchBack` up to the point where the transaction says that it runs.
  unfoldable pub admit_switch_back : String → String → Task (Unit {0})
  unfolding read_transaction safe_operation_id
  admit_switch_back id operation_id = do
    call require_ready
    require (safe_operation_id operation_id) "invalid operation identity"
    reading ← (λ s. (s, ok (read_transaction id s.file)))
    tx ← read_found reading
    require (is_online tx && str_eq tx.source.layout blue_green && is_succeeded tx.status)
        "only a completed compatible online release has an application switch-back"
    call load_config
    config ← look env.config
    require
        (config.release_sequence == tx.target.sequence
          && str_eq config.active_slot tx.candidate.active_slot)
        "retained release no longer matches current deployment"
    modify
        (λ old. record tx { operation_id = operation_id; stage = "switch-back"; status = running })
    save_transaction

  -- `SwitchBack`.
  unfoldable pub switch_back : String → String → Task Outcome
  unfolding admit_switch_back restore_application fail_release
  switch_back id operation_id = do
    admitted ← try (admit_switch_back id operation_id)
    admitted_back admitted
