-- ===== src/Deployment/Recover.antt =====
-- What undoes a release: `resumeSource`, `restoreApplication` and `restoreBeforeTraffic` of
-- internal/deployment/traffic.go, and `failRelease` of bluegreen.go.
use geoflow_updater.Prelude.{
  ℕ, String, Bool, true, false, not, ◌&&◌, ◌||◌, Option, none, some, [], ◌∷◌, length, leb, all,
  ◌==◌, str_eq, joined, if◌then◌else◌,
}
use geoflow_updater.Prelude.Regex.{codes, is_digit, is_lower, is_upper}
use geoflow_updater.Prelude.Result.{Result, ok, err}
use geoflow_updater.Managed.Release.{Release}
use geoflow_updater.Update.Journal.{failed, rolled_back, recovery_required}
use geoflow_updater.Deployment.Journal.{
  Progress, ended, Transaction, Side, source, candidate, start, drain, start_background,
  drain_background, drain_applications, wait_http, switch_ingress, activate_slot, wait_workers,
  wait_containers, prepare_restore, down_infrastructure, drain_redis, restore, resume, Env,
}
use geoflow_updater.Deployment.Task.{
  Task, ◌>>=◌, ◌>>◌, done, fail, get, modify, look, call, save_transaction, report, ignore, try,
  wrap,
}

pub record Outcome : Type 0 where
  pub status : Progress
  pub target : Option Release
  pub recovery_point_id : String
  pub error : String

abbrev pub blue_green : String
blue_green = "blue-green"

abbrev pub is_online : Transaction → Bool
is_online tx = str_eq tx.strategy "online"

abbrev pub is_maintenance : Transaction → Bool
is_maintenance tx = str_eq tx.strategy "maintenance"

abbrev pub has_point : Transaction → Bool
has_point tx = not (str_eq tx.recovery_point_id "")

abbrev pub with_status : Progress → Transaction → Transaction
with_status status tx = record tx { status = status }

abbrev pub with_failure : String → Transaction → Transaction
with_failure message tx = record tx { failure = message }

abbrev pub at_resume : Transaction → Transaction
at_resume tx = record tx { stage = "resume"; traffic_opened = true }

abbrev pub outcome_of : Transaction → Outcome
outcome_of tx = record {
  status = tx.status;
  target = some tx.target;
  recovery_point_id = tx.recovery_point_id;
  error = tx.failure;
}

abbrev pub refusal : Progress → String → Outcome
refusal status message = record {
  status = status;
  target = none;
  recovery_point_id = "";
  error = message;
}

-- `validSlot`.
abbrev pub valid_slot : String → Bool
valid_slot slot = str_eq slot "blue" || str_eq slot "green"

name_character : ℕ → Bool
unfolding is_digit is_lower
name_character c = is_lower c || is_digit c || c == b'-'

-- `instanceIDPattern`: a small letter, then at most 62 characters of a wider class.
unfoldable pub instance_id_pattern : String → Bool
unfolding is_lower name_character
instance_id_pattern id = elim (codes id) [
  | [] ↦ false
  | c ∷ rest ↦ is_lower c && leb (length rest) 62 && all name_character rest
]

safe_character : ℕ → Bool
unfolding is_digit is_lower is_upper
safe_character c = is_lower c || is_upper c || is_digit c || c == b'.' || c == b'_' || c == b'-'

-- `safeOperationID`.
unfoldable pub safe_operation_id : String → Bool
unfolding safe_character
safe_operation_id id =
    leb 1 (length (codes id))
    && leb (length (codes id)) 100
    && all safe_character (codes id)
    && not (str_eq id ".")
    && not (str_eq id "..")

module _ ⦃env : Env⦄ where
  unfoldable pub resume_source : Task (Unit {0})
  resume_source = do
    modify at_resume
    wrap "persist source resume boundary" save_transaction
    call resume

  unfoldable pub restore_application : Task (Unit {0})
  restore_application = do
    tx ← get
    (if str_eq tx.source.layout blue_green
        then done tt
        else fail "application-only rollback requires a retained blue-green source")
    call (drain_background candidate)
    call (start source ("app" ∷ "reverb" ∷ "web" ∷ []))
    call (wait_http source)
    workers ← look env.workers
    call (switch_ingress source true)
    call (activate_slot source)
    call (start_background source)
    call (drain candidate ("reverb" ∷ []))
    call (wait_workers source workers)
    call (drain candidate ("web" ∷ "app" ∷ []))

  -- The deployment whose containers serve the restore.
  abbrev pub inspector : Transaction → Side
  inspector tx = if tx.layout_started then candidate else source

  unfoldable pub stop_applications : Transaction → Task (Unit {0})
  stop_applications tx =
      if tx.layout_started
      then call (drain_applications candidate) >> call (down_infrastructure candidate)
      else if str_eq tx.source.layout blue_green
      then call (drain_applications candidate)
      else done tt

  unfoldable pub restore_before_traffic : Task (Unit {0})
  unfolding stop_applications resume_source
  restore_before_traffic = do
    tx ← get
    (if tx.traffic_opened
        then fail "traffic may have resumed; start a new explicit data recovery"
        else done tt)
    call (prepare_restore (inspector tx))
    stop_applications tx
    (if env.recoveries then done tt else fail "recovery store unavailable")
    (if tx.layout_started then done tt else call drain_redis)
    call restore
    resume_source

  -- What `failRelease` does once no upgrade container is left.
  unfoldable pub undo : Transaction → Task (Unit {0})
  unfolding restore_application restore_before_traffic resume_source
  undo tx =
      if is_online tx
      then (if str_eq tx.stage "drain"
          then fail "old connections are still draining; both slots were retained"
          else restore_application >> modify (with_status (ended rolled_back)))
      else if tx.traffic_opened && str_eq tx.stage "resume"
      then resume_source
        >> modify (with_status (ended (if has_point tx then rolled_back else failed)))
      else if tx.traffic_opened
      then fail
          "traffic or background writes may have resumed; data restoration requires a separate authorized recovery"
      else if has_point tx
      then restore_before_traffic >> modify (with_status (ended rolled_back))
      else resume_source >> modify (with_status (ended failed))

  abbrev pub note_failure : String → Result String (Unit {0}) → Task (Unit {0})
  note_failure cause (ok nothing) = done tt
  note_failure cause (err e) = modify (with_failure (joined cause (some e)))

  abbrev pub note_unsaved : Result String (Unit {0}) → Task (Unit {0})
  note_unsaved (ok nothing) = done tt
  note_unsaved (err e) =
      modify
        (λ tx. record tx { status = ended recovery_required; failure = joined tx.failure (some e) })

  unfoldable pub after_wait : String → Result String (Unit {0}) → Task Outcome
  unfolding undo
  after_wait cause (err e) = do
    modify (with_failure (joined cause (some e)))
    ignore save_transaction
    tx ← get
    done (outcome_of tx)
  after_wait cause (ok nothing) = do
    before ← get
    undone ← try (undo before)
    note_failure cause undone
    saved ← try save_transaction
    note_unsaved saved
    tx ← get
    done (outcome_of tx)

  -- `failRelease`; the observer is told where it was handed on.
  unfoldable pub fail_release : String → Bool → Task Outcome
  unfolding after_wait
  fail_release cause told = do
    modify (λ tx. record tx { failure = cause; status = ended recovery_required })
    ignore save_transaction
    tx ← get
    (if told then ignore (report tx.stage "failed") else done tt)
    waited ← try (call wait_containers)
    after_wait cause waited
