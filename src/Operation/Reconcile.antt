-- ===== src/Operation/Reconcile.antt =====
-- `reconcileOperation` of internal/operation/manager.go: what becomes of an operation that was
-- interrupted. `latest` is the answer of the coordination store, `describe` its errors as texts, and
-- `release` that of `ReconcileRelease`, where the deployment has it and handles the operation.
use geoflow_updater.Prelude.{
  String, Bool, true, false, not, ◌&&◌, ◌||◌, Option, none, some, List, [], ◌∷◌, any, Error, joined,
  concat, str_eq, if◌then◌else◌,
}
use geoflow_updater.Prelude.Result.{Result, ok, err}
use geoflow_updater.Managed.Release.{Release}
use geoflow_updater.Update.Journal.{Status, Stage, Result as ReleaseResult}
use geoflow_updater.Coordination.Patterns.{op_id}
use geoflow_updater.Coordination.Records.{Head}
use geoflow_updater.Coordination.Files.{Failure, not_exist}
use geoflow_updater.Operation.Stages.{
  legacy_restore_uncertain, has_durable_resume_boundary, has_legacy_restore_hold,
}
use geoflow_updater.Operation.Recovery.{legacy_partial_restore}
use geoflow_updater.Operation.Records.{
  Kind, update, backup, rollback, verify, switch_back, OperationStatus, Operation, verifies, Host,
  State,
}
use geoflow_updater.Operation.Steps.{update_stage, stage, call, resume_and_verify}

-- A status, or an error.
abbrev pub Verdict : Type 0
Verdict = Result String OperationStatus

abbrev pub failed_start : Verdict
failed_start = ok OperationStatus.failed

abbrev pub is_switch_back : Kind → Bool
is_switch_back switch_back = true
is_switch_back _ = false

abbrev pub new_version : Option Release → String → String
new_version none old = old
new_version (some target) old = if str_eq target.version "" then old else target.version

-- What the deployment's own journal says of a release.
abbrev pub adopted : ReleaseResult → Operation → Operation
adopted r o = record o {
  recovery_point_id =
      if str_eq r.recovery_point_id "" then o.recovery_point_id else r.recovery_point_id;
  target_version = new_version r.target o.target_version;
}

abbrev pub has_release : Kind → Bool
has_release update = true
has_release switch_back = true
has_release _ = false

abbrev pub release_verdict : Kind → ReleaseResult → Verdict
release_verdict kind r = elim r.status [
  | Status.succeeded ↦ ok OperationStatus.succeeded
  | Status.rolled_back ↦
      ok (if is_switch_back kind then OperationStatus.succeeded else OperationStatus.rolled_back)
  | Status.failed ↦ ok OperationStatus.failed
  | Status.recovery_required ↦ err r.error
]

abbrev is_named : String → Stage → Bool
is_named name s = str_eq s.name name

abbrev is_success : String → Stage → Bool
is_success name s = str_eq s.name name && str_eq s.status "succeeded"

-- The status of an interrupted update whose services may have been resumed.
unfoldable pub resumed_status : Operation → OperationStatus
resumed_status o =
    if str_eq o.current_stage "rolled_back"
      || any (is_success "rollback") o.stages
      || any (is_success "rolled_back") o.stages
    then OperationStatus.rolled_back
    else if (str_eq o.current_stage "succeeded"
          || any (is_named "succeeded") o.stages
          || any (is_success "activate") o.stages)
        && not (any (is_named "rollback") o.stages || any (is_named "rolled_back") o.stages)
    then OperationStatus.succeeded
    else OperationStatus.failed

-- A status that holds when the services run again.
abbrev pub when_resumed : OperationStatus → Error × State → Verdict × State
when_resumed status (none, s) = (ok status, s)
when_resumed status (some e, s) = (err e, s)

abbrev pub verified : Error × State → Verdict × State
verified (none, s) = (ok OperationStatus.succeeded, s)
verified (some e, s) = (err (concat ("retry interrupted verification: " ∷ e ∷ [])), s)

-- A backup succeeded if its point was made.
abbrev pub after_backup : Verdict × State → Verdict × State
after_backup (ok status, s) = (
  ok (
      if str_eq s.0.recovery_point_id ""
      then OperationStatus.failed
      else OperationStatus.succeeded),
  s,
)
after_backup (err e, s) = (err e, s)

abbrev pub legacy_held : Error × State → Verdict × State
legacy_held (none, s) = (err legacy_restore_uncertain, s)
legacy_held (some e, s) = (
  err (
      joined legacy_restore_uncertain
        (some (concat ("persist explicit recovery requirement: " ∷ e ∷ [])))),
  s,
)

-- What `ReconcileRelease` hands over: nothing where the deployment does not have it, for the other
-- kinds, or where it keeps no journal of this operation.
abbrev pub handled : Option (Operation → Option ReleaseResult) → Operation → Option ReleaseResult
handled none o = none
handled (some release) o = if has_release o.kind then release o else none

module _ ⦃host : Host⦄ where
  -- The `switch` on the kind.
  unfoldable pub reconcile_as : Kind → State → Verdict × State
  reconcile_as backup s =
      after_backup (when_resumed OperationStatus.succeeded (resume_and_verify s))
  reconcile_as verify s = verified (call verifies s)
  reconcile_as rollback s =
      if has_durable_resume_boundary s.0.stages
      then when_resumed OperationStatus.succeeded (resume_and_verify s)
      else (
        err
            "interrupted recovery has no durable resume boundary; start a new explicit data recovery",
        s,
      )
  reconcile_as update s =
      if has_durable_resume_boundary s.0.stages
      then when_resumed (resumed_status s.0) (resume_and_verify s)
      else (
        err
            "interrupted update recovery has no durable resume boundary; start a new explicit data recovery",
        s,
      )
  reconcile_as _ s = (err "interrupted operation kind is invalid", s)

  abbrev pub reconcile_kind : State → Verdict × State
  reconcile_kind s = reconcile_as s.0.kind s

  abbrev pub after_release : State → Option ReleaseResult → Verdict × State
  after_release s none = reconcile_kind s
  after_release (o, l) (some r) = (release_verdict o.kind r, (adopted r o, l))

  abbrev pub reconcile_release : Option (Operation → Option ReleaseResult) → State → Verdict × State
  reconcile_release release s = after_release s (handled release s.0)

  -- The hold is journaled where it is not there yet.
  unfoldable pub hold_legacy : State → Verdict × State
  hold_legacy s =
      if has_legacy_restore_hold s.0.stages
      then (err legacy_restore_uncertain, s)
      else legacy_held (
          update_stage
            (stage "rollback" "failed" (concat (legacy_restore_uncertain ∷ ": " ∷ s.0.error ∷ [])))
            s)

  -- Once the operation is known to have started.
  unfoldable pub reconcile_started :
      Option (Operation → Option ReleaseResult) → State → Verdict × State
  reconcile_started release s =
      if legacy_partial_restore s.0 then hold_legacy s else reconcile_release release s

  abbrev pub never_started : List Stage → String → Bool
  never_started [] id = op_id id
  never_started (_ ∷ _) id = false

  -- An admission that was recorded and never run failed.
  abbrev pub unless_admitted :
      (Failure → String)
      → Result Failure Head
      → Option (Operation → Option ReleaseResult)
      → State
      → Verdict × State
  unless_admitted describe (ok h) release s =
      if str_eq h.operation_id s.0.id then (failed_start, s) else reconcile_started release s
  unless_admitted describe (err not_exist) release s = reconcile_started release s
  unless_admitted describe (err e) release s = (err (describe e), s)

  -- `reconcileOperation`.
  unfoldable pub reconcile_operation :
      (Failure → String)
      → Result Failure Head
      → Option (Operation → Option ReleaseResult)
      → State
      → Verdict × State
  reconcile_operation describe latest release s =
      if never_started s.0.stages s.0.id
      then unless_admitted describe latest release s
      else reconcile_started release s
