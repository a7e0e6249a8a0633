-- ===== src/Operation/Steps.antt =====
-- The steps of an operation in internal/operation/manager.go: a stage is journaled and persisted
-- before the deployment is called, and again afterwards.
use geoflow_updater.Prelude.{
  String, Bool, true, false, none, some, [], ◌∷◌, ◌++◌, map, Error, joined, concat, if◌then◌else◌,
  str_eq,
}
use geoflow_updater.Update.Journal.{Stage}
use geoflow_updater.Update.Engine.Emit.{resume_boundary_message, wrapped}
use geoflow_updater.Operation.Stages.{bounded_operation_stages}
use geoflow_updater.Operation.Messages.{bounded_operation_message}
use geoflow_updater.Operation.Records.{
  OperationStatus, Operation, Method, verifies, resumes, creates_point, called, refused, saved,
  unsaved, Log, Host, State,
}

abbrev pub with_bounded_message : Stage → Stage
with_bounded_message s = record s { message = bounded_operation_message s.message }

-- What `save` makes of an operation before it is written.
unfoldable pub bounded : Operation → Operation
bounded o = record o {
  stages = map with_bounded_message (bounded_operation_stages o.stages);
  error = bounded_operation_message o.error;
}

abbrev pub with_status : OperationStatus → Operation → Operation
with_status status o = record o { status = status }

abbrev pub with_error : String → Operation → Operation
with_error e o = record o { error = e }

abbrev pub failed_with : String → Operation → Operation
failed_with e o = record o { status = OperationStatus.failed; error = e }

abbrev pub save_result : Error → Operation → Log → Error × State
save_result none o l = (none, (o, saved o ∷ l))
save_result (some e) o l = (some e, (o, unsaved o e ∷ l))

abbrev pub method_result : Error → Method → State → Error × State
method_result none m (o, l) = (none, (o, called m ∷ l))
method_result (some e) m (o, l) = (some e, (o, refused m e ∷ l))

-- `if !step { ... }`, and the rest.
abbrev pub guarded {ℓ} : {A : Type ℓ} → Bool × State → (State → A) → (State → A) → A
guarded (true, s) stop go = go s
guarded (false, s) stop go = stop s

module _ ⦃host : Host⦄ where
  -- `save`.
  unfoldable pub save : State → Error × State
  save (o, l) = save_result (host.save l (bounded o)) (bounded o) l

  -- `updateStage`.
  unfoldable pub update_stage : Stage → State → Error × State
  update_stage stage (o, l) =
      save (record o { current_stage = stage.name; stages = o.stages ++ stage ∷ [] }, l)

  -- A method of the deployment that returns an error or nil.
  unfoldable pub call : Method → State → Error × State
  call m (o, l) = method_result (host.answer l m) m (o, l)

  -- `CreateRecoveryPoint`, which names the point whatever the error, and the step's assignment.
  unfoldable pub create_point : String → State → Error × State
  create_point label (o, l) =
      method_result (host.answer l (creates_point label)) (creates_point label)
        (record o { recovery_point_id = host.point l }, l)

  abbrev pub stage : String → String → String → Stage
  stage name status message = record { name = name; status = status; message = message }

  -- `failPersistence`.
  abbrev pub persistence_failed : String → String → State → Bool × State
  persistence_failed name e (o, l) =
      (false, (failed_with (concat ("persist " ∷ name ∷ " stage: " ∷ e ∷ [])) o, l))

  abbrev pub step_failed : String → String → Error × State → Bool × State
  step_failed name e (save_error, (o, l)) = (
    false,
    (failed_with (joined e (wrapped ("persist " ∷ name ∷ " failure: " ∷ []) save_error)) o, l),
  )

  abbrev pub step_succeeded : String → Error × State → Bool × State
  step_succeeded name (none, s) = (true, s)
  step_succeeded name (some e, s) = persistence_failed name e s

  abbrev pub step_called : String → Error × State → Bool × State
  step_called name (some e, s) = step_failed name e (update_stage (stage name "failed" e) s)
  step_called name (none, s) = step_succeeded name (update_stage (stage name "succeeded" "") s)

  abbrev pub step_started : String → (State → Error × State) → Error × State → Bool × State
  step_started name run (some e, s) = persistence_failed name e s
  step_started name run (none, s) = step_called name (run s)

  abbrev pub step_message : String → String
  step_message name = if str_eq name "resume" then resume_boundary_message else ""

  -- `step`.
  unfoldable pub step : String → (State → Error × State) → State → Bool × State
  step name run s =
      step_started name run (update_stage (stage name "running" (step_message name)) s)

  abbrev pub with_own_error : State → Error × State
  with_own_error s = (some s.0.error, s)

  -- `resumeAndVerify`.
  unfoldable pub resume_and_verify : State → Error × State
  resume_and_verify s =
      guarded (step "resume" (call resumes) s) with_own_error
        λ s. guarded (step "verify" (call verifies) s) with_own_error λ s. (none, s)

  abbrev pub resumed_after : String → Error × State → State
  resumed_after cause (none, s) = s
  resumed_after cause (some e, (o, l)) =
      (record o { error = joined cause (some e); status = OperationStatus.recovery_required }, l)

  -- `resumeAfterFailure`.
  unfoldable pub resume_after_failure : State → State
  resume_after_failure s = resumed_after s.0.error (resume_and_verify s)

  -- `requireDeployment`, and the rest.
  abbrev pub require_deployment : State → (State → State) → State
  require_deployment (o, l) rest =
      if host.available then rest (o, l) else (failed_with "deployment service is unavailable" o, l)
