-- ===== src/Update/Engine/Emit.antt =====
-- Stages, calls and the restart of the services, in internal/update/engine.go.
use geoflow_updater.Prelude.{
  String, ◌&&◌, Option, none, some, List, [], ◌∷◌, ◌++◌, Error, joined, concat, if◌then◌else◌,
  str_eq,
}
use geoflow_updater.Managed.Release.{Release}
use geoflow_updater.Update.Journal.{
  Status, Stage, Result, Context, Call, resume, verify, recorded, unrecorded, done, broken,
  Observer, Env,
}
use geoflow_updater.Update.Routine.{Act, lift, check, ◌>>◌, run_body, pure}

abbrev pub resume_boundary_message : String
resume_boundary_message = "service resume boundary v1"

-- The zero `Result` with a status and an error.
abbrev pub failure : String → Result
failure e = record { status = Status.failed; target = none; recovery_point_id = ""; error = e }

-- The `Result` of an operation that knows its target.
abbrev pub outcome : Status → Release → String → String → Result
outcome status target point e = record {
  status = status;
  target = some target;
  recovery_point_id = point;
  error = e;
}

-- `fmt.Errorf` around an error that may be nil: the call stands under a test for nil.
abbrev pub wrapped : List String → Error → Error
wrapped prefix none = none
wrapped prefix (some e) = some (concat (prefix ++ e ∷ []))

-- The message of a stage: the resume boundary is marked whatever the caller wrote.
abbrev pub stage_of : String → String → String → Stage
stage_of name status message = record {
  name = name;
  status = status;
  message =
      if str_eq name "resume" && str_eq status "running" then resume_boundary_message else message;
}

-- What the observer made of a stage.
abbrev pub observed : Error → Stage → Act Error
observed none stage t = (none, recorded stage ∷ t)
observed (some e) stage t = (some e, unrecorded stage e ∷ t)

-- A nil observer observes nothing.
abbrev pub emit_to : Option Observer → Stage → Act Error
emit_to none stage t = (none, t)
emit_to (some observe) stage t = observed (observe t stage) stage t

-- What a method answered.
abbrev pub answered : Error → Context → Call → Act Error
answered none context method t = (none, done context method ∷ t)
answered (some e) context method t = (some e, broken context method e ∷ t)

module _ ⦃env : Env⦄ where
  unfoldable pub emit : String → String → String → Act Error
  emit name status message = emit_to env.observe (stage_of name status message)

  unfoldable pub fail : String → String → Act Result
  fail stage e t =
      let (observe_error, t') = emit stage "failed" e t in
      (failure (joined e (wrapped ("persist " ∷ stage ∷ " failure: " ∷ []) observe_error)), t')

  unfoldable pub persistence_failure : String → String → Act Result
  persistence_failure stage e = fail stage (concat ("persist operation state: " ∷ e ∷ []))

  -- A method of the deployment that returns an error or nil.
  unfoldable pub call : Context → Call → Act Error
  call context method t = answered (env.deployment.answer t context method) context method t

  -- The engine's `resume`: the boundary is persisted before any service can accept writes.
  unfoldable pub resume_services : Context → Act Error
  resume_services context = run_body do
    check (emit "resume" "running" "")
        (λ e. pure (some (concat ("persist resume boundary: " ∷ e ∷ []))))
    check (call context resume)
        (λ e t. let (o, t') = emit "resume" "failed" e t in (some (joined e o), t'))
    check (emit "resume" "succeeded" "")
        (λ e. pure (some (concat ("persist resume completion: " ∷ e ∷ []))))
    lift (pure none)

  unfoldable pub resume_and_verify : Context → Act Error
  resume_and_verify context = run_body do
    check (resume_services context) (λ e. pure (some e))
    check (emit "verify" "running" "")
        (λ e. pure (some (concat ("persist verification stage: " ∷ e ∷ []))))
    check (call context verify)
        (λ e t. let (o, t') = emit "verify" "failed" e t in (some (joined e o), t'))
    check (emit "verify" "succeeded" "")
        (λ e. pure (some (concat ("persist verification completion: " ∷ e ∷ []))))
    lift (pure none)
