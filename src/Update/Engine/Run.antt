-- ===== src/Update/Engine/Run.antt =====
-- `Run` and `RunWithOptions` of internal/update/engine.go.
use geoflow_updater.Prelude.{
  Bool, true, false, not, ◌&&◌, ◌||◌, Option, none, some, [], ◌∷◌, Error, if◌then◌else◌, str_eq,
}
use geoflow_updater.Managed.Release.{Release}
use geoflow_updater.Update.Journal.{Result, Options, resolved, Observer, Deployment, Trace, Env}
use geoflow_updater.Update.Routine.{Act, lift, give_back, check, ◌>>=◌, ◌>>◌, run_body, pure}
use geoflow_updater.Update.Engine.Emit.{failure, emit, fail, persistence_failure}
use geoflow_updater.Update.Engine.Steps.{maintenance_update}

-- `len(target.UpgradePlan) != 0`.
unfoldable pub has_plan : Release → Bool
has_plan target = elim target.upgrade_plan [ [] ↦ false | _ ∷ _ ↦ true ]

module _ ⦃env : Env⦄ where
  -- The target: the one that the caller pinned, checked again, or the one that is resolved.
  -- `validate` is `Release.Validate` of internal/managed.
  unfoldable pub find_target : (Release → Error) → Option Release → Act (Release × Error)
  find_target validate (some target) t = ((target, validate target), t)
  find_target validate none t =
      let (target, e) = env.deployment.resolve t in ((target, e), resolved target e ∷ t)

  -- The release carries a signed upgrade plan: the deployment carries it out.
  abbrev pub execute_with :
      Option (Release → Options → Option Observer → Trace → Result × Trace)
      → Options
      → Release
      → Act Result
  execute_with none options target =
      fail "preflight" "deployment does not support signed upgrade plans"
  execute_with (some execute) options target = execute target options env.observe

  unfoldable pub planned_update : Options → Release → Act Result
  planned_update options target = execute_with env.deployment.execute_release options target

  unfoldable pub unplanned_update : Options → Release → Act Result
  unplanned_update options target =
      if (not options.allow_maintenance && not options.legacy_request)
        || not (str_eq options.expected_plan_sha256 "")
      then fail "preflight"
          "legacy release requires an explicit maintenance update without a plan hash"
      else maintenance_update target options.operation_id

  unfoldable pub update_with : (Release → Error) → Options → Act Result
  update_with validate options = run_body do
    check (emit "resolve" "running" "") (persistence_failure "resolve")
    found ← lift (find_target validate options.pinned_target)
    check (pure found.1) (fail "resolve")
    check (emit "resolve" "succeeded" "") (persistence_failure "resolve")
    give_back (
        if has_plan found.0
        then planned_update options found.0
        else unplanned_update options found.0)

-- `RunWithOptions`; `engine.Deployment` and the observer may be nil.
unfoldable pub run_with_options :
    Option Observer → Option Deployment → (Release → Error) → Options → Act Result
run_with_options observe none validate options = pure (failure "deployment service is unavailable")
run_with_options observe (some deployment) validate options =
    update_with ⦃env = record { observe = observe; deployment = deployment }⦄ validate options

-- `Run`.
unfoldable pub run : Option Observer → Option Deployment → (Release → Error) → Act Result
run observe deployment validate = run_with_options observe deployment validate (record {
  pinned_target = none;
  legacy_request = false;
  allow_maintenance = true;
  expected_plan_sha256 = "";
  operation_id = "";
})
