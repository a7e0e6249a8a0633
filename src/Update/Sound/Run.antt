-- ===== src/Update/Sound/Run.antt =====
-- The whole of `RunWithOptions`: its protocol, and what its result says.
use geoflow_updater.Prelude.{String, ◌≡◌, refl, false, Option, none, some, [], Error, if◌then◌else◌}
use geoflow_updater.Managed.Release.{Release}
use geoflow_updater.Update.Journal.{Result, Options, resolved, Trace, Observer, Deployment, Env}
use geoflow_updater.Update.Routine.{Act, Routine}
use geoflow_updater.Update.Engine.Run.{
  find_target, planned_update, unplanned_update, has_plan, update_with, run_with_options,
}
use geoflow_updater.Update.Protocol.{calm, Delivers}
use geoflow_updater.Update.Triples.{
  Triple, Body, run_body_rule, bind_rule, check_rule, lift_rule, give_back_rule, pure_rule,
  act_if_rule, strengthen_rule,
}
use geoflow_updater.Update.Phases.{Held, grow, forget, emit_rule}
use geoflow_updater.Update.Sound.{fail_calm_rule, persistence_failure_rule}
use geoflow_updater.Update.Sound.Protected.{maintenance_update_rule}

-- A pinned target carries no upgrade plan.
abbrev pub HasNoPlan : Option Release → Type 0
HasNoPlan none = Unit
HasNoPlan (some target) = has_plan target ≡ false

-- A release for a failure before any is known.
abbrev blank : Release
blank = record {
  sequence = 0;
  minimum_updater_protocol = 0;
  version = "";
  source_commit = "";
  app_image = "";
  web_image = "";
  postgres_images = [];
  redis_images = [];
  compose_template = [];
  version_document = [];
  upgrade_plan = [];
}

-- The result tells the truth about the release that it ran for.
abbrev pub DeliversSome : String → Result → Trace → Type 0
DeliversSome transaction result t = (target : Release) × Delivers target transaction result t

-- What the condition says of values alone may be used for the rest.
known_rule :
    {R A : Type 0} {P : Trace → Type 0} {F : Type 0} {m : Routine R A} {Q : A → Trace → Type 0}
    {S : R → Trace → Type 0}
    → (F → Body P m Q S)
    → Body (λ t. P t × F) m Q S
known_rule k = record { at = λ t (p, f). (k f).at t p }

module _ ⦃env : Env⦄ {o : Observer} (observed : env.observe ≡ some o) where
  find_target_rule :
      (validate : Release → Error) (pinned : Option Release)
      → HasNoPlan pinned
      → ((t : Trace) → has_plan (env.deployment.resolve t).0 ≡ false)
      → Triple
          (Held calm [])
          (find_target validate pinned)
          (λ found t. Held calm [] t × (has_plan found.0 ≡ false))
  unfolding find_target
  find_target_rule validate none p n = record {
    at = λ t h.
        let (target, e) = env.deployment.resolve t in
        (forget _ (grow (resolved target e) t tt tt h), n t);
  }
  find_target_rule validate (some target) p n = record { at = λ t h. (h, p) }

  unplanned_update_rule :
      (options : Options) (target : Release)
      → Triple
          (Held calm [])
          (unplanned_update options target)
          (Delivers target options.operation_id)
  unfolding unplanned_update
  unplanned_update_rule options target =
      act_if_rule _ (fail_calm_rule target options.operation_id _ _)
        (maintenance_update_rule observed target options.operation_id)

  without_plan_rule :
      (options : Options) (target : Release)
      → has_plan target ≡ false
      → Triple
          (Held calm [])
          (if has_plan target
            then planned_update options target
            else unplanned_update options target)
          (Delivers target options.operation_id)
  without_plan_rule options target n = rw n (unplanned_update_rule options target)

  some_target :
      {P : Trace → Type 0} {m : Act Result} {transaction : String} (target : Release)
      → Triple P m (Delivers target transaction)
      → Triple P m (DeliversSome transaction)
  some_target target h = strengthen_rule h (λ r t d. (target, d))

  update_with_rule :
      (validate : Release → Error) (options : Options)
      → HasNoPlan options.pinned_target
      → ((t : Trace) → has_plan (env.deployment.resolve t).0 ≡ false)
      → Triple (Held calm []) (update_with validate options) (DeliversSome options.operation_id)
  unfolding update_with
  update_with_rule validate options p n = run_body_rule (
      bind_rule
        (check_rule (emit_rule "resolve" "running" "") (λ e.
          some_target blank (persistence_failure_rule blank options.operation_id "resolve" e)))
        λ _. bind_rule (lift_rule (find_target_rule validate options.pinned_target p n)) λ found.
          known_rule λ unplanned.
            bind_rule
              (check_rule {E = λ _. Held calm []} (pure_rule (λ t p. p)) (λ e.
                some_target found.0 (fail_calm_rule found.0 options.operation_id "resolve" e)))
              λ _.
                bind_rule
                  (check_rule (emit_rule "resolve" "succeeded" "") (λ e.
                    some_target found.0
                      (persistence_failure_rule found.0 options.operation_id "resolve" e)))
                  λ _.
                    give_back_rule
                      (some_target found.0 (without_plan_rule options found.0 unplanned)))

-- From an empty trace, whatever the deployment and the observer answer, for releases that carry no
-- upgrade plan: every call that the engine makes is allowed by the protocol when it is made, and for
-- some release the status of the result is true of the trace, and the result names that release
-- unless its status is `failed`.
pub run_with_options-Delivers :
    (observe : Observer) (deployment : Deployment) (validate : Release → Error) (options : Options)
    → HasNoPlan options.pinned_target
    → ((t : Trace) → has_plan (deployment.resolve t).0 ≡ false)
    → DeliversSome options.operation_id
        (run_with_options (some observe) (some deployment) validate options []).0
        (run_with_options (some observe) (some deployment) validate options []).1
unfolding run_with_options
run_with_options-Delivers observe deployment validate options p n =
    (update_with_rule ⦃env = record { observe = some observe; deployment = deployment }⦄ refl
        validate options p n).at
      [] (record { sound = tt; within = tt; facts = tt })
