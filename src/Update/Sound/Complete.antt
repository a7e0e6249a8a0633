-- ===== src/Update/Sound/Complete.antt =====
-- An update against which nothing fails, for the code of internal/update/engine.go.
use geoflow_updater.Prelude.{
  String, ◌≡◌, refl, sym, subst, false, not, ◌||◌, ◌&&◌, Bool-cases, inl, inr, none, some, [],
  Error, str_eq,
}
use geoflow_updater.Managed.Release.{Release}
use geoflow_updater.Update.Journal.{
  Status, Stage, Options, Call, Context, Trace, Observer, Deployment, Env,
}
use geoflow_updater.Update.Routine.{run_body, check, ◌>>=◌}
use geoflow_updater.Update.Engine.Emit.{emit, call, outcome}
use geoflow_updater.Update.Engine.Steps.{
  maintenance_update, early_step, quiesce_step, backup_step, create_point, freeze_step,
  protected_step, protected_steps,
}
use geoflow_updater.Update.Engine.Run.{
  find_target, unplanned_update, has_plan, update_with, run_with_options,
}

-- A deployment that answers as `d` does where nothing fails.
abbrev smooth : Deployment → Release → String → Deployment
smooth d target point = record d {
  answer = λ t c k. none;
  resolve = λ t. (target, none);
  create_recovery_point = λ t label. (point, none);
}

abbrev silent : Observer
silent = λ t stage. none

abbrev smooth_env : Deployment → Release → String → Env
smooth_env d target point = record { observe = some silent; deployment = smooth d target point }

maintenance_smooth :
    (d : Deployment) (target : Release) (point transaction : String) (t : Trace)
    → (maintenance_update ⦃env = smooth_env d target point⦄ target transaction t).0
      ≡ outcome Status.succeeded target point ""
unfolding maintenance_update early_step quiesce_step backup_step create_point freeze_step
    protected_step protected_steps run_body check ◌>>=◌ emit call
maintenance_smooth d target point transaction t = elim (Bool-cases d.freezes_checkpoints) [
  | inl e ↦ rw e refl
  | inr e ↦ rw e refl
]

smooth_run :
    (d : Deployment) (validate : Release → Error) (options : Options) (target : Release)
    (point : String)
    → options.pinned_target ≡ none
    → has_plan target ≡ false
    → ((not options.allow_maintenance && not options.legacy_request)
        || not (str_eq options.expected_plan_sha256 ""))
      ≡ false
    → (run_with_options (some silent) (some (smooth d target point)) validate options []).0
      ≡ outcome Status.succeeded target point ""
unfolding run_with_options update_with find_target run_body check ◌>>=◌ emit unplanned_update
smooth_run d validate options target point p n a =
    rw p (rw n (rw a (maintenance_smooth d target point options.operation_id _)))

-- Two deployments, and two observers, that answer alike are the same.
smooth_eq :
    (d : Deployment) (target : Release) (point : String)
    → ((t : Trace) (c : Context) (k : Call) → d.answer t c k ≡ none)
    → ((t : Trace) → d.resolve t ≡ (target, none))
    → ((t : Trace) (label : String) → d.create_recovery_point t label ≡ (point, none))
    → smooth d target point ≡ d
smooth_eq d target point a r c = sym (λ i. record d {
  answer = λ t c k. a t c k i;
  resolve = λ t. r t i;
  create_recovery_point = λ t label. c t label i;
})

-- Where the observer persists every stage, every method of the deployment returns nil, a release
-- without an upgrade plan is resolved and the request allows a maintenance update, the update
-- succeeds, and its result is that release and the recovery point that was made.
pub run_with_options-succeeded :
    (observe : Observer) (d : Deployment) (validate : Release → Error) (options : Options)
    (target : Release) (point : String)
    → ((t : Trace) (stage : Stage) → observe t stage ≡ none)
    → ((t : Trace) (c : Context) (k : Call) → d.answer t c k ≡ none)
    → ((t : Trace) → d.resolve t ≡ (target, none))
    → ((t : Trace) (label : String) → d.create_recovery_point t label ≡ (point, none))
    → options.pinned_target ≡ none
    → has_plan target ≡ false
    → ((not options.allow_maintenance && not options.legacy_request)
        || not (str_eq options.expected_plan_sha256 ""))
      ≡ false
    → (run_with_options (some observe) (some d) validate options []).0
      ≡ outcome Status.succeeded target point ""
run_with_options-succeeded observe d validate options target point o a r c p n m =
    subst
      (λ d.
        (run_with_options (some observe) (some d) validate options []).0
        ≡ outcome Status.succeeded target point "")
      (smooth_eq d target point a r c)
      (subst
        (λ observe.
          (run_with_options (some observe) (some (smooth d target point)) validate options []).0
          ≡ outcome Status.succeeded target point "")
        (sym (λ i. λ t stage. o t stage i)) (smooth_run d validate options target point p n m))
