-- ===== src/Update/Sound/Protected.antt =====
-- The steps after the recovery point: restored before the services start, kept afterwards.
use geoflow_updater.Prelude.{
  String, ◌≡◌, refl, ◌||◌, true, false, Bool, some, List, [], ◌∷◌, str_eq,
}
use geoflow_updater.Managed.Release.{Release}
use geoflow_updater.Update.Journal.{
  Status, request, Call, Event, recorded, done, preflight, pull, quiesce, migrate, activate, resume,
  verify, freeze, Trace, Observer, Env,
}
use geoflow_updater.Update.Engine.Emit.{stage_of}
use geoflow_updater.Update.Engine.Steps.{
  abandon, broken_step, protected_step, protected_steps, freeze_step, maintenance_update,
}
use geoflow_updater.Update.Protocol.{
  calm, stopped, free, IsNewest, Facts, Reports, Allowed, Delivers, WithinCall,
}
use geoflow_updater.Update.Triples.{
  Triple, Body, run_body_rule, bind_rule, check_rule, lift_rule, pure_rule, weaken_rule, relax_rule,
  before_rule, if_rule,
}
use geoflow_updater.Update.Phases.{Held, Held-free, forget, emit_rule, mark_rule, call_rule}
use geoflow_updater.Update.Sound.Recovery.{backed_facts, restore_rule}
use geoflow_updater.Update.Sound.Steps.{
  early_step_rule, quiesce_step_rule, backup_step_rule, update_label, secured_facts,
}

abbrev pub keeps_data : String → Bool
keeps_data name = str_eq name "resume" || str_eq name "verify"

module _ ⦃env : Env⦄ {o : Observer} (observed : env.observe ≡ some o) (target : Release)
    (transaction point : String) where
  abandon_early_rule :
      (name : String)
      → keeps_data name ≡ false
      → (bare message : String)
      → Triple
          (Held stopped (backed_facts target (update_label target) point))
          (abandon target point transaction name bare message)
          (Delivers target transaction)
  unfolding abandon
  abandon_early_rule name early bare message =
      rw early (restore_rule observed target (update_label target) point transaction message)

  abandon_late_rule :
      {es : List Event} (name : String)
      → keeps_data name ≡ true
      → (bare message : String)
      → Triple
          (Held free es)
          (abandon target point transaction name bare message)
          (Delivers target transaction)
  unfolding abandon
  abandon_late_rule name late bare message = rw late (pure_rule (λ t h. (h.sound, tt, refl)))

  broken_step_early_rule :
      (name : String)
      → keeps_data name ≡ false
      → (e : String)
      → Triple
          (Held stopped (backed_facts target (update_label target) point))
          (broken_step target point transaction name e)
          (Delivers target transaction)
  unfolding broken_step
  broken_step_early_rule name early e = record {
    at = λ t h. (abandon_early_rule name early _ _).at _ ((emit_rule name "failed" e).at t h);
  }

  broken_step_late_rule :
      {es : List Event} (name : String)
      → keeps_data name ≡ true
      → (e : String)
      → Triple
          (Held free es)
          (broken_step target point transaction name e)
          (Delivers target transaction)
  unfolding broken_step
  broken_step_late_rule name late e = record {
    at = λ t h. (abandon_late_rule name late _ _).at _ ((emit_rule name "failed" e).at t h);
  }

  -- `migrate` and `activate`.
  early_protected_rule :
      {es : List Event} (name : String) (method : Call)
      → keeps_data name ≡ false
      → WithinCall stopped method
      → ((t : Trace) → Held stopped es t → Allowed t request method)
      → ((t : Trace)
          → Held stopped es t
          → Held stopped (backed_facts target (update_label target) point) t)
      → Body
          (Held stopped es)
          (protected_step target point transaction name method)
          (λ _. Held stopped (done request method ∷ es))
          (Delivers target transaction)
  unfolding protected_step
  early_protected_rule name method early w allowed backed =
      bind_rule
        (check_rule (emit_rule name "running" "")
          (λ e. weaken_rule backed (abandon_early_rule name early e _)))
        λ _.
          bind_rule
            (check_rule (call_rule request method w (λ t h. h) allowed) (λ e.
              weaken_rule (λ t h. backed t (forget t h)) (broken_step_early_rule name early e)))
            λ _.
              check_rule (emit_rule name "succeeded" "") (λ e.
                weaken_rule (λ t h. backed t (forget t h)) (abandon_early_rule name early e _))

  -- `resume` and `verify`.
  late_protected_rule :
      {es : List Event} (name : String) (method : Call)
      → keeps_data name ≡ true
      → ((t : Trace)
          → IsNewest (recorded (stage_of name "running" "")) t
          → Held free es t
          → Allowed t request method)
      → Body
          (Held free es)
          (protected_step target point transaction name method)
          (λ _. Held free (done request method ∷ es))
          (Delivers target transaction)
  unfolding protected_step
  late_protected_rule name method late allowed =
      bind_rule
        (check_rule (mark_rule name "running" "" observed) (λ e. abandon_late_rule name late e _))
        λ _.
          bind_rule
            (check_rule
              (call_rule request method tt (λ t h. forget t h.1)
                (λ t h. allowed t h.0 (forget t h.1)))
              (λ e. broken_step_late_rule name late e))
            λ _. check_rule (emit_rule name "succeeded" "") (λ e. abandon_late_rule name late e _)

  freeze_step_rule :
      Body
        (Held stopped (secured_facts target point))
        (freeze_step target point transaction)
        (λ _. Held stopped (secured_facts target point))
        (Delivers target transaction)
  unfolding freeze_step
  freeze_step_rule =
      if_rule env.deployment.freezes_checkpoints
        (relax_rule
          (check_rule
            (call_rule request (freeze point transaction) refl (λ t h. h)
              (λ t h. (((update_label target, h.facts.1.0), h.facts.0), h.within)))
            (λ x. pure_rule (λ t h. (h.sound, tt, refl))))
          (λ _ t h. forget t h))
        (lift_rule (pure_rule (λ t h. h)))

  -- All that the protected steps leave behind them.
  abbrev pub completed_facts : List Event
  completed_facts =
      done request verify
      ∷ done request resume
      ∷ done request (activate target)
      ∷ done request (migrate target)
      ∷ secured_facts target point

  protected_steps_rule :
      Body
        (Held stopped (secured_facts target point))
        (protected_steps target point transaction (
          ("migrate", migrate target)
          ∷ ("activate", activate target)
          ∷ ("resume", resume)
          ∷ ("verify", verify)
          ∷ []))
        (λ _. Held free completed_facts)
        (Delivers target transaction)
  unfolding protected_steps
  protected_steps_rule =
      bind_rule
        (early_protected_rule "migrate" (migrate target) refl refl
          (λ t h. (
            h.facts.1.1.1.0,
            h.facts.1.1.0,
            (point, ((update_label target, h.facts.1.0), h.facts.0)),
            h.within,
          ))
          forget)
        λ _.
          bind_rule
            (early_protected_rule "activate" (activate target) refl refl
              (λ t h. (h.facts.0, h.within)) (λ t h. forget t (forget t h)))
            λ _.
              bind_rule
                (before_rule Held-free (late_protected_rule "resume" resume refl (λ t n h. n)))
                λ _.
                  bind_rule
                    (late_protected_rule "verify" verify refl (λ t n h. (n, (request, h.facts.0))))
                    λ _. lift_rule (pure_rule (λ t h. h))

module _ ⦃env : Env⦄ {o : Observer} (observed : env.observe ≡ some o) (target : Release)
    (transaction : String) where
  pub maintenance_update_rule :
      Triple (Held calm []) (maintenance_update target transaction) (Delivers target transaction)
  unfolding maintenance_update
  maintenance_update_rule = run_body_rule (
      bind_rule
        (early_step_rule observed target transaction "preflight" (preflight target) refl
          (λ t h. tt))
        λ _.
          bind_rule
            (early_step_rule observed target transaction "pull" (pull target) refl
              (λ t h. h.facts.0))
            λ _. bind_rule (quiesce_step_rule observed target transaction) λ _.
              bind_rule (before_rule pulled (backup_step_rule observed target transaction)) λ point.
                bind_rule (freeze_step_rule observed target transaction point) λ _.
                  bind_rule (protected_steps_rule observed target transaction point) λ _.
                    bind_rule
                      (check_rule (mark_rule "succeeded" "succeeded" "" observed)
                        (λ e. pure_rule (λ t h. (h.sound, tt, refl))))
                      λ _.
                        lift_rule
                          (pure_rule (λ t h. (h.1.sound, finished point t h.1.facts, refl))))
    where
      pulled :
          {es : List Event} (t : Trace)
          → Held stopped (done request quiesce ∷ done request (pull target) ∷ es) t
          → Held stopped (done request quiesce ∷ done request (pull target) ∷ []) t
      pulled t h = record {
        sound = h.sound;
        within = h.within;
        facts = (h.facts.0, (h.facts.1.0, tt));
      }

      finished :
          (point : String) (t : Trace)
          → Facts
              (recorded (stage_of "succeeded" "succeeded" "")
                ∷ completed_facts observed target transaction point)
              t
          → Reports target transaction point Status.succeeded t
      finished point t (s, (v, (r, (a, (m, (b, (c, (q, (p, _))))))))) =
          (s, (v, (r, (a, (m, (b, (q, (p, tt))))))))
