-- ===== src/Update/Sound/Steps.antt =====
-- The steps of an update keep the protocol, whatever the deployment and the observer answer.
use geoflow_updater.Prelude.{String, ◌≡◌, refl, none, some, List, [], ◌∷◌, Error, concat}
use geoflow_updater.Managed.Release.{Release}
use geoflow_updater.Update.Journal.{
  request, detached, Call, Event, recorded, done, created, not_created, pull, quiesce, Trace,
  Observer, Env,
}
use geoflow_updater.Update.Engine.Emit.{stage_of}
use geoflow_updater.Update.Engine.Steps.{
  early_step, quiesce_failure, backup_failure, quiesce_step, create_point_result, create_point,
  backup_step,
}
use geoflow_updater.Update.Protocol.{Level, calm, stopped, Allowed, Delivers, WithinCall}
use geoflow_updater.Update.Triples.{
  Triple, Body, run_body_rule, bind_rule, check_rule, lift_rule, give_back_rule, pure_rule,
  weaken_rule,
}
use geoflow_updater.Update.Phases.{
  Either, Held, Held-free, Held-stopped, forget, grow, emit_rule, mark_rule, call_rule,
}
use geoflow_updater.Update.Sound.{
  resume_services_rule, resume_and_verify_rule, fail_calm_rule, persistence_failure_rule,
  fail_restarted_rule,
}
use geoflow_updater.Update.Sound.Recovery.{
  backed_facts, restore_rule, resume_after_persistence_failure_rule,
}

abbrev pub update_label : Release → String
update_label target = concat ("update-to-" ∷ target.version ∷ [])

-- The recovery point is made and journaled.
abbrev pub secured_facts : Release → String → List Event
secured_facts target point =
    recorded (stage_of "backup" "succeeded" point) ∷ backed_facts target (update_label target) point

module _ ⦃env : Env⦄ {o : Observer} (observed : env.observe ≡ some o) (target : Release)
    (transaction : String) where
  pub early_step_rule :
      {es : List Event} (name : String) (method : Call)
      → WithinCall calm method
      → ((t : Trace) → Held calm es t → Allowed t request method)
      → Body
          (Held calm es)
          (early_step target name method)
          (λ _. Held calm (done request method ∷ es))
          (Delivers target transaction)
  unfolding early_step
  early_step_rule name method w allowed =
      bind_rule
        (check_rule (emit_rule name "running" "")
          (persistence_failure_rule target transaction name))
        λ _.
          bind_rule
            (check_rule (call_rule request method w (λ t h. h) allowed)
              (λ e. fail_calm_rule target transaction name e))
            λ _.
              check_rule (emit_rule name "succeeded" "")
                (persistence_failure_rule target transaction name)

  quiesce_failure_rule :
      {l : Level} {es : List Event} (e : String)
      → Triple (Held l es) (quiesce_failure target e) (Delivers target transaction)
  unfolding quiesce_failure
  quiesce_failure_rule e = run_body_rule (
      bind_rule
        (check_rule (weaken_rule Held-free (resume_and_verify_rule observed detached))
          (λ x. pure_rule (λ t h. (h.sound, tt, refl))))
        λ _.
          give_back_rule (weaken_rule forget (fail_restarted_rule target transaction "quiesce" e)))

  backup_failure_rule :
      {l : Level} {es : List Event} (e : String)
      → Triple (Held l es) (backup_failure target e) (Delivers target transaction)
  unfolding backup_failure
  backup_failure_rule e = run_body_rule (
      bind_rule
        (check_rule (weaken_rule Held-free (resume_services_rule observed detached))
          (λ x. pure_rule (λ t h. (h.sound, tt, refl))))
        λ _. give_back_rule (fail_restarted_rule target transaction "backup" e))

  pub quiesce_step_rule :
      {es : List Event}
      → Body
          (Held calm (done request (pull target) ∷ es))
          (quiesce_step target)
          (λ _. Held stopped (done request quiesce ∷ done request (pull target) ∷ es))
          (Delivers target transaction)
  unfolding quiesce_step
  quiesce_step_rule =
      bind_rule
        (check_rule (emit_rule "quiesce" "running" "")
          (persistence_failure_rule target transaction "quiesce"))
        λ _.
          bind_rule
            (check_rule
              (call_rule request quiesce refl Held-stopped
                (λ t h. ((target, h.facts.0), (Held-stopped t h).within)))
              (λ e. quiesce_failure_rule e))
            λ _.
              check_rule (emit_rule "quiesce" "succeeded" "")
                (resume_after_persistence_failure_rule observed target transaction "quiesce")

  abbrev Made : String → String × Error → Trace → Type 0
  Made label made =
      Either (Held stopped (backed_facts target label made.0))
        (λ _. Held stopped (done request quiesce ∷ done request (pull target) ∷ [])) made.1

  Made-keeps :
      (label point : String) (e : Error) (t : Trace)
      → Held stopped (done request quiesce ∷ done request (pull target) ∷ []) t
      → Made label (create_point_result label point e t).0 (create_point_result label point e t).1
  Made-keeps label point none t h = grow (created label point) t (h.facts.0, h.within) tt h
  Made-keeps label point (some e) t h = forget _ (grow (not_created label e) t tt tt h)

  create_point_rule :
      (label : String)
      → Triple
          (Held stopped (done request quiesce ∷ done request (pull target) ∷ []))
          (create_point target label)
          (Made label)
  unfolding create_point
  create_point_rule label = record {
    at = λ t h.
        let (point, e) = env.deployment.create_recovery_point t label in
        Made-keeps label point e t h;
  }

  pub backup_step_rule :
      Body
        (Held stopped (done request quiesce ∷ done request (pull target) ∷ []))
        (backup_step target transaction)
        (λ point. Held stopped (secured_facts target point))
        (Delivers target transaction)
  unfolding backup_step
  backup_step_rule =
      bind_rule
        (check_rule (emit_rule "backup" "running" "")
          (resume_after_persistence_failure_rule observed target transaction "backup"))
        λ _. bind_rule (lift_rule (create_point_rule (update_label target))) λ made.
          bind_rule
            (check_rule
              {E = Either (Held stopped (backed_facts target (update_label target) made.0))
                (λ _. Held stopped (done request quiesce ∷ done request (pull target) ∷ []))}
              (pure_rule (λ t h. h)) backup_failure_rule)
            λ _.
              bind_rule
                (check_rule (mark_rule "backup" "succeeded" made.0 observed)
                  (λ e. restore_rule observed target (update_label target) made.0 transaction _))
                λ _. lift_rule (pure_rule (λ t h. h.1))
