-- ===== src/Update/Sound.antt =====
-- The engine keeps its protocol: one triple for each part of internal/update/engine.go.
pub mod Recovery
pub mod Steps
pub mod Protected
pub mod Run
pub mod Complete
use geoflow_updater.Prelude.{
  String, ◌≡◌, refl, inl, inr, Option, none, some, List, [], ◌∷◌, Memᴰ, All, Error,
}
use geoflow_updater.Managed.Release.{Release}
use geoflow_updater.Update.Journal.{
  Status, Result, Context, request, detached, Call, Event, recorded, done, broken, quiesce,
  quiesce_for_recovery, rollback, resume, verify, Trace, Observer, Env,
}
use geoflow_updater.Update.Routine.{Act, pure}
use geoflow_updater.Update.Engine.Emit.{
  stage_of, emit, call, fail, persistence_failure, failure, outcome, resume_services,
  resume_and_verify,
}
use geoflow_updater.Update.Protocol.{
  Level, calm, stopped, free, IsNewest, Facts, Allowed, IsSound, Delivers,
}
use geoflow_updater.Update.Triples.{
  Triple, run_body_rule, bind_rule, check_rule, lift_rule, give_back_rule, pure_rule, weaken_rule,
  strengthen_rule,
}
use geoflow_updater.Update.Phases.{
  Either, Held, Held-free, Held-stopped, forget, Marked, emit_rule, mark_rule, call_rule,
}

module _ ⦃env : Env⦄ {o : Observer} (observed : env.observe ≡ some o) where
  -- The boundary is at the head of the journal when the services are started.
  pub resume_services_rule :
      {es : List Event} (c : Context)
      → Triple
          (Held free es)
          (resume_services c)
          (Either (Held free (done c resume ∷ es)) (λ _. Held free es))
  unfolding resume_services
  resume_services_rule c = run_body_rule (
      bind_rule (check_rule (mark_rule "resume" "running" "" observed) (λ e. pure_rule (λ t h. h)))
        λ _.
          bind_rule
            (check_rule (call_rule c resume tt (λ t h. forget t h.1) (λ t h. h.0))
              (λ e. record { at = λ t h. (emit_rule "resume" "failed" e).at t (forget t h) }))
            λ _.
              bind_rule
                (check_rule (emit_rule "resume" "succeeded" "")
                  (λ e. pure_rule (λ t h. forget t h)))
                λ _. lift_rule (pure_rule (λ t h. h)))

  pub resume_and_verify_rule :
      {es : List Event} (c : Context)
      → Triple
          (Held free es)
          (resume_and_verify c)
          (Either (Held free (done c verify ∷ done c resume ∷ es)) (λ _. Held free es))
  unfolding resume_and_verify
  resume_and_verify_rule c = run_body_rule (
      bind_rule (check_rule (resume_services_rule c) (λ e. pure_rule (λ t h. h))) λ _.
        bind_rule
          (check_rule (mark_rule "verify" "running" "" observed)
            (λ e. pure_rule (λ t h. forget t h)))
          λ _.
            bind_rule
              (check_rule
                (call_rule c verify tt (λ t h. forget t h.1) (λ t h. (h.0, (c, h.1.facts.1.0))))
                (λ e. record {
                  at = λ t h. (emit_rule "verify" "failed" e).at t (forget t (forget t h));
                }))
              λ _.
                bind_rule
                  (check_rule (emit_rule "verify" "succeeded" "")
                    (λ e. pure_rule (λ t h. forget t (forget t h))))
                  λ _. lift_rule (pure_rule (λ t h. h)))

-- A failure before anything was stopped.
module _ ⦃env : Env⦄ (r : Release) (transaction : String) where
  pub fail_calm_rule :
      {es : List Event} (stage e : String)
      → Triple (Held calm es) (fail stage e) (Delivers r transaction)
  unfolding fail
  fail_calm_rule stage e = record {
    at = λ t h. let h' = (emit_rule stage "failed" e).at t h in (h'.sound, inl h'.within, tt);
  }

  pub persistence_failure_rule :
      {es : List Event} (stage e : String)
      → Triple (Held calm es) (persistence_failure stage e) (Delivers r transaction)
  unfolding persistence_failure
  persistence_failure_rule stage e = fail_calm_rule stage _

  -- A failure after the services were started again.
  pub fail_restarted_rule :
      {es : List Event} (stage e : String)
      → Triple (Held free (done detached resume ∷ es)) (fail stage e) (Delivers r transaction)
  unfolding fail
  fail_restarted_rule stage e = record {
    at =
        λ t h. let h' = (emit_rule stage "failed" e).at t h in (h'.sound, inr (inl h'.facts.0), tt);
  }
