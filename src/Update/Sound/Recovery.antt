-- ===== src/Update/Sound/Recovery.antt =====
-- The automatic restore keeps the protocol, and its result tells the truth.
use geoflow_updater.Prelude.{
  String, ◌≡◌, refl, inl, inr, true, false, Bool, some, List, [], ◌∷◌, Memᴰ, if◌then◌else◌,
}
use geoflow_updater.Managed.Release.{Release}
use geoflow_updater.Update.Journal.{
  request, detached, Call, Event, done, broken, created, pull, quiesce, quiesce_for_recovery,
  rollback, Trace, Observer, Env,
}
use geoflow_updater.Update.Engine.Recovery.{give_up, restore, resume_after_persistence_failure}
use geoflow_updater.Update.Protocol.{Level, stopped, Allowed, WasGivenUp, Delivers, WithinCall}
use geoflow_updater.Update.Triples.{
  Triple, run_body_rule, bind_rule, check_rule, lift_rule, pure_rule, weaken_rule,
}
use geoflow_updater.Update.Phases.{Held, Held-free, emit_rule, call_rule}
use geoflow_updater.Update.Sound.{resume_and_verify_rule}

-- The services stop and the recovery point is made.
abbrev pub backed_facts : Release → String → String → List Event
backed_facts target label point =
    created label point ∷ done request quiesce ∷ done request (pull target) ∷ []

abbrev pub recovery_quiesce : Bool → String → Call
recovery_quiesce b point = if b then quiesce_for_recovery point else quiesce

module _ (target : Release) (label point : String) where
  recovery_quiesce_within : (b : Bool) → WithinCall stopped (recovery_quiesce b point)
  recovery_quiesce_within true = refl
  recovery_quiesce_within false = refl

  recovery_quiesce-Allowed :
      (b : Bool) (t : Trace)
      → Held stopped (backed_facts target label point) t
      → Allowed t detached (recovery_quiesce b point)
  recovery_quiesce-Allowed true t h = (refl, (label, h.facts.0), h.within)
  recovery_quiesce-Allowed false t h = ((target, h.facts.1.1.0), h.within)

given_up_quiesce :
    (point e : String) (b : Bool) (t : Trace)
    → Memᴰ (broken detached (recovery_quiesce b point) e) t
    → WasGivenUp point t
given_up_quiesce point e true t m = (e, inr (inl m))
given_up_quiesce point e false t m = (e, inl m)

module _ ⦃env : Env⦄ (target : Release) (transaction : String) where
  give_up_rule :
      {es : List Event} {ev : Event} (point cause prefix e : String)
      → ((t : Trace) → Memᴰ ev t → WasGivenUp point t)
      → Triple
          (Held stopped (ev ∷ es))
          (give_up target point cause prefix e)
          (Delivers target transaction)
  unfolding give_up
  give_up_rule point cause prefix e why = record {
    at = λ t h.
        let h' = (emit_rule "rollback" "failed" _).at t h in
        (h'.sound, inr (inr (why _ h'.facts.0)), tt);
  }

module _ ⦃env : Env⦄ {o : Observer} (observed : env.observe ≡ some o) where
  pub restore_rule :
      (target : Release) (label point transaction cause : String)
      → Triple
          (Held stopped (backed_facts target label point))
          (restore target point transaction cause)
          (Delivers target transaction)
  unfolding restore
  restore_rule target label point transaction cause = run_body_rule (
      bind_rule (lift_rule (emit_rule "rollback" "running" "")) λ x.
        bind_rule
          (check_rule
            (call_rule detached _
              (recovery_quiesce_within target label point env.deployment.quiesces_for_recovery)
              (λ t h. h)
              (recovery_quiesce-Allowed target label point env.deployment.quiesces_for_recovery))
            (λ e.
              give_up_rule target transaction point _ _ e
                (given_up_quiesce point e env.deployment.quiesces_for_recovery)))
          λ _.
            bind_rule
              (check_rule
                (call_rule detached (rollback point transaction) refl (λ t h. h)
                  (λ t h. (refl, (label, h.facts.1.0), h.within)))
                (λ e.
                  give_up_rule target transaction point _ _ e
                    (λ t m. (e, inr (inr (transaction, m))))))
              λ _.
                bind_rule
                  (check_rule (emit_rule "rollback" "succeeded" "")
                    (λ e. pure_rule (λ t h. (h.sound, tt, refl))))
                  λ _.
                    bind_rule
                      (check_rule (weaken_rule Held-free (resume_and_verify_rule observed detached))
                        (λ e. pure_rule (λ t h. (h.sound, tt, refl))))
                      λ _. bind_rule (lift_rule (emit_rule "rolled_back" "succeeded" cause)) λ _.
                        lift_rule (
                          pure_rule (λ t h.
                            (h.sound, (h.facts.0, (h.facts.1.0, (h.facts.1.1.0, tt))), refl))))

  pub resume_after_persistence_failure_rule :
      {l : Level} {es : List Event} (target : Release) (transaction stage e : String)
      → Triple
          (Held l es)
          (resume_after_persistence_failure target stage e)
          (Delivers target transaction)
  unfolding resume_after_persistence_failure
  resume_after_persistence_failure_rule target transaction stage e = run_body_rule (
      bind_rule
        (check_rule (weaken_rule Held-free (resume_and_verify_rule observed detached))
          (λ x. pure_rule (λ t h. (h.sound, tt, refl))))
        λ _.
          bind_rule (lift_rule (emit_rule stage "failed" _))
            λ _. lift_rule (pure_rule (λ t h. (h.sound, inr (inl h.facts.1.0), tt))))
