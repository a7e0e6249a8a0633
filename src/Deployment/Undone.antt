-- ===== src/Deployment/Undone.antt =====
-- What undoes a release keeps to the protocol: internal/deployment/traffic.go.
use geoflow_updater.Prelude.{
  ◌≡◌, refl, String, Bool, Error, true, false, List, [], ◌∷◌, str_eq, arith,
}
use geoflow_updater.Prelude.Result.{Result, ok, err}
use geoflow_updater.Deployment.Journal.{
  Transaction, source, candidate, Call, Event, made, Log, start, drain, start_background,
  drain_background, drain_applications, wait_http, switch_ingress, activate_slot, wait_workers,
  prepare_restore, down_infrastructure, drain_redis, restore, resume, Run, Env,
}
use geoflow_updater.Deployment.Task.{Task, ◌>>=◌, done, get, modify, call, ignore, try}
use geoflow_updater.Deployment.Recover.{
  blue_green, is_online, at_resume, outcome_of, inspector, resume_source, restore_application,
  stop_applications, restore_before_traffic,
}
use geoflow_updater.Deployment.Protocol.{opens, marks_opened, waits, Allowed}
use geoflow_updater.Deployment.Rules.{
  is_restorable, Held, any_state, Sound, After, Triple, forget, bind_rule, before_rule, if_rule,
  done_rule, then_rule, after_rule, try_rule, ignore_rule, wrap_rule,
}
use geoflow_updater.Deployment.Steps.{
  fail_rule, get_rule, modify_rule, look_rule, call_rule, mark_rule,
}

abbrev pub is_opened : Transaction → Bool
is_opened tx = tx.traffic_opened

-- An online release never restores data.
pub online_closed :
    (tx : Transaction) → is_online tx ≡ true → is_restorable tx ≡ true → (x : Bool) → x ≡ false
online_closed tx p r x = absurd (ground arith)

-- Nor does one whose traffic was opened.
pub opened_closed :
    (tx : Transaction) → is_opened tx ≡ true → is_restorable tx ≡ true → (x : Bool) → x ≡ false
opened_closed tx p r x = absurd (ground arith)

pub either_Sound :
    {A : Type 0} (r : Result String A) (s : Run) → After (λ (a : A). Sound) (s, r) → Sound s
either_Sound (ok a) s h = h
either_Sound (err e) s h = h

module _ ⦃env : Env⦄ where
  -- A call that neither opens nor needs anything.
  pub plain_rule :
      (test : Transaction → Bool) (facts : List (Event → Bool)) (c : Call)
      → ((log : Log) → Allowed c log)
      → ((e : Error) → opens (made c e) ≡ false)
      → Triple (Held test facts) (call c) (λ u. Held test facts)
  plain_rule test facts c a q = call_rule test facts c (λ s h. a s.log) (λ tx e p r. q e)

  pub resume_source-Sound : Triple Sound resume_source (λ u. Sound)
  unfolding resume_source
  resume_source-Sound =
      then_rule
        (modify_rule any_state [] is_opened at_resume (λ tx p. refl)
          (λ tx p r. absurd (ground arith)))
        (then_rule (wrap_rule _ (mark_rule is_opened [] (λ tx p. p))) (
          after_rule (λ u. forget is_opened (marks_opened ∷ []))
            (call_rule is_opened (marks_opened ∷ []) resume (λ s h. h.happened.0)
              (λ tx e p r. opened_closed tx p r (opens (made resume e))))))

  -- The application of the source is only restored of an online release.
  pub restore_application-Sound :
      Triple (Held is_online []) restore_application (λ u. Held is_online [])
  unfolding restore_application
  restore_application-Sound = bind_rule (get_rule is_online []) λ tx.
      before_rule (λ s h. h.0)
        (then_rule
          (if_rule (str_eq tx.source.layout blue_green) (λ p. done_rule tt (λ s h. h))
            (λ p. fail_rule is_online [] _))
          (then_rule (plain_rule is_online [] (drain_background candidate) (λ log. tt) (λ e. refl))
            (then_rule (plain_rule is_online [] (start source _) (λ log. tt) (λ e. refl)) (
              then_rule (plain_rule is_online [] (wait_http source) (λ log. tt) (λ e. refl)) (
                bind_rule (look_rule is_online [] env.workers) λ workers.
                  (then_rule
                    (call_rule is_online [] (switch_ingress source true) (λ s h. tt)
                      (λ tx e p r. online_closed tx p r _))
                    (then_rule
                      (plain_rule is_online [] (activate_slot source) (λ log. tt) (λ e. refl))
                      (then_rule
                        (plain_rule is_online [] (start_background source) (λ log. tt) (λ e. refl))
                        (then_rule
                          (plain_rule is_online [] (drain candidate _) (λ log. tt) (λ e. refl))
                          (then_rule
                            (plain_rule is_online [] (wait_workers source workers) (λ log. tt)
                              (λ e. refl))
                            (plain_rule is_online [] (drain candidate _) (λ log. tt)
                              (λ e. refl))))))))))))

  stop_applications-Held :
      (tx : Transaction)
      → Triple
          (Held is_restorable (waits ∷ []))
          (stop_applications tx)
          (λ u. Held is_restorable (waits ∷ []))
  unfolding stop_applications
  stop_applications-Held tx =
      if_rule tx.layout_started
        (λ p.
          then_rule
            (plain_rule is_restorable _ (drain_applications candidate) (λ log. tt) (λ e. refl))
            (plain_rule is_restorable _ (down_infrastructure candidate) (λ log. tt) (λ e. refl)))
        (λ p.
          if_rule (str_eq tx.source.layout blue_green)
            (λ q. plain_rule is_restorable _ (drain_applications candidate) (λ log. tt) (λ e. refl))
            (λ q. done_rule tt (λ s h. h)))

  -- The data are restored while nothing was opened and no upgrade container is left.
  pub restore_before_traffic-Sound :
      Triple (Held is_restorable (waits ∷ [])) restore_before_traffic (λ u. Sound)
  unfolding restore_before_traffic
  restore_before_traffic-Sound = bind_rule (get_rule is_restorable _) λ tx.
      before_rule (λ s h. h.0)
        (then_rule
          (if_rule tx.traffic_opened (λ p. fail_rule is_restorable _ _)
            (λ p. done_rule tt (λ s h. h)))
          (then_rule
            (plain_rule is_restorable _ (prepare_restore (inspector tx)) (λ log. tt) (λ e. refl))
            (then_rule (stop_applications-Held tx) (
              then_rule
                (if_rule env.recoveries (λ p. done_rule tt (λ s h. h))
                  (λ p. fail_rule is_restorable _ _))
                (then_rule
                  (if_rule tx.layout_started (λ p. done_rule tt (λ s h. h))
                    (λ p. plain_rule is_restorable _ drain_redis (λ log. tt) (λ e. refl)))
                  (then_rule
                    (after_rule (λ u. forget is_restorable (waits ∷ []))
                      (call_rule is_restorable (waits ∷ []) restore
                        (λ s h. (h.closed h.passes, h.happened.0)) (λ tx e p r. refl)))
                    resume_source-Sound))))))

  -- A change that leaves the strategy and the traffic flag alone.
  pub update_rule :
      (change : Transaction → Transaction)
      → ((tx : Transaction) → is_restorable (change tx) ≡ true → is_restorable tx ≡ true)
      → Triple Sound (modify change) (λ u. Sound)
  update_rule change q = modify_rule any_state [] any_state change (λ tx p. refl) (λ tx p r. q tx r)

  -- Whatever a task that was tried came to, the rest starts from a sound state.
  pub tried_rule :
      {A B : Type 0} {P : Run → Type 0} {m : Task A} {f : Result String A → Task B}
      → Triple P m (λ a. Sound)
      → ((r : Result String A) → Triple Sound (f r) (λ b. Sound))
      → Triple P (try m >>= f) (λ b. Sound)
  tried_rule h k = bind_rule (try_rule h) λ r. before_rule (λ s. either_Sound r s) (k r)

  pub outcome-Sound : Triple Sound (get >>= λ tx. done (outcome_of tx)) (λ o. Sound)
  outcome-Sound = bind_rule (get_rule any_state []) λ tx. done_rule (outcome_of tx) (λ s h. h.0)

  pub ignored-Sound :
      {m : Task (Unit {0})} → Triple Sound m (λ u. Sound) → Triple Sound (ignore m) (λ u. Sound)
  ignored-Sound h = ignore_rule h (λ u s k. k)
