-- ===== src/Deployment/Failed.antt =====
-- `failRelease` of internal/deployment/bluegreen.go keeps to the protocol.
use geoflow_updater.Prelude.{◌≡◌, refl, String, Bool, true, ◌&&◌, [], ◌∷◌, str_eq}
use geoflow_updater.Prelude.Result.{Result, ok, err}
use geoflow_updater.Deployment.Journal.{Transaction, wait_containers, Run, Env}
use geoflow_updater.Deployment.Recover.{
  is_online, has_point, with_status, with_failure, undo, note_failure, note_unsaved, after_wait,
  fail_release,
}
use geoflow_updater.Deployment.Protocol.{waits}
use geoflow_updater.Deployment.Rules.{
  is_restorable, Held, any_state, Sound, After, Triple, forget, bind_rule, before_rule, if_rule,
  done_rule, then_rule, after_rule, try_rule,
}
use geoflow_updater.Deployment.Steps.{fail_rule, get_rule, fact_rule, save_rule, report_rule}
use geoflow_updater.Deployment.Undone.{
  update_rule, tried_rule, outcome-Sound, ignored-Sound, resume_source-Sound,
  restore_application-Sound, restore_before_traffic-Sound,
}

module _ ⦃env : Env⦄ where
  -- What is known of the transaction when it is undone.
  abbrev Undoing : Transaction → Run → Type 0
  Undoing tx s = Held any_state (waits ∷ []) s × (s.tx ≡ tx)

  Undoing-test :
      (test : Transaction → Bool) (tx : Transaction)
      → test tx ≡ true
      → (s : Run) → Undoing tx s
      → Held test (waits ∷ []) s
  Undoing-test test tx p s (h, e) = record {
    follows = h.follows;
    closed = h.closed;
    passes = rw e p;
    happened = h.happened;
  }

  Undoing-Sound : (tx : Transaction) (s : Run) → Undoing tx s → Sound s
  Undoing-Sound tx s h = forget any_state _ s h.0

  undo-Sound : (tx : Transaction) → Triple (Undoing tx) (undo tx) (λ u. Sound)
  unfolding undo
  undo-Sound tx =
      if_rule (is_online tx)
        (λ p.
          if_rule (str_eq tx.stage "drain")
            (λ q. before_rule (Undoing-Sound tx) (fail_rule any_state [] _))
            (λ q.
              before_rule
                (λ s h.
                  let k = Undoing-test is_online tx p s h in
                  record {
                    follows = k.follows;
                    closed = k.closed;
                    passes = k.passes;
                    happened = tt;
                  })
                (then_rule (after_rule (λ u. forget is_online []) restore_application-Sound)
                  (update_rule (with_status _) (λ t r. r)))))
        (λ p.
          if_rule (tx.traffic_opened && str_eq tx.stage "resume")
            (λ q.
              before_rule (Undoing-Sound tx)
                (then_rule resume_source-Sound (update_rule (with_status _) (λ t r. r))))
            (λ q.
              if_rule tx.traffic_opened
                (λ o. before_rule (Undoing-Sound tx) (fail_rule any_state [] _))
                (λ o.
                  if_rule (has_point tx)
                    (λ k. before_rule (Undoing-test is_restorable tx (rw o (rw p refl))) (
                      then_rule restore_before_traffic-Sound
                        (update_rule (with_status _) (λ t r. r))))
                    (λ k.
                      before_rule (Undoing-Sound tx)
                        (then_rule resume_source-Sound (update_rule (with_status _) (λ t r. r)))))))

  note_failure-Sound :
      (cause : String) (r : Result String (Unit {0}))
      → Triple Sound (note_failure cause r) (λ u. Sound)
  note_failure-Sound cause (ok nothing) = done_rule tt (λ s h. h)
  note_failure-Sound cause (err e) = update_rule (with_failure _) (λ t r. r)

  note_unsaved-Sound : (r : Result String (Unit {0})) → Triple Sound (note_unsaved r) (λ u. Sound)
  note_unsaved-Sound (ok nothing) = done_rule tt (λ s h. h)
  note_unsaved-Sound (err e) = update_rule _ (λ t r. r)

  after_wait-Sound :
      (cause : String) (r : Result String (Unit {0}))
      → Triple
          (λ s. After (λ u. Held any_state (waits ∷ [])) (s, r))
          (after_wait cause r)
          (λ o. Sound)
  unfolding after_wait
  after_wait-Sound cause (err e) =
      then_rule (update_rule (with_failure _) (λ t r. r))
        (then_rule (ignored-Sound (save_rule any_state [])) outcome-Sound)
  after_wait-Sound cause (ok nothing) = bind_rule (get_rule any_state _) λ before.
      tried_rule (undo-Sound before) λ undone. then_rule (note_failure-Sound cause undone) (
        tried_rule (save_rule any_state [])
          λ saved. then_rule (note_unsaved-Sound saved) outcome-Sound)

  -- `failRelease` keeps to the protocol.
  pub fail_release-Sound :
      (cause : String) (told : Bool) → Triple Sound (fail_release cause told) (λ o. Sound)
  unfolding fail_release
  fail_release-Sound cause told = then_rule (update_rule _ (λ t r. r)) (
      then_rule (ignored-Sound (save_rule any_state [])) (
        bind_rule (get_rule any_state []) λ tx.
          before_rule (λ s h. h.0)
            (then_rule
              (if_rule told (λ p. ignored-Sound (report_rule any_state [] tx.stage "failed"))
                (λ p. done_rule tt (λ s h. h)))
              (bind_rule
                (try_rule
                  (fact_rule any_state [] wait_containers waits (λ s h. tt) (λ e. refl) refl))
                λ waited. after_wait-Sound cause waited))))
