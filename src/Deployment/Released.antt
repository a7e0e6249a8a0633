-- ===== src/Deployment/Released.antt =====
-- A planned release keeps to the protocol: `ExecuteRelease` of internal/deployment/bluegreen.go.
use geoflow_updater.Prelude.{
  ◌≡◌, refl, inl, inr, Bool-cases, String, Bool, true, false, not, ◌||◌, Error, List, [], ◌∷◌,
  if◌then◌else◌, arith,
}
use geoflow_updater.Prelude.Result.{Result, ok, err}
use geoflow_updater.Deployment.Journal.{
  Config, Transaction, source, candidate, Call, prepare_release, copy_assets, quiesce, create_point,
  freeze_point, start_redis, wait_redis, online_backup, apply, verify, install_infrastructure,
  prepare_views, artisan_up, start, drain, start_background, drain_background, wait_http,
  switch_ingress, activate_slot, wait_workers, observe_release, Event, made, Log, Run, Env,
}
use geoflow_updater.Deployment.Task.{Task, call}
use geoflow_updater.Deployment.Recover.{is_maintenance}
use geoflow_updater.Deployment.Execute.{
  is_blue_green, step, prepare_candidate, pull_step, backup_step, layout_step, candidate_step,
  switch_step, workers_step, drain_step, secure, with_infrastructure, run_release, finish_release,
  released, execute_started,
}
use geoflow_updater.Deployment.Protocol.{opens, marks_opened, freezes, Allowed}
use geoflow_updater.Deployment.Rules.{
  Held, any_state, Sound, Triple, forget, bind_rule, before_rule, if_rule, done_rule, then_rule,
  after_rule, try_rule, wrap_rule,
}
use geoflow_updater.Deployment.Steps.{
  get_rule, modify_rule, look_rule, call_rule, fact_rule, save_rule, mark_rule, report_rule,
}
use geoflow_updater.Deployment.Undone.{
  is_opened, opened_closed, either_Sound, plain_rule, update_rule, tried_rule,
}
use geoflow_updater.Deployment.Failed.{fail_release-Sound}

module _ ⦃env : Env⦄ where
  -- A call of the release that needs nothing.
  simple :
      (c : Call)
      → ((log : Log) → Allowed c log)
      → ((e : Error) → opens (made c e) ≡ false)
      → Triple Sound (call c) (λ u. Sound)
  simple c a q = plain_rule any_state [] c a q

  step-Held :
      (facts more : List (Event → Bool)) (name : String) (body : Task (Unit {0}))
      → Triple (Held any_state facts) body (λ u. Held any_state more)
      → Triple (Held any_state facts) (step name body) (λ u. Held any_state more)
  unfolding step
  step-Held facts more name body h =
      then_rule (modify_rule any_state facts any_state _ (λ tx p. refl) (λ tx p r. r)) (
        then_rule (save_rule any_state facts) (
          then_rule (report_rule any_state facts name "running") (
            then_rule (wrap_rule name h) (
              then_rule (save_rule any_state more) (report_rule any_state more name "succeeded")))))

  step-Sound :
      (name : String) (body : Task (Unit {0}))
      → Triple Sound body (λ u. Sound)
      → Triple Sound (step name body) (λ u. Sound)
  step-Sound = step-Held [] []

  prepare_candidate-Sound :
      (change : Config → Config) → Triple Sound (prepare_candidate change) (λ u. Sound)
  unfolding prepare_candidate
  prepare_candidate-Sound change = bind_rule (get_rule any_state []) λ tx.
      before_rule (λ s h. h.0)
        (then_rule (simple (prepare_release "slot") (λ log. tt) (λ e. refl))
          (bind_rule (look_rule any_state [] _) λ config. update_rule _ (λ t r. r)))

  pull_step-Sound : Triple Sound pull_step (λ u. Sound)
  unfolding pull_step
  pull_step-Sound = then_rule (prepare_candidate-Sound _) (save_rule any_state [])

  -- A backup that succeeds has frozen its recovery point.
  backup_step-Held : Triple Sound backup_step (λ u. Held any_state (freezes ∷ []))
  unfolding backup_step
  backup_step-Held = then_rule (simple create_point (λ log. tt) (λ e. refl)) (
      bind_rule (look_rule any_state [] env.point) λ point.
        then_rule (update_rule _ (λ t r. r))
          (fact_rule any_state [] freeze_point freezes (λ s h. tt) (λ e. refl) refl))

  layout_step-Sound :
      (infrastructure : Config → Config) → Triple Sound (layout_step infrastructure) (λ u. Sound)
  unfolding layout_step
  layout_step-Sound infrastructure = then_rule (prepare_candidate-Sound infrastructure) (
      then_rule (update_rule _ (λ t r. r)) (
        then_rule (save_rule any_state []) (simple install_infrastructure (λ log. tt) (λ e. refl))))

  candidate_step-Sound : (tx : Transaction) → Triple Sound (candidate_step tx) (λ u. Sound)
  unfolding candidate_step
  candidate_step-Sound tx = then_rule (simple prepare_views (λ log. tt) (λ e. refl)) (
      then_rule (simple (start candidate _) (λ log. tt) (λ e. refl)) (
        then_rule
          (if_rule (is_maintenance tx) (λ p. simple artisan_up (λ log. tt) (λ e. refl))
            (λ p. done_rule tt (λ s h. h)))
          (then_rule (simple (verify _) (λ log. tt) (λ e. refl)) (
            then_rule (simple (wait_http candidate) (λ log. tt) (λ e. refl))
              (simple (copy_assets candidate) (λ log. tt) (λ e. refl))))))

  -- What a call that was tried came to is returned later.
  returned-Sound : (r : Result String (Unit {0})) → Triple Sound (λ s. (s, r)) (λ u. Sound)
  returned-Sound (ok nothing) = record { at = λ s h. h }
  returned-Sound (err e) = record { at = λ s h. h }

  -- The candidate is opened behind the mark.
  switch_step-Sound : (tx : Transaction) → Triple Sound (switch_step tx) (λ u. Sound)
  unfolding switch_step
  switch_step-Sound tx =
      then_rule
        (modify_rule any_state [] is_opened _ (λ t p. refl) (λ t p r. absurd (ground arith)))
        (then_rule (mark_rule is_opened [] (λ t p. p)) (
          bind_rule
            (try_rule (
              after_rule (λ u. forget is_opened (marks_opened ∷ []))
                (call_rule is_opened (marks_opened ∷ []) (switch_ingress candidate _)
                  (λ s h. h.happened.0) (λ t e p r. opened_closed t p r _))))
            λ switched.
              before_rule (λ s. either_Sound switched s)
                (bind_rule (look_rule any_state [] env.workers) λ workers.
                  then_rule (update_rule _ (λ t r. r)) (
                    then_rule (returned-Sound switched)
                      (simple (activate_slot candidate) (λ log. tt) (λ e. refl))))))

  workers_step-Sound : (tx : Transaction) → Triple Sound (workers_step tx) (λ u. Sound)
  unfolding workers_step
  workers_step-Sound tx =
      then_rule
        (if_rule (is_blue_green tx.source)
          (λ p. simple (drain_background source) (λ log. tt) (λ e. refl))
          (λ p. done_rule tt (λ s h. h)))
        (then_rule (simple (start_background candidate) (λ log. tt) (λ e. refl))
          (update_rule _ (λ t r. r)))

  drain_step-Sound : Triple Sound drain_step (λ u. Sound)
  unfolding drain_step
  drain_step-Sound = bind_rule (get_rule any_state []) λ tx.
      before_rule (λ s h. h.0)
        (then_rule (simple (drain source _) (λ log. tt) (λ e. refl)) (
          then_rule (simple (wait_workers candidate _) (λ log. tt) (λ e. refl))
            (simple (drain source _) (λ log. tt) (λ e. refl))))

  -- What is true once the data is secured.
  abbrev Secured : Bool → Run → Type 0
  Secured true = Held any_state (freezes ∷ [])
  Secured false = Sound

  secure-Secured : (tx : Transaction) → Triple Sound (secure tx) (λ u. Secured (is_maintenance tx))
  unfolding secure
  secure-Secured tx = elim (Bool-cases (is_maintenance tx)) [
    | inl p ↦ rw p (
        then_rule (step-Sound "quiesce" _ (simple quiesce (λ log. tt) (λ e. refl))) (
          then_rule (step-Held [] (freezes ∷ []) "backup" backup_step backup_step-Held) (
            then_rule (plain_rule any_state (freezes ∷ []) start_redis (λ log. tt) (λ e. refl))
              (plain_rule any_state (freezes ∷ []) wait_redis (λ log. tt) (λ e. refl)))))
    | inr p ↦ rw p (step-Sound "online-backup" _ (simple online_backup (λ log. tt) (λ e. refl)))
  ]

  -- Drained data is migrated only once it is secured.
  upgrade-Sound :
      (drained : Bool)
      → Triple (Secured drained) (step "upgrade" (call (apply drained))) (λ u. Sound)
  upgrade-Sound true =
      after_rule (λ u. forget any_state (freezes ∷ []))
        (step-Held (freezes ∷ []) (freezes ∷ []) "upgrade" _
          (call_rule any_state (freezes ∷ []) (apply true) (λ s h. h.happened.0) (λ t e p r. refl)))
  upgrade-Sound false = step-Sound "upgrade" _ (simple (apply false) (λ log. tt) (λ e. refl))

  with_infrastructure-Sound :
      (infrastructure : Config → Config) (tx : Transaction)
      → Triple Sound (with_infrastructure infrastructure tx) (λ u. Sound)
  unfolding with_infrastructure
  with_infrastructure-Sound infrastructure tx =
      bind_rule (look_rule any_state [] env.pins_match) λ pins.
        if_rule (not (is_blue_green tx.source) || not pins)
          (λ p. step-Sound "layout" _ (layout_step-Sound infrastructure))
          (λ p. done_rule tt (λ s h. h))

  opening-Sound :
      (tx : Transaction)
      → Triple Sound
          (if is_blue_green tx.source
            then step "pull" pull_step
            else step "retain-assets" (call (copy_assets source)))
          (λ u. Sound)
  opening-Sound tx =
      if_rule (is_blue_green tx.source) (λ p. step-Sound "pull" _ pull_step-Sound)
        (λ p. step-Sound "retain-assets" _ (simple (copy_assets source) (λ log. tt) (λ e. refl)))

  run_release-Sound :
      (infrastructure : Config → Config) (tx : Transaction)
      → Triple Sound (run_release infrastructure tx) (λ u. Sound)
  unfolding run_release
  run_release-Sound infrastructure tx = then_rule (opening-Sound tx) (
      then_rule (secure-Secured tx) (
        then_rule (upgrade-Sound (is_maintenance tx)) (
          then_rule (with_infrastructure-Sound infrastructure tx) (
            then_rule (step-Sound "candidate" _ (candidate_step-Sound tx)) (
              then_rule (step-Sound "switch" _ (switch_step-Sound tx)) (
                then_rule (step-Sound "workers" _ (workers_step-Sound tx)) (
                  then_rule
                    (step-Sound "observe" _ (simple observe_release (λ log. tt) (λ e. refl)))
                    (if_rule (is_blue_green tx.source) (λ p. step-Sound "drain" _ drain_step-Sound)
                      (λ p. done_rule tt (λ s h. h))))))))))

  finish_release-Sound : Triple Sound finish_release (λ u. Sound)
  unfolding finish_release
  finish_release-Sound =
      then_rule (update_rule _ (λ t r. r))
        (then_rule (save_rule any_state []) (report_rule any_state [] _ _))

  released-Sound : (r : Result String (Unit {0})) → Triple Sound (released r) (λ o. Sound)
  released-Sound (err e) = fail_release-Sound e true
  released-Sound (ok nothing) = bind_rule (get_rule any_state []) λ tx. done_rule _ (λ s h. h.0)

  pub execute_started-Sound :
      (infrastructure : Config → Config)
      → Triple Sound (execute_started infrastructure) (λ o. Sound)
  unfolding execute_started
  execute_started-Sound infrastructure = bind_rule (get_rule any_state []) λ tx.
      before_rule (λ s h. h.0)
        (tried_rule (then_rule (run_release-Sound infrastructure tx) finish_release-Sound)
          released-Sound)
