-- ===== src/Deployment/Sound.antt =====
-- Whatever a host answers, what finishes an interrupted release and what switches a completed one
-- back keep to the protocol: `ReconcileRelease` and `SwitchBack` of internal/deployment.
use geoflow_updater.Prelude.{
  ◌≡◌, refl, subst, String, Bool, true, false, not, ◌&&◌, Option, [], str_eq, arith,
}
use geoflow_updater.Prelude.Result.{Result, ok, err}
use geoflow_updater.Managed.Json.{Json}
use geoflow_updater.Managed.Release.{Bytes}
use geoflow_updater.Deployment.Journal.{
  Transaction, source, candidate, load_config, require_ready, drain, wait_workers, Run, Env,
}
use geoflow_updater.Deployment.Task.{done, fail, get, modify}
use geoflow_updater.Deployment.Recover.{Outcome, is_online}
use geoflow_updater.Deployment.Reconcile.{
  Reading, not_exist, unreadable, found, read_transaction, is_settled, finish_drain, after_drain,
  after_reverb, note_save, refuse_recovery, reconcile_found, reconcile_read, reconcile_release,
  read_found, admit_switch_back, reported_back, saved_back, restored_back, told_back, admitted_back,
  switch_back,
}
use geoflow_updater.Deployment.Protocol.{Follows}
use geoflow_updater.Deployment.Rules.{
  is_restorable, Held, any_state, Sound, After, Triple, forget, bind_rule, before_rule, done_rule,
  then_rule, after_rule, try_rule,
}
use geoflow_updater.Deployment.Steps.{get_rule, save_rule, report_rule}
use geoflow_updater.Deployment.Undone.{
  online_closed, either_Sound, plain_rule, update_rule, tried_rule, ignored-Sound,
  restore_application-Sound,
}
use geoflow_updater.Deployment.Failed.{fail_release-Sound}
use geoflow_updater.Deployment.Trace.{
  Before, Ends, Traced, Ends-Follows, bind_traced, before_traced, try_traced, if_traced,
  given_traced, done_traced, sound_traced, require_traced, pure_traced, look_traced, call_traced,
  save_traced, modify_traced, Before-log, tried-Before,
}

-- An online release, and one that may be resumed, never restores data.
resumable_closed :
    (tx : Transaction)
    → not (is_online tx) && not (str_eq tx.stage "resume" && tx.traffic_opened) ≡ false
    → is_restorable tx ≡ true
    → (x : Bool) → x ≡ false
resumable_closed tx p r x = absurd (ground arith)

module _ ⦃env : Env⦄ where
  finish_drain-Sound : Triple Sound finish_drain (λ u. Sound)
  unfolding finish_drain
  finish_drain-Sound = bind_rule (get_rule any_state []) λ tx.
      before_rule (λ s h. h.0)
        (then_rule (plain_rule any_state [] (wait_workers candidate _) (λ log. tt) (λ e. refl)) (
          then_rule (plain_rule any_state [] (drain source _) (λ log. tt) (λ e. refl))
            (then_rule (update_rule _ (λ t r. r)) (save_rule any_state []))))

  after_drain-Sound : (r : Result String (Unit {0})) → Triple Sound (after_drain r) (λ o. Sound)
  unfolding after_drain
  after_drain-Sound (ok nothing) = bind_rule (get_rule any_state []) λ tx. done_rule _ (λ s h. h.0)
  after_drain-Sound (err e) =
      bind_rule (get_rule any_state []) λ tx. before_rule (λ s h. h.0) (fail_release-Sound _ false)

  after_reverb-Sound : (r : Result String (Unit {0})) → Triple Sound (after_reverb r) (λ o. Sound)
  unfolding after_reverb
  after_reverb-Sound (err e) = fail_release-Sound e false
  after_reverb-Sound (ok nothing) = tried_rule finish_drain-Sound after_drain-Sound

  note_save-Before :
      (r : Result String (Unit {0})) → Traced (Before false) (note_save r) (λ u. Before false)
  note_save-Before (ok nothing) = done_traced tt (λ s h. h)
  note_save-Before (err e) = modify_traced false _

  -- A recovery that is refused makes no call.
  refuse_recovery-Before : Traced (Before false) refuse_recovery (λ o s. Follows s.log)
  unfolding refuse_recovery get
  refuse_recovery-Before = bind_traced (modify_traced false _) λ u.
      bind_traced (try_traced (save_traced false)) λ saved.
        before_traced (λ s. tried-Before (λ u. Before false) saved s (λ a h. h.follows))
          (bind_traced (note_save-Before saved) λ u.
            bind_traced (pure_traced false (λ s. ok s.tx)) λ tx. done_traced _ (λ s h. h.follows))

  -- A run whose transaction cannot be restored any more.
  known :
      {tx : Transaction}
      → not (is_online tx) && not (str_eq tx.stage "resume" && tx.traffic_opened) ≡ false
      → (s : Run) → Before false s × (s.tx ≡ tx)
      → Sound s
  known {tx} q s (h, e) = record {
    follows = h.follows;
    closed = λ r. resumable_closed tx q (subst (λ t. is_restorable t ≡ true) e r) _;
    passes = refl;
    happened = tt;
  }

  reconcile_found-Before :
      (tx : Transaction)
      → Traced (λ s. Before false s × (s.tx ≡ tx)) (reconcile_found tx) (λ o s. Follows s.log)
  unfolding reconcile_found
  reconcile_found-Before tx =
      if_traced (is_settled tx.status) (λ p. done_traced _ (λ s h. h.0.follows))
        λ p.
          if_traced (not (is_online tx) && not (str_eq tx.stage "resume" && tx.traffic_opened))
            (λ q. before_traced (λ s h. h.0) refuse_recovery-Before)
            (λ q.
              if_traced (is_online tx && str_eq tx.stage "drain")
                (λ d.
                  sound_traced (known q)
                    (tried_rule (plain_rule any_state [] (drain source _) (λ log. tt) (λ e. refl))
                      after_reverb-Sound)
                    (λ a s h. h.follows))
                (λ d. sound_traced (known q) (fail_release-Sound _ false) (λ a s h. h.follows)))

  reconcile_read-Before :
      (operation_id : String) (reading : Reading)
      → Traced (Before false) (reconcile_read operation_id reading) (λ o s. Follows s.log)
  unfolding reconcile_read modify
  reconcile_read-Before operation_id not_exist = done_traced _ (λ s h. h.follows)
  reconcile_read-Before operation_id (unreadable e) = done_traced _ (λ s h. h.follows)
  reconcile_read-Before operation_id (found tx) =
      if_traced (not (str_eq tx.operation_id operation_id)) (λ p. done_traced _ (λ s h. h.follows))
        λ p.
          bind_traced {Q = λ u s. Before false s × (s.tx ≡ tx)}
            (record { at = λ s h. (record { follows = h.follows; closed = h.closed }, refl) })
            λ u. bind_traced (reconcile_found-Before tx) λ outcome. done_traced _ (λ s h. h)

  reported_back-Sound : (r : Result String (Unit {0})) → Triple Sound (reported_back r) (λ o. Sound)
  reported_back-Sound (err e) = done_rule _ (λ s h. h)
  reported_back-Sound (ok nothing) =
      bind_rule (get_rule any_state []) λ tx. done_rule _ (λ s h. h.0)

  saved_back-Sound : (r : Result String (Unit {0})) → Triple Sound (saved_back r) (λ o. Sound)
  saved_back-Sound (err e) = done_rule _ (λ s h. h)
  saved_back-Sound (ok nothing) = tried_rule (report_rule any_state [] _ _) reported_back-Sound

  restored_back-Sound : (r : Result String (Unit {0})) → Triple Sound (restored_back r) (λ o. Sound)
  restored_back-Sound (err e) =
      then_rule (update_rule _ (λ t r. r))
        (then_rule (ignored-Sound (save_rule any_state [])) (done_rule _ (λ s h. h)))
  restored_back-Sound (ok nothing) =
      then_rule (update_rule _ (λ t r. r)) (tried_rule (save_rule any_state []) saved_back-Sound)

  told_back-Sound :
      (r : Result String (Unit {0}))
      → Triple (λ s. After (λ u. Held is_online []) (s, r)) (told_back r) (λ o. Sound)
  told_back-Sound (err e) = fail_release-Sound e false
  told_back-Sound (ok nothing) =
      bind_rule (try_rule (after_rule (λ u. forget is_online []) restore_application-Sound))
        λ restored. before_rule (λ s. either_Sound restored s) (restored_back-Sound restored)

  admitted_back-Before :
      (r : Result String (Unit {0}))
      → Traced (λ s. Ends (λ u. Held is_online []) (s, r)) (admitted_back r) (λ o s. Follows s.log)
  admitted_back-Before (err e) = done_traced _ (λ s h. h)
  admitted_back-Before (ok nothing) =
      sound_traced (λ s h. h) (bind_rule (try_rule (report_rule is_online [] _ _)) told_back-Sound)
        (λ a s h. h.follows)

  read_found-Before :
      (reading : Reading) → Traced (Before false) (read_found reading) (λ tx. Before false)
  unfolding done fail
  read_found-Before not_exist = record { at = λ s h. h.follows }
  read_found-Before (unreadable e) = record { at = λ s h. h.follows }
  read_found-Before (found tx) = record { at = λ s h. h }

  -- What is admitted to a switch back is an online release.
  admit_switch_back-Held :
      (parse : Bytes → Option Json) (id operation_id : String)
      → Traced (Before false) (admit_switch_back parse id operation_id) (λ u. Held is_online [])
  unfolding admit_switch_back modify
  admit_switch_back-Held parse id operation_id =
      bind_traced (call_traced false require_ready (λ log. tt) (λ e. refl)) λ u.
        bind_traced (require_traced false _ _) λ u.
          before_traced (λ s h. h.0)
            (bind_traced (pure_traced false _) λ reading.
              bind_traced (read_found-Before reading) λ tx.
                bind_traced (require_traced false _ _) λ u. given_traced λ p.
                  bind_traced (call_traced false load_config (λ log. tt) (λ e. refl)) λ u.
                    bind_traced (look_traced false env.config) λ config.
                      bind_traced (require_traced false _ _) λ u.
                        before_traced (λ s h. h.0)
                          (bind_traced {Q = λ u. Held is_online []}
                            (record {
                              at = λ s h. record {
                                follows = h.follows;
                                closed = λ r. online_closed tx (ground arith) r _;
                                passes = ground arith;
                                happened = tt;
                              };
                            })
                            λ u. sound_traced (λ s h. h) (save_rule is_online []) (λ a s h. h)))

  switch_back-Before :
      (parse : Bytes → Option Json) (id operation_id : String)
      → Traced (Before false) (switch_back parse id operation_id) (λ o s. Follows s.log)
  unfolding switch_back
  switch_back-Before parse id operation_id =
      bind_traced (try_traced (admit_switch_back-Held parse id operation_id))
        λ admitted. admitted_back-Before admitted

-- An interrupted release that is reconciled keeps to the protocol.
pub reconcile_release-Follows :
    (env : Env) (parse : Bytes → Option Json) (id operation_id : String) (s : Run)
    → Follows s.log
    → Follows (reconcile_release parse ⦃env = env⦄ id operation_id s).0.log
unfolding reconcile_release
reconcile_release-Follows env parse id operation_id s h =
    Ends-Follows {A = Option Outcome} (reconcile_release parse ⦃env = env⦄ id operation_id s) (
      (reconcile_read-Before ⦃env = env⦄ operation_id
          (read_transaction parse ⦃env = env⦄ id s.file)).at
        s (Before-log s h))

-- A switch back keeps to the protocol.
pub switch_back-Follows :
    (env : Env) (parse : Bytes → Option Json) (id operation_id : String) (s : Run)
    → Follows s.log
    → Follows (switch_back parse ⦃env = env⦄ id operation_id s).0.log
switch_back-Follows env parse id operation_id s h =
    Ends-Follows {A = Outcome} (switch_back parse ⦃env = env⦄ id operation_id s)
      ((switch_back-Before ⦃env = env⦄ parse id operation_id).at s (Before-log s h))
