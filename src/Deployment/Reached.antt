-- ===== src/Deployment/Reached.antt =====
-- The states that a host may reach with one planned release of internal/deployment: it is executed,
-- interrupted at any point, reconciled by a later process, and switched back.
use geoflow_updater.Prelude.{◌≡◌, refl, subst, String, Bool, true, false, Option, [], ◌∷◌, ◌++◌}
use geoflow_updater.Prelude.Result.{Result, ok, err}
use geoflow_updater.Managed.Json.{Json}
use geoflow_updater.Managed.Release.{Bytes, Release}
use geoflow_updater.Update.Journal.{Options}
use geoflow_updater.Deployment.Journal.{
  Config, load_config, preflight, read_version, make_preparation, pull_images, inspect, slot_free,
  prepare_release, made, wrote, reported, Log, Run, Env,
}
use geoflow_updater.Deployment.Task.{done, fail, modify, require}
use geoflow_updater.Deployment.Recover.{Outcome}
use geoflow_updater.Deployment.Reconcile.{
  Reading, not_exist, unreadable, found, reconcile_release, switch_back,
}
use geoflow_updater.Deployment.Admit.{
  check_previous, check_options, choose_strategy, prepare_transaction, fail_before, is_own,
  first_saved, transaction_prepared, execute_release,
}
use geoflow_updater.Deployment.Protocol.{Follows}
use geoflow_updater.Deployment.Rules.{any_state, Sound}
use geoflow_updater.Deployment.Steps.{save_rule}
use geoflow_updater.Deployment.Released.{execute_started-Sound}
use geoflow_updater.Deployment.Trace.{
  Before, Ends, Traced, Ends-Follows, bind_traced, before_traced, try_traced, if_traced,
  done_traced, weaken_traced, ignore_traced, sound_traced, require_traced, pure_traced, look_traced,
  call_traced, report_traced, Before-log,
}
use geoflow_updater.Deployment.Sound.{reconcile_release-Follows, switch_back-Follows}

module _ ⦃env : Env⦄ where
  test_traced :
      (b : Bool) (message : String) → Traced (Before true) (require b message) (λ u. Before true)
  test_traced b message = weaken_traced (λ a s h. h.0) (require_traced true b message)

  check_previous-Before :
      (reading : Reading) → Traced (Before true) (check_previous reading) (λ u. Before true)
  unfolding done fail
  check_previous-Before not_exist = record { at = λ s h. h }
  check_previous-Before (unreadable e) = record { at = λ s h. h.follows }
  check_previous-Before (found tx) = test_traced _ _

  check_options-Before :
      (options : Options) (strategy digest : String)
      → Traced (Before true) (check_options options strategy digest) (λ u. Before true)
  unfolding check_options
  check_options-Before options strategy digest = bind_traced (test_traced _ _) λ u. test_traced _ _

  fail_before-Before :
      (release : Release) (e : String)
      → Traced (λ s. Follows s.log) (fail_before release e) (λ o s. Follows s.log)
  unfolding fail_before
  fail_before-Before release e =
      before_traced (λ s. Before-log s)
        (bind_traced
          (ignore_traced
            (weaken_traced (λ a s h. h.follows) (report_traced false "preflight" "failed")))
          λ u. done_traced _ (λ s h. h))

  module _ (parse : Bytes → Option Json) where
    choose_strategy-Before :
        (config : Config) (release : Release)
        → Traced (Before true) (choose_strategy parse config release) (λ u. Before true)
    unfolding choose_strategy
    choose_strategy-Before config release = bind_traced (pure_traced true _) λ plan.
        bind_traced (test_traced _ _) λ u. bind_traced (look_traced true env.pins_match) λ pins.
          bind_traced (look_traced true env.eligible_online)
            λ eligible. bind_traced (test_traced _ _) λ u. done_traced _ (λ s h. h)

    -- Everything before the transaction is first written opens nothing.
    prepare_transaction-Sound :
        (id : String) (release : Release) (options : Options)
        → Traced (Before true) (prepare_transaction parse id release options) (λ u. Sound)
    unfolding prepare_transaction modify
    prepare_transaction-Sound id release options = bind_traced (test_traced _ _) λ u.
        bind_traced (call_traced true load_config (λ log. tt) (λ e. refl)) λ u.
          bind_traced (look_traced true env.config) λ config.
            bind_traced (call_traced true preflight (λ log. tt) (λ e. refl)) λ u.
              bind_traced (pure_traced true _) λ reading.
                bind_traced (check_previous-Before reading) λ u.
                  bind_traced (call_traced true (slot_free _) (λ log. tt) (λ e. refl)) λ u.
                    bind_traced (call_traced true read_version (λ log. tt) (λ e. refl)) λ u.
                      bind_traced (look_traced true env.contents) λ version.
                        bind_traced (call_traced true make_preparation (λ log. tt) (λ e. refl)) λ u.
                          bind_traced (call_traced true (prepare_release _) (λ log. tt) (λ e. refl))
                            λ u. bind_traced (look_traced true _) λ candidate.
                              bind_traced (call_traced true pull_images (λ log. tt) (λ e. refl))
                                λ u.
                                  bind_traced (call_traced true inspect (λ log. tt) (λ e. refl))
                                    λ u.
                                      bind_traced (choose_strategy-Before config release)
                                        λ strategy. bind_traced (pure_traced true _) λ digest.
                                          bind_traced (check_options-Before options strategy digest)
                                            λ u. record {
                                              at = λ s h. record {
                                                follows = h.follows;
                                                closed = λ r. h.closed refl;
                                                passes = refl;
                                                happened = tt;
                                              };
                                            }

    first_saved-Before :
        (id : String) (release : Release) (options : Options) (infrastructure : Config → Config)
        (r : Result String (Unit {0}))
        → Traced
            (λ s. Ends (λ u. Sound) (s, r))
            (first_saved parse id release options infrastructure r)
            (λ o s. Follows s.log)
    unfolding first_saved
    first_saved-Before id release options infrastructure (ok nothing) =
        sound_traced (λ s h. h) (execute_started-Sound infrastructure) (λ a s h. h.follows)
    first_saved-Before id release options infrastructure (err e) =
        bind_traced {Q = λ r s. Follows s.log} (record { at = λ s h. h })
          λ reading.
            if_traced (is_own options.operation_id reading) (λ p. done_traced _ (λ s h. h))
              (λ p. fail_before-Before release e)

    transaction_prepared-Before :
        (id : String) (release : Release) (options : Options) (infrastructure : Config → Config)
        (r : Result String (Unit {0}))
        → Traced
            (λ s. Ends (λ u. Sound) (s, r))
            (transaction_prepared parse id release options infrastructure r)
            (λ o s. Follows s.log)
    transaction_prepared-Before id release options infrastructure (err e) =
        fail_before-Before release e
    transaction_prepared-Before id release options infrastructure (ok nothing) =
        bind_traced (try_traced (sound_traced (λ s h. h) (save_rule any_state []) (λ a s h. h)))
          (first_saved-Before id release options infrastructure)

    execute_release-Before :
        (id : String) (release : Release) (options : Options) (infrastructure : Config → Config)
        → Traced
            (Before true)
            (execute_release parse id release options infrastructure)
            (λ o s. Follows s.log)
    unfolding execute_release
    execute_release-Before id release options infrastructure =
        bind_traced (try_traced (prepare_transaction-Sound id release options))
          (transaction_prepared-Before id release options infrastructure)

-- A release that is executed keeps to the protocol.
execute_release-Follows :
    (env : Env) (parse : Bytes → Option Json) (id : String) (release : Release) (options : Options)
    (infrastructure : Config → Config) (s : Run)
    → s.log ≡ []
    → Follows (execute_release parse ⦃env = env⦄ id release options infrastructure s).0.log
execute_release-Follows env parse id release options infrastructure s p =
    Ends-Follows {A = Outcome}
      (execute_release parse ⦃env = env⦄ id release options infrastructure s)
      ((execute_release-Before ⦃env = env⦄ parse id release options infrastructure).at s
        (record { follows = rw p tt; closed = λ u. rw p refl }))

-- What a release may have done to a host, each time with other answers: it is executed; it is
-- interrupted, so that the newest events are not there, and the memory and the file are any; a later
-- process reconciles it, or switches back from it.
pub data Reached (parse : Bytes → Option Json) (id : String) : Run → Type 0 where
  executed :
      (env : Env) (release : Release) (options : Options) (infrastructure : Config → Config)
      (s : Run)
      → s.log ≡ []
      → Reached parse id (execute_release parse ⦃env = env⦄ id release options infrastructure s).0
  interrupted :
      (s t : Run) (newer : Log) → s.log ≡ newer ++ t.log → Reached parse id s → Reached parse id t
  reconciled :
      (env : Env) (operation_id : String) (s : Run)
      → Reached parse id s
      → Reached parse id (reconcile_release parse ⦃env = env⦄ id operation_id s).0
  switched :
      (env : Env) (operation_id : String) (s : Run)
      → Reached parse id s
      → Reached parse id (switch_back parse ⦃env = env⦄ id operation_id s).0

Follows-older : (newer log : Log) → Follows (newer ++ log) → Follows log
Follows-older [] log h = h
Follows-older (made c e ∷ newer) log h = Follows-older newer log h.1
Follows-older (wrote b w ∷ newer) log h = Follows-older newer log h
Follows-older (reported name status e ∷ newer) log h = Follows-older newer log h

-- Whatever a host answers, and however often a planned release is interrupted, reconciled and
-- switched back: data is restored only while nothing was opened since the release began and no
-- upgrade container is left, the candidate is opened and the source resumed only behind a durable
-- mark, and drained data is migrated only after its checkpoint was frozen.
pub reached-Follows :
    (parse : Bytes → Option Json) (id : String) (s : Run) → Reached parse id s → Follows s.log
reached-Follows parse id _ (executed env release options infrastructure t p) =
    execute_release-Follows env parse id release options infrastructure t p
reached-Follows parse id _ (interrupted s t newer p r) =
    Follows-older newer t.log (subst Follows p (reached-Follows parse id s r))
reached-Follows parse id _ (reconciled env operation_id t r) =
    reconcile_release-Follows env parse id operation_id t (reached-Follows parse id t r)
reached-Follows parse id _ (switched env operation_id t r) =
    switch_back-Follows env parse id operation_id t (reached-Follows parse id t r)
