-- ===== src/Examples/Update.antt =====
-- An update of a release without an upgrade plan, with a deployment that answers every call.
use geoflow_updater.Prelude.{◌≡◌, refl, true, false, none, some, [], ◌∷◌}
use geoflow_updater.Managed.Release.{Release}
use geoflow_updater.Update.Journal.{Status, Options, Observer, Deployment}
use geoflow_updater.Update.Engine.Emit.{outcome}
use geoflow_updater.Update.Engine.Run.{has_plan, run_with_options}
use geoflow_updater.Update.Sound.Run.{DeliversSome, run_with_options-Delivers}
use geoflow_updater.Update.Sound.Complete.{run_with_options-succeeded}

abbrev sample_release : Release
sample_release = record {
  sequence = 3;
  minimum_updater_protocol = 1;
  version = "2.1.0";
  source_commit = "0123456789abcdef0123456789abcdef01234567";
  app_image = "registry/app@sha256:00";
  web_image = "registry/web@sha256:00";
  postgres_images = [];
  redis_images = [];
  compose_template = 1 ∷ [];
  version_document = 1 ∷ [];
  upgrade_plan = [];
}

abbrev sample_deployment : Deployment
sample_deployment = record {
  answer = λ t c k. none;
  resolve = λ t. (sample_release, none);
  create_recovery_point = λ t label. ("20240101T000000Z-01234567", none);
  freezes_checkpoints = true;
  quiesces_for_recovery = true;
  execute_release = none;
}

abbrev sample_observer : Observer
sample_observer = λ t stage. none

abbrev sample_options : Options
sample_options = record {
  pinned_target = none;
  legacy_request = true;
  allow_maintenance = false;
  expected_plan_sha256 = "";
  operation_id = "20240101T000000.000000000Z-0123456789abcdef";
}

run_with_options-Delivers_example :
    DeliversSome "20240101T000000.000000000Z-0123456789abcdef"
      (run_with_options
        (some sample_observer)
        (some sample_deployment)
        (λ r. none)
        sample_options
        []).0
      (run_with_options
        (some sample_observer)
        (some sample_deployment)
        (λ r. none)
        sample_options
        []).1
unfolding has_plan
run_with_options-Delivers_example =
    run_with_options-Delivers sample_observer sample_deployment (λ r. none) sample_options tt
      (λ t. refl)

run_with_options-succeeded_example :
    (run_with_options
      (some sample_observer)
      (some sample_deployment)
      (λ r. none)
      sample_options
      []).0
    ≡ outcome Status.succeeded sample_release "20240101T000000Z-01234567" ""
unfolding has_plan
run_with_options-succeeded_example =
    run_with_options-succeeded sample_observer sample_deployment (λ r. none) sample_options
      sample_release "20240101T000000Z-01234567" (λ t s. refl) (λ t c k. refl) (λ t. refl)
      (λ t label. refl) refl refl refl
