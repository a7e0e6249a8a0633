-- ===== src/Examples/Managed.antt =====
-- A release with an online plan.
use geoflow_updater.Prelude.{◌≤◌, ◌≡◌, refl, String, true, Option, some, [], ◌∷◌}
use geoflow_updater.Prelude.Regex.{is_digit, is_lower, is_upper, is_hex, matches, matches_then}
use geoflow_updater.Prelude.Result.{ok}
use geoflow_updater.Coordination.Patterns.{hex64}
use geoflow_updater.Managed.Json.{Json}
use geoflow_updater.Managed.Release.{Bytes, Release}
use geoflow_updater.Managed.Upgrade.{
  UpgradePlan, is_online, migration_name_pattern, plan_step_pattern, check_sources,
  check_migrations, check_steps, validate_plan,
}
use geoflow_updater.Managed.Valid.{IsExecutable, validate_plan-IsExecutable}
use geoflow_updater.Managed.Decode.{
  check_fields, upgrade_plan_object, check_entries, validate_upgrade_plan_fields, as_migration,
  as_step, as_compatibility, as_plan, decode_upgrade_plan, parsed,
}
use geoflow_updater.Managed.RoundTrip.{of_plan, decode_upgrade_plan-of_plan}
use geoflow_updater.Managed.Validate.{
  app_image_pattern, web_image_pattern, postgres_image_pattern, redis_image_pattern,
  version_pattern, check_majors, validate_image_set, validate_release_plan, validate_document,
  validate_release,
}
use geoflow_updater.Managed.Planned.{IsPlanned, validate_release-IsPlanned}

abbrev digest : String
digest = "0123456789abcdef0123456789abcdef0123456789abcdef0123456789abcdef"

abbrev online_plan : UpgradePlan
online_plan = record {
  schema_version = 1;
  strategy = "online";
  allowed_sources = 41 ∷ 42 ∷ [];
  migrations = record { name = "2026_01_02_030405_add_index"; sha256 = digest; online = true } ∷ [];
  compatibility = record { schema = true; queue = true; cache = true; storage = true };
  steps =
      record {
        id = "migrate";
        kind = "migrate";
        phase = "apply";
        timeout_seconds = 600;
        online = true;
      }
      ∷ record {
        id = "warm";
        kind = "cache_warmup";
        phase = "apply";
        timeout_seconds = 60;
        online = true;
      }
      ∷ [];
}

online_plan_valid : validate_plan online_plan ≡ ok tt
unfolding validate_plan is_online check_sources check_migrations check_steps migration_name_pattern
    plan_step_pattern matches_then matches hex64 is_digit is_lower is_upper is_hex
online_plan_valid = refl

validate_plan-IsExecutable_example : IsExecutable online_plan
validate_plan-IsExecutable_example = validate_plan-IsExecutable online_plan online_plan_valid

-- A reader that knows one text.
abbrev pub reader : Bytes → Option Json
reader contents = some (of_plan online_plan)

decode_upgrade_plan-of_plan_example : decode_upgrade_plan reader (1 ∷ []) ≡ ok online_plan
decode_upgrade_plan-of_plan_example =
    decode_upgrade_plan-of_plan reader (1 ∷ []) online_plan online_plan_valid refl refl

abbrev pub sample_release : Release
sample_release = record {
  sequence = 43;
  minimum_updater_protocol = 4;
  version = "2.1.0";
  source_commit = "";
  app_image =
      "ghcr.io/yaojingang/geoflow-app@sha256:0123456789abcdef0123456789abcdef0123456789abcdef0123456789abcdef";
  web_image =
      "ghcr.io/yaojingang/geoflow-web@sha256:0123456789abcdef0123456789abcdef0123456789abcdef0123456789abcdef";
  postgres_images =
      (
        "16",
        "pgvector/pgvector@sha256:0123456789abcdef0123456789abcdef0123456789abcdef0123456789abcdef",
      )
      ∷ (
        "18",
        "pgvector/pgvector@sha256:0123456789abcdef0123456789abcdef0123456789abcdef0123456789abcdef",
      )
      ∷ [];
  redis_images =
      ("7", "redis@sha256:0123456789abcdef0123456789abcdef0123456789abcdef0123456789abcdef")
      ∷ ("8", "redis@sha256:0123456789abcdef0123456789abcdef0123456789abcdef0123456789abcdef")
      ∷ [];
  compose_template = 1 ∷ [];
  version_document = [];
  upgrade_plan = 1 ∷ [];
}

sample_release_valid : validate_release reader sample_release ≡ ok tt
unfolding validate_release validate_release_plan validate_document decode_upgrade_plan parsed
    validate_upgrade_plan_fields upgrade_plan_object check_fields check_entries as_plan as_migration
    as_step as_compatibility validate_plan is_online check_sources check_migrations check_steps
    migration_name_pattern plan_step_pattern matches_then matches hex64 is_digit is_lower is_upper
    is_hex version_pattern app_image_pattern web_image_pattern postgres_image_pattern
    redis_image_pattern validate_image_set check_majors
sample_release_valid = refl

validate_release-IsPlanned_example : IsPlanned reader sample_release × (4 ≤ 5)
validate_release-IsPlanned_example =
    validate_release-IsPlanned reader sample_release sample_release_valid
