-- ===== src/Managed/RoundTrip.antt =====
-- The format of an upgrade plan, and that internal/managed/upgrade.go reads every valid plan back.
use geoflow_updater.Prelude.{
  ℕ, ◌^◌, ◌≡◌, refl, String, true, not, ◌&&◌, Option, some, List, [], ◌∷◌, map, length, All, ltb,
  leb, ◌==◌, arith,
}
use geoflow_updater.Prelude.Result.{ok}
use geoflow_updater.Managed.Json.{
  Json, bool, number, text, array, object, Items, nil, cons, end, field, items,
}
use geoflow_updater.Managed.Release.{Bytes}
use geoflow_updater.Managed.Upgrade.{
  UpgradePlan, UpgradeMigration, UpgradeStep, Compatibility, validate_plan,
}
use geoflow_updater.Managed.Steps.{IsStep}
use geoflow_updater.Managed.Valid.{
  IsSource, IsExecutable, validate_plan-IsExecutable, validate_plan-schema_version,
}
use geoflow_updater.Managed.Decode.{
  check_fields, upgrade_plan_object, check_entries, validate_upgrade_plan_fields, as_uint, each,
  as_migration, as_step, as_compatibility, as_plan, decode_upgrade_plan, parsed, upgrade_plan_limit,
  migration_keys, step_keys,
}

abbrev pub to_items : List Json → Items
to_items [] = nil
to_items (x ∷ xs) = cons x (to_items xs)

abbrev pub of_migration : UpgradeMigration → Json
of_migration m = object (
    field "name" (text m.name)
      (field "sha256" (text m.sha256) (field "online" (bool m.online) end)))

abbrev pub of_step : UpgradeStep → Json
of_step s = object (
    field "id" (text s.id) (
      field "kind" (text s.kind) (
        field "phase" (text s.phase) (
          field "timeout_seconds" (number s.timeout_seconds)
            (field "online" (bool s.online) end)))))

abbrev pub of_compatibility : Compatibility → Json
of_compatibility c = object (
    field "schema" (bool c.schema) (
      field "queue" (bool c.queue)
        (field "cache" (bool c.cache) (field "storage" (bool c.storage) end))))

-- The value that a plan is published as.
abbrev pub of_plan : UpgradePlan → Json
of_plan p = object (
    field "schema_version" (number p.schema_version) (
      field "strategy" (text p.strategy) (
        field "allowed_sources" (array (to_items (map number p.allowed_sources))) (
          field "migrations" (array (to_items (map of_migration p.migrations))) (
            field "compatibility" (of_compatibility p.compatibility)
              (field "steps" (array (to_items (map of_step p.steps))) end))))))

migrations_checked :
    (ms : List UpgradeMigration)
    → check_entries migration_keys (items (to_items (map of_migration ms))) ≡ ok tt
unfolding check_entries upgrade_plan_object check_fields
migrations_checked [] = refl
migrations_checked (m ∷ ms) = migrations_checked ms

steps_checked :
    (ss : List UpgradeStep) → check_entries step_keys (items (to_items (map of_step ss))) ≡ ok tt
unfolding check_entries upgrade_plan_object check_fields
steps_checked [] = refl
steps_checked (s ∷ ss) = steps_checked ss

fields_checked : (p : UpgradePlan) → validate_upgrade_plan_fields (of_plan p) ≡ ok tt
unfolding validate_upgrade_plan_fields upgrade_plan_object check_fields
fields_checked p = rw (migrations_checked p.migrations, steps_checked p.steps)

sources_read :
    (xs : List ℕ) → All IsSource xs → each as_uint (items (to_items (map number xs))) ≡ ok xs
sources_read [] h = refl
sources_read (x ∷ xs) h =
    let small : ltb x (2 ^ 64) ≡ true = ground (arith, h.0) in
    rw small (rw (sources_read xs h.1) refl)

migrations_read :
    (ms : List UpgradeMigration)
    → each as_migration (items (to_items (map of_migration ms))) ≡ ok ms
unfolding as_migration
migrations_read [] = refl
migrations_read (m ∷ ms) = rw (migrations_read ms)

steps_read :
    (strategy : String) (ss : List UpgradeStep)
    → All (IsStep strategy) ss
    → each as_step (items (to_items (map of_step ss))) ≡ ok ss
unfolding as_step
steps_read strategy [] h = refl
steps_read strategy (s ∷ ss) h =
    let small : ltb s.timeout_seconds (2 ^ 63) ≡ true = ground (arith, h.0.in_time.1) in
    rw small (rw (steps_read strategy ss h.1) refl)

plan_read : (p : UpgradePlan) → p.schema_version ≡ 1 → IsExecutable p → as_plan (of_plan p) ≡ ok p
unfolding as_plan as_compatibility
plan_read p one e =
    let small : ltb p.schema_version (2 ^ 63) ≡ true = ground (arith, one) in
    rw small (
      rw (sources_read p.allowed_sources e.sources)
        (rw (migrations_read p.migrations) (rw (steps_read p.strategy p.steps e.steps) refl)))

parsed_value :
    (parse : Bytes → Option Json) (contents : Bytes) (v : Json)
    → parse contents ≡ some v
    → parsed parse contents ≡ ok v
unfolding parsed
parsed_value parse contents v e = rw (e, parsed) refl

-- Every valid plan is decoded from the value that it is published as, where the text is read as that
-- value and is neither empty nor longer than the limit.
pub decode_upgrade_plan-of_plan :
    (parse : Bytes → Option Json) (contents : Bytes) (p : UpgradePlan)
    → validate_plan p ≡ ok tt
    → parse contents ≡ some (of_plan p)
    → (not (length contents == 0) && leb (length contents) upgrade_plan_limit) ≡ true
    → decode_upgrade_plan parse contents ≡ ok p
unfolding decode_upgrade_plan
decode_upgrade_plan-of_plan parse contents p v e fits =
    rw (fits, parsed_value parse contents (of_plan p) e)
      (rw (fields_checked p) (
        rw (plan_read p (validate_plan-schema_version p v) (validate_plan-IsExecutable p v))
          (rw v refl)))
