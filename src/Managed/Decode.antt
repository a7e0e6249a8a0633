-- ===== src/Managed/Decode.antt =====
-- `DecodeUpgradePlan` of internal/managed/upgrade.go, from the JSON value on: the checks of the
-- fields, and what the decoder makes of them. The text is read by encoding/json.
use geoflow_updater.Prelude.{
  ℕ, ◌^◌, ◌*◌, String, Bool, true, false, not, ◌&&◌, Option, none, some, List, [], ◌∷◌, length, ltb,
  leb, ◌==◌, str_eq, if◌then◌else◌,
}
use geoflow_updater.Prelude.Result.{ok, err, ◌>>=◌, ◌>>◌, require}
use geoflow_updater.Managed.Json.{Json, null, bool, number, text, array, object, items, fields}
use geoflow_updater.Managed.Release.{Bytes}
use geoflow_updater.Managed.Upgrade.{
  Checked, UpgradePlan, UpgradeMigration, UpgradeStep, Compatibility, mem_text, validate_plan,
}

abbrev is_null : Json → Bool
is_null null = true
is_null _ = false

-- The loop of `upgradePlanObject` over the fields, with the names that it has seen.
unfoldable pub check_fields : List String → List String → List (String × Json) → Checked (Unit {0})
check_fields keys seen [] = ok tt
check_fields keys seen ((key, value) ∷ rest) = do
  require (mem_text key keys) "object contains an unknown field"
  require (not (mem_text key seen)) "duplicate field"
  require (not (is_null value)) "field cannot be null"
  check_fields keys (key ∷ seen) rest

unfoldable pub upgrade_plan_object : List String → Json → Checked (List (String × Json))
unfolding check_fields
upgrade_plan_object keys (object fs) = do
  check_fields keys [] (fields fs)
  require (length (fields fs) == length keys) "object is missing required fields"
  ok (fields fs)
upgrade_plan_object keys _ = err "expected an object"

-- The value of a field; one that is missing is no value of any kind.
abbrev pub get : String → List (String × Json) → Json
get name [] = null
get name ((key, value) ∷ rest) = if str_eq key name then value else get name rest

abbrev pub elements : Json → Checked (List Json)
elements (array xs) = ok (items xs)
elements _ = err "not an array"

unfoldable pub check_entries : List String → List Json → Checked (Unit {0})
unfolding upgrade_plan_object
check_entries keys [] = ok tt
check_entries keys (x ∷ rest) = do entry ← upgrade_plan_object keys x; check_entries keys rest

abbrev pub plan_keys : List String
plan_keys =
    "schema_version" ∷ "strategy" ∷ "allowed_sources" ∷ "migrations" ∷ "compatibility" ∷ "steps"
    ∷ []

abbrev pub compatibility_keys : List String
compatibility_keys = "schema" ∷ "queue" ∷ "cache" ∷ "storage" ∷ []

abbrev pub migration_keys : List String
migration_keys = "name" ∷ "sha256" ∷ "online" ∷ []

abbrev pub step_keys : List String
step_keys = "id" ∷ "kind" ∷ "phase" ∷ "timeout_seconds" ∷ "online" ∷ []

-- The two lists are checked in either order, which matters only to the choice of an error.
unfoldable pub validate_upgrade_plan_fields : Json → Checked (Unit {0})
unfolding upgrade_plan_object check_entries
validate_upgrade_plan_fields contents = do
  top ← upgrade_plan_object plan_keys contents
  inner ← upgrade_plan_object compatibility_keys (get "compatibility" top)
  migrations ← elements (get "migrations" top)
  check_entries migration_keys migrations
  steps ← elements (get "steps" top)
  check_entries step_keys steps

-- What the decoder makes of a value, by the type of the Go field that it goes into.
abbrev pub as_text : Json → Checked String
as_text (text s) = ok s
as_text _ = err "not a text"

abbrev pub as_bool : Json → Checked Bool
as_bool (bool b) = ok b
as_bool _ = err "not a boolean"

abbrev pub as_int : Json → Checked ℕ
as_int (number n) = if ltb n (2 ^ 63) then ok n else err "number out of range"
as_int _ = err "not a number"

-- A null in a list of numbers leaves the element at zero.
abbrev pub as_uint : Json → Checked ℕ
as_uint (number n) = if ltb n (2 ^ 64) then ok n else err "number out of range"
as_uint null = ok 0
as_uint _ = err "not a number"

-- Each element of a list.
abbrev pub each : {A : Type 0} → (Json → Checked A) → List Json → Checked (List A)
each decode [] = ok []
each decode (x ∷ rest) = do a ← decode x; others ← each decode rest; ok (a ∷ others)

abbrev pub as_list : {A : Type 0} → (Json → Checked A) → Json → Checked (List A)
as_list decode value = elements value >>= each decode

abbrev pub fields_of : Json → Checked (List (String × Json))
fields_of (object fs) = ok (fields fs)
fields_of _ = err "not an object"

unfoldable pub as_migration : Json → Checked UpgradeMigration
as_migration value = do
  fs ← fields_of value
  name ← as_text (get "name" fs)
  sha256 ← as_text (get "sha256" fs)
  online ← as_bool (get "online" fs)
  ok (record { name = name; sha256 = sha256; online = online })

unfoldable pub as_step : Json → Checked UpgradeStep
as_step value = do
  fs ← fields_of value
  id ← as_text (get "id" fs)
  kind ← as_text (get "kind" fs)
  phase ← as_text (get "phase" fs)
  timeout ← as_int (get "timeout_seconds" fs)
  online ← as_bool (get "online" fs)
  ok (record { id = id; kind = kind; phase = phase; timeout_seconds = timeout; online = online })

unfoldable pub as_compatibility : Json → Checked Compatibility
as_compatibility value = do
  fs ← fields_of value
  schema ← as_bool (get "schema" fs)
  queue ← as_bool (get "queue" fs)
  cache ← as_bool (get "cache" fs)
  storage ← as_bool (get "storage" fs)
  ok (record { schema = schema; queue = queue; cache = cache; storage = storage })

unfoldable pub as_plan : Json → Checked UpgradePlan
unfolding as_migration as_step as_compatibility
as_plan value = do
  fs ← fields_of value
  version ← as_int (get "schema_version" fs)
  strategy ← as_text (get "strategy" fs)
  sources ← as_list as_uint (get "allowed_sources" fs)
  migrations ← as_list as_migration (get "migrations" fs)
  compatibility ← as_compatibility (get "compatibility" fs)
  steps ← as_list as_step (get "steps" fs)
  ok (record {
    schema_version = version;
    strategy = strategy;
    allowed_sources = sources;
    migrations = migrations;
    compatibility = compatibility;
    steps = steps;
  })

abbrev pub upgrade_plan_limit : ℕ
upgrade_plan_limit = 1024 * 1024

-- What encoding/json reads from a text: its one value, or none where it is no JSON or has more.
module _ (parse : Bytes → Option Json) where
  unfoldable pub parsed : Bytes → Checked Json
  parsed contents = elim (parse contents) [
    | none ↦ err "decode upgrade plan"
    | some value ↦ ok value
  ]

  unfoldable pub decode_upgrade_plan : Bytes → Checked UpgradePlan
  unfolding validate_upgrade_plan_fields as_plan validate_plan
  decode_upgrade_plan contents = do
    require (not (length contents == 0) && leb (length contents) upgrade_plan_limit)
        "upgrade plan is missing or too large"
    value ← parsed contents
    validate_upgrade_plan_fields value
    plan ← as_plan value
    validate_plan plan
    ok plan
