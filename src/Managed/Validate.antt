-- ===== src/Managed/Validate.antt =====
-- `Release.Validate`, `InfrastructureImages` and `ValidateSelectedImages` of
-- internal/managed/release.go.
use Prim.Native.Nat.{◌+◌}
use geoflow_updater.Prelude.{
  ℕ, ◌*◌, String, Bool, true, false, not, ◌&&◌, ◌||◌, Option, none, some, List, [], ◌∷◌, length,
  all, leb, ◌==◌, str_eq, if◌then◌else◌,
}
use geoflow_updater.Prelude.Result.{ok, err, ◌>>=◌, ◌>>◌, require}
use geoflow_updater.Prelude.Regex.{
  codes, is_digit, is_lower, is_upper, is_hex, Class, matches, literal, some_of,
}
use geoflow_updater.Managed.Json.{Json, null, text, object, fields}
use geoflow_updater.Managed.Release.{Bytes, Release}
use geoflow_updater.Managed.Upgrade.{Checked, UpgradePlan, is_strategy_online}
use geoflow_updater.Managed.Decode.{decode_upgrade_plan}

-- A repository and a sha256 digest.
digest_of : String → String → Bool
unfolding is_hex matches
digest_of repository image = literal (codes repository) (matches ((64, is_hex) ∷ [])) (codes image)

unfoldable pub app_image_pattern : String → Bool
unfolding digest_of
app_image_pattern = digest_of "ghcr.io/yaojingang/geoflow-app@sha256:"

unfoldable pub web_image_pattern : String → Bool
unfolding digest_of
web_image_pattern = digest_of "ghcr.io/yaojingang/geoflow-web@sha256:"

unfoldable pub postgres_image_pattern : String → Bool
unfolding digest_of
postgres_image_pattern = digest_of "pgvector/pgvector@sha256:"

unfoldable pub redis_image_pattern : String → Bool
unfolding digest_of
redis_image_pattern = digest_of "redis@sha256:"

is_suffix : Class
unfolding is_digit is_lower is_upper
is_suffix c = is_digit c || is_upper c || is_lower c || c == b'.' || c == b'-'

-- The end of a version: nothing, or a mark and at least one character.
version_end : List ℕ → Bool
unfolding is_suffix
version_end [] = true
version_end (c ∷ []) = false
version_end (c ∷ d ∷ s) = (c == b'-' || c == b'+') && all is_suffix (d ∷ s)

unfoldable pub version_pattern : String → Bool
unfolding version_end is_digit
version_pattern s =
    some_of is_digit
      (literal (b'.' ∷ []) (some_of is_digit (literal (b'.' ∷ []) (some_of is_digit version_end))))
      (codes s)

-- The value of a key of a map.
abbrev pub image_of : String → List (String × String) → Option String
image_of major [] = none
image_of major ((key, image) ∷ rest) = if str_eq key major then some image else image_of major rest

abbrev pub is_image : (String → Bool) → Option String → Bool
is_image pattern none = false
is_image pattern (some image) = pattern image

unfoldable pub check_majors :
    List (String × String) → (String → Bool) → List String → Checked (Unit {0})
check_majors images pattern [] = ok tt
check_majors images pattern (major ∷ rest) = do
  require (is_image pattern (image_of major images)) "signed image is invalid"
  check_majors images pattern rest

unfoldable pub validate_image_set :
    List (String × String) → List String → (String → Bool) → Checked (Unit {0})
unfolding check_majors
validate_image_set images expected pattern = do
  require (length images == length expected) "signed image set is incomplete"
  check_majors images pattern expected

abbrev pub updater_protocol_version : ℕ
updater_protocol_version = 5

-- A name of a JSON field in lower case: encoding/json ignores the case of the fields that it looks
-- for. The long s folds to an s.
abbrev pub folded : List ℕ → List ℕ
folded [] = []
folded (c ∷ s) =
    (if leb b'A' c && leb c b'Z' then c + 32 else if c == 0x17f then b's' else c) ∷ folded s

abbrev same_codes : List ℕ → List ℕ → Bool
same_codes [] [] = true
same_codes (c ∷ s) (d ∷ t) = c == d && same_codes s t
same_codes s t = false

-- The field of a version document after the value of one more field.
abbrev after_field : Option String → Json → Option String
after_field found null = found
after_field found (text s) = some s
after_field found _ = none

unfoldable pub document_version : Option String → List (String × Json) → Option String
document_version none rest = none
document_version (some found) [] = some found
document_version (some found) ((key, value) ∷ rest) =
    document_version
      (if same_codes (folded (codes key)) (codes "version")
        then after_field (some found) value
        else some found)
      rest

abbrev version_of : Option Json → Option String
version_of none = none
version_of (some null) = some ""
version_of (some (object fs)) = document_version (some "") (fields fs)
version_of (some _) = none

abbrev is_version : String → Option String → Bool
is_version version none = false
is_version version (some v) = str_eq v version

abbrev pub minimum_for : UpgradePlan → ℕ
minimum_for plan = if is_strategy_online plan.strategy then 4 else 3

-- What encoding/json reads from a text: its one value, or none where it is no JSON or has more.
module _ (parse : Bytes → Option Json) where
  -- The rule that ties a release's plan to its protocol.
  unfoldable pub validate_release_plan : Release → Checked (Unit {0})
  unfolding decode_upgrade_plan
  validate_release_plan release =
      if not (length release.upgrade_plan == 0)
      then (do
        plan ← decode_upgrade_plan parse release.upgrade_plan
        require (leb (minimum_for plan) release.minimum_updater_protocol)
            "upgrade plan requires a newer minimum updater protocol")
      else require (not (leb 3 release.minimum_updater_protocol))
          "release is missing its signed upgrade plan"

  unfoldable pub validate_document : Release → Checked (Unit {0})
  unfolding document_version
  validate_document release = do
    require (leb (length release.version_document) (1024 * 1024))
        "signed version document exceeds the size limit"
    require
        (length release.version_document == 0
          || is_version release.version (version_of (parse release.version_document)))
        "signed version document does not match the release"

  unfoldable pub validate_release : Release → Checked (Unit {0})
  unfolding validate_release_plan validate_document validate_image_set version_pattern
      app_image_pattern web_image_pattern postgres_image_pattern redis_image_pattern
  validate_release release = do
    require (not (release.sequence == 0)) "release sequence must be positive"
    require (leb release.minimum_updater_protocol updater_protocol_version)
        "release requires a newer updater protocol"
    validate_release_plan release
    require (version_pattern release.version) "release version must be semantic"
    require (app_image_pattern release.app_image)
        "app image must use the official registry and a sha256 digest"
    require (web_image_pattern release.web_image)
        "web image must use the official registry and a sha256 digest"
    validate_image_set release.postgres_images ("16" ∷ "18" ∷ []) postgres_image_pattern
    validate_image_set release.redis_images ("7" ∷ "8" ∷ []) redis_image_pattern
    require (not (length release.compose_template == 0)) "managed Compose template is required"
    validate_document release

abbrev supported : Option String → String → Checked String
supported none message = err message
supported (some image) message = ok image

unfoldable pub infrastructure_images : Release → String → String → Checked (String × String)
unfolding postgres_image_pattern redis_image_pattern
infrastructure_images release postgres_major redis_major = do
  postgres ←
      supported (image_of postgres_major release.postgres_images)
        "signed release does not support the installed PostgreSQL major"
  redis ←
      supported (image_of redis_major release.redis_images)
        "signed release does not support the installed Redis major"
  require (postgres_image_pattern postgres && redis_image_pattern redis)
      "signed infrastructure image selection is invalid"
  ok (postgres, redis)

unfoldable pub validate_selected_images : String → String → String → String → Checked (Unit {0})
unfolding app_image_pattern web_image_pattern postgres_image_pattern redis_image_pattern
validate_selected_images app web postgres redis = do
  require (app_image_pattern app) "app image is not an official digest pin"
  require (web_image_pattern web) "web image is not an official digest pin"
  require (postgres_image_pattern postgres) "PostgreSQL image is not an official digest pin"
  require (redis_image_pattern redis) "Redis image is not an official digest pin"
