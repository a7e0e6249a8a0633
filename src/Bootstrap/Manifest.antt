-- ===== src/Bootstrap/Manifest.antt =====
-- `Manifest` of internal/bootstrap/manifest.go and its `Validate`. A time is the number of
-- nanoseconds since Go's zero time; a size is taken from zero on, as a negative one is refused like
-- zero.
use geoflow_updater.Prelude.{
  ℕ, ◌*◌, String, Bool, not, ◌&&◌, ◌||◌, List, [], ◌∷◌, ◌++◌, length, any, leb, ltb, ◌==◌, str_eq,
}
use geoflow_updater.Prelude.Result.{Result, ok, ◌>>◌, require}
use geoflow_updater.Prelude.Regex.{codes, literal}
use geoflow_updater.Coordination.Patterns.{hex64}
use geoflow_updater.Managed.Validate.{version_pattern}

pub record Asset : Type 0 where
  pub url : String
  pub sha256 : String
  pub size : ℕ  -- int64

pub record Manifest : Type 0 where
  pub schema_version : ℕ
  pub release_sequence : ℕ  -- uint64
  pub updater_version : String
  pub expires : ℕ  -- time.Time
  pub assets : List (String × Asset)

-- An error is known by its message.
abbrev pub Checked : Type 0 → Type 0
Checked A = Result String A

has_slash : List ℕ → Bool
has_slash = any (λ c. c == b'/')

-- `strings.HasPrefix`, and no slash in what `strings.TrimPrefix` leaves.
after_prefix : List ℕ → List ℕ → Bool
unfolding has_slash
after_prefix prefix url = literal prefix (λ rest. not (has_slash rest)) url

unfoldable pub release_prefix : String → List ℕ
release_prefix version =
    codes "https://github.com/yaojingang/geoflow-updater/releases/download/v"
    ++ (codes version ++ codes "/")

unfoldable pub check_assets : String → List (String × Asset) → Checked (Unit {0})
unfolding after_prefix
check_assets version [] = ok tt
check_assets version ((platform, asset) ∷ rest) = do
  require (str_eq platform "linux-amd64" || str_eq platform "linux-arm64")
      "unsupported bootstrap platform"
  require (after_prefix (release_prefix version) (codes asset.url))
      "asset URL is outside the official release"
  require (hex64 asset.sha256) "asset digest is invalid"
  require (leb 1 asset.size && leb asset.size (100 * 1024 * 1024))
      "asset size is outside the allowed range"
  check_assets version rest

-- `now` is zero where the expiry is not looked at.
unfoldable pub validate_manifest : Manifest → ℕ → Checked (Unit {0})
unfolding check_assets
validate_manifest m now = do
  require (m.schema_version == 1) "unsupported bootstrap manifest schema"
  require (not (m.release_sequence == 0)) "bootstrap release sequence is required"
  require (version_pattern m.updater_version) "updater version is invalid"
  require (not (m.expires == 0)) "bootstrap manifest expiry is required"
  require (now == 0 || ltb now m.expires) "bootstrap manifest has expired"
  require (not (length m.assets == 0)) "bootstrap manifest has no assets"
  check_assets m.updater_version m.assets
