-- ===== src/Managed/Upgrade.antt =====
-- The upgrade plan of internal/managed/upgrade.go: `Validate`, `AllowsSource` and `Online`.
use geoflow_updater.Prelude.{
  ℕ, ◌^◌, ◌-◌, String, Bool, true, false, not, ◌&&◌, ◌||◌, List, [], ◌∷◌, length, any, all, leb,
  ltb, ◌==◌, str_eq, if◌then◌else◌,
}
use geoflow_updater.Prelude.Result.{Result, ok, ◌>>◌, require}
use geoflow_updater.Prelude.Regex.{codes, is_digit, is_lower, is_upper, Class, matches_then, one}
use geoflow_updater.Coordination.Patterns.{hex64}

pub record UpgradeMigration : Type 0 where
  pub name : String
  pub sha256 : String
  pub online : Bool

pub record UpgradeStep : Type 0 where
  pub id : String
  pub kind : String
  pub phase : String
  pub timeout_seconds : ℕ
  pub online : Bool

pub record Compatibility : Type 0 where
  pub schema : Bool
  pub queue : Bool
  pub cache : Bool
  pub storage : Bool

pub record UpgradePlan : Type 0 where
  pub schema_version : ℕ
  pub strategy : String
  pub allowed_sources : List ℕ
  pub migrations : List UpgradeMigration
  pub compatibility : Compatibility
  pub steps : List UpgradeStep

-- An error is known by its message.
abbrev pub Checked : Type 0 → Type 0
Checked A = Result String A

unfoldable pub is_online : Compatibility → Bool
is_online c = c.schema && c.queue && c.cache && c.storage

-- `migrationNamePattern`: a date and a number, and then at least one character of a name.
is_name : Class
unfolding is_lower is_upper is_digit
is_name c = is_lower c || is_upper c || is_digit c || c == b'_'

is_named : List ℕ → Bool
unfolding is_name
is_named [] = false
is_named (c ∷ s) = all is_name (c ∷ s)

unfoldable pub migration_name_pattern : String → Bool
unfolding is_named is_digit matches_then
migration_name_pattern s =
    matches_then is_named
      ((4, is_digit)
        ∷ one b'_'
        ∷ (2, is_digit)
        ∷ one b'_'
        ∷ (2, is_digit)
        ∷ one b'_'
        ∷ (6, is_digit)
        ∷ one b'_'
        ∷ [])
      (codes s)

unfoldable pub plan_step_pattern : String → Bool
unfolding is_lower is_digit
plan_step_pattern s = elim (codes s) [
  | [] ↦ false
  | c ∷ rest ↦
      is_lower c
      && leb (length rest) 63
      && all (λ x. is_lower x || is_digit x || x == b'_' || x == b'-') rest
]

-- Whether a list holds a number or a text.
abbrev pub mem_nat : ℕ → List ℕ → Bool
mem_nat n = any (λ x. x == n)

abbrev pub mem_text : String → List String → Bool
mem_text s = any (λ x. str_eq x s)

-- The loops of `Validate`: what was seen so far is the map that the loop fills.
unfoldable pub check_sources : List ℕ → List ℕ → Checked (Unit {0})
check_sources seen [] = ok tt
check_sources seen (source ∷ rest) = do
  require (not (source == 0 || ltb (2 ^ 63 - 1) source || mem_nat source seen))
      "upgrade plan source sequences must be unique positive application integers"
  check_sources (source ∷ seen) rest

unfoldable pub check_migrations : List String → List UpgradeMigration → Checked (Unit {0})
unfolding migration_name_pattern
check_migrations seen [] = ok tt
check_migrations seen (m ∷ rest) = do
  require (migration_name_pattern m.name && hex64 m.sha256 && not (mem_text m.name seen))
      "upgrade plan migration identity is invalid or duplicated"
  check_migrations (m.name ∷ seen) rest

abbrev pub step_kinds : List String
step_kinds =
    "migrate" ∷ "retrieval_backfill" ∷ "managed_images" ∷ "security_audit" ∷ "system_knowledge"
    ∷ "cache_warmup" ∷ []

abbrev pub is_strategy_online : String → Bool
is_strategy_online s = str_eq s "online"

unfoldable pub check_steps :
    String → List String → List String → List UpgradeStep → Checked (Unit {0})
unfolding plan_step_pattern
check_steps strategy ids kinds [] = ok tt
check_steps strategy ids kinds (s ∷ rest) = do
  require
      (plan_step_pattern s.id
        && not (mem_text s.id ids)
        && not (mem_text s.kind kinds)
        && str_eq s.phase "apply"
        && leb 1 s.timeout_seconds
        && leb s.timeout_seconds 7200)
      "upgrade step identity, phase, or timeout is invalid"
  require (mem_text s.kind step_kinds) "upgrade plan contains an unsupported step kind"
  require (not (is_strategy_online strategy && not s.online))
      "online plan contains a maintenance step"
  check_steps strategy (s.id ∷ ids) (s.kind ∷ kinds) rest

abbrev pub begins_with_migrate : List UpgradeStep → Bool
begins_with_migrate [] = false
begins_with_migrate (s ∷ rest) = str_eq s.kind "migrate"

abbrev pub is_empty {ℓ} : {A : Type ℓ} → List A → Bool
is_empty [] = true
is_empty (x ∷ xs) = false

unfoldable pub validate_plan : UpgradePlan → Checked (Unit {0})
unfolding is_online check_sources check_migrations check_steps
validate_plan plan = do
  require
      (plan.schema_version == 1
        && (str_eq plan.strategy "maintenance" || is_strategy_online plan.strategy))
      "upgrade plan schema or strategy is unsupported"
  check_sources [] plan.allowed_sources
  require
      (not (
        is_strategy_online plan.strategy
        && (is_empty plan.allowed_sources || not (is_online plan.compatibility))))
      "online plan requires explicit source releases and data compatibility"
  check_migrations [] plan.migrations
  require (leb 1 (length plan.steps) && leb (length plan.steps) 32)
      "upgrade plan requires between one and 32 steps"
  check_steps plan.strategy [] [] plan.steps
  require (begins_with_migrate plan.steps) "upgrade plan must begin with the migration step"

unfoldable pub allows_source : UpgradePlan → ℕ → Bool
allows_source plan sequence =
    if str_eq plan.strategy "maintenance" && is_empty plan.allowed_sources
    then true
    else any (λ allowed. sequence == allowed) plan.allowed_sources
