-- ===== src/Managed/Valid.antt =====
-- What `UpgradePlan.Validate` of internal/managed/upgrade.go guarantees to the engine.
use geoflow_updater.Prelude.{
  ℕ, ◌≤◌, ◌<◌, ◌^◌, ◌-◌, ◌≡◌, refl, String, Bool, true, false, not, ◌&&◌, ◌||◌, Bool-cases, inl,
  inr, ◌⊎◌, List, [], ◌∷◌, map, length, All, ltb, leb, ◌==◌, str_eq, eq_iff, arith,
}
use geoflow_updater.Prelude.Result.{ok, require, >>=-eq-ok, require-eq-ok}
use geoflow_updater.Coordination.Patterns.{hex64}
use geoflow_updater.Managed.Upgrade.{
  UpgradePlan, UpgradeMigration, is_online, check_sources, check_migrations, check_steps,
  validate_plan, is_strategy_online, is_empty, begins_with_migrate, step_kinds, mem_text, mem_nat,
  migration_name_pattern,
}
use geoflow_updater.Managed.Distinct.{Distinct, length-Distinct, IsApart, IsApart-cons}
use geoflow_updater.Managed.Steps.{
  IsStep, check_steps-AreSteps, all_known, length-kinds_of, kinds_of, ids_of,
}

-- A source is a positive number that the application can hold.
abbrev pub IsSource : ℕ → Type 0
IsSource n = (0 < n) × (n < 2 ^ 63)

abbrev pub DistinctNumbers : List ℕ → Type 0
DistinctNumbers [] = Unit
DistinctNumbers (x ∷ xs) = (mem_nat x xs ≡ false) × DistinctNumbers xs

abbrev Fresh : List ℕ → List ℕ → Type 0
Fresh seen xs = All (λ x. mem_nat x seen ≡ false) xs

Fresh-cons :
    (x : ℕ) (seen xs : List ℕ) → Fresh (x ∷ seen) xs → Fresh seen xs × (mem_nat x xs ≡ false)
Fresh-cons x seen [] h = (tt, refl)
Fresh-cons x seen (y ∷ xs) h =
    let (a, m) = Fresh-cons x seen xs h.1 in ((ground arith, a), ground arith)

pub record AreSources (seen xs : List ℕ) : Type 0 where
  pub each : All IsSource xs
  pub new : Fresh seen xs
  pub own : DistinctNumbers xs

source_lem :
    (x : ℕ) (seen : List ℕ)
    → not (x == 0 || ltb (2 ^ 63 - 1) x || mem_nat x seen) ≡ true
    → IsSource x × (mem_nat x seen ≡ false)
source_lem x seen h = (ground arith, ground arith)

check_sources-AreSources : (seen xs : List ℕ) → check_sources seen xs ≡ ok tt → AreSources seen xs
unfolding check_sources
check_sources-AreSources seen [] h = record { each = tt; new = tt; own = tt }
check_sources-AreSources seen (x ∷ xs) h =
    let (a, h₁) = require-eq-ok _ _ _ h in
    let (source, not_seen) = source_lem x seen a in
    let r = check_sources-AreSources (x ∷ seen) xs h₁ in
    let (others, once) = Fresh-cons x seen xs r.new in
    record { each = (source, r.each); new = (not_seen, others); own = (once, r.own) }

abbrev names_of : List UpgradeMigration → List String
names_of migrations = map (λ m. m.name) migrations

abbrev pub IsMigration : UpgradeMigration → Type 0
IsMigration m = (migration_name_pattern m.name ≡ true) × (hex64 m.sha256 ≡ true)

record AreMigrations (seen : List String) (migrations : List UpgradeMigration) : Type 0 where
  each : All IsMigration migrations
  new : IsApart seen (names_of migrations)
  own : Distinct (names_of migrations)

migration_lem :
    (m : UpgradeMigration) (seen : List String)
    → (migration_name_pattern m.name && hex64 m.sha256 && not (mem_text m.name seen)) ≡ true
    → IsMigration m × (mem_text m.name seen ≡ false)
migration_lem m seen h = ((ground arith, ground arith), ground arith)

check_migrations-AreMigrations :
    (seen : List String) (migrations : List UpgradeMigration)
    → check_migrations seen migrations ≡ ok tt
    → AreMigrations seen migrations
unfolding check_migrations
check_migrations-AreMigrations seen [] h = record { each = tt; new = tt; own = tt }
check_migrations-AreMigrations seen (m ∷ rest) h =
    let (a, h₁) = require-eq-ok _ _ _ h in
    let (valid, not_seen) = migration_lem m seen a in
    let r = check_migrations-AreMigrations (m.name ∷ seen) rest h₁ in
    let (others, once) = IsApart-cons m.name seen (names_of rest) r.new in
    record { each = (valid, r.each); new = (not_seen, others); own = (once, r.own) }

-- A plan that the engine may follow.
pub record IsExecutable (plan : UpgradePlan) : Type 0 where
  pub strategies : (plan.strategy ≡ "maintenance") ⊎ (plan.strategy ≡ "online")
  pub sources : All IsSource plan.allowed_sources
  pub sources_once : DistinctNumbers plan.allowed_sources
  pub migrations : All IsMigration plan.migrations
  pub migrations_once : Distinct (names_of plan.migrations)
  pub steps : All (IsStep plan.strategy) plan.steps
  pub ids_once : Distinct (ids_of plan.steps)
  pub kinds_once : Distinct (kinds_of plan.steps)
  pub first : begins_with_migrate plan.steps ≡ true
  pub count : (1 ≤ length plan.steps) × (length plan.steps ≤ 6)
  pub compatible :
      plan.strategy ≡ "online"
      → (is_empty plan.allowed_sources ≡ false) × (is_online plan.compatibility ≡ true)

online_lem :
    (strategy : String) (empty online : Bool)
    → not (is_strategy_online strategy && (empty || not online)) ≡ true
    → strategy ≡ "online"
    → (empty ≡ false) × (online ≡ true)
online_lem strategy empty online h e = ground (arith, eq_iff strategy "online")

strategy_lem :
    (strategy : String)
    → (str_eq strategy "maintenance" || is_strategy_online strategy) ≡ true
    → (strategy ≡ "maintenance") ⊎ (strategy ≡ "online")
strategy_lem strategy h = elim (Bool-cases (str_eq strategy "maintenance")) [
  | inl e ↦ inl ((eq_iff strategy "maintenance").0 e)
  | inr e ↦ inr ((eq_iff strategy "online").0 (ground arith))
]

both_right : (a b : Bool) → (a && b) ≡ true → b ≡ true
both_right a b h = ground arith

at_least_one : (n : ℕ) → (leb 1 n && leb n 32) ≡ true → 1 ≤ n
at_least_one n h = ground arith

pub required : (test : Bool) (failure : String) → require test failure ≡ ok tt → test ≡ true
required false failure h = cc
required true failure h = refl

-- A plan that passes `Validate` can be followed: its sources are distinct positive numbers, its
-- migrations and steps are known and distinct, it has one to six steps, the first of which migrates,
-- and an online plan names its sources, keeps every data contract and has online steps only.
pub validate_plan-IsExecutable :
    (plan : UpgradePlan) → validate_plan plan ≡ ok tt → IsExecutable plan
unfolding validate_plan
validate_plan-IsExecutable plan h =
    let (a, h₁) = require-eq-ok _ _ _ h in
    let (_, b, h₂) = >>=-eq-ok (check_sources [] plan.allowed_sources) _ h₁ in
    let (c, h₃) = require-eq-ok _ _ _ h₂ in
    let (_, d, h₄) = >>=-eq-ok (check_migrations [] plan.migrations) _ h₃ in
    let (e, h₅) = require-eq-ok _ _ _ h₄ in
    let (_, f, h₆) = >>=-eq-ok (check_steps plan.strategy [] [] plan.steps) _ h₅ in
    let sources = check_sources-AreSources [] plan.allowed_sources b in
    let migrations = check_migrations-AreMigrations [] plan.migrations d in
    let steps = check_steps-AreSteps plan.strategy [] [] plan.steps f in
    let few =
      length-Distinct (kinds_of plan.steps) step_kinds steps.own_kinds
        (all_known plan.strategy plan.steps steps.each) in
    record {
      strategies = strategy_lem plan.strategy (both_right (plan.schema_version == 1) _ a);
      sources = sources.each;
      sources_once = sources.own;
      migrations = migrations.each;
      migrations_once = migrations.own;
      steps = steps.each;
      ids_once = steps.own_ids;
      kinds_once = steps.own_kinds;
      first = required (begins_with_migrate plan.steps) _ h₆;
      count = (at_least_one (length plan.steps) e, omega (arith, few, length-kinds_of plan.steps));
      compatible =
          online_lem plan.strategy (is_empty plan.allowed_sources) (is_online plan.compatibility) c;
    }

schema_lem : (version : ℕ) (b : Bool) → (version == 1 && b) ≡ true → version ≡ 1
schema_lem version b h = ground arith

pub validate_plan-schema_version :
    (plan : UpgradePlan) → validate_plan plan ≡ ok tt → plan.schema_version ≡ 1
unfolding validate_plan
validate_plan-schema_version plan h =
    let (a, _) = require-eq-ok _ _ _ h in schema_lem plan.schema_version _ a
