-- ===== src/Managed/Steps.antt =====
-- What the loop of `UpgradePlan.Validate` over the steps guarantees, in internal/managed/upgrade.go.
use geoflow_updater.Prelude.{
  ◌≤◌, ◌≡◌, refl, String, true, false, not, ◌&&◌, List, [], ◌∷◌, map, length, All, leb, str_eq,
  eq_iff, arith,
}
use geoflow_updater.Prelude.Result.{ok, require-eq-ok}
use geoflow_updater.Managed.Upgrade.{
  UpgradeStep, check_steps, is_strategy_online, step_kinds, mem_text, plan_step_pattern,
}
use geoflow_updater.Managed.Distinct.{Distinct, IsApart, IsApart-cons}

abbrev pub kinds_of : List UpgradeStep → List String
kinds_of steps = map (λ s. s.kind) steps

abbrev pub ids_of : List UpgradeStep → List String
ids_of steps = map (λ s. s.id) steps

-- One step of a valid plan.
pub record IsStep (strategy : String) (s : UpgradeStep) : Type 0 where
  pub phase : s.phase ≡ "apply"
  pub in_time : (1 ≤ s.timeout_seconds) × (s.timeout_seconds ≤ 7200)
  pub known : mem_text s.kind step_kinds ≡ true
  pub stays_online : strategy ≡ "online" → s.online ≡ true

pub record AreSteps (strategy : String) (ids kinds : List String) (steps : List UpgradeStep)
    : Type 0 where
  pub each : All (IsStep strategy) steps
  pub new_ids : IsApart ids (ids_of steps)
  pub new_kinds : IsApart kinds (kinds_of steps)
  pub own_ids : Distinct (ids_of steps)
  pub own_kinds : Distinct (kinds_of steps)

step_lem :
    (strategy : String) (ids kinds : List String) (s : UpgradeStep)
    → (plan_step_pattern s.id
        && not (mem_text s.id ids)
        && not (mem_text s.kind kinds)
        && str_eq s.phase "apply"
        && leb 1 s.timeout_seconds
        && leb s.timeout_seconds 7200)
      ≡ true
    → mem_text s.kind step_kinds ≡ true
    → not (is_strategy_online strategy && not s.online) ≡ true
    → IsStep strategy s × (mem_text s.id ids ≡ false) × (mem_text s.kind kinds ≡ false)
step_lem strategy ids kinds s h k o = (
  record {
    phase = ground (arith, eq_iff s.phase "apply");
    in_time = ground arith;
    known = k;
    stays_online = λ e. ground (arith, eq_iff strategy "online");
  },
  ground arith,
  ground arith,
)

pub check_steps-AreSteps :
    (strategy : String) (ids kinds : List String) (steps : List UpgradeStep)
    → check_steps strategy ids kinds steps ≡ ok tt
    → AreSteps strategy ids kinds steps
unfolding check_steps
check_steps-AreSteps strategy ids kinds [] h = record {
  each = tt;
  new_ids = tt;
  new_kinds = tt;
  own_ids = tt;
  own_kinds = tt;
}
check_steps-AreSteps strategy ids kinds (s ∷ rest) h =
    let (a, h₁) = require-eq-ok _ _ _ h in
    let (b, h₂) = require-eq-ok _ _ _ h₁ in
    let (c, h₃) = require-eq-ok _ _ _ h₂ in
    let (one_step, new_id, new_kind) = step_lem strategy ids kinds s a b c in
    let r = check_steps-AreSteps strategy (s.id ∷ ids) (s.kind ∷ kinds) rest h₃ in
    let (other_ids, id_once) = IsApart-cons s.id ids (ids_of rest) r.new_ids in
    let (other_kinds, kind_once) = IsApart-cons s.kind kinds (kinds_of rest) r.new_kinds in
    record {
      each = (one_step, r.each);
      new_ids = (new_id, other_ids);
      new_kinds = (new_kind, other_kinds);
      own_ids = (id_once, r.own_ids);
      own_kinds = (kind_once, r.own_kinds);
    }

pub all_known :
    (strategy : String) (steps : List UpgradeStep)
    → All (IsStep strategy) steps
    → All (λ z. mem_text z step_kinds ≡ true) (kinds_of steps)
all_known strategy [] h = tt
all_known strategy (s ∷ rest) h = (h.0.known, all_known strategy rest h.1)

pub length-kinds_of : (steps : List UpgradeStep) → length (kinds_of steps) ≡ length steps
length-kinds_of [] = refl
length-kinds_of (s ∷ rest) = rw (length-kinds_of rest)
