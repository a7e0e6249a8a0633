-- ===== src/Managed/Planned.antt =====
-- What `Release.Validate` of internal/managed/release.go guarantees of the upgrade plan.
use geoflow_updater.Prelude.{
  ℕ, ◌≤◌, ◌≡◌, ◌⊎◌, refl, subst, inl, inr, Bool, true, false, not, Option, length, leb, ◌==◌,
  eq_iff, if◌then◌else◌, arith,
}
use geoflow_updater.Prelude.Result.{ok, ◌>>=◌, require, >>=-eq-ok, require-eq-ok, ok-injective}
use geoflow_updater.Managed.Json.{Json}
use geoflow_updater.Managed.Release.{Bytes, Release}
use geoflow_updater.Managed.Upgrade.{Checked, UpgradePlan, validate_plan}
use geoflow_updater.Managed.Valid.{IsExecutable, validate_plan-IsExecutable, required}
use geoflow_updater.Managed.Decode.{
  decode_upgrade_plan, validate_upgrade_plan_fields, as_plan, parsed,
}
use geoflow_updater.Managed.Validate.{validate_release_plan, validate_release, minimum_for}
use geoflow_updater.Managed.Images.{passed}

-- Which branch of a test gave a result.
taken :
    (test : Bool) (x y : Checked (Unit {0}))
    → (if test then x else y) ≡ ok tt
    → ((test ≡ true) × (x ≡ ok tt)) ⊎ ((test ≡ false) × (y ≡ ok tt))
taken true x y h = inl (refl, h)
taken false x y h = inr (refl, h)

module _ (parse : Bytes → Option Json) where
  -- A plan that was decoded passed `Validate`.
  decoded-valid :
      (contents : Bytes) (plan : UpgradePlan)
      → decode_upgrade_plan parse contents ≡ ok plan
      → validate_plan plan ≡ ok tt
  unfolding decode_upgrade_plan
  decoded-valid contents plan h =
      let (_, h₁) = require-eq-ok _ _ _ h in
      let (value, _, h₂) = >>=-eq-ok (parsed parse contents) _ h₁ in
      let (_, _, h₃) = >>=-eq-ok (validate_upgrade_plan_fields value) _ h₂ in
      let (p, _, h₄) = >>=-eq-ok (as_plan value) _ h₃ in
      let (_, v, e) = >>=-eq-ok (validate_plan p) _ h₄ in
      subst (λ q. validate_plan q ≡ ok tt) (ok-injective e) v

  -- The plan of a release: none, and the protocol may be any up to 2, or one that the engine may
  -- follow, with the protocol that its strategy needs.
  abbrev pub IsPlanned : Release → Type 0
  IsPlanned release =
      ((length release.upgrade_plan ≡ 0) × (release.minimum_updater_protocol ≤ 2))
      ⊎ ((plan : UpgradePlan) × (decode_upgrade_plan parse release.upgrade_plan ≡ ok plan)
          × IsExecutable plan
          × (3 ≤ release.minimum_updater_protocol)
          × (plan.strategy ≡ "online" → 4 ≤ release.minimum_updater_protocol))

  minimum_lem :
      (plan : UpgradePlan) (n : ℕ)
      → leb (minimum_for plan) n ≡ true
      → (3 ≤ n) × (plan.strategy ≡ "online" → 4 ≤ n)
  minimum_lem plan n h = (ground arith, λ e. ground (arith, eq_iff plan.strategy "online"))

  with_plan :
      (release : Release)
      → (decode_upgrade_plan parse release.upgrade_plan >>= λ plan.
          require
            (leb (minimum_for plan) release.minimum_updater_protocol)
            "upgrade plan requires a newer minimum updater protocol")
        ≡ ok tt
      → IsPlanned release
  with_plan release h =
      let (plan, d, k) = >>=-eq-ok (decode_upgrade_plan parse release.upgrade_plan) _ h in
      let (low, online) = minimum_lem plan release.minimum_updater_protocol (required _ _ k) in
      inr (
        plan,
        d,
        validate_plan-IsExecutable plan (decoded-valid release.upgrade_plan plan d),
        low,
        online,
      )

  planned : (release : Release) → validate_release_plan parse release ≡ ok tt → IsPlanned release
  unfolding validate_release_plan
  planned release h = elim (taken (not (length release.upgrade_plan == 0)) _ _ h) [
    | inl (e, k) ↦ with_plan release k
    | inr (e, k) ↦
        let low = required (not (leb 3 release.minimum_updater_protocol)) _ k in
        inl (ground arith, ground arith)
  ]

  -- A valid release has no plan, and then its protocol is at most 2, or it has one that passes
  -- `Validate`, and then its protocol is at least 3, and at least 4 where the plan is online.
  pub validate_release-IsPlanned :
      (release : Release)
      → validate_release parse release ≡ ok tt
      → IsPlanned release × (release.minimum_updater_protocol ≤ 5)
  validate_release-IsPlanned release valid =
      let p = passed parse release valid in (planned release p.planned, p.protocol)
