-- ===== src/Managed/Images.antt =====
-- What a release that passes `Release.Validate` of internal/managed/release.go guarantees.
use geoflow_updater.Prelude.{
  ◌≤◌, ◌≡◌, ◌↔◌, leb→le, refl, sym, ap, ◌∙◌, String, Bool, true, false, not, ◌&&◌, Option, none,
  some, List, [], ◌∷◌, leb, ◌==◌, str_eq, eq_iff, arith,
}
use geoflow_updater.Prelude.Result.{ok, >>=-eq-ok, require-eq-ok}
use geoflow_updater.Managed.Json.{Json}
use geoflow_updater.Managed.Release.{Bytes, Release}
use geoflow_updater.Managed.Upgrade.{mem_text}
use geoflow_updater.Managed.Validate.{
  app_image_pattern, web_image_pattern, postgres_image_pattern, redis_image_pattern, image_of,
  is_image, check_majors, validate_image_set, validate_release_plan, validate_release,
  infrastructure_images, validate_selected_images,
}

-- The images of a validated set: valid for each major that is expected, and for no other.
abbrev IsImageSet : (String → Bool) → List String → List (String × String) → Type 0
IsImageSet pattern majors images =
    (major : String) → is_image pattern (image_of major images) ≡ mem_text major majors

set_of_two :
    (pattern : String → Bool) (a b : String) (images : List (String × String))
    → str_eq a b ≡ false
    → validate_image_set images (a ∷ b ∷ []) pattern ≡ ok tt
    → IsImageSet pattern (a ∷ b ∷ []) images
unfolding validate_image_set check_majors
set_of_two pattern a b [] n h major = absurd (ground arith)
set_of_two pattern a b (x ∷ []) n h major = absurd (ground arith)
set_of_two pattern a b (x ∷ y ∷ []) n h major = ground (
  arith,
  eq_iff x.0 a,
  eq_iff x.0 b,
  eq_iff y.0 a,
  eq_iff y.0 b,
  eq_iff a b,
  eq_iff x.0 major,
  eq_iff y.0 major,
  eq_iff a major,
  eq_iff b major,
)
set_of_two pattern a b (x ∷ y ∷ z ∷ rest) n h major = absurd (ground arith)

-- A pair of images that the release gives, each an official pin.
abbrev pub Selects : Release → String → String → Type 0
Selects release postgres_major redis_major =
    (p : String × String) × (infrastructure_images release postgres_major redis_major ≡ ok p)
    × (validate_selected_images release.app_image release.web_image p.0 p.1 ≡ ok tt)

abbrev pub is_supported : String → String → Bool
is_supported postgres_major redis_major =
    mem_text postgres_major ("16" ∷ "18" ∷ []) && mem_text redis_major ("7" ∷ "8" ∷ [])

and_left : (a b : Bool) → (a && b) ≡ true → a ≡ true
and_left a b h = ground arith

and_right : (a b : Bool) → (a && b) ≡ true → b ≡ true
and_right a b h = ground arith

module _ (parse : Bytes → Option Json) (release : Release)
    (valid : validate_release parse release ≡ ok tt) where
  -- What a valid release passed, one check after the other.
  pub record Passed : Type 0 where
    positive : not (release.sequence == 0) ≡ true
    pub protocol : release.minimum_updater_protocol ≤ 5
    pub planned : validate_release_plan parse release ≡ ok tt
    app : app_image_pattern release.app_image ≡ true
    web : web_image_pattern release.web_image ≡ true
    postgres :
        validate_image_set release.postgres_images ("16" ∷ "18" ∷ []) postgres_image_pattern ≡ ok tt
    redis : validate_image_set release.redis_images ("7" ∷ "8" ∷ []) redis_image_pattern ≡ ok tt

  pub passed : Passed
  unfolding validate_release
  passed =
      let (a, h₁) = require-eq-ok _ _ _ valid in
      let (b, h₂) = require-eq-ok (leb release.minimum_updater_protocol 5) _ _ h₁ in
      let (_, c, h₃) = >>=-eq-ok (validate_release_plan parse release) _ h₂ in
      let (_, h₄) = require-eq-ok _ _ _ h₃ in
      let (d, h₅) = require-eq-ok _ _ _ h₄ in
      let (e, h₆) = require-eq-ok _ _ _ h₅ in
      let (_, f, h₇) =
        >>=-eq-ok
          (validate_image_set release.postgres_images ("16" ∷ "18" ∷ []) postgres_image_pattern) _
          h₆ in
      let (_, g, h₈) =
        >>=-eq-ok (validate_image_set release.redis_images ("7" ∷ "8" ∷ []) redis_image_pattern) _
          h₇ in
      record {
        positive = a;
        protocol = leb→le release.minimum_updater_protocol 5 b;
        planned = c;
        app = d;
        web = e;
        postgres = f;
        redis = g;
      }

  selected :
      (postgres_major redis_major : String) (a b : Option String)
      → image_of postgres_major release.postgres_images ≡ a
      → image_of redis_major release.redis_images ≡ b
      → is_image postgres_image_pattern a ≡ true
      → is_image redis_image_pattern b ≡ true
      → Selects release postgres_major redis_major
  unfolding infrastructure_images validate_selected_images
  selected postgres_major redis_major none b e f p q = absurd (ground arith)
  selected postgres_major redis_major (some x) none e f p q = absurd (ground arith)
  selected postgres_major redis_major (some x) (some y) e f p q =
      ((x, y), rw (e, f) (rw (p, q) refl), rw (passed.app, passed.web, p, q) refl)

  unsupported :
      (postgres_major redis_major : String) (p : String × String) (a b : Option String)
      → image_of postgres_major release.postgres_images ≡ a
      → image_of redis_major release.redis_images ≡ b
      → infrastructure_images release postgres_major redis_major ≡ ok p
      → (is_image postgres_image_pattern a && is_image redis_image_pattern b) ≡ true
  unfolding infrastructure_images
  unsupported postgres_major redis_major p none b e f h = absurd (ground arith)
  unsupported postgres_major redis_major p (some x) none e f h = absurd (ground arith)
  unsupported postgres_major redis_major p (some x) (some y) e f h =
      (require-eq-ok (postgres_image_pattern x && redis_image_pattern y) _ _ (rw (e, f) at h)).0

  postgres_set : IsImageSet postgres_image_pattern ("16" ∷ "18" ∷ []) release.postgres_images
  postgres_set =
      set_of_two postgres_image_pattern "16" "18" release.postgres_images refl passed.postgres

  redis_set : IsImageSet redis_image_pattern ("7" ∷ "8" ∷ []) release.redis_images
  redis_set = set_of_two redis_image_pattern "7" "8" release.redis_images refl passed.redis

  -- A valid release gives images for PostgreSQL 16 and 18 with Redis 7 and 8, and for no other pair;
  -- those that it gives pass `ValidateSelectedImages` with its application images.
  pub infrastructure_images_iff :
      (postgres_major redis_major : String)
      → (is_supported postgres_major redis_major ≡ true)
        ↔ Selects release postgres_major redis_major
  infrastructure_images_iff postgres_major redis_major =
      let s = postgres_set postgres_major in
      let t = redis_set redis_major in
      (
        λ h.
            selected postgres_major redis_major _ _ refl refl (s ∙ and_left _ _ h)
              (t ∙ and_right _ _ h),
        λ (p, e, v).
            ap (λ (x : Bool). x && mem_text redis_major ("7" ∷ "8" ∷ [])) (sym s)
            ∙ ap
                (λ (x : Bool).
                  is_image postgres_image_pattern (image_of postgres_major release.postgres_images)
                  && x)
                (sym t)
            ∙ unsupported postgres_major redis_major p _ _ refl refl e,
      )
