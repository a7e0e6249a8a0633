-- ===== src/Authorization/Entitled.antt =====
-- When `authorize` of internal/authorization/service.go lets its callback run.
use geoflow_updater.Prelude.{
  ℕ, ◌/◌, ◌≤◌, ◌≡◌, ◌⊎◌, refl, sym, ap, ◌∙◌, subst, inl, inr, String, true, false, not, ◌||◌, ◌&&◌,
  Bool-cases, Option, none, some, List, [], ◌∷◌, Memᴰ, ltb, if◌then◌else◌, arith,
}
use geoflow_updater.Prelude.Regex.{codes}
use geoflow_updater.Prelude.Result.{Result, ok, err, >>=-eq-ok, require-eq-ok, ok-injective}
use geoflow_updater.Coordination.Files.{Failure, find}
use geoflow_updater.Coordination.Store.{counter}
use geoflow_updater.Authorization.Attempts.{AttemptState, read_attempt_state}
use geoflow_updater.Authorization.Codes.{
  Crypto, code_pattern, read_secret, derive_secret, generate_code,
}
use geoflow_updater.Authorization.World.{World}
use geoflow_updater.Authorization.Service.{
  read_counter, consumed, greater, period, window, same, above, match_code, Attempt, examine,
  replayed,
}

-- The code is that of the counter, for the secret of the instance and the scope.
pub record IsCodeOf ⦃crypto : Crypto⦄ (w : World) (scope code : String) (c : ℕ) : Type 0 where
  pub master : String
  pub secret : String
  pub expected : List ℕ
  pub read : read_secret w.factors.secret ≡ ok master
  pub derived : derive_secret master scope ≡ ok secret
  pub generated : generate_code secret c ≡ ok expected
  pub equal : same expected (codes code) ≡ true

-- Neither the instance nor the scope is locked out.
abbrev pub IsUnlocked : World → String → ℕ → Type 0
IsUnlocked w scope now =
    (global : AttemptState) × (scoped : AttemptState) × (read_attempt_state w.factors.global
      ≡ ok global)
    × (read_attempt_state (find scope w.factors.attempts) ≡ ok scoped)
    × (global.locked_until ≤ now)
    × (scoped.locked_until ≤ now)

-- The counter is above the one in the counter file and above those of the admissions of the scope.
abbrev pub IsNew : World → String → String → ℕ → Type 0
IsNew w id scope c =
    (filed : Option ℕ) × (admitted : Option ℕ) × (read_counter (find scope w.factors.counters)
      ≡ ok filed)
    × (counter w.store id scope ≡ ok admitted)
    × (replayed filed c ≡ false)
    × (replayed admitted c ≡ false)

pub record IsEntitled ⦃crypto : Crypto⦄ (w : World) (id scope code : String) (now c : ℕ)
    : Type 0 where
  pub current : Memᴰ c (window (now / period))
  pub right : IsCodeOf w scope code c
  pub unlocked : IsUnlocked w scope now
  pub fresh : IsNew w id scope c

-- The loop over the candidates ends with what it began with, or with one whose code is the given one.
match_code-some :
    ⦃crypto : Crypto⦄ (secret code : String) (best : Option ℕ) (cs : List ℕ) (m : Option ℕ)
    → match_code secret code best cs ≡ ok m
    → (m ≡ best)
      ⊎ ((c : ℕ) × (m ≡ some c)
          × Memᴰ c cs
          × ((expected : List ℕ) × (generate_code secret c ≡ ok expected)
              × (same expected (codes code) ≡ true)))
unfolding match_code
match_code-some secret code best [] m h = inl (sym (ok-injective h))
match_code-some secret code best (c ∷ cs) m h =
    let (expected, g, k) = >>=-eq-ok (generate_code secret c) _ h in
    elim (match_code-some secret code
      (if same expected (codes code) && above best c then some c else best) cs m k) [
        | inr (b, p, i, e) ↦ inr (b, p, Memᴰ.tail i, e)
        | inl p ↦ elim (Bool-cases (same expected (codes code) && above best c)) [
          | inl y ↦ inr (
            c,
            p ∙ ap (λ b. if b then some c else best) y,
            Memᴰ.head refl,
            (expected, g, ground arith),
          )
          | inr n ↦ inl (p ∙ ap (λ b. if b then some c else best) n)
        ]
      ]

some-injective : {x y : ℕ} → ◌≡◌ {A = Option ℕ} (some x) (some y) → x ≡ y
some-injective p = cc

match_code_window :
    ⦃crypto : Crypto⦄ (secret code : String) (cs : List ℕ) (c : ℕ)
    → match_code secret code none cs ≡ ok (some c)
    → Memᴰ c cs
      × ((expected : List ℕ) × (generate_code secret c ≡ ok expected)
          × (same expected (codes code) ≡ true))
match_code_window secret code cs c h = elim (match_code-some secret code none cs (some c) h) [
  | inl p ↦ absurd cc
  | inr (b, p, i, e) ↦
      subst
        (λ x.
          Memᴰ x cs
          × ((expected : List ℕ) × (generate_code secret x ≡ ok expected)
              × (same expected (codes code) ≡ true)))
        (some-injective (sym p)) (i, e)
]

replayed-greater :
    (last admitted : Option ℕ) (c : ℕ)
    → replayed (greater last admitted) c ≡ false
    → (replayed last c ≡ false) × (replayed admitted c ≡ false)
replayed-greater last none c h = (h, refl)
replayed-greater none (some a) c h = (refl, h)
replayed-greater (some l) (some a) c h = ground arith

unlocked_of : (now a b : ℕ) → not (ltb now a || ltb now b) ≡ true → (a ≤ now) × (b ≤ now)
unlocked_of now a b h = ground arith

consumed-eq-ok : (r : Result Failure (Option ℕ)) (c : Option ℕ) → consumed r ≡ ok c → r ≡ ok c
consumed-eq-ok (ok x) c h = ap ok (ok-injective h)
consumed-eq-ok (err e) c h = cc

-- A code that is matched and not replayed entitles.
pub examine-IsEntitled :
    ⦃crypto : Crypto⦄ (w : World) (id scope code : String) (now : ℕ) (attempt : Attempt) (c : ℕ)
    → examine w id scope code now ≡ ok attempt
    → attempt.matched ≡ some c
    → replayed attempt.last c ≡ false
    → IsEntitled w id scope code now c
unfolding examine
examine-IsEntitled w id scope code now attempt c h m n =
    let (_, h₁) = require-eq-ok (code_pattern code) _ _ h in
    let (master, read, h₂) = >>=-eq-ok (read_secret w.factors.secret) _ h₁ in
    let (secret, derived, h₃) = >>=-eq-ok (derive_secret master scope) _ h₂ in
    let (global, g, h₄) = >>=-eq-ok (read_attempt_state w.factors.global) _ h₃ in
    let (scoped, s, h₅) = >>=-eq-ok (read_attempt_state (find scope w.factors.attempts)) _ h₄ in
    let (u, h₆) =
      require-eq-ok (not (ltb now global.locked_until || ltb now scoped.locked_until)) _ _ h₅ in
    let (last, l, h₇) = >>=-eq-ok (read_counter (find scope w.factors.counters)) _ h₆ in
    let (admitted, a, h₈) = >>=-eq-ok (consumed (counter w.store id scope)) _ h₇ in
    let (matched, k, h₉) = >>=-eq-ok (match_code secret code none (window (now / period))) _ h₈ in
    let p = ok-injective h₉ in
    let q : matched ≡ some c = ap (λ (x : Attempt). x.matched) p ∙ m in
    let r : replayed (greater last admitted) c ≡ false =
      ap (λ (x : Attempt). replayed x.last c) p ∙ n in
    let (i, (expected, generated, equal)) =
      match_code_window secret code (window (now / period)) c (k ∙ ap ok q) in
    let (from_file, from_store) = replayed-greater last admitted c r in
    let (global_free, scope_free) = unlocked_of now global.locked_until scoped.locked_until u in
    record {
      current = i;
      right = record {
        master = master;
        secret = secret;
        expected = expected;
        read = read;
        derived = derived;
        generated = generated;
        equal = equal;
      };
      unlocked = (global, scoped, g, s, global_free, scope_free);
      fresh = (
        last,
        admitted,
        l,
        consumed-eq-ok (counter w.store id scope) admitted a,
        from_file,
        from_store,
      );
    }
