-- ===== src/Authorization/Accepts.antt =====
-- `authorize` of internal/authorization/service.go accepts a code that entitles.
use geoflow_updater.Prelude.{
  ℕ, ◌/◌, ◌≤◌, ◌≡◌, ◌⊎◌, refl, sym, ap, ◌∙◌, subst, inl, inr, String, Bool, true, false, not, ◌||◌,
  ◌&&◌, Bool-cases, Option, none, some, List, [], ◌∷◌, Memᴰ, ltb, if◌then◌else◌, arith,
}
use geoflow_updater.Prelude.Regex.{codes}
use geoflow_updater.Prelude.Result.{Result, ok, err, >>=-eq-ok, ok-injective}
use geoflow_updater.Coordination.Files.{Store}
use geoflow_updater.Authorization.Attempts.{
  Refusal, AttemptState, valid_scope, remaining_global_attempt_state,
}
use geoflow_updater.Authorization.Codes.{Crypto, code_pattern, generate_code, decoded, code_of}
use geoflow_updater.Authorization.World.{World, Ends}
use geoflow_updater.Authorization.Service.{
  consumed, greater, period, window, same, above, match_code, Attempt, examine, Callback,
  admitted_outcome, after_callback, replayed, authorize,
}
use geoflow_updater.Authorization.Entitled.{IsEntitled}

-- At least a counter, where there is one.
abbrev pub IsAtLeast : Option ℕ → Option ℕ → Type 0
IsAtLeast none m = Unit
IsAtLeast (some b) m = (x : ℕ) × (m ≡ some x) × (b ≤ x)

IsAtLeast-refl : (best : Option ℕ) → IsAtLeast best best
IsAtLeast-refl none = tt
IsAtLeast-refl (some b) = (b, refl, omega arith)

IsAtLeast-trans : (a b m : Option ℕ) → IsAtLeast a b → IsAtLeast b m → IsAtLeast a m
IsAtLeast-trans none b m h k = tt
IsAtLeast-trans (some a) b m (y, p, le) k =
    let (x, q, le') = subst (λ b. IsAtLeast b m) p k in (x, q, omega arith)

-- A candidate that is above the best one takes its place.
better :
    (best : Option ℕ) (c : ℕ) (test : Bool)
    → IsAtLeast best (if test && above best c then some c else best)
better none c test = tt
better (some b) c false = (b, refl, omega arith)
better (some b) c true = elim (Bool-cases (ltb b c)) [
  | inl y ↦ (c, rw y refl, ground arith)
  | inr n ↦ (b, rw n refl, omega arith)
]

matched_best :
    (best : Option ℕ) (c : ℕ) → IsAtLeast (some c) (if true && above best c then some c else best)
matched_best none c = (c, refl, omega arith)
matched_best (some b) c = elim (Bool-cases (ltb b c)) [
  | inl y ↦ (c, rw y refl, omega arith)
  | inr n ↦ (b, rw n refl, ground arith)
]

mem_cases : (c' c : ℕ) (cs : List ℕ) → Memᴰ c' (c ∷ cs) → (c' ≡ c) ⊎ Memᴰ c' cs
mem_cases c' c cs (Memᴰ.head e) = inl e
mem_cases c' c cs (Memᴰ.tail m) = inr m

module _ ⦃crypto : Crypto⦄ (secret code : String) (of : ℕ → List ℕ) where
  matched_here :
      (best : Option ℕ) (c c' : ℕ)
      → c' ≡ c
      → same (of c') (codes code) ≡ true
      → IsAtLeast (some c') (if same (of c) (codes code) && above best c then some c else best)
  matched_here best c c' q e =
      let e' : same (of c) (codes code) ≡ true = ap (λ x. same (of x) (codes code)) (sym q) ∙ e in
      subst
        (λ x.
          IsAtLeast (some x) (if same (of c) (codes code) && above best c then some c else best))
        (sym q) (rw e' (matched_best best c))

  -- The loop over the candidates ends with the best of them.
  match_code-IsAtLeast :
      ((c : ℕ) → generate_code secret c ≡ ok (of c))
      → (best : Option ℕ) (cs : List ℕ)
      → (m : Option ℕ) × (match_code secret code best cs ≡ ok m)
        × IsAtLeast best m
        × ((c : ℕ) → Memᴰ c cs → same (of c) (codes code) ≡ true → IsAtLeast (some c) m)
  unfolding match_code
  match_code-IsAtLeast every best [] = (best, refl, IsAtLeast-refl best, λ c m. elim m [ ])
  match_code-IsAtLeast every best (c ∷ cs) =
      let best' = if same (of c) (codes code) && above best c then some c else best in
      let (m, p, h, k) = match_code-IsAtLeast every best' cs in
      (
        m,
        rw (every c) p,
        IsAtLeast-trans best best' m (better best c (same (of c) (codes code))) h,
        λ c' i e. elim (mem_cases c' c cs i) [
          | inr j ↦ k c' j e
          | inl q ↦ IsAtLeast-trans (some c') best' m (matched_here best c c' q e) h
        ],
      )

generate_every :
    ⦃crypto : Crypto⦄ (secret : String) (c : ℕ) (expected : List ℕ)
    → generate_code secret c ≡ ok expected
    → (of : ℕ → List ℕ) × ((c' : ℕ) → generate_code secret c' ≡ ok (of c'))
unfolding generate_code
generate_every secret c expected g =
    let (bytes, d, _) = >>=-eq-ok (decoded secret) _ g in (code_of bytes, λ c'. every bytes d c')
  where
    every :
        (bytes : List ℕ)
        → decoded secret ≡ ok bytes
        → (c' : ℕ) → generate_code secret c' ≡ ok (code_of bytes c')
    every bytes d c' = rw d refl

greater-replayed :
    (last admitted : Option ℕ) (c c' : ℕ)
    → c ≤ c'
    → replayed last c ≡ false
    → replayed admitted c ≡ false
    → replayed (greater last admitted) c' ≡ false
greater-replayed none none c c' le h k = refl
greater-replayed (some l) none c c' le h k = ground arith
greater-replayed none (some a) c c' le h k = ground arith
greater-replayed (some l) (some a) c c' le h k = ground arith

free_of : (now a b : ℕ) → a ≤ now → b ≤ now → not (ltb now a || ltb now b) ≡ true
free_of now a b h k = ground arith

-- What `examine` finds for a code that entitles.
abbrev pub IsMatched : ⦃crypto : Crypto⦄ → World → String → String → String → ℕ → Type 0
IsMatched w id scope code now =
    (attempt : Attempt) × (c : ℕ) × (examine w id scope code now ≡ ok attempt)
    × (attempt.matched ≡ some c)
    × (replayed attempt.last c ≡ false)

entitled-IsMatched :
    ⦃crypto : Crypto⦄ (w : World) (id scope code : String) (now c : ℕ)
    → IsEntitled w id scope code now c
    → code_pattern code ≡ true
    → IsMatched w id scope code now
unfolding examine
entitled-IsMatched w id scope code now c e p =
    let right = e.right in
    let (global, scoped, g, s, global_free, scope_free) = e.unlocked in
    let (filed, admitted, f, a, new_file, new_store) = e.fresh in
    let (of, every) = generate_every right.secret c right.expected right.generated in
    let (m, k, _, best) =
      match_code-IsAtLeast right.secret code of every none (window (now / period)) in
    let same' : same (of c) (codes code) ≡ true =
      ap (λ x. same x (codes code)) (ok-injective (sym (every c) ∙ right.generated))
      ∙ right.equal in
    let (x, q, le) = best c e.current same' in
    (
      record { global = global; scoped = scoped; last = greater filed admitted; matched = m },
      x,
      rw
          (
            p,
            right.read,
            right.derived,
            g,
            s,
            free_of now global.locked_until scoped.locked_until global_free scope_free,
            f,
            ap consumed a,
            k,
          )
          refl,
      q,
      greater-replayed filed admitted c x le new_file new_store,
    )

accepted_result :
    (ends : Ends) (scope : String) (callback : Callback) (c : ℕ) (cleared : AttemptState)
    (w : World) (p : Store × Result Refusal (Unit {0}))
    → p.1 ≡ ok tt
    → (after_callback (admitted_outcome ends scope c cleared) w p).1 ≡ ok tt
accepted_result ends scope callback c cleared w (s, ok _) h = refl
accepted_result ends scope callback c cleared w (s, err e) h = h

-- An authorization of an admission succeeds where the code entitles under some counter, the code has
-- the form of one, the other scopes' attempt files can be read, no earlier admission is found, the
-- lock was taken and the callback succeeds; whatever the durable writes of the service come to.
pub authorize-accepts :
    ⦃crypto : Crypto⦄ (ends : Ends) (id scope code : String) (now c : ℕ) (callback : Callback)
    (w : World) (cleared : AttemptState)
    → IsEntitled w id scope code now c
    → code_pattern code ≡ true
    → valid_scope scope ≡ true
    → remaining_global_attempt_state w.factors.attempts scope ≡ ok cleared
    → ((x : ℕ) (s : Store) → (callback x s).1 ≡ ok tt)
    → (authorize ends true (ok tt) (some (ok false)) id scope code now callback w).1 ≡ ok tt
unfolding authorize
authorize-accepts ends id scope code now c callback w cleared e p v r k =
    let (attempt, x, q, m, n) = entitled-IsMatched w id scope code now c e p in
    rw (v, q, m, n, r)
      (accepted_result ends scope callback x cleared w (callback x w.store) (k x w.store))
