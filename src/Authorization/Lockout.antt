-- ===== src/Authorization/Lockout.antt =====
-- The lockout after wrong codes, in internal/authorization: how long it lasts, and what is told of it.
use geoflow_updater.Prelude.{
  two_pow_pos, ℕ, zero, suc, ◌+◌, ◌-◌, ◌^◌, ◌≤◌, ◌<◌, ◌≡◌, ◌⊎◌, refl, inl, inr, String, Bool, not,
  ◌||◌, Bool-cases, Option, List, [], ◌∷◌, leb, arith,
}
use geoflow_updater.Prelude.Result.{Result-cases}
use geoflow_updater.Authorization.Attempts.{
  Refusal, rate_limited, invalid, lockout_threshold, base_lockout_seconds, max_lockout_seconds,
  AttemptState, at_most, full_delay, lockout_delay, next_invalid_attempt_state, longer, retry_loop,
  retry_after, read_attempt_state, valid_scope,
}

two_pow_mono : (m n : ℕ) → m ≤ n → 2 ^ m ≤ 2 ^ n
two_pow_mono zero n h = two_pow_pos n
two_pow_mono (suc m) zero h = absurd (omega arith)
two_pow_mono (suc m) (suc n) h = omega (arith, two_pow_mono m n (omega arith))

at_most_mono : (bound m n : ℕ) → m ≤ n → at_most bound m ≤ at_most bound n
at_most_mono bound m n h = ground arith

at_most_le : (bound n : ℕ) → at_most bound n ≤ bound
at_most_le bound n = ground arith

at_most_ge : (bound low n : ℕ) → low ≤ bound → low ≤ n → low ≤ at_most bound n
at_most_ge bound low n h k = ground arith

-- A longer row of failures is never locked out for less.
lockout_delay_mono : (m n : ℕ) → m ≤ n → lockout_delay m ≤ lockout_delay n
unfolding lockout_delay
lockout_delay_mono m n h = at_most_mono max_lockout_seconds (full_delay m) (full_delay n) (
    omega (
      arith,
      two_pow_mono (at_most 16 (m - lockout_threshold)) (at_most 16 (n - lockout_threshold))
          (at_most_mono 16 (m - lockout_threshold) (n - lockout_threshold) (omega arith)),
    ))

lockout_delay_ge : (n : ℕ) → base_lockout_seconds ≤ lockout_delay n
unfolding lockout_delay
lockout_delay_ge n =
    at_most_ge max_lockout_seconds base_lockout_seconds (full_delay n) (omega arith)
      (omega (arith, two_pow_pos (at_most 16 (n - lockout_threshold))))

lockout_delay_le : (n : ℕ) → lockout_delay n ≤ max_lockout_seconds
unfolding lockout_delay
lockout_delay_le n = at_most_le max_lockout_seconds (full_delay n)

-- What a state after a wrong code has to be.
abbrev pub IsLockedFor : ℕ → AttemptState × Refusal → Type 0
IsLockedFor now (s, r) =
    ((s.failures < lockout_threshold) × (s.locked_until ≡ 0) × (r ≡ invalid))
    ⊎ ((lockout_threshold ≤ s.failures)
        × (now + base_lockout_seconds ≤ s.locked_until)
        × (s.locked_until ≤ now + max_lockout_seconds)
        × (r ≡ rate_limited))

-- A wrong code adds one failure; from the fifth failure in a row the code is refused as rate
-- limited and the lockout ends between a quarter of an hour and a day later, and before the fifth
-- there is no lockout.
pub next_invalid_attempt_state-IsLockedFor :
    (previous : AttemptState) (now : ℕ)
    → ((next_invalid_attempt_state previous now).0.failures ≡ suc previous.failures)
      × IsLockedFor now (next_invalid_attempt_state previous now)
unfolding next_invalid_attempt_state
next_invalid_attempt_state-IsLockedFor previous now =
    elim (Bool-cases (leb lockout_threshold (suc previous.failures))) [
      | inl h ↦ rw h (
        refl,
        inr (
          ground arith,
          omega (arith, lockout_delay_ge (suc previous.failures)),
          omega (arith, lockout_delay_le (suc previous.failures)),
          refl,
        ),
      )
      | inr h ↦ rw h (refl, inl (ground arith, refl, refl))
    ]

-- With the same clock, more failures never end a lockout sooner.
pub next_invalid_attempt_state_mono :
    (p q : AttemptState) (now : ℕ)
    → p.failures ≤ q.failures
    → (next_invalid_attempt_state p now).0.locked_until
      ≤ (next_invalid_attempt_state q now).0.locked_until
unfolding next_invalid_attempt_state
next_invalid_attempt_state_mono p q now h =
    ground (arith, lockout_delay_mono (suc p.failures) (suc q.failures))

retry_loop-bounds :
    (now seconds : ℕ) (files : List (Option (Option AttemptState)))
    → 1 ≤ seconds
    → (1 ≤ retry_loop now seconds files) × (retry_loop now seconds files ≤ max_lockout_seconds)
unfolding retry_loop
retry_loop-bounds now seconds [] h = ground arith
retry_loop-bounds now seconds (file ∷ files) h = elim (Result-cases (read_attempt_state file)) [
  | inl (state, e) ↦
      rw (e, retry_loop) (retry_loop-bounds now (longer now seconds state) files (ground arith))
  | inr (failure, e) ↦ rw (e, retry_loop) (omega arith, omega arith)
]

-- What the client is told to wait is between a second and a day, on every path.
pub retry_after-bounds :
    (found : Bool) (now : ℕ) (scope : String) (global scoped : Option (Option AttemptState))
    → (1 ≤ retry_after found now scope global scoped)
      × (retry_after found now scope global scoped ≤ max_lockout_seconds)
unfolding retry_after
retry_after-bounds found now scope global scoped =
    elim (Bool-cases (not found || not (valid_scope scope))) [
      | inl h ↦ rw h (omega arith, omega arith)
      | inr h ↦ rw h (retry_loop-bounds now 1 (global ∷ scoped ∷ []) (omega arith))
    ]
