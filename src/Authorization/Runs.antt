-- ===== src/Authorization/Runs.antt =====
-- What `authorize` of internal/authorization/service.go does to the coordination store, and when it
-- reports success.
use geoflow_updater.Prelude.{
  ℕ, ◌≡◌, ◌≢◌, ◌⊎◌, refl, sym, ap, ◌∙◌, inl, inr, String, Bool, true, false, Bool-cases, Option,
  none, some,
}
use geoflow_updater.Prelude.Result.{Result, ok, err, Result-cases}
use geoflow_updater.Coordination.Files.{Store, WriteEnd}
use geoflow_updater.Authorization.Attempts.{
  Refusal, AttemptState, valid_scope, remaining_global_attempt_state,
}
use geoflow_updater.Authorization.Codes.{Crypto}
use geoflow_updater.Authorization.World.{
  World, Ends, Outcome, reaches, write_error, with_global, with_attempts, with_counter,
  without_counter,
}
use geoflow_updater.Authorization.Service.{
  Attempt, examine, follow, record_invalid_attempt, Callback, admitted_outcome, restored,
  mutated_outcome, after_callback, replayed, grant, decide, examined, unless_found, authorize,
}
use geoflow_updater.Authorization.Entitled.{IsEntitled, examine-IsEntitled}

-- The store is as it was, and the call does not succeed.
abbrev pub IsUntouched : World → Outcome → Type 0
IsUntouched w o = (o.0.store ≡ w.store) × (o.1 ≢ ok tt)

-- The store is as the callback left it, and the call succeeds only if the callback did.
abbrev pub HasRun : Callback → Store → ℕ → Outcome → Type 0
HasRun callback s c o = (o.0.store ≡ (callback c s).0) × (o.1 ≡ ok tt → (callback c s).1 ≡ ok tt)

follow_rule :
    (P : Outcome → Type 0) (w : World) (r : Result Refusal (Unit {0})) (k : World → Outcome)
    → P (k w)
    → ((e : Refusal) → P (w, err e))
    → P (follow w r k)
follow_rule P w (ok _) k p q = p
follow_rule P w (err e) k p q = q e

module _ (end : WriteEnd) (scope : String) (w : World) where
  with_global-store : (state : AttemptState) → (with_global end state w).store ≡ w.store
  with_global-store state = elim (Bool-cases (reaches end)) [
    | inl e ↦ rw e refl
    | inr e ↦ rw e refl
  ]

  with_attempts-store : (state : AttemptState) → (with_attempts end scope state w).store ≡ w.store
  unfolding with_attempts
  with_attempts-store state = elim (Bool-cases (reaches end)) [
    | inl e ↦ rw e refl
    | inr e ↦ rw e refl
  ]

  with_counter-store : (c : ℕ) → (with_counter end scope c w).store ≡ w.store
  unfolding with_counter
  with_counter-store c = elim (Bool-cases (reaches end)) [ inl e ↦ rw e refl | inr e ↦ rw e refl ]

  without_counter-store : (without_counter end scope w).store ≡ w.store
  without_counter-store = elim (Bool-cases (reaches end)) [ inl e ↦ rw e refl | inr e ↦ rw e refl ]

  restored-store : (last : Option ℕ) → (restored end scope last w).store ≡ w.store
  restored-store none = without_counter-store
  restored-store (some c) = with_counter-store c

err_ne : (e : Refusal) → ◌≢◌ {A = Result Refusal (Unit {0})} (err e) (ok tt)
err_ne e h = cc

record_invalid_attempt-IsUntouched :
    (ends : Ends) (scope : String) (now : ℕ) (attempt : Attempt) (w : World)
    → IsUntouched w (record_invalid_attempt ends scope now attempt w)
unfolding record_invalid_attempt
record_invalid_attempt-IsUntouched ends scope now attempt w =
    follow_rule (IsUntouched w) _ (write_error ends.global_end) _
      (follow_rule (IsUntouched w) _ (write_error ends.scope_end) _
        (with_attempts-store _ _ _ _ ∙ with_global-store _ scope _ _, err_ne _)
        (λ e. (with_attempts-store _ _ _ _ ∙ with_global-store _ scope _ _, err_ne e)))
      (λ e. (with_global-store _ scope _ _, err_ne e))

admitted-HasRun :
    (ends : Ends) (scope : String) (callback : Callback) (c : ℕ) (cleared : AttemptState)
    (w v : World) (r : Result Refusal (Unit {0}))
    → v.store ≡ (callback c w.store).0
    → r ≡ (callback c w.store).1
    → HasRun callback w.store c (admitted_outcome ends scope c cleared v r)
admitted-HasRun ends scope callback c cleared w v (err e) p q = (p, λ h. absurd (err_ne e h))
admitted-HasRun ends scope callback c cleared w v (ok _) p q = (
  with_global-store _ scope _ _ ∙ with_attempts-store _ _ _ _ ∙ with_counter-store _ _ _ _ ∙ p,
  λ h. sym q,
)

mutated-HasRun :
    (ends : Ends) (scope : String) (callback : Callback) (last : Option ℕ) (c : ℕ)
    (cleared : AttemptState) (w v : World) (r : Result Refusal (Unit {0}))
    → v.store ≡ (callback c w.store).0
    → r ≡ (callback c w.store).1
    → HasRun callback w.store c (mutated_outcome ends scope last cleared v r)
mutated-HasRun ends scope callback last c cleared w v (err e) p q =
    (restored-store _ _ _ last ∙ p, λ h. absurd (err_ne _ h))
mutated-HasRun ends scope callback last c cleared w v (ok _) p q =
    follow_rule (HasRun callback w.store c) _ (write_error ends.scope_end) _
      (with_global-store _ scope _ _ ∙ with_attempts-store _ _ _ _ ∙ p, λ h. sym q)
      (λ e. (with_attempts-store _ _ _ _ ∙ p, λ h. sym q))

mutated_after :
    (ends : Ends) (scope : String) (callback : Callback) (last : Option ℕ) (c : ℕ)
    (cleared : AttemptState) (w v : World)
    → v.store ≡ w.store
    → HasRun callback w.store c
        (after_callback (mutated_outcome ends scope last cleared) v (callback c v.store))
mutated_after ends scope callback last c cleared w v p =
    mutated-HasRun ends scope callback last c cleared w _ (callback c v.store).1
      (ap (λ s. (callback c s).0) p) (ap (λ s. (callback c s).1) p)

-- What an authorization has to be: no effect and no success, or a run of the callback with a counter
-- to which the code entitles.
abbrev pub Fate :
    ⦃crypto : Crypto⦄ → World → String → String → String → ℕ → Callback → Outcome → Type 0
Fate w id scope code now callback o =
    IsUntouched w o ⊎ ((c : ℕ) × IsEntitled w id scope code now c × HasRun callback w.store c o)

module _ ⦃crypto : Crypto⦄ (ends : Ends) (id scope code : String) (now : ℕ) (callback : Callback)
    (w : World) where
  grant-Fate :
      (admission : Bool) (last : Option ℕ) (c : ℕ) (cleared : AttemptState)
      → IsEntitled w id scope code now c
      → Fate w id scope code now callback (grant ends admission scope callback last c w cleared)
  grant-Fate true last c cleared e =
      inr (c, e, admitted-HasRun ends scope callback c cleared w _ (callback c w.store).1 refl refl)
  grant-Fate false last c cleared e =
      follow_rule (Fate w id scope code now callback) _ (write_error ends.counter_end) _
        (inr
          (c, e, mutated_after ends scope callback last c cleared w _ (with_counter-store _ _ _ _)))
        (λ x. inl (with_counter-store _ _ _ _, err_ne x))

  decide-Fate :
      (admission : Bool) (attempt : Attempt) (matched : Option ℕ)
      → examine w id scope code now ≡ ok attempt
      → attempt.matched ≡ matched
      → Fate w id scope code now callback
          (decide ends admission scope now callback attempt w matched)
  decide-Fate admission attempt none x m =
      inl (record_invalid_attempt-IsUntouched ends scope now attempt w)
  decide-Fate admission attempt (some c) x m = elim (Bool-cases (replayed attempt.last c)) [
    | inl y ↦ rw y (inl (refl, err_ne _))
    | inr n ↦ rw n (elim (Result-cases (remaining_global_attempt_state w.factors.attempts scope)) [
      | inl (cleared, e) ↦ rw e (
          grant-Fate admission attempt.last c cleared
            (examine-IsEntitled w id scope code now attempt c x m n))
      | inr (e', e) ↦ rw e (inl (refl, err_ne e'))
    ])
  ]

  examined-Fate :
      (admission : Bool) (r : Result Refusal Attempt)
      → examine w id scope code now ≡ r
      → Fate w id scope code now callback (examined ends admission scope now callback w r)
  examined-Fate admission (ok attempt) x = decide-Fate admission attempt attempt.matched x refl
  examined-Fate admission (err e) x = inl (refl, err_ne e)

-- The admission had been found before.
abbrev pub WasFound : World → Option (Result Refusal Bool) → Outcome → Type 0
WasFound w existing o = (existing ≡ some (ok true)) × (o ≡ (w, ok tt))

unless_found-cases :
    (P : Outcome → Type 0) (w : World) (existing : Option (Result Refusal Bool)) (k : Outcome)
    → P k
    → ((e : Refusal) → P (w, err e))
    → WasFound w existing (unless_found w existing k) ⊎ P (unless_found w existing k)
unless_found-cases P w none k p q = inr p
unless_found-cases P w (some (err e)) k p q = inr (q e)
unless_found-cases P w (some (ok true)) k p q = inl (refl, refl)
unless_found-cases P w (some (ok false)) k p q = inr p

-- On every path of an authorization, whatever the durable writes come to: either the admission was
-- found before and nothing changes; or it does not succeed and the coordination store is as it was;
-- or the store is as the callback leaves it for a counter of the current window whose code was given,
-- with no lockout in force and above the counter file and all admissions of the scope, and then it
-- succeeds only if the callback did.
pub authorize-Fate :
    ⦃crypto : Crypto⦄ (ends : Ends) (admission : Bool) (opened : Result Refusal (Unit {0}))
    (existing : Option (Result Refusal Bool)) (id scope code : String) (now : ℕ)
    (callback : Callback) (w : World)
    → WasFound w existing (authorize ends admission opened existing id scope code now callback w)
      ⊎ Fate w id scope code now callback
          (authorize ends admission opened existing id scope code now callback w)
unfolding authorize
authorize-Fate ends admission opened existing id scope code now callback w =
    elim (Bool-cases (valid_scope scope)) [
      | inr n ↦ rw n (inr (inl (refl, err_ne _)))
      | inl y ↦ rw y (
          follow_rule (λ o. WasFound w existing o ⊎ Fate w id scope code now callback o) w opened
            (λ w.
              unless_found w existing
                (examined ends admission scope now callback w (examine w id scope code now)))
            (unless_found-cases (Fate w id scope code now callback) w existing _
              (examined-Fate ends id scope code now callback w admission _ refl)
              (λ e. inl (refl, err_ne e)))
            (λ e. inr (inl (refl, err_ne e))))
    ]
