-- ===== src/Authorization/Service.antt =====
-- `authorize` of internal/authorization/service.go, under the lock of the instance: what it reads,
-- which code it accepts, and what it writes.
use geoflow_updater.Prelude.{
  ℕ, zero, suc, ◌/◌, String, Bool, true, false, not, ◌||◌, ◌&&◌, Option, none, some, List, [], ◌∷◌,
  ltb, leb, ◌==◌, if◌then◌else◌,
}
use geoflow_updater.Prelude.Regex.{codes}
use geoflow_updater.Prelude.Result.{Result, ok, err, ◌>>=◌, ◌>>◌, require}
use geoflow_updater.Coordination.Files.{Failure, Store, WriteEnd, find}
use geoflow_updater.Coordination.Store.{counter, later}
use geoflow_updater.Authorization.Attempts.{
  Refusal, invalid, replay, rate_limited, counter_invalid, authority, joined, AttemptState,
  no_attempts, valid_scope, read_attempt_state, next_invalid_attempt_state,
  remaining_global_attempt_state,
}
use geoflow_updater.Authorization.World.{
  World, Ends, Outcome, write_error, with_global, with_attempts, with_counter, without_counter,
  with_store,
}
use geoflow_updater.Authorization.Codes.{
  Crypto, code_pattern, read_secret, derive_secret, generate_code,
}

-- `readCounter`: Go's -1 is `none`.
abbrev pub read_counter : Option (Option ℕ) → Result Refusal (Option ℕ)
read_counter none = ok none
read_counter (some none) = err counter_invalid
read_counter (some (some c)) = ok (some c)

-- The counter that the admissions of the store have consumed.
abbrev pub consumed : Result Failure (Option ℕ) → Result Refusal (Option ℕ)
consumed (ok c) = ok c
consumed (err e) = err (authority e)

abbrev pub greater : Option ℕ → Option ℕ → Option ℕ
greater last none = last
greater last (some c) = later last c

abbrev pub period : ℕ
period = 30

-- The counters of the codes that are accepted at a time. The code of the counter -1, which Go
-- computes in the first half minute of the epoch, cannot match.
abbrev pub window : ℕ → List ℕ
window zero = 0 ∷ 1 ∷ []
window (suc c) = c ∷ suc c ∷ suc (suc c) ∷ []

abbrev pub same : List ℕ → List ℕ → Bool
same [] [] = true
same (x ∷ xs) (y ∷ ys) = x == y && same xs ys
same _ _ = false

abbrev pub above : Option ℕ → ℕ → Bool
above none c = true
above (some b) c = ltb b c

-- The loop over the candidates.
unfoldable pub match_code :
    ⦃crypto : Crypto⦄ → String → String → Option ℕ → List ℕ → Result Refusal (Option ℕ)
match_code secret code best [] = ok best
match_code secret code best (c ∷ candidates) = generate_code secret c >>= λ expected.
    match_code secret code (if same expected (codes code) && above best c then some c else best)
      candidates

-- What `authorize` knows when it has read everything.
pub record Attempt : Type 0 where
  pub global : AttemptState
  pub scoped : AttemptState
  pub last : Option ℕ
  pub matched : Option ℕ

-- The part of `authorize` that reads.
unfoldable pub examine :
    ⦃crypto : Crypto⦄ → World → String → String → String → ℕ → Result Refusal Attempt
examine w id scope code now = do
  require (code_pattern code) invalid
  master ← read_secret w.factors.secret
  secret ← derive_secret master scope
  global ← read_attempt_state w.factors.global
  scoped ← read_attempt_state (find scope w.factors.attempts)
  require (not (ltb now global.locked_until || ltb now scoped.locked_until)) rate_limited
  last ← read_counter (find scope w.factors.counters)
  admitted ← consumed (counter w.store id scope)
  matched ← match_code secret code none (window (now / period))
  ok (record { global = global; scoped = scoped; last = greater last admitted; matched = matched })

-- The next part of a function body, where the one before it returned no error.
abbrev pub follow : World → Result Refusal (Unit {0}) → (World → Outcome) → Outcome
follow w (ok _) k = k w
follow w (err e) k = (w, err e)

abbrev pub verdict : Refusal → Refusal → Refusal
verdict rate_limited _ = rate_limited
verdict _ rate_limited = rate_limited
verdict _ _ = invalid

-- `recordInvalidAttempt`.
unfoldable pub record_invalid_attempt : Ends → String → ℕ → Attempt → World → Outcome
record_invalid_attempt ends scope now attempt w =
    let (global, global_result) = next_invalid_attempt_state attempt.global now in
    let (scoped, scope_result) = next_invalid_attempt_state attempt.scoped now in
    follow (with_global ends.global_end global w) (write_error ends.global_end) λ w.
      follow (with_attempts ends.scope_end scope scoped w) (write_error ends.scope_end)
        λ w. (w, err (verdict global_result scope_result))

-- What stands behind the authorization: it is given the counter, and changes the store.
abbrev pub Callback : Type 0
Callback = ℕ → Store → Store × Result Refusal (Unit {0})

-- After the callback of an admission: the writes are projections, and their errors are dropped.
abbrev pub admitted_outcome :
    Ends → String → ℕ → AttemptState → World → Result Refusal (Unit {0}) → Outcome
admitted_outcome ends scope c cleared w (err e) = (w, err e)
admitted_outcome ends scope c cleared w (ok _) = (
  with_global ends.global_end cleared
      (with_attempts ends.scope_end scope no_attempts (with_counter ends.counter_end scope c w)),
  ok tt,
)

-- `restoreCounter`.
abbrev pub restored : WriteEnd → String → Option ℕ → World → World
restored end scope none w = without_counter end scope w
restored end scope (some c) w = with_counter end scope c w

abbrev pub join_refusals : Refusal → Result Refusal (Unit {0}) → Refusal
join_refusals e (ok _) = e
join_refusals e (err r) = joined e r

-- After the callback of a v1 mutation.
abbrev pub mutated_outcome :
    Ends → String → Option ℕ → AttemptState → World → Result Refusal (Unit {0}) → Outcome
mutated_outcome ends scope last cleared w (err e) =
    (restored ends.restore_end scope last w, err (join_refusals e (write_error ends.restore_end)))
mutated_outcome ends scope last cleared w (ok _) =
    follow (with_attempts ends.scope_end scope no_attempts w) (write_error ends.scope_end)
      λ w. (with_global ends.global_end cleared w, write_error ends.global_end)

abbrev pub after_callback :
    (World → Result Refusal (Unit {0}) → Outcome)
    → World
    → Store × Result Refusal (Unit {0})
    → Outcome
after_callback k w (s, r) = k (with_store s w) r

-- A code whose counter is new.
abbrev pub grant : Ends → Bool → String → Callback → Option ℕ → ℕ → World → AttemptState → Outcome
grant ends true scope callback last c w cleared =
    after_callback (admitted_outcome ends scope c cleared) w (callback c w.store)
grant ends false scope callback last c w cleared =
    follow (with_counter ends.counter_end scope c w) (write_error ends.counter_end)
      λ w. after_callback (mutated_outcome ends scope last cleared) w (callback c w.store)

abbrev pub replayed : Option ℕ → ℕ → Bool
replayed none c = false
replayed (some last) c = leb c last

abbrev pub grant_cleared :
    Ends → Bool → String → Callback → Option ℕ → ℕ → World → Result Refusal AttemptState → Outcome
grant_cleared ends admission scope callback last c w (ok cleared) =
    grant ends admission scope callback last c w cleared
grant_cleared ends admission scope callback last c w (err e) = (w, err e)

abbrev pub decide : Ends → Bool → String → ℕ → Callback → Attempt → World → Option ℕ → Outcome
decide ends admission scope now callback attempt w none =
    record_invalid_attempt ends scope now attempt w
decide ends admission scope now callback attempt w (some c) =
    if replayed attempt.last c
    then (w, err replay)
    else grant_cleared ends admission scope callback attempt.last c w
        (remaining_global_attempt_state w.factors.attempts scope)

abbrev pub examined : Ends → Bool → String → ℕ → Callback → World → Result Refusal Attempt → Outcome
examined ends admission scope now callback w (err e) = (w, err e)
examined ends admission scope now callback w (ok attempt) =
    decide ends admission scope now callback attempt w attempt.matched

-- The answer of `existing`, where there is one: an admission that is found ends the call.
abbrev pub unless_found : World → Option (Result Refusal Bool) → Outcome → Outcome
unless_found w none k = k
unless_found w (some (err e)) k = (w, err e)
unless_found w (some (ok true)) k = (w, ok tt)
unless_found w (some (ok false)) k = k

-- `authorize`, with a callback. `opened` is the outcome of finding the directory and taking the
-- lock, `existing` the answer of the callback of that name.
unfoldable pub authorize :
    ⦃crypto : Crypto⦄
    → Ends
    → Bool
    → Result Refusal (Unit {0})
    → Option (Result Refusal Bool)
    → String
    → String
    → String
    → ℕ
    → Callback
    → World
    → Outcome
authorize ends admission opened existing id scope code now callback w =
    if valid_scope scope
    then follow w opened (λ w.
      unless_found w existing
        (examined ends admission scope now callback w (examine w id scope code now)))
    else (w, err invalid)

-- `Authorize`, where the callback may be nil.
unfoldable pub authorize_mutation :
    ⦃crypto : Crypto⦄
    → Ends
    → Result Refusal (Unit {0})
    → String
    → String
    → String
    → ℕ
    → Option Callback
    → World
    → Outcome
authorize_mutation ends opened id scope code now none w = (w, err invalid)
authorize_mutation ends opened id scope code now (some callback) w =
    authorize ends false opened none id scope code now callback w
