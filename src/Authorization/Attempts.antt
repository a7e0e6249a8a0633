-- ===== src/Authorization/Attempts.antt =====
-- The attempt states of internal/authorization/service.go and retry.go. A time is a number of
-- seconds; `int64` sums of a clock reading and a day do not wrap.
use geoflow_updater.Prelude.{
  ℕ, suc, ◌+◌, ◌-◌, ◌*◌, ◌^◌, String, Bool, not, ◌&&◌, ◌||◌, Option, none, some, List, [], ◌∷◌, ltb,
  leb, ◌==◌, str_eq, if◌then◌else◌,
}
use geoflow_updater.Prelude.Result.{Result, ok, err, ◌>>=◌}
use geoflow_updater.Coordination.Files.{Failure, find}

pub data Refusal : Type 0 where
  unconfigured invalid replay rate_limited : Refusal
  secret_invalid counter_invalid attempts_invalid unreadable : Refusal
  authority : Failure → Refusal
  io refused : String → Refusal
  joined : Refusal → Refusal → Refusal

abbrev pub lockout_threshold : ℕ
lockout_threshold = 5

abbrev pub base_lockout_seconds : ℕ
base_lockout_seconds = 900

abbrev pub max_lockout_seconds : ℕ
max_lockout_seconds = 86400

abbrev pub scopes : List String
scopes = "update" ∷ "backup" ∷ "rollback" ∷ []

unfoldable pub valid_scope : String → Bool
valid_scope scope = str_eq scope "update" || str_eq scope "backup" || str_eq scope "rollback"

pub record AttemptState : Type 0 where
  pub failures : ℕ
  pub locked_until : ℕ

-- `attemptState{}`.
abbrev pub no_attempts : AttemptState
no_attempts = record { failures = 0; locked_until = 0 }

unfoldable pub valid_attempts : AttemptState → Bool
valid_attempts s =
    leb s.failures 1000000 && not (ltb s.failures lockout_threshold && not (s.locked_until == 0))

-- `readAttemptState` of a file: `none` where there is no file, `some none` where the file is not a
-- private one that holds two numbers.
unfoldable pub read_attempt_state : Option (Option AttemptState) → Result Refusal AttemptState
read_attempt_state none = ok no_attempts
read_attempt_state (some none) = err attempts_invalid
read_attempt_state (some (some s)) = if valid_attempts s then ok s else err attempts_invalid

abbrev pub at_most : ℕ → ℕ → ℕ
at_most bound n = if ltb bound n then bound else n

-- The delay before its bound: the base, doubled for each failure past the threshold.
abbrev pub full_delay : ℕ → ℕ
full_delay failures = base_lockout_seconds * 2 ^ at_most 16 (failures - lockout_threshold)

-- The delay after a number of failures that is at least the threshold.
unfoldable pub lockout_delay : ℕ → ℕ
lockout_delay failures = at_most max_lockout_seconds (full_delay failures)

-- `nextInvalidAttemptState`.
unfoldable pub next_invalid_attempt_state : AttemptState → ℕ → AttemptState × Refusal
unfolding lockout_delay
next_invalid_attempt_state previous now =
    if leb lockout_threshold (suc previous.failures)
    then (
      record {
        failures = suc previous.failures;
        locked_until = now + lockout_delay (suc previous.failures);
      },
      rate_limited,
    )
    else (record { failures = suc previous.failures; locked_until = 0 }, invalid)

-- The loop of `remainingGlobalAttemptState`, over the attempt files of the scopes.
unfoldable pub remaining :
    List (String × Option AttemptState)
    → String
    → AttemptState
    → List String
    → Result Refusal AttemptState
unfolding find read_attempt_state
remaining files accepted total [] = ok total
remaining files accepted total (scope ∷ rest) =
    if str_eq scope accepted
    then remaining files accepted total rest
    else (read_attempt_state (find scope files) >>= λ state.
        remaining files accepted
          (record {
            failures = total.failures + state.failures;
            locked_until =
                if ltb total.locked_until state.locked_until
                then state.locked_until
                else total.locked_until;
          })
          rest)

-- `remainingGlobalAttemptState`.
unfoldable pub remaining_global_attempt_state :
    List (String × Option AttemptState) → String → Result Refusal AttemptState
unfolding remaining
remaining_global_attempt_state files accepted =
    remaining files accepted no_attempts scopes >>= λ total.
    ok (record total { failures = at_most 1000000 total.failures })

-- The time that is left of a lockout, at least `seconds`.
abbrev pub longer : ℕ → ℕ → AttemptState → ℕ
longer now seconds state =
    if ltb seconds (state.locked_until - now) then state.locked_until - now else seconds

-- The loop of `RetryAfter`, over the global attempt file and that of the scope.
unfoldable pub retry_loop : ℕ → ℕ → List (Option (Option AttemptState)) → ℕ
unfolding read_attempt_state
retry_loop now seconds [] = at_most max_lockout_seconds seconds
retry_loop now seconds (file ∷ files) = elim (read_attempt_state file) [
  | err e ↦ max_lockout_seconds
  | ok state ↦ retry_loop now (longer now seconds state) files
]

-- `RetryAfter`. `found` tells whether the directory of the instance was found.
unfoldable pub retry_after :
    Bool → ℕ → String → Option (Option AttemptState) → Option (Option AttemptState) → ℕ
unfolding retry_loop
retry_after found now scope global scoped =
    if not found || not (valid_scope scope)
    then max_lockout_seconds
    else retry_loop now 1 (global ∷ scoped ∷ [])
