-- ===== src/Examples/Authorization.antt =====
-- Two codes of the scope `update`, one after the other. The code of a counter is its low digits.
use geoflow_updater.Prelude.{
  Memᴰ, ℕ, ◌<◌, ◌≡◌, ◌⊎◌, refl, subst, ap, true, false, none, some, [], ◌∷◌, arith,
}
use geoflow_updater.Prelude.Regex.{is_digit, is_lower, is_upper, is_hex, matches}
use geoflow_updater.Prelude.Result.{ok}
use geoflow_updater.Coordination.Patterns.{identifier, hex32, hex64, uuid, op_id, point_id}
use geoflow_updater.Coordination.Records.{valid_actor, scope, valid_admission}
use geoflow_updater.Coordination.Files.{Store, clean, early, find, put, read, entries, create}
use geoflow_updater.Coordination.Store.{
  request, collect, admissions, last_counter, counter, latest, start_head, advance, head,
  next_sequence, sequence_after,
}
use geoflow_updater.Coordination.Head.{accept, accept_numbered}
use geoflow_updater.Authorization.Attempts.{
  no_attempts, AttemptState, valid_scope, valid_attempts, read_attempt_state, remaining,
  remaining_global_attempt_state, next_invalid_attempt_state,
}
use geoflow_updater.Authorization.Lockout.{IsLockedFor, next_invalid_attempt_state-IsLockedFor}
use geoflow_updater.Authorization.Codes.{
  code_of, Crypto, code_pattern, secret_pattern, read_secret, byte_at, derive_secret, generate_code,
}
use geoflow_updater.Authorization.World.{Factors, World, Ends, with_attempts, with_counter}
use geoflow_updater.Authorization.Service.{Callback, match_code, examine, authorize}
use geoflow_updater.Authorization.Entitled.{IsEntitled}
use geoflow_updater.Authorization.Runs.{WasFound, Fate, authorize-Fate}
use geoflow_updater.Authorization.Accepts.{authorize-accepts}
use geoflow_updater.Authorization.Once.{Binds, authorize_once, authorize_after-accept}
use geoflow_updater.Examples.Sample.{sample_admission, first_operation, holding}

instance abbrev counting : Crypto
counting = record {
  decode = λ secret. some [];
  encode = λ bytes. "SECRET";
  hmac_sha256 = λ key message. [];
  hmac_sha1 = λ key message.
      byte_at 4 message ∷ byte_at 5 message ∷ byte_at 6 message ∷ byte_at 7 message ∷ 0 ∷ [];
}

abbrev fresh_factors : Factors
fresh_factors = record {
  secret = some (some "ABCDEFGHIJKLMNOPQRSTUVWXYZ234567");
  global = none;
  attempts = [];
  counters = [];
}

-- A store that holds an admission under a counter.
abbrev bound_store : ℕ → Store
bound_store c =
    holding (("request-0001", some (sample_admission 1 "request-0001" first_operation c)) ∷ [])

abbrev binding : Callback
binding c s = (bound_store c, ok tt)

bound_store-Binds : (c : ℕ) → Binds "primary" "update" c (bound_store c)
unfolding counter last_counter admissions collect request entries read find valid_admission
    identifier hex32 hex64 uuid op_id point_id valid_actor scope is_digit is_lower is_upper is_hex
    matches
bound_store-Binds c = (c, refl, omega arith)

abbrev all_clean : Ends
all_clean = record {
  counter_end = clean;
  restore_end = clean;
  scope_end = clean;
  global_end = clean;
}

-- The counter file is lost.
abbrev half_clean : Ends
half_clean = record {
  counter_end = early "disk";
  restore_end = clean;
  scope_end = clean;
  global_end = clean;
}

abbrev first_world : World
first_world = record { factors = fresh_factors; store = holding [] }

abbrev middle_world : World
middle_world =
    (authorize half_clean true (ok tt) none "primary" "update" "000100" 3000 binding first_world).0

abbrev last_world : World
last_world =
    (authorize all_clean false (ok tt) none "primary" "update" "000102" 3030 binding middle_world).0

first_succeeds :
    authorize half_clean true (ok tt) none "primary" "update" "000100" 3000 binding first_world
    ≡ (middle_world, ok tt)
unfolding authorize examine match_code derive_secret code_of generate_code read_secret
    secret_pattern code_pattern read_attempt_state remaining remaining_global_attempt_state
    with_attempts with_counter valid_scope counter last_counter admissions collect request entries
    read find put valid_admission identifier hex32 hex64 uuid op_id point_id valid_actor scope
    is_digit is_lower is_upper is_hex matches valid_attempts
first_succeeds = refl

second_succeeds :
    authorize all_clean false (ok tt) none "primary" "update" "000102" 3030 binding middle_world
    ≡ (last_world, ok tt)
unfolding authorize examine match_code derive_secret code_of generate_code read_secret
    secret_pattern code_pattern read_attempt_state remaining remaining_global_attempt_state
    with_attempts with_counter valid_scope counter last_counter admissions collect request entries
    read find put valid_admission identifier hex32 hex64 uuid op_id point_id valid_actor scope
    is_digit is_lower is_upper is_hex matches valid_attempts
second_succeeds = refl

authorize_once_example :
    (c : ℕ) × (c' : ℕ) × IsEntitled first_world "primary" "update" "000100" 3000 c
    × IsEntitled middle_world "primary" "update" "000102" 3030 c'
    × (c < c')
authorize_once_example =
    authorize_once "primary" "update" half_clean all_clean true false (ok tt) (ok tt) none none
      "000100" "000102" 3000 3030 binding binding first_world middle_world middle_world last_world
      (λ c s s' h. subst (Binds "primary" "update" c) (ap (λ x. x.0) h) (bound_store-Binds c))
      (λ c b. b) (λ p. cc) (λ p. cc) first_succeeds second_succeeds

-- An admission of the counter 100 is accepted, and the factors are new.
accepted_hundred :
    accept clean (sample_admission 0 "request-0001" first_operation 100) (holding [])
    ≡ (bound_store 100, ok tt)
unfolding accept accept_numbered create put next_sequence sequence_after latest start_head advance
    head admissions collect request entries read find valid_admission identifier hex32 hex64 uuid
    op_id point_id valid_actor scope is_digit is_lower is_upper is_hex matches
accepted_hundred = refl

empty_store-admissions : admissions (holding []) "primary" ≡ ok []
unfolding admissions collect entries
empty_store-admissions = refl

abbrev admitted_world : World
admitted_world = record { factors = fresh_factors; store = bound_store 100 }

abbrev later_world : World
later_world =
    (authorize all_clean true (ok tt) none "primary" "update" "000102" 3030 binding
      admitted_world).0

later_succeeds :
    authorize all_clean true (ok tt) none "primary" "update" "000102" 3030 binding admitted_world
    ≡ (later_world, ok tt)
unfolding authorize examine match_code derive_secret code_of generate_code read_secret
    secret_pattern code_pattern read_attempt_state remaining remaining_global_attempt_state
    with_attempts with_counter valid_scope counter last_counter admissions collect request entries
    read find put valid_admission identifier hex32 hex64 uuid op_id point_id valid_actor scope
    is_digit is_lower is_upper is_hex matches valid_attempts
later_succeeds = refl

authorize_after-accept_example :
    (c : ℕ) × IsEntitled admitted_world "primary" "update" "000102" 3030 c × (100 < c)
authorize_after-accept_example =
    authorize_after-accept clean (sample_admission 0 "request-0001" first_operation 100)
      (holding []) (bound_store 100) [] all_clean true (ok tt) none "000102" 3030 binding
      admitted_world later_world refl empty_store-admissions refl accepted_hundred (λ b. b)
      (λ p. cc) later_succeeds

authorize-Fate_example :
    WasFound first_world none
      (authorize half_clean true (ok tt) none "primary" "update" "000100" 3000 binding first_world)
    ⊎ Fate first_world "primary" "update" "000100" 3000 binding (
        authorize half_clean true (ok tt) none "primary" "update" "000100" 3000 binding first_world)
authorize-Fate_example =
    authorize-Fate half_clean true (ok tt) none "primary" "update" "000100" 3000 binding first_world

abbrev four_failures : AttemptState
four_failures = record { failures = 4; locked_until = 0 }

abbrev nine_failures : AttemptState
nine_failures = record { failures = 9; locked_until = 20000 }

next_invalid_attempt_state-IsLockedFor_example :
    ((next_invalid_attempt_state four_failures 3000).0.failures ≡ 5)
    × IsLockedFor 3000 (next_invalid_attempt_state four_failures 3000)
next_invalid_attempt_state-IsLockedFor_example =
    next_invalid_attempt_state-IsLockedFor four_failures 3000

first_world-IsEntitled : IsEntitled first_world "primary" "update" "000100" 3000 100
unfolding derive_secret code_of generate_code read_secret secret_pattern read_attempt_state
    valid_scope counter last_counter admissions collect entries find is_digit is_upper matches
    valid_attempts
first_world-IsEntitled = record {
  current = Memᴰ.tail (Memᴰ.head refl);
  right = record {
    master = "ABCDEFGHIJKLMNOPQRSTUVWXYZ234567";
    secret = "SECRET";
    expected = 48 ∷ 48 ∷ 48 ∷ 49 ∷ 48 ∷ 48 ∷ [];
    read = refl;
    derived = refl;
    generated = refl;
    equal = refl;
  };
  unlocked = (no_attempts, no_attempts, refl, refl, omega arith, omega arith);
  fresh = (none, none, refl, refl, refl, refl);
}

authorize-accepts_example :
    (authorize half_clean true
      (ok tt)
      (some (ok false))
      "primary"
      "update"
      "000100"
      3000
      binding
      first_world).1
    ≡ ok tt
unfolding code_pattern valid_scope remaining remaining_global_attempt_state find read_attempt_state
    is_digit matches
authorize-accepts_example =
    authorize-accepts half_clean "primary" "update" "000100" 3000 100 binding first_world
      no_attempts first_world-IsEntitled refl refl refl (λ x s. refl)
