-- ===== src/Examples/Coordination.antt =====
-- A store with one admission, and a second one that is accepted into it.
use geoflow_updater.Prelude.{ℕ, ◌≡◌, refl, some, [], ◌∷◌}
use geoflow_updater.Prelude.Regex.{is_digit, is_lower, is_upper, is_hex, matches}
use geoflow_updater.Prelude.Result.{ok}
use geoflow_updater.Coordination.Patterns.{identifier, hex32, hex64, uuid, op_id, point_id}
use geoflow_updater.Coordination.Records.{Admission, valid_actor, scope, valid_admission}
use geoflow_updater.Coordination.Files.{Store, clean, late, find, put, read, entries, create}
use geoflow_updater.Coordination.Store.{
  request, collect, admissions, head, head_of, start_head, advance, latest, last_counter, counter,
  sequence_after, next_sequence,
}
use geoflow_updater.Coordination.Head.{accept, accept_numbered}
use geoflow_updater.Coordination.Order.{IsTop, latest_max}
use geoflow_updater.Coordination.Admit.{
  IsAdmitted, accept_admits, IsSettled, accept-IsSettled, counter-accept,
}
use geoflow_updater.Examples.Sample.{first_admission, second_admission, holding, sample_store}

admissions_sample : admissions sample_store "primary" ≡ ok (first_admission ∷ [])
unfolding admissions collect request entries read find valid_admission identifier hex32 hex64 uuid
    op_id point_id valid_actor scope is_digit is_lower is_upper is_hex matches
admissions_sample = refl

latest_sample : latest sample_store "primary" ≡ ok (head_of "primary" first_admission)
unfolding latest start_head advance head admissions collect request entries read find
    valid_admission identifier hex32 hex64 uuid op_id point_id valid_actor scope is_digit is_lower
    is_upper is_hex matches
latest_sample = refl

abbrev numbered_second : Admission
numbered_second = record second_admission { sequence = 2 }

-- The store with both.
abbrev grown_store : Store
grown_store =
    holding (("request-0001", some first_admission) ∷ ("request-0002", some numbered_second) ∷ [])

accept_sample : accept clean second_admission sample_store ≡ (grown_store, ok tt)
unfolding accept accept_numbered create put next_sequence sequence_after latest start_head advance
    head admissions collect request entries read find valid_admission identifier hex32 hex64 uuid
    op_id point_id valid_actor scope is_digit is_lower is_upper is_hex matches
accept_sample = refl

counter_sample : counter sample_store "primary" "update" ≡ ok (some 7)
unfolding counter last_counter admissions collect request entries read find valid_admission
    identifier hex32 hex64 uuid op_id point_id valid_actor scope is_digit is_lower is_upper is_hex
    matches
counter_sample = refl

latest_max_example : IsTop sample_store (first_admission ∷ []) (head_of "primary" first_admission)
latest_max_example =
    latest_max sample_store (first_admission ∷ []) (head_of "primary" first_admission)
      admissions_sample latest_sample

accept_admits_example :
    (n : ℕ) × IsAdmitted sample_store grown_store (first_admission ∷ []) second_admission n
accept_admits_example =
    accept_admits clean second_admission sample_store grown_store (first_admission ∷ []) refl
      admissions_sample refl accept_sample

accept-IsSettled_example :
    IsSettled
      (late "sync")
      sample_store
      (first_admission ∷ [])
      second_admission
      (accept (late "sync") second_admission sample_store)
accept-IsSettled_example =
    accept-IsSettled (late "sync") second_admission sample_store (first_admission ∷ []) refl
      admissions_sample refl

counter-accept_example : counter grown_store "primary" "update" ≡ ok (some 9)
counter-accept_example =
    counter-accept clean second_admission sample_store grown_store (first_admission ∷ []) "update"
      (some 7) refl admissions_sample refl accept_sample counter_sample
