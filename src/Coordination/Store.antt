-- ===== src/Coordination/Store.antt =====
-- The reads of internal/coordination/store.go and head.go, and the order of operations.
use geoflow_updater.Prelude.{
  ℕ, ◌+◌, ◌-◌, ◌^◌, String, Bool, false, not, ◌&&◌, Option, none, some, List, [], ◌∷◌, any, ltb,
  ◌==◌, str_eq, if◌then◌else◌,
}
use geoflow_updater.Prelude.Result.{Result, ok, err, ◌>>=◌, ◌>>◌, require}
use geoflow_updater.Coordination.Patterns.{identifier, op_id}
use geoflow_updater.Coordination.Records.{RawMessage, Admission, valid_admission, Head, valid_head}
use geoflow_updater.Coordination.Files.{
  Failure, not_exist, invalid_request_identity, invalid_operation_identity,
  invalid_admission_authority, invalid_order_authority, duplicate_operation, duplicate_sequence,
  lost_authority, conflicting_order, sequence_exhausted, unsafe_record, Store, read, entries, root,
}

-- `Request`.
unfoldable pub request : Store → String → String → Result Failure Admission
unfolding read
request s id name = do
  require (identifier name) invalid_request_identity
  root id
  a ← read name s.admissions
  require (valid_admission a && str_eq a.instance_id id && str_eq a.client_request_id name)
      invalid_admission_authority
  ok a

abbrev pub seen_operation : String → List Admission → Bool
seen_operation operation = any (λ a. str_eq a.operation_id operation)

abbrev pub seen_sequence : ℕ → List Admission → Bool
seen_sequence sequence = any (λ a. a.sequence == sequence)

-- The loop of `Admissions`: the records that were read stand in `seen`.
unfoldable pub collect :
    Store → String → List Admission → List String → Result Failure (List Admission)
collect s id seen [] = ok []
collect s id seen (name ∷ names) = do
  a ← request s id name
  require (not (seen_operation a.operation_id seen)) duplicate_operation
  require (not (seen_sequence a.sequence seen)) duplicate_sequence
  rest ← collect s id (a ∷ seen) names
  ok (a ∷ rest)

-- `Admissions`.
unfoldable pub admissions : Store → String → Result Failure (List Admission)
unfolding entries
admissions s id =
    if str_eq id "primary" then (do names ← entries s.admissions; collect s id [] names) else ok []

unfoldable pub find_operation : String → List Admission → Result Failure Admission
find_operation operation [] = err not_exist
find_operation operation (a ∷ records) =
    if str_eq a.operation_id operation then ok a else find_operation operation records

-- `Operation`.
unfoldable pub operation : Store → String → String → Result Failure Admission
unfolding find_operation
operation s id name = do
  require (op_id name) invalid_operation_identity
  records ← admissions s id
  find_operation name records

-- The greatest counter of a scope: Go's -1 is `none`.
abbrev pub later : Option ℕ → ℕ → Option ℕ
later none c = some c
later (some last) c = if ltb last c then some c else some last

unfoldable pub last_counter : String → Option ℕ → List Admission → Option ℕ
last_counter scope last [] = last
last_counter scope last (a ∷ records) =
    last_counter scope (if str_eq a.scope scope then later last a.counter else last) records

-- `Counter`.
unfoldable pub counter : Store → String → String → Result Failure (Option ℕ)
unfolding last_counter
counter s id scope = do records ← admissions s id; ok (last_counter scope none records)

-- `head`.
unfoldable pub head : Store → String → Result Failure Head
head s id = do
  root id
  h ← elim s.head [ none ↦ err not_exist | some none ↦ err unsafe_record | some (some h) ↦ ok h ]
  require (valid_head h && str_eq h.instance_id id) invalid_order_authority
  ok h

abbrev empty_message : RawMessage
empty_message = record { text = ""; is_json = false; status = none; recovery_point_id = none }

-- Go's zero `Head`.
abbrev pub zero_head : Head
zero_head = record {
  sequence = 0;
  schema_version = 0;
  instance_id = "";
  origin = "";
  operation_id = "";
  operation = empty_message;
}

-- Where the search for the latest operation starts: at a legacy head, or at nothing.
unfoldable pub start_head : Result Failure Head → List Admission → Result Failure Head
start_head (err not_exist) records = ok zero_head
start_head (err e) records = err e
start_head (ok h) records =
    if str_eq h.origin "legacy"
    then ok h
    else if any (λ a. str_eq a.operation_id h.operation_id && a.sequence == h.sequence) records
    then ok zero_head
    else err lost_authority

abbrev pub head_of : String → Admission → Head
head_of id a = record {
  sequence = a.sequence;
  schema_version = 2;
  instance_id = id;
  origin = "admission";
  operation_id = a.operation_id;
  operation = a.operation;
}

abbrev pub clash : Head → Admission → Bool
clash latest a = latest.sequence == a.sequence && not (str_eq latest.operation_id a.operation_id)

abbrev pub newer : String → Head → Admission → Head
newer id latest a = if ltb latest.sequence a.sequence then head_of id a else latest

-- The loop of `Latest`.
unfoldable pub advance : String → Head → List Admission → Result Failure Head
advance id latest [] = ok latest
advance id latest (a ∷ records) = do
  require (not (clash latest a)) conflicting_order
  advance id (newer id latest a) records

-- `Latest`.
unfoldable pub latest : Store → String → Result Failure Head
unfolding start_head
latest s id =
    if str_eq id "primary"
    then (do
      records ← admissions s id
      start ← start_head (head s id) records
      found ← advance id start records
      require (not (found.sequence == 0)) not_exist
      ok found)
    else err not_exist

abbrev pub max_sequence : ℕ
max_sequence = 2 ^ 64 - 1

-- `nextSequence`: no operation yet counts as sequence 0.
unfoldable pub sequence_after : Result Failure Head → Result Failure ℕ
sequence_after (err not_exist) = ok 1
sequence_after (err e) = err e
sequence_after (ok h) =
    if h.sequence == max_sequence then err sequence_exhausted else ok (h.sequence + 1)

unfoldable pub next_sequence : Store → String → Result Failure ℕ
unfolding sequence_after
next_sequence s id = sequence_after (latest s id)
