-- ===== src/Examples/Sample.antt =====
-- Concrete values that the examples share.
use geoflow_updater.Prelude.{ℕ, String, ◌≡◌, refl, true, Option, none, some, List, [], ◌∷◌}
use geoflow_updater.Prelude.Regex.{is_digit, is_lower, is_upper, is_hex, matches}
use geoflow_updater.Coordination.Patterns.{identifier, hex32, hex64, uuid, op_id, point_id}
use geoflow_updater.Coordination.Records.{
  RawMessage, Actor, valid_actor, scope, Admission, valid_admission,
}
use geoflow_updater.Coordination.Files.{Store}

abbrev pub sample_operation : RawMessage
sample_operation = record {
  text = "{}";
  is_json = true;
  status = some "queued";
  recovery_point_id = some "";
}

abbrev pub sample_actor : Actor
sample_actor = record {
  management_instance_id = "01234567-89ab-cdef-0123-456789abcdef";
  admin_id = 1;
  identity_sha256 = "0123456789abcdef0123456789abcdef0123456789abcdef0123456789abcdef";
}

-- An admission with a number, a request, an operation and a counter.
abbrev pub sample_admission : ℕ → String → String → ℕ → Admission
sample_admission sequence client operation counter = record {
  sequence = sequence;
  schema_version = 2;
  instance_id = "primary";
  client_request_id = client;
  business_sha256 = "0123456789abcdef0123456789abcdef0123456789abcdef0123456789abcdef";
  operation_id = operation;
  action = "update";
  plan_id = "0123456789abcdef0123456789abcdef";
  accepted_epoch = "0123456789abcdef0123456789abcdef";
  actor = sample_actor;
  scope = "update";
  counter = counter;
  accepted_at = 1700000000;
  recovery_point_id = "";
  operation = sample_operation;
}

abbrev pub first_operation : String
first_operation = "20240101T000000.000000000Z-0123456789abcdef"

abbrev pub second_operation : String
second_operation = "20240102T000000.000000000Z-0123456789abcdef"

abbrev pub first_admission : Admission
first_admission = sample_admission 1 "request-0001" first_operation 7

abbrev pub second_admission : Admission
second_admission = sample_admission 0 "request-0002" second_operation 9

abbrev pub holding : List (String × Option Admission) → Store
holding files = record {
  admissions = record { usable = true; files = files };
  plans = record { usable = true; files = [] };
  head = none;
}

-- A store that holds the first admission.
abbrev pub sample_store : Store
sample_store = holding (("request-0001", some first_admission) ∷ [])

sample_admission_is_valid : valid_admission first_admission ≡ true
unfolding valid_admission identifier hex32 hex64 uuid op_id point_id valid_actor scope is_digit
    is_lower is_upper is_hex matches
sample_admission_is_valid = refl
