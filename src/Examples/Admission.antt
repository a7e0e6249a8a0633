-- ===== src/Examples/Admission.antt =====
-- A submission of a plan that is stored, unexpired and confirmed.
use geoflow_updater.Prelude.{ℕ, ◌≡◌, refl, String, true, false, some, [], ◌∷◌}
use geoflow_updater.Prelude.Regex.{is_digit, is_lower, is_upper, is_hex, matches}
use geoflow_updater.Prelude.Result.{ok}
use geoflow_updater.Coordination.Patterns.{identifier, hex32, hex64, uuid, op_id, point_id}
use geoflow_updater.Coordination.Records.{
  Plan, SubmitRequest, Admission, valid_actor, scope, valid_admission, valid_plan, plan_digest,
}
use geoflow_updater.Coordination.Files.{Store, clean, find, put, read, entries, create}
use geoflow_updater.Coordination.Store.{
  request, admissions, collect, head, start_head, advance, latest, sequence_after, next_sequence,
}
use geoflow_updater.Coordination.Head.{plan, accept, accept_numbered}
use geoflow_updater.Coordination.Admit.{IsAdmitted}
use geoflow_updater.Operation.Admission.{
  Visit, check_plan, admission_of, accept_request, IsPermitted,
}
use geoflow_updater.Operation.Permitted.{accept_request-IsPermitted}
use geoflow_updater.Examples.Sample.{
  sample_actor, sample_operation, first_admission, second_operation, sample_store,
}

abbrev sha : String
sha = "0123456789abcdef0123456789abcdef0123456789abcdef0123456789abcdef"

abbrev id32 : String
id32 = "0123456789abcdef0123456789abcdef"

abbrev digest : Plan → String
digest p = sha

abbrev stored_plan : Plan
stored_plan = record {
  schema_version = 2;
  instance_id = "primary";
  plan_id = id32;
  plan_sha256 = sha;
  baseline_sha256 = sha;
  expected_epoch = id32;
  action = "update";
  actor = sample_actor;
  expires_at = 1000;
  maintenance_required = true;
  continuation = "remote";
  recovery_point_id = "";
  details = sample_operation;
  snapshot = some sample_operation;
}

abbrev planned_store : Store
planned_store = record sample_store {
  plans = record { usable = true; files = (id32, some stored_plan) ∷ [] };
}

abbrev submission : SubmitRequest
submission = record {
  action = "update";
  plan_id = id32;
  plan_sha256 = sha;
  expected_epoch = id32;
  allow_maintenance = true;
  confirm_host_access = false;
  client_request_id = "request-0002";
  actor = sample_actor;
  scope = "updater:update";
}

abbrev visit : Visit
visit = record {
  first_now = 900;
  second_now = 905;
  counter_now = 910;
  accepted_now = 910;
  epoch = ok id32;
  planner = true;
  baseline = λ action point. ok sha;
  stored_baseline = λ snapshot. ok sha;
}

abbrev made_admission : Admission
made_admission =
    admission_of "primary" stored_plan submission second_operation sample_operation sha 30 visit

abbrev stored_admission : Admission
stored_admission = record made_admission { sequence = 2 }

abbrev admitted_store : Store
admitted_store = record planned_store {
  admissions = record {
    usable = true;
    files = ("request-0001", some first_admission) ∷ ("request-0002", some stored_admission) ∷ [];
  };
}

plan_checked : check_plan digest planned_store "primary" submission visit ≡ ok stored_plan
unfolding check_plan plan read find valid_plan plan_digest identifier hex32 hex64 uuid op_id
    point_id valid_actor scope is_digit is_lower is_upper is_hex matches
plan_checked = refl

admissions_read : admissions planned_store "primary" ≡ ok (first_admission ∷ [])
unfolding admissions collect request entries read find valid_admission identifier hex32 hex64 uuid
    op_id point_id valid_actor scope is_digit is_lower is_upper is_hex matches
admissions_read = refl

request_accepted : accept_request clean made_admission 910 planned_store ≡ (admitted_store, ok tt)
unfolding accept_request accept accept_numbered create put next_sequence sequence_after latest
    start_head advance request head admissions collect entries read find valid_admission identifier
    hex32 hex64 uuid op_id point_id valid_actor scope is_digit is_lower is_upper is_hex matches
request_accepted = refl

accept_request-IsPermitted_example :
    IsPermitted digest planned_store "primary" submission visit stored_plan 30
    × ((n : ℕ) × IsAdmitted planned_store admitted_store (first_admission ∷ []) made_admission n)
accept_request-IsPermitted_example =
    accept_request-IsPermitted digest clean planned_store admitted_store submission visit
      stored_plan second_operation sha sample_operation 30 (first_admission ∷ []) plan_checked
      admissions_read refl request_accepted
