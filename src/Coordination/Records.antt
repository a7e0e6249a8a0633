-- ===== src/Coordination/Records.antt =====
-- The records of internal/coordination: actors, plans, requests, admissions, receipts and heads,
-- with their validity. A time is a number, 0 for Go's zero time. An int64 field that validity holds
-- to be positive or zero is a natural number: a record with a negative one counts as unreadable.
use geoflow_updater.Prelude.{
  ℕ, String, Bool, false, not, ◌&&◌, ◌||◌, Option, none, some, [], ◌∷◌, concat, ◌==◌, ltb, str_eq,
  if◌then◌else◌,
}
use geoflow_updater.Coordination.Patterns.{identifier, hex32, hex64, uuid, op_id, point_id}

-- A `json.RawMessage`: its text, whether it is JSON, and what `json.Unmarshal` reads of the fields
-- `status` and `recovery_point_id` (`none` where it fails, "" where the field is absent).
pub record RawMessage : Type 0 where
  pub text : String
  pub is_json : Bool
  pub status : Option String
  pub recovery_point_id : Option String

pub record Actor : Type 0 where
  pub management_instance_id : String
  pub admin_id : ℕ
  pub identity_sha256 : String

unfoldable pub valid_actor : Actor → Bool
valid_actor a = uuid a.management_instance_id && ltb 0 a.admin_id && hex64 a.identity_sha256

unfoldable pub scope : String → String
scope action =
    if str_eq action "update" || str_eq action "switch-back"
    then "update"
    else if str_eq action "backup"
    then "backup"
    else if str_eq action "restore"
    then "rollback"
    else ""

unfoldable pub wire_scope : String → String
unfolding scope
wire_scope action =
    if str_eq action "restore"
    then "updater:restore"
    else if not (str_eq (scope action) "")
    then concat ("updater:" ∷ scope action ∷ [])
    else ""

pub record PlanRequest : Type 0 where
  pub action : String
  pub expected_epoch : String
  pub actor : Actor
  pub recovery_point_id : String

unfoldable pub valid_plan_request : PlanRequest → Bool
unfolding scope valid_actor
valid_plan_request r =
    not (str_eq (scope r.action) "")
    && hex32 r.expected_epoch
    && valid_actor r.actor
    && ((str_eq r.action "restore" && point_id r.recovery_point_id)
        || (not (str_eq r.action "restore") && str_eq r.recovery_point_id ""))

pub record Plan : Type 0 where
  pub schema_version : ℕ
  pub instance_id : String
  pub plan_id : String
  pub plan_sha256 : String
  pub baseline_sha256 : String
  pub expected_epoch : String
  pub action : String
  pub actor : Actor
  pub expires_at : ℕ
  pub maintenance_required : Bool
  pub continuation : String
  pub recovery_point_id : String
  pub details : RawMessage
  pub snapshot : Option RawMessage

-- What a client may see of a plan.
unfoldable pub public : Plan → Plan
public p = record p { snapshot = none }

-- `p.Digest()`: the digest of the plan with its own digest left out. `digest` is `Digest`, the
-- SHA-256 of the JSON text.
unfoldable pub plan_digest : (Plan → String) → Plan → String
plan_digest digest p = digest (record p { plan_sha256 = "" })

unfoldable pub valid_plan : (Plan → String) → Plan → Bool
unfolding valid_actor scope plan_digest
valid_plan digest p =
    p.schema_version == 2
    && str_eq p.instance_id "primary"
    && hex32 p.plan_id
    && hex64 p.plan_sha256
    && hex64 p.baseline_sha256
    && hex32 p.expected_epoch
    && not (str_eq (scope p.action) "")
    && valid_actor p.actor
    && not (p.expires_at == 0)
    && (str_eq p.continuation "remote" || str_eq p.continuation "host_only")
    && (str_eq p.recovery_point_id "" || point_id p.recovery_point_id)
    && str_eq (plan_digest digest p) p.plan_sha256

pub record SubmitRequest : Type 0 where
  pub action : String
  pub plan_id : String
  pub plan_sha256 : String
  pub expected_epoch : String
  pub allow_maintenance : Bool
  pub confirm_host_access : Bool
  pub client_request_id : String
  pub actor : Actor
  pub scope : String

unfoldable pub valid_submit_request : SubmitRequest → Bool
unfolding valid_actor wire_scope
valid_submit_request r =
    not (str_eq (scope r.action) "")
    && hex32 r.plan_id
    && hex64 r.plan_sha256
    && hex32 r.expected_epoch
    && identifier r.client_request_id
    && valid_actor r.actor
    && str_eq r.scope (wire_scope r.action)

pub record Admission : Type 0 where
  pub sequence : ℕ  -- uint64
  pub schema_version : ℕ
  pub instance_id : String
  pub client_request_id : String
  pub business_sha256 : String
  pub operation_id : String
  pub action : String
  pub plan_id : String
  pub accepted_epoch : String
  pub actor : Actor
  pub scope : String
  pub counter : ℕ
  pub accepted_at : ℕ
  pub recovery_point_id : String
  pub operation : RawMessage

unfoldable pub valid_admission : Admission → Bool
unfolding scope valid_actor
valid_admission a =
    ltb 0 a.sequence
    && a.schema_version == 2
    && str_eq a.instance_id "primary"
    && identifier a.client_request_id
    && hex64 a.business_sha256
    && op_id a.operation_id
    && hex32 a.plan_id
    && hex32 a.accepted_epoch
    && valid_actor a.actor
    && str_eq a.scope (scope a.action)
    && not (str_eq a.scope "")
    && not (a.accepted_at == 0)
    && a.operation.is_json
    && (str_eq a.recovery_point_id "" || point_id a.recovery_point_id)

pub record Receipt : Type 0 where
  pub schema_version : ℕ
  pub instance_id : String
  pub client_request_id : String
  pub business_sha256 : String
  pub operation_id : String
  pub action : String
  pub plan_id : String
  pub accepted_epoch : String
  pub admission_status : String
  pub background_status : String
  pub operation : Option RawMessage

abbrev is_queued : RawMessage → Bool
is_queued m = elim m.status [ none ↦ false | some status ↦ str_eq status "queued" ]

-- A queued admission is shown as pending, with no operation.
unfoldable pub receipt : Admission → String → Receipt
receipt a background = record {
  schema_version = 2;
  instance_id = a.instance_id;
  client_request_id = a.client_request_id;
  business_sha256 = a.business_sha256;
  operation_id = a.operation_id;
  action = a.action;
  plan_id = a.plan_id;
  accepted_epoch = a.accepted_epoch;
  admission_status = if is_queued a.operation then "pending" else "accepted";
  background_status = background;
  operation = if is_queued a.operation then none else some a.operation;
}

pub record Head : Type 0 where
  pub sequence : ℕ  -- uint64
  pub schema_version : ℕ
  pub instance_id : String
  pub origin : String
  pub operation_id : String
  pub operation : RawMessage

unfoldable pub valid_head : Head → Bool
valid_head h =
    h.schema_version == 2
    && str_eq h.instance_id "primary"
    && ltb 0 h.sequence
    && (str_eq h.origin "legacy" || str_eq h.origin "admission")
    && op_id h.operation_id
    && h.operation.is_json
