-- ===== src/Operation/Admission.antt =====
-- The callback of `Submit` in internal/operation/coordination.go, which runs with a code that was
-- just verified: the plan is checked against the request and the host, and an admission recorded.
use geoflow_updater.Prelude.{
  ℕ, ◌≡◌, ◌≤◌, ◌<◌, ◌+◌, ◌/◌, String, Bool, true, not, ◌&&◌, ◌||◌, Option, ltb, ◌==◌, str_eq,
  if◌then◌else◌,
}
use geoflow_updater.Prelude.Result.{Result, ok, err, ◌>>=◌, ◌>>◌, require}
use geoflow_updater.Coordination.Records.{RawMessage, Actor, Plan, SubmitRequest, Admission, scope}
use geoflow_updater.Coordination.Files.{Failure, Store, WriteEnd}
use geoflow_updater.Coordination.Head.{plan, accept, Change}

pub data Refusal : Type 0 where
  plan_refused confirmation_required epoch_changed baseline_changed code_invalid : Refusal
  store_failure : Failure → Refusal
  host_failure : String → Refusal

-- What a submission reads of the host: the clock each time, the recovery epoch, and the evidence
-- of the snapshots, which stand for their baselines.
pub record Visit : Type 0 where
  pub first_now : ℕ
  pub second_now : ℕ
  pub counter_now : ℕ
  pub accepted_now : ℕ
  pub epoch : Result Refusal String
  pub planner : Bool  -- whether the deployment makes snapshots
  pub baseline : String → String → Result Refusal String  -- of an action and a recovery point, now
  pub stored_baseline : Option RawMessage → Result Refusal String  -- of the snapshot in a plan

abbrev pub same_actor : Actor → Actor → Bool
same_actor a b =
    str_eq a.management_instance_id b.management_instance_id
    && a.admin_id == b.admin_id
    && str_eq a.identity_sha256 b.identity_sha256

-- `m.coordinationStore().Plan`, whose errors are all `ErrPlan`.
abbrev pub found_plan : Result Failure Plan → Result Refusal Plan
found_plan (ok p) = ok p
found_plan (err e) = err plan_refused

abbrev pub matches_request : Plan → SubmitRequest → ℕ → Bool
matches_request p r now =
    str_eq p.plan_sha256 r.plan_sha256
    && str_eq p.action r.action
    && str_eq p.expected_epoch r.expected_epoch
    && same_actor p.actor r.actor
    && ltb now p.expires_at

abbrev pub is_confirmed : Plan → SubmitRequest → Bool
is_confirmed p r = not (
    (p.maintenance_required && not r.allow_maintenance)
    || (str_eq p.continuation "host_only" && not r.confirm_host_access))

module _ (digest : Plan → String) where
  -- `validate`.
  unfoldable pub check_plan : Store → String → SubmitRequest → Visit → Result Refusal Plan
  check_plan s id r v = do
    p ← found_plan (plan digest s id r.plan_id)
    require (matches_request p r v.first_now) plan_refused
    require (is_confirmed p r) confirmation_required
    epoch ← v.epoch
    require (str_eq epoch r.expected_epoch) epoch_changed
    require v.planner plan_refused
    current ← v.baseline p.action p.recovery_point_id
    require (str_eq current p.baseline_sha256) baseline_changed
    stored ← v.stored_baseline p.snapshot
    require (str_eq stored current) plan_refused
    require (ltb v.second_now p.expires_at) plan_refused
    ok p

-- The admission of a request, with its operation.
abbrev pub admission_of :
    String → Plan → SubmitRequest → String → RawMessage → String → ℕ → Visit → Admission
admission_of id p r operation_id contents business counter v = record {
  sequence = 0;
  schema_version = 2;
  instance_id = id;
  client_request_id = r.client_request_id;
  business_sha256 = business;
  operation_id = operation_id;
  action = r.action;
  plan_id = p.plan_id;
  accepted_epoch = p.expected_epoch;
  actor = p.actor;
  scope = scope r.action;
  counter = counter;
  accepted_at = v.accepted_now;
  recovery_point_id = p.recovery_point_id;
  operation = contents;
}

abbrev pub recorded : Change → Store × Result Refusal (Unit {0})
recorded (s, ok nothing) = (s, ok tt)
recorded (s, err e) = (s, err (store_failure e))

-- Whether the code's counter is one step at most from the current one.
abbrev pub is_current : ℕ → ℕ → Bool
is_current counter now = not (ltb (counter + 1) (now / 30) || ltb (now / 30 + 1) counter)

-- `accept`. `business` is `BusinessSHA256` of the request.
unfoldable pub accept_request : WriteEnd → Admission → ℕ → Store → Store × Result Refusal (Unit {0})
unfolding accept
accept_request end a now s =
    if is_current a.counter now then recorded (accept end a s) else (s, err code_invalid)

-- What an accepted request shows.
pub record IsPermitted (digest : Plan → String) (s : Store) (id : String) (r : SubmitRequest)
    (v : Visit) (p : Plan) (counter : ℕ) : Type 0 where
  pub stored : plan digest s id r.plan_id ≡ ok p
  pub same_plan : p.plan_sha256 ≡ r.plan_sha256
  pub same_action : p.action ≡ r.action
  pub own : p.actor ≡ r.actor
  pub in_time : v.second_now < p.expires_at
  pub in_epoch : v.epoch ≡ ok p.expected_epoch
  pub confirmed : p.maintenance_required ≡ true → r.allow_maintenance ≡ true
  pub host_confirmed : p.continuation ≡ "host_only" → r.confirm_host_access ≡ true
  pub unchanged : v.baseline p.action p.recovery_point_id ≡ ok p.baseline_sha256
  pub same_snapshot : v.stored_baseline p.snapshot ≡ ok p.baseline_sha256
  pub not_early : v.counter_now / 30 ≤ counter + 1
  pub not_late : counter ≤ v.counter_now / 30 + 1
