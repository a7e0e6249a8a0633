-- ===== src/Update/Journal.antt =====
-- The data of internal/update: stages, results, options, and the deployment that the engine drives.
-- The deployment and the observer are the engine's environment. What they answer may depend on all
-- that happened before, which the trace records; nothing is assumed of the answers.
use geoflow_updater.Prelude.{String, Bool, Option, List, Error}
use geoflow_updater.Managed.Release.{Release}

pub data Status : Type 0 where
  succeeded failed rolled_back recovery_required : Status

-- `UpdatedAt` is left out: it is a clock reading that nothing in the program branches on.
pub record Stage : Type 0 where
  pub name : String
  pub status : String
  pub message : String

-- `target` is `none` where the Go value is the zero `Release`.
pub record Result : Type 0 where
  pub status : Status
  pub target : Option Release
  pub recovery_point_id : String
  pub error : String

pub record Options : Type 0 where
  pub pinned_target : Option Release
  pub legacy_request : Bool
  pub allow_maintenance : Bool
  pub expected_plan_sha256 : String
  pub operation_id : String

-- The caller's context, or the detached one of `recoveryContext`, which the caller cannot cancel.
pub data Context : Type 0 where
  request detached : Context

-- The methods of `Deployment` that return only an error.
pub data Call : Type 0 where
  preflight pull migrate activate : Release → Call
  quiesce resume verify : Call
  quiesce_for_recovery : String → Call
  freeze rollback : String → String → Call

-- What has happened: a stage that the observer persisted or failed to persist, a method that
-- returned nil or an error, a release that was resolved, a recovery point that was created.
pub data Event : Type 0 where
  recorded : Stage → Event
  unrecorded : Stage → String → Event
  done : Context → Call → Event
  broken : Context → Call → String → Event
  resolved : Release → Error → Event
  created : String → String → Event
  not_created : String → String → Event

-- The newest event stands first.
abbrev pub Trace : Type 0
Trace = List Event

abbrev pub Observer : Type 0
Observer = Trace → Stage → Error

-- The interface `Deployment`, with the optional methods that the engine asks for by type assertion.
pub record Deployment : Type 0 where
  pub answer : Trace → Context → Call → Error
  pub resolve : Trace → Release × Error
  pub create_recovery_point : Trace → String → String × Error
  pub freezes_checkpoints : Bool
  pub quiesces_for_recovery : Bool
  pub execute_release : Option (Release → Options → Option Observer → Trace → Result × Trace)

-- What `RunWithOptions` closes over: the deployment, and the observer, which may be nil.
pub record Env : Type 0 where
  pub observe : Option Observer
  pub deployment : Deployment
