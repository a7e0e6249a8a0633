-- ===== src/Operation/Records.antt =====
-- The data of internal/operation/manager.go: operations, the deployment that the manager drives, and
-- what has happened. Start and completion times are left out: nothing branches on them.
use geoflow_updater.Prelude.{ℕ, String, Bool, Option, List, Error}
use geoflow_updater.Update.Journal.{Stage}

-- A kind that is read from a file may be any text.
pub data Kind : Type 0 where
  update backup rollback verify switch_back : Kind
  other_kind : String → Kind

-- The engine's status of the same name is another type.
pub data OperationStatus : Type 0 where
  queued running succeeded failed rolled_back recovery_required : OperationStatus

pub record Operation : Type 0 where
  pub id : String
  pub instance_id : String
  pub kind : Kind
  pub status : OperationStatus
  pub current_stage : String
  pub stages : List Stage
  pub target_version : String
  pub recovery_point_id : String
  pub error : String
  pub reconcile_attempts : ℕ
  pub next_reconcile_at : Option ℕ

-- The methods of `Deployment` that the manager calls itself.
pub data Method : Type 0 where
  verifies quiesces resumes : Method
  validates_point quiesces_for_recovery : String → Method
  restores : String → String → Method
  creates_point : String → Method

-- What has happened: a method that returned nil or an error, and an operation that was persisted or
-- not.
pub data Happening : Type 0 where
  called : Method → Happening
  refused : Method → String → Happening
  saved : Operation → Happening
  unsaved : Operation → String → Happening

-- The newest stands first.
abbrev pub Log : Type 0
Log = List Happening

-- What the manager closes over. `save` is the outcome of the writes of `Manager.save`; a recovery
-- point has an identity even where its creation fails. `available` is false where there is no
-- deployment service.
pub record Host : Type 0 where
  pub available : Bool
  pub answer : Log → Method → Error
  pub point : Log → String
  pub save : Log → Operation → Error

abbrev pub State : Type 0
State = Operation × Log
