-- ===== src/Deployment/Journal.antt =====
-- The release transaction of internal/deployment/bluegreen.go, and what a release does to a host.
use geoflow_updater.Prelude.{ℕ, String, Bool, Error, Option, List}
use geoflow_updater.Prelude.Result.{Result}
use geoflow_updater.Coordination.Files.{WriteEnd}
use geoflow_updater.Managed.Release.{Bytes, Release}
use geoflow_updater.Update.Journal.{Status}

-- `instance.Config`.
pub record Config : Type 0 where
  pub schema_version : ℕ
  pub id : String
  pub root : String
  pub layout : String
  pub active_slot : String
  pub compose_file : String
  pub environment_file : String
  pub infra_compose_file : String
  pub infra_environment_file : String
  pub release_sequence : ℕ  -- uint64
  pub version : String
  pub postgres_major : String
  pub postgres_data_dir : String
  pub postgres_mount : String
  pub redis_major : String
  pub control_token : String
  pub enrolled_release_sha256 : String
  pub enrolled_at : String

-- The status of a transaction: `running`, or one of those of an update.
pub data Progress : Type 0 where
  running : Progress
  ended : Status → Progress

pub record Transaction : Type 0 where
  pub schema_version : ℕ
  pub operation_id : String
  pub status : Progress
  pub stage : String
  pub strategy : String
  pub source : Config
  pub candidate : Config
  pub target : Release
  pub source_version : Bytes
  pub recovery_point_id : String
  pub traffic_opened : Bool
  pub layout_started : Bool
  pub workers_handed_over : Bool
  pub old_ingress_workers : List String
  pub plan_sha256 : String
  pub failure : String  -- the field `Error`

-- The deployment of the transaction that a call is about.
pub data Side : Type 0 where
  source candidate : Side

-- The calls that a release makes outside its own logic: containers, files and the recovery store.
pub data Call : Type 0 where
  load_config preflight read_version make_preparation pull_images inspect require_ready : Call
  slot_free : String → Call
  prepare_release : String → Call  -- into a directory
  copy_assets : Side → Call
  quiesce create_point freeze_point start_redis wait_redis online_backup : Call
  apply verify : Bool → Call  -- whether the application is drained
  install_infrastructure prepare_views artisan_up : Call
  start drain : Side → List String → Call
  start_background drain_background drain_applications : Side → Call
  wait_http : Side → Call
  switch_ingress : Side → Bool → Call  -- whether the edge may be running
  activate_slot : Side → Call
  wait_workers : Side → List String → Call
  observe_release wait_containers : Call
  prepare_restore down_infrastructure : Side → Call
  drain_redis restore resume : Call

-- What happened: a call and its error, a write of the transaction with the traffic flag that it holds,
-- and a stage that was reported.
pub data Event : Type 0 where
  made : Call → Error → Event
  wrote : Bool → WriteEnd → Event
  reported : String → String → Error → Event

-- The newest event first.
abbrev pub Log : Type 0
Log = List Event

-- A host during a release: the transaction in memory, its file, and what happened.
pub record Run : Type 0 where
  pub tx : Transaction
  pub file : Option (Option Transaction)
  pub log : Log

-- What the calls come to, which may depend on all that happened.
pub record Env : Type 0 where
  pub answer : Log → Call → Error
  pub write_end : Log → WriteEnd
  pub observer : Option (Log → String → String → Error)
  pub recoveries : Bool  -- whether there is a recovery store
  pub config : Log → Config  -- what `loadConfig` reads
  pub contents : Log → Bytes  -- what is read of `version.json`
  pub prepared : Log → Config → Release → String → Config  -- the configuration that a release is prepared as
  pub preparation : Log → String  -- the new directory
  pub point : Log → String
  pub workers : Log → List String
  pub eligible_online : Log → Bool  -- the report of the application
  pub pins_match : Log → Bool  -- `verifyInfrastructurePins`
  pub plan_digest : Log → Result String String  -- with the error of reading `.env.prod`
  pub inside : String → Bool  -- `inside` of the directory of the instance
