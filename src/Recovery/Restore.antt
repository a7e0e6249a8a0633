-- ===== src/Recovery/Restore.antt =====
-- `restoreValidated` of internal/recovery/store.go, on the state of recovery control and on the
-- directories of the storage and of Redis. `A` is what a directory holds.
use geoflow_updater.Prelude.{String, Bool, Error, none, some, concat, List, [], ◌∷◌, if◌then◌else◌}
use geoflow_updater.Prelude.Result.{Result, ok, err}
use geoflow_updater.Prelude.Action.{Action, ◌>>=◌, ◌>>◌, done, check}
use geoflow_updater.RecoveryControl.Records.{Failure, Authority}
use geoflow_updater.RecoveryControl.Disk.{Ends}
use geoflow_updater.RecoveryControl.Disk as RecoveryControl
use geoflow_updater.RecoveryControl.Store.{begin, restored}
use geoflow_updater.Recovery.Swap.{Calls, Disk, Run, restore_staged}
use geoflow_updater.Recovery.Attempts.{start}

pub record RestoreRequest : Type 0 where
  pub point_id : String
  pub transaction_id : String
  pub admin_digest : String

-- What a run does, in the order of the code. From `preserve` on the host is changed.
pub data RestoreStep : Type 0 where
  make_storage_stage stage_storage make_redis_stage stage_redis check_storage check_redis :
      RestoreStep
  preserve : RestoreStep
  replace_file : String → RestoreStep
  open_dump restore_database close_dump : RestoreStep
  swap_storage swap_redis : RestoreStep

-- An error, with what was being done, as `fmt.Errorf` writes it in front.
pub data Failed : Type 0 where
  failed : String → Failed
  control : Failure → Failed
  while : String → Failed → Failed

-- `past` has each step, with the state of recovery control at its start, the newest first.
pub record Host (A : Type 0) : Type 0 where
  pub controlled : RecoveryControl.Disk
  pub storage : Disk A
  pub redis : Disk A
  pub past : List (RecoveryControl.Disk × RestoreStep)

-- What the calls come to, which may depend on all that happened.
pub record Answers (A : Type 0) : Type 0 where
  pub answer : Host A → RestoreStep → Error
  pub control_ends : Host A → Ends
  pub storage_calls : Host A → Calls A
  pub redis_calls : Host A → Calls A

-- What the recovery point holds: the trees of its two archives.
pub record Contents (A : Type 0) : Type 0 where
  pub storage_tree : A
  pub redis_tree : A

abbrev pub Restoring : Type 0 → Type 0 → Type 0
Restoring A B = Action (Host A) Failed B

abbrev pub step_result : Error → Result Failed (Unit {0})
step_result none = ok tt
step_result (some e) = err (failed e)

module _ {A : Type 0} where
  abbrev pub noted : RestoreStep → Host A → Host A
  noted step h = record h { past = (h.controlled, step) ∷ h.past }

  abbrev pub named_error :
      {B : Type 0} → String → Host A × Result Failed B → Host A × Result Failed B
  named_error name (h, err e) = (h, err (while name e))
  named_error name (h, ok b) = (h, ok b)

  abbrev pub named : {B : Type 0} → String → Restoring A B → Restoring A B
  named name call h = named_error name (call h)

  abbrev pub controlled_by :
      Host A → RecoveryControl.Disk × Result Failure Authority → Host A × Result Failed Authority
  controlled_by h (d, ok a) = (record h { controlled = d }, ok a)
  controlled_by h (d, err e) = (record h { controlled = d }, err (control e))

  abbrev pub after_storage :
      Host A → Run A × Result String (Unit {0}) → Host A × Result Failed (Unit {0})
  after_storage h (s, ok nothing) = (record h { storage = s.disk }, ok tt)
  after_storage h (s, err e) = (record h { storage = s.disk }, err (failed e))

  abbrev pub after_redis :
      Host A → Run A × Result String (Unit {0}) → Host A × Result Failed (Unit {0})
  after_redis h (s, ok nothing) = (record h { redis = s.disk }, ok tt)
  after_redis h (s, err e) = (record h { redis = s.disk }, err (failed e))

module _ {A : Type 0} (w : Answers A) (contents : Contents A) (instance : String)
    (request : RestoreRequest) where
  abbrev pub act : RestoreStep → Restoring A (Unit {0})
  act step h = (noted step h, step_result (w.answer h step))

  abbrev pub boundary_begun : Restoring A Authority
  boundary_begun h = controlled_by h (
      begin (w.control_ends h) instance request.point_id request.transaction_id request.admin_digest
        h.controlled)

  abbrev pub marked : Restoring A Authority
  marked h =
      controlled_by h (restored (w.control_ends h) instance request.transaction_id h.controlled)

  abbrev pub storage_swapped : Restoring A (Unit {0})
  storage_swapped h =
      after_storage (noted swap_storage h)
        (restore_staged ⦃calls = w.storage_calls h⦄ (start contents.storage_tree h.storage))

  abbrev pub redis_swapped : Restoring A (Unit {0})
  redis_swapped h =
      after_redis (noted swap_redis h)
        (restore_staged ⦃calls = w.redis_calls h⦄ (start contents.redis_tree h.redis))

  -- The loop over the files of the deployment.
  unfoldable pub replaced : List String → Restoring A (Unit {0})
  replaced [] = done tt
  replaced (name ∷ files) =
      named (concat ("restore " ∷ name ∷ [])) (act (replace_file name)) >> replaced files

  unfoldable pub restore_data : List String → Restoring A (Unit {0})
  unfolding replaced restored restore_staged
  restore_data files = do
    named "preserve Redis recovery evidence" (act preserve)
    replaced files
    named "open database backup" (act open_dump)
    named "restore PostgreSQL database" (act restore_database)
    named "close database backup" (act close_dump)
    named "restore storage" storage_swapped
    named "restore Redis data" redis_swapped
    authority ← marked
    done tt

  unfoldable pub stage_archives : Restoring A (Unit {0})
  stage_archives = do
    named "create recovery restore staging directory" (act make_storage_stage)
    named "stage storage recovery archive" (act stage_storage)
    named "create Redis recovery staging directory" (act make_redis_stage)
    named "stage Redis recovery archive" (act stage_redis)
    act check_storage
    act check_redis

  -- `restoreValidated`, where `files` are the sorted names of the files of the deployment that the
  -- point was made of, and `has_control` tells that the store has a recovery control. The staging
  -- directories, which are removed at the end, are no part of the state.
  unfoldable pub restore_validated : Bool → List String → Restoring A (Unit {0})
  unfolding stage_archives begin restore_data
  restore_validated has_control files = do
    stage_archives
    check has_control (failed "durable recovery control is required before restoring data")
    authority ← named "persist restore boundary" boundary_begun
    (if authority.data_restored then done tt else restore_data files)
