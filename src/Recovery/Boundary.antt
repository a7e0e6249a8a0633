-- ===== src/Recovery/Boundary.antt =====
-- Which steps of `restoreValidated` of internal/recovery/store.go change the host, and what recovery
-- control has to hold then.
use geoflow_updater.Prelude.{◌≡◌, String, Bool, true, false, List, [], ◌∷◌, All}
use geoflow_updater.RecoveryControl.Records.{Authority}
use geoflow_updater.RecoveryControl.Disk as RecoveryControl
use geoflow_updater.RecoveryControl.Commits.{IsCommitted}
use geoflow_updater.Recovery.Intact.{Finished}
use geoflow_updater.Recovery.Restore.{
  RestoreRequest, RestoreStep, make_storage_stage, stage_storage, make_redis_stage, stage_redis,
  check_storage, check_redis, preserve, replace_file, open_dump, restore_database, close_dump,
  swap_storage, swap_redis, Host, Contents,
}
use geoflow_updater.Recovery.Begun.{IsFor, IsRestored}

-- A step that changes the host.
abbrev pub is_change : RestoreStep → Bool
is_change make_storage_stage = false
is_change stage_storage = false
is_change make_redis_stage = false
is_change stage_redis = false
is_change check_storage = false
is_change check_redis = false
is_change _ = true

abbrev pub steps : List (RecoveryControl.Disk × RestoreStep) → List RestoreStep
steps [] = []
steps ((d, s) ∷ past) = s ∷ steps past

-- The steps of a run, the newest first.
abbrev pub prepared : List RestoreStep
prepared =
    check_redis ∷ check_storage ∷ stage_redis ∷ make_redis_stage ∷ stage_storage
    ∷ make_storage_stage ∷ []

abbrev pub with_files : List String → List RestoreStep → List RestoreStep
with_files [] l = l
with_files (f ∷ files) l = with_files files (replace_file f ∷ l)

abbrev pub performed : List String → List RestoreStep
performed files =
    swap_redis
    ∷ swap_storage
    ∷ close_dump
    ∷ restore_database
    ∷ open_dump
    ∷ with_files files (preserve ∷ prepared)

module _ (instance : String) (request : RestoreRequest) where
  -- The restore is committed in recovery control, as that of this request, and is not complete.
  pub record IsBegun (d : RecoveryControl.Disk) : Type 0 where
    pub authority : Authority
    pub committed : IsCommitted instance authority d
    pub requested : IsFor request.point_id request.transaction_id request.admin_digest authority
    pub incomplete : authority.data_restored ≡ false

  -- The restored data is committed there.
  pub record IsMarked (d : RecoveryControl.Disk) : Type 0 where
    pub authority : Authority
    pub committed : IsCommitted instance authority d
    pub complete : IsRestored request.transaction_id authority

  -- A step changes the host only while the restore is committed and incomplete.
  abbrev pub IsGuarded : RecoveryControl.Disk × RestoreStep → Type 0
  IsGuarded (d, s) = is_change s ≡ true → IsBegun d

  abbrev pub Guarded : {A : Type 0} → Host A → Type 0
  Guarded h = All IsGuarded h.past

-- A restore that was completed before this run, which then changed nothing; or that is completed now:
-- every file, the database and both directories were restored in this order.
pub data IsComplete {A : Type 0} (contents : Contents A) (instance : String)
    (request : RestoreRequest) (storage redis : A) (before : Host A) (files : List String)
    (h : Host A) : Type 0 where
  earlier :
      steps h.past ≡ prepared
      → h.storage ≡ before.storage
      → h.redis ≡ before.redis
      → IsMarked instance request h.controlled
      → IsComplete contents instance request storage redis before files h
  now :
      steps h.past ≡ performed files
      → Finished storage contents.storage_tree h.storage
      → Finished redis contents.redis_tree h.redis
      → IsMarked instance request h.controlled
      → IsComplete contents instance request storage redis before files h
