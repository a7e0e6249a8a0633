-- ===== src/RecoveryControl/Records.antt =====
-- The records of internal/recoverycontrol/store.go and checkpoint.go, and `validate`.
use geoflow_updater.Prelude.{
  ℕ, String, Bool, true, false, not, ◌&&◌, ◌||◌, Option, none, some, ◌==◌, str_eq, if◌then◌else◌,
}
use geoflow_updater.Prelude.Result.{Result, err, ◌>>◌, require}
use geoflow_updater.Coordination.Patterns.{identifier, hex32, hex64, point_id}

pub data Failure : Type 0 where
  not_exist : Failure  -- an error that `errors.Is` finds to be `os.ErrNotExist`
  refused io : String → Failure

pub record State : Type 0 where
  pub schema_version : ℕ
  pub instance_id : String
  pub host_id : String
  pub epoch : String
  pub transaction_id : Option String
  pub phase : String
  pub minimum_updater_protocol : ℕ  -- uint64

pub record Authority : Type 0 where
  pub state : State
  pub point_id : String
  pub admin_digest : String
  pub data_restored : Bool
  pub http_opened : Bool
  pub redis_manifest_sha256 : String
  pub preparation_sha256 : String

pub record Checkpoint : Type 0 where
  pub schema_version : ℕ
  pub point_id : String
  pub transaction_id : String
  pub admin_digest : String

unfoldable pub minimum_protocol : ℕ
minimum_protocol = 5

abbrev pub is_blank : String → Bool
is_blank s = str_eq s ""

-- Whether an optional text is there and passes a test.
abbrev pub passes : (String → Bool) → Option String → Bool
passes p none = false
passes p (some s) = p s

abbrev pub is_nil : Option String → Bool
is_nil none = true
is_nil (some s) = false

abbrev pub same : Bool → Bool → Bool
same true b = b
same false b = not b

-- The cases of `validate` by the phase.
unfoldable pub validate_phase : Authority → Result Failure (Unit {0})
validate_phase a =
    let st = a.state in
    if str_eq st.phase "ready"
    then require
        (is_nil st.transaction_id
          && is_blank a.point_id
          && not a.data_restored
          && not a.http_opened)
        (refused "invalid initial recovery state")
    else if str_eq st.phase "restoring"
        || str_eq st.phase "validating"
        || str_eq st.phase "http_ready"
    then (do
      require (passes identifier st.transaction_id && point_id a.point_id && hex64 a.admin_digest)
          (refused "invalid recovery transaction state")
      require
          (same (not (str_eq st.phase "restoring")) a.data_restored
            && same (str_eq st.phase "http_ready") a.http_opened)
          (refused "inconsistent recovery boundary"))
    else err (refused "unknown recovery phase")

unfoldable pub validate : Authority → String → Result Failure (Unit {0})
unfolding validate_phase minimum_protocol
validate a instance = do
  require
      (a.state.schema_version == 1
        && str_eq a.state.instance_id instance
        && hex32 a.state.host_id
        && hex32 a.state.epoch
        && a.state.minimum_updater_protocol == minimum_protocol)
      (refused "invalid recovery authority identity")
  validate_phase a
  require (is_blank a.redis_manifest_sha256 || hex64 a.redis_manifest_sha256)
      (refused "invalid quarantine manifest")
  require (is_blank a.preparation_sha256 || hex64 a.preparation_sha256)
      (refused "invalid Core preparation proof")
