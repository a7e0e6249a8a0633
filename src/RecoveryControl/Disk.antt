-- ===== src/RecoveryControl/Disk.antt =====
-- The files of a recovery control store, how the calls that touch them end, and `CheckProtocol` and
-- `Read` of internal/recoverycontrol. A file that is unsafe or cannot be decoded is kept as `none`.
use geoflow_updater.Prelude.{ℕ, String, Bool, ◌&&◌, Option, none, some, List, leb, str_eq, Error}
use geoflow_updater.Prelude.Result.{Result, ok, err, ◌>>◌, require}
use geoflow_updater.Prelude.Regex.{codes}
use geoflow_updater.Prelude.Decimal.{trim_space, parse_uint}
use geoflow_updater.Prelude.Action.{Action}
use geoflow_updater.Coordination.Files.{WriteEnd, clean, early, late}
use geoflow_updater.Operation.Messages.{byte_length}
use geoflow_updater.RecoveryControl.Records.{
  Failure, not_exist, refused, io, State, Authority, Checkpoint, minimum_protocol, validate,
}

pub record Disk : Type 0 where
  pub floor : Option (Option String)  -- minimum-updater-protocol
  pub initialized : Bool  -- whether `Lstat` of the marker says anything but that it is missing
  pub authority : Option (Option Authority)
  pub public : Option State
  pub checkpoints : List (String × Option Checkpoint)

-- What the calls outside the program come to in one run of an operation.
pub record Ends : Type 0 where
  pub absolute : Bool  -- `filepath.IsAbs` of the state directory
  pub directories : Error
  pub locked : Error
  pub host_id : Result Failure String  -- `randomID`, as often as it is called
  pub first_epoch : Result Failure String
  pub next_epoch : Result Failure String
  pub first_floor_end : WriteEnd
  pub marker_end : WriteEnd
  pub checkpoint_directory : Error
  pub checkpoint_end : WriteEnd
  pub public_directory : Error
  pub floor_end : WriteEnd
  pub authority_end : WriteEnd
  pub public_end : WriteEnd

abbrev pub Control : Type 0 → Type 0
Control A = Action Disk Failure A

-- A call that returns only an error.
abbrev pub attempt : Error → Result Failure (Unit {0})
attempt none = ok tt
attempt (some e) = err (io e)

-- `atomic`: the new contents are there, or not, and the error.
abbrev pub atomic : WriteEnd → (Disk → Disk) → Control (Unit {0})
atomic clean change d = (change d, ok tt)
atomic (early e) change d = (d, err (io e))
atomic (late e) change d = (change d, err (io e))

-- The number in the floor, if it is one.
abbrev pub minimum_of : Option ℕ → ℕ → Result Failure (Unit {0})
minimum_of none protocol = err (refused "invalid host updater protocol floor")
minimum_of (some minimum) protocol = do
  require (leb minimum_protocol minimum) (refused "invalid host updater protocol floor")
  require (leb minimum protocol) (refused "downgrade refused")

unfoldable pub check_protocol : Option (Option String) → ℕ → Result Failure (Unit {0})
unfolding minimum_protocol byte_length parse_uint trim_space
check_protocol none protocol = ok tt
check_protocol (some none) protocol = err (refused "invalid host updater protocol floor")
check_protocol (some (some text)) protocol = do
  require (leb 1 (byte_length text) && leb (byte_length text) 24)
      (refused "invalid host updater protocol floor")
  minimum_of (parse_uint (trim_space (codes text))) protocol

-- The guard on the place of the store.
unfoldable pub location : Ends → String → Result Failure (Unit {0})
location w instance =
    require (str_eq instance "primary" && w.absolute) (refused "invalid recovery control location")

unfoldable pub read_authority : Option (Option Authority) → String → Result Failure Authority
unfolding validate
read_authority none instance = err not_exist
read_authority (some none) instance = err (refused "invalid recovery authority")
read_authority (some (some a)) instance = do validate a instance; ok a

unfoldable pub read : Ends → String → Disk → Result Failure Authority
unfolding location read_authority
read w instance d = do location w instance; read_authority d.authority instance
