-- ===== src/RecoveryControl/Floor.antt =====
-- `CheckProtocol` of internal/recoverycontrol/protocol.go: which updaters a host accepts.
use geoflow_updater.Prelude.{ℕ, ◌≤◌, ◌≡◌, ◌↔◌, String, some, arith}
use geoflow_updater.Prelude.Result.{ok}
use geoflow_updater.Prelude.Regex.{codes}
use geoflow_updater.Prelude.Decimal.{trim_space, parse_uint}
use geoflow_updater.Operation.Messages.{byte_length}
use geoflow_updater.RecoveryControl.Records.{minimum_protocol}
use geoflow_updater.RecoveryControl.Disk.{check_protocol}
use geoflow_updater.RecoveryControl.Store.{floor_text}

-- The floor is a text of 1 to 24 bytes that is this number.
pub record IsFloor (text : String) (minimum : ℕ) : Type 0 where
  pub nonempty : 1 ≤ byte_length text
  pub short : byte_length text ≤ 24
  pub number : parse_uint (trim_space (codes text)) ≡ some minimum

-- What the store writes as its floor is accepted by this updater and refused by any older one.
pub floor_text-accepted :
    (protocol : ℕ) → (check_protocol (some (some floor_text)) protocol ≡ ok tt) ↔ (5 ≤ protocol)
unfolding check_protocol minimum_protocol byte_length parse_uint trim_space
floor_text-accepted protocol = ground arith
