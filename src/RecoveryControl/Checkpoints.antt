-- ===== src/RecoveryControl/Checkpoints.antt =====
-- internal/recoverycontrol/checkpoint.go: the evidence that is frozen before a restore.
use geoflow_updater.Prelude.{String, true, ◌&&◌, Option, none, some, ◌==◌, str_eq, if◌then◌else◌}
use geoflow_updater.Prelude.Result.{Result, ok, err}
use geoflow_updater.Prelude.Action.{◌>>=◌, ◌>>◌, done, fail, lift, query, check}
use geoflow_updater.Coordination.Patterns.{identifier, hex64, point_id}
use geoflow_updater.Coordination.Files.{find, put}
use geoflow_updater.RecoveryControl.Records.{Failure, not_exist, refused, Authority, Checkpoint}
use geoflow_updater.RecoveryControl.Disk.{Disk, Ends, Control, attempt, atomic}
use geoflow_updater.RecoveryControl.Store.{change}

-- The file of a checkpoint, as `Checkpoint` reads it.
abbrev pub decoded : Option (Option Checkpoint) → String → String → Result Failure Checkpoint
decoded none point transaction = err not_exist
decoded (some none) point transaction = err (refused "unsafe recovery checkpoint")
decoded (some (some saved)) point transaction =
    if saved.schema_version == 1
      && str_eq saved.point_id point
      && str_eq saved.transaction_id transaction
      && hex64 saved.admin_digest
    then ok saved
    else err (refused "recovery checkpoint identity mismatch")

unfoldable pub checkpoint : String → String → String → Disk → Result Failure Checkpoint
unfolding find
checkpoint instance point transaction d =
    if str_eq instance "primary" && point_id point && identifier transaction
    then decoded (find transaction d.checkpoints) point transaction
    else err (refused "invalid recovery checkpoint identity")

abbrev pub frozen : String → String → String → Checkpoint
frozen point transaction digest = record {
  schema_version = 1;
  point_id = point;
  transaction_id = transaction;
  admin_digest = digest;
}

abbrev pub write_checkpoint : String → String → String → Disk → Disk
write_checkpoint point transaction digest d = record d {
  checkpoints = put transaction (frozen point transaction digest) d.checkpoints;
}

module _ (w : Ends) where
  -- The checkpoint is kept as it is, where there is one, and is else written.
  unfoldable pub freeze :
      String → String → String → Authority → Result Failure Checkpoint → Control Authority
  unfolding put
  freeze point transaction digest a (ok previous) = do
    check (str_eq previous.admin_digest digest) (refused "frozen administrator digest changed")
    done a
  freeze point transaction digest a (err not_exist) = do
    lift (attempt w.checkpoint_directory)
    atomic w.checkpoint_end (write_checkpoint point transaction digest)
    done a
  freeze point transaction digest a (err e) = fail e

  unfoldable pub capture : String → String → String → String → Authority → Control Authority
  unfolding checkpoint freeze
  capture instance point transaction digest a = do
    check (str_eq a.state.phase "ready") (refused "checkpoint requires a ready source")
    previous ← query (λ d. ok (checkpoint instance point transaction d))
    freeze point transaction digest a previous

  unfoldable pub capture_checkpoint : String → String → String → String → Control Authority
  unfolding change capture
  capture_checkpoint instance point transaction digest = do
    check (point_id point && identifier transaction && hex64 digest)
        (refused "invalid recovery checkpoint identity")
    change w instance true (capture instance point transaction digest)
