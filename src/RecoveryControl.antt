-- ===== src/RecoveryControl.antt =====
-- internal/recoverycontrol: the generations of a host's data, kept outside its business snapshots.
pub mod Records
pub mod Disk
pub mod Store
pub mod Checkpoints
pub mod Machine
pub mod Operations
pub mod Advances
pub mod Change
pub mod Commits
pub mod Commands
pub mod Histories
pub mod Floor
pub mod Apart
pub mod Frozen
pub mod Kept
pub mod Restores
