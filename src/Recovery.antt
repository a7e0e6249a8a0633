-- ===== src/Recovery.antt =====
-- internal/recovery: the recovery points of an instance, and what a restore does to its directories.
pub mod Points
pub mod Prune
pub mod Retained
pub mod Checkpoints
pub mod Pruned
pub mod Swap
pub mod Intact
pub mod Restored
pub mod Attempts
pub mod Bounded
pub mod Restore
pub mod Begun
pub mod Boundary
pub mod Rules
pub mod Guarded
