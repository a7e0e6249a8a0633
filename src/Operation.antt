-- ===== src/Operation.antt =====
-- internal/operation: the manager of operations, one at a time for each instance.
pub mod Stages
pub mod Records
pub mod Messages
pub mod Steps
pub mod Runners
pub mod Extends
pub mod Outcomes
pub mod Smooth
pub mod Recovery
pub mod Backoff
pub mod Reconcile
pub mod Held
pub mod Verified
pub mod Manager
pub mod Admission
pub mod Permitted
