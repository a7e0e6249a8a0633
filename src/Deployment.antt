-- ===== src/Deployment.antt =====
-- internal/deployment: a planned release, its transaction, and what undoes or finishes it.
pub mod Journal
pub mod Task
pub mod Recover
pub mod Reconcile
pub mod Execute
pub mod Admit
pub mod Protocol
pub mod Rules
pub mod Steps
pub mod Undone
pub mod Failed
pub mod Released
pub mod Trace
pub mod Sound
pub mod Reached
