-- ===== src/Examples.antt =====
-- The components at concrete inputs: tests of the definitions, and the theorems where they apply.
mod Sample
mod Coordination
mod Operation
mod Update
mod Authorization
mod Manager
mod Admission
mod RecoveryControl
mod Managed
mod Bootstrap
mod Deployment
mod Recovery
mod Restore
