-- ===== src/Bootstrap.antt =====
-- internal/bootstrap: the signed manifest from which an updater is installed.
pub mod Manifest
pub mod Envelope
pub mod Threshold
pub mod Trusted
