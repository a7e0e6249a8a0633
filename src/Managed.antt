-- ===== src/Managed.antt =====
-- internal/managed: signed releases and their upgrade plans.
pub mod Release
pub mod Json
pub mod Upgrade
pub mod Distinct
pub mod Steps
pub mod Valid
pub mod Decode
pub mod RoundTrip
pub mod Validate
pub mod Images
pub mod Planned
