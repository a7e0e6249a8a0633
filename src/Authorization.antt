-- ===== src/Authorization.antt =====
-- internal/authorization: one-time codes for mutations, their lockout and their replay protection.
pub mod Attempts
pub mod Lockout
pub mod Codes
pub mod World
pub mod Service
pub mod Entitled
pub mod Runs
pub mod Once
pub mod Accepts
