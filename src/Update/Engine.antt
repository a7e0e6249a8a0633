-- ===== src/Update/Engine.antt =====
-- internal/update/engine.go: the engine, in the order of its parts.
pub mod Emit
pub mod Recovery
pub mod Steps
pub mod Run
