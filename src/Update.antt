-- ===== src/Update.antt =====
-- internal/update: the transactional update engine.
pub mod Journal
pub mod Routine
pub mod Engine
pub mod Protocol
pub mod Triples
pub mod Phases
pub mod Sound
