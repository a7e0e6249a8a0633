-- ===== src/Coordination.antt =====
-- internal/coordination: durable plans and admission receipts, and the order of operations.
pub mod Patterns
pub mod Records
pub mod Files
pub mod Store
pub mod Head
pub mod Order
pub mod Accept
pub mod Admit
