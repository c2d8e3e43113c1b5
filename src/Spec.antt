-- ===== src/Spec.antt =====
-- The abstract queues that the implementations are measured against.
pub mod Bounded
pub mod Stable
pub mod Latest
