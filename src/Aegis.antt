-- ===== src/Aegis.antt =====
-- apps/server/src/aegis: the controls that a run of an Agent passes.
pub mod Breaker
pub mod Latch
pub mod Policy
pub mod Audit
pub mod Isolation
