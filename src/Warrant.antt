-- ===== src/Warrant.antt =====
-- apps/server/src/warrant: who may do what, under which delegation.
pub mod Types
pub mod Scopes
pub mod Resources
pub mod Policy
pub mod Registry
pub mod Tasks
pub mod ModelPolicy
pub mod Orchestrator
pub mod Splitter
pub mod Plane
pub mod Binding
mod TaskExamples
pub mod Sharing
mod Examples
