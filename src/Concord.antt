-- ===== src/Concord.antt =====
-- apps/server/src/concord: shared documents that many Agents edit concurrently.
pub mod DocResource
pub mod Merge
pub mod Sections
pub mod Provenance
pub mod Store
mod Examples
