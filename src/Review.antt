-- ===== src/Review.antt =====
-- apps/server/src/review: comments on a range of lines, routed by provenance to the Agent that
-- wrote it, and the runs in which that Agent revises.
pub mod Types
pub mod State
pub mod Comments
pub mod Runs
pub mod Fairness
pub mod Histories
pub mod Authored
pub mod Restart
mod Examples
