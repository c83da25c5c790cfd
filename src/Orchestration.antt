-- ===== src/Orchestration.antt =====
-- The job queue of the controller, llama_pack/core/orchestration.
pub mod Rows
pub mod Tx
pub mod Matching
pub mod Repo
pub mod Lifecycle
pub mod Retention
pub mod Leader
mod Laws
pub mod Bounded
pub mod Runs
pub mod PruneOnce
pub mod Sweeping
pub mod Canceled
pub mod Leadership
pub mod Pinned
mod Examples
