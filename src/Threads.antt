-- ===== src/Threads.antt =====
-- Threads, llama_pack/core/threads.
pub mod Routing
pub mod Session
pub mod Store
pub mod Events
pub mod FanoutRun
pub mod Turns
pub mod ReadBack
mod Examples
mod SummaryExamples
pub mod Trace
pub mod FanTrace
pub mod Content
pub mod Assigned
pub mod Following
pub mod Results
pub mod History
pub mod Calls
pub mod Timeline
pub mod TurnSteps
pub mod Programs
pub mod Steps
pub mod Compaction
pub mod Preparing
pub mod Context
pub mod Summaries
