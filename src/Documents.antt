-- ===== src/Documents.antt =====
-- Document collections, llama_pack/core/document_collections.
pub mod Chunking
pub mod Lengths
pub mod Overlaps
pub mod Endless
pub mod Ending
pub mod Spans
pub mod Calls
mod Examples
