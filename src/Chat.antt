-- ===== src/Chat.antt =====
-- Chats, llama_pack/core/chat.
pub mod Slots
pub mod Owners
pub mod Sharing
pub mod Targets
pub mod Resolved
mod Examples
mod TargetExamples
