-- ===== src/Plugins.antt =====
-- Plugins, llama_pack/core/plugins.
pub mod Hooks
pub mod Registered
pub mod Policies
mod Examples
