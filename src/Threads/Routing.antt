-- ===== src/Threads/Routing.antt =====
-- llama_pack/core/threads/routing.py: which node and model serve a turn of a thread. What the policy
-- asks (is the model running there? available? may it be started?) is a record of parameters, whose
-- answers do not change during one choice.
pub mod Probes
pub mod Availability
pub mod Choice
pub mod Plugin
pub mod Served
pub mod Presence
pub mod Startup
pub mod Sources
pub mod Decided
pub mod Sound
pub mod Complete
pub mod Exhausted
pub mod Liveness
pub mod Order
pub mod Preference
pub mod Fanout
pub mod FanoutFlag
pub mod Composed
mod Examples
