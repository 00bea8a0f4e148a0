-- ===== src/Agent.antt =====
-- The session helper that runs as the human (agent-rs/src).
pub mod Paths
pub mod Broker
pub mod Commands
pub mod Config
pub mod Keyboard
pub mod Dismount
pub mod Publish
