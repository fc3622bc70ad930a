-- ===== src/Agents.antt =====
-- The agents of the brain (src/jarvis_brain/agents).
pub mod Lifecycle
pub mod Broadcaster
pub mod Swarm
