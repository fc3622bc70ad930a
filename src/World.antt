-- ===== src/World.antt =====
-- The intelligence on world events (src/jarvis_brain/world).
pub mod Relevance
