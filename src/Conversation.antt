-- ===== src/Conversation.antt =====
-- The memory of conversations (src/jarvis_brain/conversation).
pub mod Sessions
