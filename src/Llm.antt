-- ===== src/Llm.antt =====
-- The router of language models (src/jarvis_brain/llm).
pub mod Names
pub mod Models
pub mod Providers
pub mod Telemetry
pub mod Router
pub mod Observatory
pub mod SafeService
pub mod ModelRouter
