-- ===== src/Llm.antt =====
-- The language models: the messages and results of src/services/llm_adapters.
pub mod Messages
pub mod Fallback
pub mod Errors
