-- ===== src/Chat.antt =====
-- What stands around the agent on the chat path.
pub mod Citation
pub mod Confidence
pub mod Thinking
pub mod Activity
