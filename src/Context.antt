-- ===== src/Context.antt =====
-- src/services/context: the prior conversation, as the models see it.
pub mod Turns
