-- ===== src/Agent.antt =====
-- The agent: its evidence, its findings, its state and its loop.
pub mod Evidence
pub mod Findings
pub mod Transcript
pub mod State
pub mod Loop
pub mod History
