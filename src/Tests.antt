-- ===== src/Tests.antt =====
-- Runs of the model at concrete inputs, and the theorems applied at them.
mod Evidence
mod Findings
mod Loop
mod Retrieval
mod Citation
mod Context
mod Router
mod Redis
mod Errors
mod Stream
