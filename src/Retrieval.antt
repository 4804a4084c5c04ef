-- ===== src/Retrieval.antt =====
-- src/services/retrieval
pub mod Assembler
pub mod Fusion
pub mod Reranker
pub mod Pipeline
