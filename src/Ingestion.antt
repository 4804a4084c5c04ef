-- ===== src/Ingestion.antt =====
-- src/services/ingestion: what the ingestion of documents does around its parsers and stores.
pub mod Recovery
