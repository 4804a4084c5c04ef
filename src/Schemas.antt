-- ===== src/Schemas.antt =====
-- src/schemas: the data that the components hand to one another.
pub mod Retrieval
pub mod Findings
pub mod Routing
