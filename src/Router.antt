-- ===== src/Router.antt =====
-- src/services/router: the companies that a question names, and the documents they stand for.
pub mod Names
pub mod Disambiguator
pub mod Entities
pub mod Scope
