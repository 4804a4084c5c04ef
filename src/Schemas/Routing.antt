-- ===== src/Schemas/Routing.antt =====
-- src/schemas/query_router.py. A UUID is its 128-bit number; a score (a float) is a fixed-point
-- number, which the code only compares.
use ai_financial_copilot.Common.{ℕ, String, List, Option}
use ai_financial_copilot.Common.Dict.{Dict}

pub record ExtractedEntity : Type 0 where
  pub name : String
  pub entity_type : String
  pub raw_span : String

pub data ScopeMode : Type 0 where
  all_docs filtered_by_metadata selected_docs this_doc : ScopeMode

pub record ScopeFilters : Type 0 where
  pub company : List String
  pub year : List ℕ
  pub type : List String

pub record ChatScope : Type 0 where
  pub mode : ScopeMode
  pub doc_ids : List ℕ
  pub filters : ScopeFilters

pub data Route : Type 0 where
  direct_answer retrieval out_of_scope : Route

pub record RouterOutput : Type 0 where
  pub route : Route
  pub entities : List ExtractedEntity
  pub user_intent : String
  pub reasoning : String
  pub query_shape : Option String
  pub requested_currency : Option String

pub record CompanyCandidate : Type 0 where
  pub company_norm : String
  pub display_name : String
  pub doc_ids : List ℕ
  pub years : List ℕ
  pub titles : List String
  pub score : ℕ

-- the outcome of a clarification; `unmatched` is "none"
pub data ClarificationOutcome : Type 0 where
  ambiguous unmatched outside_scope : ClarificationOutcome

pub record EntityClarification : Type 0 where
  pub entity : String
  pub raw_span : String
  pub outcome : ClarificationOutcome
  pub candidates : List CompanyCandidate

pub data ScopeSource : Type 0 where
  explicit filtered entity_resolved unresolved everything : ScopeSource

pub record DocSummary : Type 0 where
  pub doc_id : ℕ
  pub name : Option String
  pub year : Option ℕ

pub record EntityManifestItem : Type 0 where
  pub entity_name : String
  pub doc_summaries : List DocSummary
  pub mentioned_as : List String

pub record DocumentScopeResult : Type 0 where
  pub doc_ids : Option (List ℕ)
  pub source : ScopeSource
  pub per_entity_doc_ids : Option (Dict String (List ℕ))
  pub unresolved_entities : List String
  pub entity_manifest : Option (List EntityManifestItem)
  pub clarifications : List EntityClarification
  pub too_broad_count : Option ℕ
