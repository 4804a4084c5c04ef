-- ===== src/Schemas/Retrieval.antt =====
-- src/schemas/retrieval.py. A UUID is its 128-bit number. A score (a nonnegative float) and a
-- coordinate stand as fixed-point numbers: the code only compares and copies them.
use ai_financial_copilot.Common.{ℕ, Bool, String, List, Option}

pub data RetrievalSource : Type 0 where
  vector keyword hybrid : RetrievalSource

pub record RetrievedChunk : Type 0 where
  pub chunk_id : ℕ
  pub document_id : ℕ
  pub score : ℕ
  pub chunk_index : ℕ
  pub page_start : Option ℕ
  pub page_end : Option ℕ
  pub heading_trail : List String
  pub source : RetrievalSource
  pub chunk_type : Option String
  pub vector_rank : Option ℕ
  pub vector_score : Option ℕ
  pub keyword_rank : Option ℕ
  pub keyword_score : Option ℕ
  pub turn_index : ℕ

pub record BoundingBox : Type 0 where
  pub left : ℕ
  pub top : ℕ
  pub right : ℕ
  pub bottom : ℕ
  pub coord_origin : String

pub record ProvenanceItem : Type 0 where
  pub page_no : ℕ
  pub label : String
  pub self_ref : Option String
  pub charspan : Option (ℕ × ℕ)
  pub bbox : Option BoundingBox

pub record ChunkProvenance : Type 0 where
  pub filename : Option String
  pub mimetype : Option String
  pub binary_hash : Option ℕ
  pub page_span : Option (ℕ × ℕ)
  pub doc_item_refs : List String
  pub items : List ProvenanceItem

pub record ChunkPromptPayload : Type 0 where
  pub chunk_id : ℕ
  pub document_id : ℕ
  pub document_name : String
  pub page_numbers : List ℕ
  pub heading_trail : List String
  pub prompt_text : String
  pub snippet : Option String
  pub provenance : Option ChunkProvenance

pub record Citation : Type 0 where
  pub ref_id : String
  pub ref_index : ℕ
  pub chunk_id : ℕ
  pub document_id : ℕ
  pub document_name : String
  pub filename : Option String
  pub page_numbers : List ℕ
  pub heading_path : List String
  pub snippet : Option String

pub record ContextItem : Type 0 where
  pub ref_id : String
  pub chunk_id : ℕ
  pub score : ℕ
  pub prompt_text : String
  pub citation : Citation
  pub provenance : Option ChunkProvenance

pub record RagContext : Type 0 where
  pub formatted_context : String
  pub items : List ContextItem
  pub chunk_count : ℕ

-- DroppedChunk and FlaggedChunk
pub record ScreenedChunk : Type 0 where
  pub chunk_id : String
  pub matched_rules : List String
  pub score : ℕ

-- the fields of RetrievalTrace that say what was healthy
pub record TraceHealth : Type 0 where
  pub all_backends_failed : Bool
  pub embed_ok : Bool
  pub vector_ok : Bool
  pub keyword_ok : Bool
  pub rerank_ok : Bool
  pub scores_are_rerank : Bool

abbrev pub ref_placeholder : String
ref_placeholder = "__REF__"
