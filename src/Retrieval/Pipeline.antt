-- ===== src/Retrieval/Pipeline.antt =====
-- src/services/retrieval/chat_rag.py: embed the question, search both indexes, fuse, hydrate, rerank, assemble.
-- The embedder, the two searches and the payloads are parameters: `none` is an exception or a timeout.
pub mod Health
pub mod Stages
pub mod Sources
use ai_financial_copilot.Common.{
  ℕ, Bool, true, false, ◌&&◌, ◌||◌, not, List, [], ◌∷◌, Option, none, some, String, map, take,
  is_some, if◌then◌else◌, nat_eq,
}
use ai_financial_copilot.Common.Dict.{Dict, get}
use ai_financial_copilot.Schemas.Retrieval.{
  RetrievedChunk, ChunkPromptPayload, RagContext, TraceHealth,
}
use ai_financial_copilot.Retrieval.Assembler.{Assembly, AssemblyGuardrails, assemble_rag_context}
use ai_financial_copilot.Retrieval.Fusion.{fuse_rrf}
use ai_financial_copilot.Retrieval.Reranker.{Reranker, RerankOutcome, rerank}

pub data SearchMode : Type 0 where
  hybrid_mode vector_mode keyword_mode : SearchMode

-- `_PassResult`
pub record PassResult : Type 0 where
  pub vector : List RetrievedChunk
  pub keyword : List RetrievedChunk
  pub fused : List RetrievedChunk
  pub vector_ok : Bool
  pub keyword_ok : Bool
  pub all_backends_failed : Bool

pub record FusionSettings : Type 0 where
  pub vector_weight : ℕ
  pub keyword_weight : ℕ
  pub k : ℕ
  pub final_top_k : ℕ

-- what the pipeline works with; `V` is a vector
pub record RagDeps (V : Type 0) : Type 0 where
  pub embed_query : String → Option V
  pub qdrant_retrieve : V → Option (List ℕ) → ℕ → Option (List RetrievedChunk)
  pub opensearch_retrieve : String → Option (List ℕ) → ℕ → Option (List RetrievedChunk)
  pub get_chunk_prompt_payloads : List ℕ → Dict ℕ ChunkPromptPayload
  pub reranker : Reranker
  pub assembly : Assembly
  pub fusion : FusionSettings
  pub vector_search_top_k : ℕ
  pub keyword_search_top_k : ℕ
  pub reranker_max_input : ℕ

-- `_retrieve_with_timeout`
abbrev pub or_failed : Option (List RetrievedChunk) → List RetrievedChunk × Bool
or_failed none = ([], false)
or_failed (some chunks) = (chunks, true)

abbrev pub fuse : FusionSettings → List RetrievedChunk → List RetrievedChunk → List RetrievedChunk
fuse s vectors keywords =
    fuse_rrf vectors keywords s.vector_weight s.keyword_weight s.k s.final_top_k

abbrev pub vector_pass : List RetrievedChunk × Bool → PassResult
vector_pass (chunks, ok) = record {
  vector = chunks;
  keyword = [];
  fused = chunks;
  vector_ok = ok;
  keyword_ok = true;
  all_backends_failed = not ok;
}

abbrev pub keyword_pass : List RetrievedChunk × Bool → PassResult
keyword_pass (chunks, ok) = record {
  vector = [];
  keyword = chunks;
  fused = chunks;
  vector_ok = true;
  keyword_ok = ok;
  all_backends_failed = not ok;
}

abbrev pub hybrid_pass :
    FusionSettings → List RetrievedChunk × Bool → List RetrievedChunk × Bool → PassResult
hybrid_pass s (vectors, vec_ok) (keywords, kw_ok) = record {
  vector = vectors;
  keyword = keywords;
  fused = fuse s vectors keywords;
  vector_ok = vec_ok;
  keyword_ok = kw_ok;
  all_backends_failed = not (vec_ok || kw_ok);
}

abbrev no_vector : PassResult
no_vector = record {
  vector = [];
  keyword = [];
  fused = [];
  vector_ok = false;
  keyword_ok = true;
  all_backends_failed = true;
}

abbrev pub or_default : Option ℕ → ℕ → ℕ
or_default none d = d
or_default (some n) d = n

abbrev pub texts_of : Dict ℕ ChunkPromptPayload → List ℕ → Dict ℕ String
texts_of payloads [] = []
texts_of payloads (id ∷ ids) = elim (get id payloads) [
  | none ↦ texts_of payloads ids
  | some p ↦ (id, p.prompt_text) ∷ texts_of payloads ids
]

pub record PipelineResult : Type 0 where
  pub context : RagContext
  pub health : TraceHealth
  pub guardrails : AssemblyGuardrails
  pub chunks : List RetrievedChunk

module _ {V : Type 0} (deps : RagDeps V) where
  module _ (keyword_query : String) (doc_ids : Option (List ℕ)) (top_k_override : Option ℕ) where
    abbrev pub vectors_of : V → List RetrievedChunk × Bool
    vectors_of vector =
        or_failed
          (deps.qdrant_retrieve vector doc_ids (or_default top_k_override deps.vector_search_top_k))

    abbrev pub keywords_of : List RetrievedChunk × Bool
    keywords_of = or_failed (
        deps.opensearch_retrieve keyword_query doc_ids
          (or_default top_k_override deps.keyword_search_top_k))

    -- `_run_single_pass`: without a vector the dense leg is skipped as unavailable
    unfoldable pub run_single_pass : Option V → SearchMode → PassResult
    run_single_pass none vector_mode = no_vector
    run_single_pass none keyword_mode = keyword_pass keywords_of
    run_single_pass none hybrid_mode = keyword_pass keywords_of
    run_single_pass (some v) vector_mode = vector_pass (vectors_of v)
    run_single_pass (some v) keyword_mode = keyword_pass keywords_of
    run_single_pass (some v) hybrid_mode = hybrid_pass deps.fusion (vectors_of v) keywords_of

  abbrev pub health_of : PassResult → Bool → Bool → Bool → TraceHealth
  health_of pass embed_ok rerank_ok scored = record {
    all_backends_failed = pass.all_backends_failed;
    embed_ok = embed_ok;
    vector_ok = pass.vector_ok && embed_ok;
    keyword_ok = pass.keyword_ok;
    rerank_ok = rerank_ok;
    scores_are_rerank = scored;
  }

  abbrev pub reranked_result :
      PassResult → Bool → RerankOutcome → Dict ℕ ChunkPromptPayload → PipelineResult
  reranked_result pass embed_ok outcome payloads =
      let (context, guardrails) =
        assemble_rag_context deps.assembly payloads true 1 outcome.chunks in
      record {
        context = context;
        health = health_of pass embed_ok (not outcome.degraded) outcome.scored;
        guardrails = guardrails;
        chunks = outcome.chunks;
      }

  abbrev pub reranked_if :
      PassResult → Bool → Option RerankOutcome → Dict ℕ ChunkPromptPayload → Option PipelineResult
  reranked_if pass embed_ok none payloads = none
  reranked_if pass embed_ok (some outcome) payloads =
      some (reranked_result pass embed_ok outcome payloads)

  -- the rest of the pipeline, on the chunks that the reranker may see; `none` is its OverflowError
  abbrev pub finish : String → PassResult → Bool → List RetrievedChunk → Option PipelineResult
  finish semantic_query pass embed_ok [] = some (record {
    context = record { formatted_context = ""; items = []; chunk_count = 0 };
    health = health_of pass embed_ok true true;
    guardrails = record { dropped = []; flagged = [] };
    chunks = [];
  })
  finish semantic_query pass embed_ok (c ∷ capped) =
      let ids = map (λ (d : RetrievedChunk). d.chunk_id) (c ∷ capped) in
      let payloads = deps.get_chunk_prompt_payloads ids in
      reranked_if pass embed_ok
        (rerank deps.reranker semantic_query (c ∷ capped) (texts_of payloads ids)) payloads

  -- `run_chat_rag_pipeline`
  unfoldable pub run_chat_rag_pipeline :
      String → String → Option (List ℕ) → SearchMode → Option ℕ → Option PipelineResult
  run_chat_rag_pipeline semantic_query keyword_query doc_ids search_mode top_k_override =
      let vector = deps.embed_query semantic_query in
      let pass = run_single_pass keyword_query doc_ids top_k_override vector search_mode in
      finish semantic_query pass (is_some vector) (take deps.reranker_max_input pass.fused)
