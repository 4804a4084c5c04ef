-- ===== src/Retrieval/Pipeline/Sources.antt =====
-- src/services/retrieval/chat_rag.py: every excerpt is a chunk that one of the indexes has returned.
use ai_financial_copilot.Common.{
  ℕ, ◌≡◌, refl, sym, subst, Bool, true, List, [], ◌∷◌, ◌++◌, Option, none, some, String, elem,
  elem-append, nat_eq, string_eq, ==_self, All, All-weaken, is_some, arith,
}
use ai_financial_copilot.Common.Dict.{Dict}
use ai_financial_copilot.Schemas.Retrieval.{RetrievedChunk, ChunkPromptPayload}
use ai_financial_copilot.Retrieval.Assembler.{is_admitted}
use ai_financial_copilot.Retrieval.Assembler.Labels.{
  chunk_ids, item_ids, assemble_numbers, All-filter_by,
}
use ai_financial_copilot.Retrieval.Reranker.{RerankOutcome, rerank}
use ai_financial_copilot.Retrieval.Pipeline.{
  SearchMode, hybrid_mode, vector_mode, keyword_mode, RagDeps, run_single_pass, finish,
  run_chat_rag_pipeline, vectors_of, keywords_of, PassResult, PipelineResult, reranked_if,
}
use ai_financial_copilot.Retrieval.Pipeline.Stages.{
  AllIds, take-AllIds, fuse_rrf-AllIds, AllOut, rerank-AllOut, Delivers,
}

module _ {V : Type 0} (deps : RagDeps V) (semantic_query keyword_query : String)
    (doc_ids : Option (List ℕ)) (top_k_override : Option ℕ) where
  abbrev pub dense_ids : Option V → List ℕ
  dense_ids none = []
  dense_ids (some v) = chunk_ids (vectors_of deps keyword_query doc_ids top_k_override v).0

  -- a chunk that an index has returned for this question
  abbrev pub IsFound : ℕ → Type 0
  IsFound id =
      elem id (
        dense_ids (deps.embed_query semantic_query)
        ++ chunk_ids (keywords_of deps keyword_query doc_ids top_k_override).0)
      ≡ true

  elem_self : (ids : List ℕ) → All (λ i. elem i ids ≡ true) ids
  elem_self [] = tt
  elem_self (i ∷ ids) = (
    ground (arith, ==_self i),
    All-weaken (λ (j : ℕ) (h : elem j ids ≡ true). ground (arith, h)) ids (elem_self ids),
  )

  dense-IsFound : All IsFound (dense_ids (deps.embed_query semantic_query))
  dense-IsFound =
      All-weaken
        (λ (i : ℕ) (h : elem i (dense_ids (deps.embed_query semantic_query)) ≡ true). ground (
          arith,
          h,
          elem-append i (dense_ids (deps.embed_query semantic_query))
              (chunk_ids (keywords_of deps keyword_query doc_ids top_k_override).0),
        ))
        _ (elem_self (dense_ids (deps.embed_query semantic_query)))

  sparse-IsFound : AllIds IsFound (keywords_of deps keyword_query doc_ids top_k_override).0
  sparse-IsFound =
      All-weaken
        (λ (i : ℕ)
            (h : elem i (chunk_ids (keywords_of deps keyword_query doc_ids top_k_override).0)
              ≡ true).
          ground (
            arith,
            h,
            elem-append i (dense_ids (deps.embed_query semantic_query))
                (chunk_ids (keywords_of deps keyword_query doc_ids top_k_override).0),
          ))
        _ (elem_self (chunk_ids (keywords_of deps keyword_query doc_ids top_k_override).0))

  run_single_pass-IsFound :
      (v : Option V) (mode : SearchMode)
      → All IsFound (dense_ids v)
      → AllIds IsFound (run_single_pass deps keyword_query doc_ids top_k_override v mode).fused
  unfolding run_single_pass
  run_single_pass-IsFound none vector_mode h = tt
  run_single_pass-IsFound none keyword_mode h = sparse-IsFound
  run_single_pass-IsFound none hybrid_mode h = sparse-IsFound
  run_single_pass-IsFound (some v) vector_mode h = h
  run_single_pass-IsFound (some v) keyword_mode h = sparse-IsFound
  run_single_pass-IsFound (some v) hybrid_mode h =
      fuse_rrf-AllIds IsFound _ _ deps.fusion.vector_weight deps.fusion.keyword_weight deps.fusion.k
        deps.fusion.final_top_k h sparse-IsFound

  -- a result with found chunks and found excerpts
  abbrev pub HasFound : PipelineResult → Type 0
  HasFound r = AllIds IsFound r.chunks × All IsFound (item_ids r.context.items)

  reranked_if-HasFound :
      (pass : PassResult) (embed_ok : Bool) (chunks : List RetrievedChunk) (texts : Dict ℕ String)
      (payloads : Dict ℕ ChunkPromptPayload) (o : Option RerankOutcome)
      → rerank deps.reranker semantic_query chunks texts ≡ o
      → AllOut IsFound o
      → Delivers deps semantic_query HasFound (reranked_if deps pass embed_ok o payloads)
  reranked_if-HasFound pass embed_ok chunks texts payloads none raised h = (chunks, texts, raised)
  reranked_if-HasFound pass embed_ok chunks texts payloads (some o) given h = (
    h,
    subst (All IsFound) (sym (assemble_numbers deps.assembly payloads true 1 o.chunks).1)
        (All-filter_by IsFound (is_admitted deps.assembly payloads) o.chunks h),
  )

  finish-HasFound :
      (pass : PassResult) (embed_ok : Bool) (capped : List RetrievedChunk)
      → AllIds IsFound capped
      → Delivers deps semantic_query HasFound (finish deps semantic_query pass embed_ok capped)
  finish-HasFound pass embed_ok [] h = (tt, tt)
  finish-HasFound pass embed_ok (c ∷ capped) h =
      reranked_if-HasFound pass embed_ok (c ∷ capped) _ _ _ refl
        (rerank-AllOut IsFound deps.reranker semantic_query (c ∷ capped) _ h)

-- Unless the reranker raises, the pipeline returns a result, and every chunk that it returns, and every
-- excerpt of its context, is one that the dense or the keyword index has returned for this
-- question, whatever the other parts do.
pub run_chat_rag_pipeline-IsFound :
    {V : Type 0} (deps : RagDeps V) (semantic_query keyword_query : String)
    (doc_ids : Option (List ℕ)) (mode : SearchMode) (top_k_override : Option ℕ)
    → Delivers deps semantic_query
        (HasFound deps semantic_query keyword_query doc_ids top_k_override)
        (run_chat_rag_pipeline deps semantic_query keyword_query doc_ids mode top_k_override)
unfolding run_chat_rag_pipeline
run_chat_rag_pipeline-IsFound deps semantic_query keyword_query doc_ids mode top_k_override =
    finish-HasFound deps semantic_query keyword_query doc_ids top_k_override
      (run_single_pass deps keyword_query doc_ids top_k_override (deps.embed_query semantic_query)
        mode)
      (is_some (deps.embed_query semantic_query)) _
      (take-AllIds (IsFound deps semantic_query keyword_query doc_ids top_k_override)
        deps.reranker_max_input _
        (run_single_pass-IsFound deps semantic_query keyword_query doc_ids top_k_override
          (deps.embed_query semantic_query) mode
          (dense-IsFound deps semantic_query keyword_query doc_ids top_k_override)))
