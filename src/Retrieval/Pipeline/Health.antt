-- ===== src/Retrieval/Pipeline/Health.antt =====
-- src/services/retrieval/chat_rag.py: what the trace says of an outage.
use ai_financial_copilot.Common.{
  ℕ, zero, suc, ◌≡◌, refl, ap, ◌∙◌, take, Bool, true, false, ◌&&◌, ◌||◌, not, List, [], ◌∷◌, Option,
  none, some, String, is_some, is_empty, arith,
}
use ai_financial_copilot.Common.Dict.{Dict}
use ai_financial_copilot.Schemas.Retrieval.{RetrievedChunk, ChunkPromptPayload}
use ai_financial_copilot.Common.Sort.{sorted}
use ai_financial_copilot.Retrieval.Fusion.{fuse_rrf, accumulate_rrf, annotate_all}
use ai_financial_copilot.Retrieval.Reranker.{
  Reranker, no_op, local_cross_encoder, RerankOutcome, rerank,
}
use ai_financial_copilot.Retrieval.Reranker.Outcome.{Outcome, IsOutcome, rerank-IsOutcome}
use ai_financial_copilot.Retrieval.Pipeline.{
  SearchMode, FusionSettings, fuse, hybrid_mode, vector_mode, keyword_mode, PassResult, RagDeps,
  or_failed, run_single_pass, PipelineResult, reranked_if, finish, run_chat_rag_pipeline,
  vectors_of, keywords_of,
}
use ai_financial_copilot.Retrieval.Pipeline.Stages.{Delivers}

abbrev pub wants_vector : SearchMode → Bool
wants_vector hybrid_mode = true
wants_vector vector_mode = true
wants_vector keyword_mode = false

abbrev pub wants_keyword : SearchMode → Bool
wants_keyword hybrid_mode = true
wants_keyword vector_mode = false
wants_keyword keyword_mode = true

-- an outcome that has failed has no scores
abbrev Unscored : Option RerankOutcome → Type 0
Unscored none = Unit
Unscored (some o) = (o.scored && o.degraded) ≡ false

rerank-Unscored :
    (r : Reranker) (query : String) (chunks : List RetrievedChunk) (texts : Dict ℕ String)
    → Unscored (rerank r query chunks texts)
unfolding rerank
rerank-Unscored no_op query chunks texts = refl
rerank-Unscored (local_cross_encoder encoder) query chunks texts =
    never_both (rerank (local_cross_encoder encoder) query chunks texts)
      (rerank-IsOutcome encoder query chunks texts)
  where
    flags :
        (scored failed : Bool) (out : List RetrievedChunk)
        → Outcome encoder query chunks texts scored failed out
        → (scored && failed) ≡ false
    flags true true out h = elim h [ ]
    flags true false out h = refl
    flags false true out h = refl
    flags false false out h = refl

    never_both : (o : Option RerankOutcome) → IsOutcome encoder query chunks texts o → Unscored o
    never_both none h = tt
    never_both (some o) h = flags o.scored o.degraded o.chunks h

capped_empty :
    (failed : Bool) (fused : List RetrievedChunk)
    → (failed ≡ true → fused ≡ [])
    → (n : ℕ) → (failed && not (is_empty (take n fused))) ≡ false
capped_empty false fused h n = refl
capped_empty true fused h zero = refl
capped_empty true fused h (suc n) = rw (h refl) refl

not_failed :
    (scored failed : Bool) → (scored && failed) ≡ false → (scored && not (not failed)) ≡ false
not_failed scored failed h = ground (arith, h)

fuse_rrf-nil : (vw kw k n : ℕ) → fuse_rrf [] [] vw kw k n ≡ []
unfolding fuse_rrf accumulate_rrf annotate_all sorted
fuse_rrf-nil zero zero k zero = refl
fuse_rrf-nil zero zero k (suc n) = refl
fuse_rrf-nil zero (suc kw) k zero = refl
fuse_rrf-nil zero (suc kw) k (suc n) = refl
fuse_rrf-nil (suc vw) zero k zero = refl
fuse_rrf-nil (suc vw) zero k (suc n) = refl
fuse_rrf-nil (suc vw) (suc kw) k zero = refl
fuse_rrf-nil (suc vw) (suc kw) k (suc n) = refl

fuse-nil : (s : FusionSettings) → fuse s [] [] ≡ []
fuse-nil s = fuse_rrf-nil s.vector_weight s.keyword_weight s.k s.final_top_k

module _ {V : Type 0} (deps : RagDeps V) (semantic_query keyword_query : String)
    (doc_ids : Option (List ℕ)) (top_k_override : Option ℕ) where
  -- whether the dense index answers, given what the embedder gives
  abbrev pub dense_answers : Option V → Bool
  dense_answers none = false
  dense_answers (some v) = (vectors_of deps keyword_query doc_ids top_k_override v).1

  abbrev pub sparse_answers : Bool
  sparse_answers = (keywords_of deps keyword_query doc_ids top_k_override).1

  -- What the trace says is so: the health of each leg that was to run, a total outage exactly where no
  -- such leg answers, no chunk then, and no score of a reranker that has failed.
  pub record IsTruthful (mode : SearchMode) (r : PipelineResult) : Type 0 where
    pub embedded : r.health.embed_ok ≡ is_some (deps.embed_query semantic_query)
    pub outage :
        r.health.all_backends_failed
        ≡ not (
            wants_vector mode && dense_answers (deps.embed_query semantic_query)
            || wants_keyword mode && sparse_answers)
    pub dense : r.health.vector_ok ≡ (
        is_some (deps.embed_query semantic_query)
        && (not (wants_vector mode) || dense_answers (deps.embed_query semantic_query)))
    pub sparse : r.health.keyword_ok ≡ (not (wants_keyword mode) || sparse_answers)
    pub nothing : (r.health.all_backends_failed && not (is_empty r.chunks)) ≡ false
    pub unscored : (r.health.scores_are_rerank && not r.health.rerank_ok) ≡ false

  abbrev pass_of : Option V → SearchMode → PassResult
  pass_of v mode = run_single_pass deps keyword_query doc_ids top_k_override v mode

  -- what one pass says, before the rest of the pipeline
  record Reports (v : Option V) (mode : SearchMode) : Type 0 where
    outage :
        (pass_of v mode).all_backends_failed
        ≡ not (wants_vector mode && dense_answers v || wants_keyword mode && sparse_answers)
    dense :
        ((pass_of v mode).vector_ok && is_some v)
        ≡ (is_some v && (not (wants_vector mode) || dense_answers v))
    sparse : (pass_of v mode).keyword_ok ≡ (not (wants_keyword mode) || sparse_answers)
    nothing : (pass_of v mode).all_backends_failed ≡ true → (pass_of v mode).fused ≡ []

  or_failed-nil :
      (o : Option (List RetrievedChunk)) → (or_failed o).1 ≡ false → (or_failed o).0 ≡ []
  or_failed-nil none h = refl
  or_failed-nil (some chunks) h = ground (arith, h)

  no_sparse :
      sparse_answers ≡ false → (keywords_of deps keyword_query doc_ids top_k_override).0 ≡ []
  no_sparse h = or_failed-nil (deps.opensearch_retrieve keyword_query doc_ids _) h

  no_dense :
      (v : V)
      → dense_answers (some v) ≡ false
      → (vectors_of deps keyword_query doc_ids top_k_override v).0 ≡ []
  no_dense v h = or_failed-nil (deps.qdrant_retrieve v doc_ids _) h

  run_single_pass-Reports : (v : Option V) (mode : SearchMode) → Reports v mode
  unfolding run_single_pass
  run_single_pass-Reports none vector_mode = record {
    outage = refl;
    dense = refl;
    sparse = refl;
    nothing = λ h. refl;
  }
  run_single_pass-Reports none keyword_mode = record {
    outage = refl;
    dense = refl;
    sparse = refl;
    nothing = λ h. no_sparse (ground (arith, h));
  }
  run_single_pass-Reports none hybrid_mode = record {
    outage = refl;
    dense = refl;
    sparse = refl;
    nothing = λ h. no_sparse (ground (arith, h));
  }
  run_single_pass-Reports (some v) vector_mode = record {
    outage = ground arith;
    dense = ground arith;
    sparse = refl;
    nothing = λ h. no_dense v (ground (arith, h));
  }
  run_single_pass-Reports (some v) keyword_mode = record {
    outage = refl;
    dense = refl;
    sparse = refl;
    nothing = λ h. no_sparse (ground (arith, h));
  }
  run_single_pass-Reports (some v) hybrid_mode = record {
    outage = refl;
    dense = ground arith;
    sparse = refl;
    nothing = λ h.
        ap
          (λ (l : List RetrievedChunk).
            fuse deps.fusion l (keywords_of deps keyword_query doc_ids top_k_override).0)
          (no_dense v (ground (arith, h)))
        ∙ ap (fuse deps.fusion []) (no_sparse (ground (arith, h)))
        ∙ fuse-nil deps.fusion;
  }

  reranked_if-IsTruthful :
      (mode : SearchMode) (c : RetrievedChunk) (capped : List RetrievedChunk)
      (texts : Dict ℕ String) (payloads : Dict ℕ ChunkPromptPayload) (o : Option RerankOutcome)
      → rerank deps.reranker semantic_query (c ∷ capped) texts ≡ o
      → Unscored o
      → Reports (deps.embed_query semantic_query) mode
      → (pass_of (deps.embed_query semantic_query) mode).all_backends_failed ≡ false
      → Delivers deps semantic_query (IsTruthful mode) (
          reranked_if deps
            (pass_of (deps.embed_query semantic_query) mode)
            (is_some (deps.embed_query semantic_query))
            o
            payloads)
  reranked_if-IsTruthful mode c capped texts payloads none raised u p e =
      (c ∷ capped, texts, raised)
  reranked_if-IsTruthful mode c capped texts payloads (some o) given u p e = record {
    embedded = refl;
    outage = p.outage;
    dense = p.dense;
    sparse = p.sparse;
    nothing = ground (arith, e);
    unscored = not_failed o.scored o.degraded u;
  }

  -- `finish` on the chunks of a pass that is as it says
  finish-IsTruthful :
      (mode : SearchMode) (capped : List RetrievedChunk)
      → Reports (deps.embed_query semantic_query) mode
      → ((pass_of (deps.embed_query semantic_query) mode).all_backends_failed
          && not (is_empty capped))
        ≡ false
      → Delivers deps semantic_query (IsTruthful mode) (
          finish deps semantic_query
            (pass_of (deps.embed_query semantic_query) mode)
            (is_some (deps.embed_query semantic_query))
            capped)
  finish-IsTruthful mode [] p e = record {
    embedded = refl;
    outage = p.outage;
    dense = p.dense;
    sparse = p.sparse;
    nothing = ground arith;
    unscored = refl;
  }
  finish-IsTruthful mode (c ∷ capped) p e =
      reranked_if-IsTruthful mode c capped _ _ _ refl
        (rerank-Unscored deps.reranker semantic_query (c ∷ capped) _) p (ground (arith, e))

-- Whatever the embedder, the two indexes and the reranker do, the pipeline returns a result unless the
-- reranker raises, and its trace tells the truth about the health of the retrieval: which of them
-- answered, a total outage just where none that was to run did, no chunk then, and scores of the
-- reranker only where it has not failed.
pub run_chat_rag_pipeline-IsTruthful :
    {V : Type 0} (deps : RagDeps V) (semantic_query keyword_query : String)
    (doc_ids : Option (List ℕ)) (mode : SearchMode) (top_k_override : Option ℕ)
    → Delivers deps semantic_query
        (IsTruthful deps semantic_query keyword_query doc_ids top_k_override mode)
        (run_chat_rag_pipeline deps semantic_query keyword_query doc_ids mode top_k_override)
unfolding run_chat_rag_pipeline
run_chat_rag_pipeline-IsTruthful deps semantic_query keyword_query doc_ids mode top_k_override =
    let p =
      run_single_pass-Reports deps semantic_query keyword_query doc_ids top_k_override
        (deps.embed_query semantic_query) mode in
    finish-IsTruthful deps semantic_query keyword_query doc_ids top_k_override mode _ p
      (capped_empty _ _ p.nothing deps.reranker_max_input)
