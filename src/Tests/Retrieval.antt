-- ===== src/Tests/Retrieval.antt =====
-- The fusion of two rankings, the reranker, and the pipeline with the dense index down.
use ai_financial_copilot.Common.{
  ℕ, ◌≡◌, refl, true, false, List, [], ◌∷◌, Option, none, some, String, string_eq,
}
use ai_financial_copilot.Common.Dict.{Dict, get, put}
use ai_financial_copilot.Common.Int.{pos}
use ai_financial_copilot.Common.Sort.{sorted}
use ai_financial_copilot.Samples.{sample_chunk, two_chunks, two_payloads, plain_assembly}
use ai_financial_copilot.Retrieval.Assembler.Labels.{chunk_ids}
use ai_financial_copilot.Retrieval.Fusion.{fuse_rrf}
use ai_financial_copilot.Retrieval.Fusion.Ranking.{IsRanking, fuse_rrf-IsRanking}
use ai_financial_copilot.Retrieval.Reranker.{
  RerankOutcome, CrossEncoder, rerank_items, skipped, score_at, local_cross_encoder, get_reranker,
  rerank,
}
use ai_financial_copilot.Retrieval.Pipeline.{RagDeps, hybrid_mode, run_chat_rag_pipeline}
use ai_financial_copilot.Retrieval.Pipeline.Health.{IsTruthful, run_chat_rag_pipeline-IsTruthful}
use ai_financial_copilot.Retrieval.Pipeline.Stages.{Delivers}
use ai_financial_copilot.Retrieval.Pipeline.Sources.{HasFound, run_chat_rag_pipeline-IsFound}
use ai_financial_copilot.Chat.Confidence.{compute_confidence, medium, low}

fuse_rrf-IsRanking_example :
    IsRanking 2 (fuse_rrf two_chunks (sample_chunk 8 ∷ sample_chunk 9 ∷ []) 1000 1000 20 2)
fuse_rrf-IsRanking_example =
    fuse_rrf-IsRanking two_chunks (sample_chunk 8 ∷ sample_chunk 9 ∷ []) 1000 1000 20 2

-- the second chunk scores higher
abbrev encoder : CrossEncoder
encoder = record {
  top_k = 2;
  max_input = 3;
  post = λ query texts. rerank_items (score_at (pos 0) 10 ∷ skipped ∷ score_at (pos 1) 90 ∷ []);
}

abbrev two_texts : Dict ℕ String
two_texts = (7, "revenue") ∷ (8, "margin") ∷ []

abbrev ids_of_outcome : Option RerankOutcome → List ℕ
ids_of_outcome none = []
ids_of_outcome (some o) = chunk_ids o.chunks

higher_score_first :
    ids_of_outcome (rerank (local_cross_encoder encoder) "growth" two_chunks two_texts) ≡ 8 ∷ 7 ∷ []
unfolding rerank get put sorted
higher_score_first = refl

-- the dense index times out
abbrev half_down : RagDeps ℕ
half_down = record {
  embed_query = λ query. some 1;
  qdrant_retrieve = λ v ids k. none;
  opensearch_retrieve = λ query ids k. some two_chunks;
  get_chunk_prompt_payloads = λ ids. two_payloads;
  reranker = get_reranker true encoder;
  assembly = plain_assembly;
  fusion = record { vector_weight = 1000; keyword_weight = 1000; k = 20; final_top_k = 5 };
  vector_search_top_k = 5;
  keyword_search_top_k = 5;
  reranker_max_input = 5;
}

run_chat_rag_pipeline-IsTruthful_example :
    Delivers half_down "growth"
      (IsTruthful half_down "growth" "growth" none none hybrid_mode)
      (run_chat_rag_pipeline half_down "growth" "growth" none hybrid_mode none)
run_chat_rag_pipeline-IsTruthful_example =
    run_chat_rag_pipeline-IsTruthful half_down "growth" "growth" none hybrid_mode none

run_chat_rag_pipeline-IsFound_example :
    Delivers half_down "growth"
      (HasFound half_down "growth" "growth" none none)
      (run_chat_rag_pipeline half_down "growth" "growth" none hybrid_mode none)
run_chat_rag_pipeline-IsFound_example =
    run_chat_rag_pipeline-IsFound half_down "growth" "growth" none hybrid_mode none

weak_rerank_is_low : compute_confidence 100 (some 10) 2 true ≡ low
unfolding compute_confidence
weak_rerank_is_low = refl

fusion_score_is_medium : compute_confidence 100 (some 10) 2 false ≡ medium
unfolding compute_confidence
fusion_score_is_medium = refl
