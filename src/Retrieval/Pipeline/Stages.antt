-- ===== src/Retrieval/Pipeline/Stages.antt =====
-- src/services/retrieval: what holds of the ids of some chunks holds of what each stage makes of them.
use ai_financial_copilot.Common.{
  ℕ, zero, suc, ◌+◌, ◌≡◌, false, not, List, [], ◌∷◌, Option, none, some, String, map, take, any,
  elem, if-cases, nat_beq, nat_eq, string_eq, ◌==◌, All, length, Option-cases, inl, inr,
}
use ai_financial_copilot.Common.Dict.{Dict, get, values, put-All, get-All}
use ai_financial_copilot.Common.Int.{ℤ}
use ai_financial_copilot.Common.Sort.{sorted, sorted-All}
use ai_financial_copilot.Schemas.Retrieval.{RetrievedChunk}
use ai_financial_copilot.Retrieval.Assembler.Labels.{chunk_ids}
use ai_financial_copilot.Retrieval.Fusion.{
  fuse_rrf, accumulate_rrf, annotate_all, annotate_hybrid_chunk, keep_first, counted,
}
use ai_financial_copilot.Retrieval.Reranker.{
  Reranker, no_op, local_cross_encoder, RerankOutcome, RerankResponse, request_failed, not_a_list,
  rerank_items, ranked_if, score_by_idx, with_scores, by_rerank, rescored, fell_open, outcome_of,
  rerank, text_or_empty,
}
use ai_financial_copilot.Retrieval.Pipeline.{RagDeps, PipelineResult}

module _ (P : ℕ → Type 0) where
  abbrev pub AllIds : List RetrievedChunk → Type 0
  AllIds chunks = All P (chunk_ids chunks)

  abbrev OfId : RetrievedChunk → Type 0
  OfId c = P c.chunk_id

  pub take-AllIds : (n : ℕ) (chunks : List RetrievedChunk) → AllIds chunks → AllIds (take n chunks)
  take-AllIds zero chunks h = tt
  take-AllIds (suc n) [] h = tt
  take-AllIds (suc n) (c ∷ chunks) h = (h.0, take-AllIds n chunks h.1)

  keep_first-All :
      (c : RetrievedChunk) (o : Option RetrievedChunk) (d : Dict ℕ RetrievedChunk)
      → P c.chunk_id
      → All OfId (values d)
      → All OfId (values (keep_first c.chunk_id c o d))
  keep_first-All c none d h hs = put-All OfId c.chunk_id c d h hs
  keep_first-All c (some b) d h hs = hs

  accumulate_rrf-All :
      (weight k rank : ℕ) (seen : List ℕ) (results : List RetrievedChunk) (scores : Dict ℕ ℕ)
      (by_id : Dict ℕ RetrievedChunk)
      → AllIds results
      → All OfId (values by_id)
      → All OfId (values (accumulate_rrf weight k rank seen results (scores, by_id)).1)
  unfolding accumulate_rrf
  accumulate_rrf-All weight k rank seen [] scores by_id h hs = hs
  accumulate_rrf-All weight k rank seen (c ∷ results) scores by_id h hs =
      if-cases (λ (acc : Dict ℕ ℕ × Dict ℕ RetrievedChunk). All OfId (values acc.1))
        (elem c.chunk_id seen) _ _
        (λ _. accumulate_rrf-All weight k (rank + 1) seen results scores by_id h.1 hs)
        (λ _.
          accumulate_rrf-All weight k (rank + 1) (c.chunk_id ∷ seen) results _ _ h.1
            (keep_first-All c (get c.chunk_id by_id) by_id h.0 hs))

  annotate_all-AllIds :
      (by_id : Dict ℕ RetrievedChunk) (vectors keywords : Dict ℕ (ℕ × ℕ)) (ranked : List (ℕ × ℕ))
      → All OfId (values by_id)
      → AllIds (annotate_all by_id vectors keywords ranked)
  unfolding annotate_all annotate_hybrid_chunk
  annotate_all-AllIds by_id vectors keywords [] h = tt
  annotate_all-AllIds by_id vectors keywords ((id, score) ∷ ranked) h =
      elim (Option-cases (get id by_id)) [
        | inl e ↦ rw e (annotate_all-AllIds by_id vectors keywords ranked h)
        | inr (c, e) ↦
            rw e (get-All OfId id c by_id h e, annotate_all-AllIds by_id vectors keywords ranked h)
      ]

  counted-AllIds :
      (weight : ℕ) (chunks : List RetrievedChunk) → AllIds chunks → AllIds (counted weight chunks)
  counted-AllIds zero chunks h = tt
  counted-AllIds (suc weight) chunks h = h

  pub fuse_rrf-AllIds :
      (vectors keywords : List RetrievedChunk) (vw kw k n : ℕ)
      → AllIds vectors
      → AllIds keywords
      → AllIds (fuse_rrf vectors keywords vw kw k n)
  unfolding fuse_rrf
  fuse_rrf-AllIds vectors keywords vw kw k n hv hk = annotate_all-AllIds _ _ _ _ (
      accumulate_rrf-All kw k 1 [] (counted kw keywords) _ _ (counted-AllIds kw keywords hk)
        (accumulate_rrf-All vw k 1 [] (counted vw vectors) [] [] (counted-AllIds vw vectors hv) tt))

  abbrev OfPair : RetrievedChunk × ℕ → Type 0
  OfPair r = P r.0.chunk_id

  with_scores-All :
      (scores : Dict ℤ ℕ) (i : ℕ) (chunks : List RetrievedChunk)
      → AllIds chunks
      → All OfPair (with_scores scores i chunks)
  with_scores-All scores i [] h = tt
  with_scores-All scores i (c ∷ chunks) h = (h.0, with_scores-All scores (i + 1) chunks h.1)

  rescored-AllIds :
      (n : ℕ) (ranked : List (RetrievedChunk × ℕ))
      → All OfPair ranked
      → AllIds (rescored (take n ranked))
  rescored-AllIds zero ranked h = tt
  rescored-AllIds (suc n) [] h = tt
  rescored-AllIds (suc n) ((c, s) ∷ ranked) h = (h.0, rescored-AllIds n ranked h.1)

  -- what holds of the ids of the chunks that come out, where any do
  abbrev pub AllOut : Option RerankOutcome → Type 0
  AllOut none = Unit
  AllOut (some o) = AllIds o.chunks

  ranked_if-AllOut :
      (top_k : ℕ) (chunks to_rerank : List RetrievedChunk) (scores : Option (Dict ℤ ℕ))
      → AllIds chunks
      → AllIds to_rerank
      → AllOut (ranked_if top_k chunks to_rerank scores)
  ranked_if-AllOut top_k chunks to_rerank none h r = tt
  ranked_if-AllOut top_k chunks to_rerank (some scores) h r =
      if-cases (λ (o : RerankOutcome). AllIds o.chunks)
        (not (nat_beq (length scores) (length to_rerank))) (fell_open top_k chunks) _
        (λ _. take-AllIds top_k chunks h)
        (λ _. rescored-AllIds top_k (sorted by_rerank (with_scores scores 0 to_rerank)) (
          sorted-All by_rerank OfPair (with_scores scores 0 to_rerank)
            (with_scores-All scores 0 to_rerank r)))

  outcome_of-AllOut :
      (top_k : ℕ) (chunks to_rerank : List RetrievedChunk) (response : RerankResponse)
      → AllIds chunks
      → AllIds to_rerank
      → AllOut (outcome_of top_k chunks to_rerank response)
  outcome_of-AllOut top_k chunks to_rerank request_failed h r = take-AllIds top_k chunks h
  outcome_of-AllOut top_k chunks to_rerank not_a_list h r = take-AllIds top_k chunks h
  outcome_of-AllOut top_k chunks to_rerank (rerank_items items) h r =
      ranked_if-AllOut top_k chunks to_rerank (score_by_idx items []) h r

  pub rerank-AllOut :
      (r : Reranker) (query : String) (chunks : List RetrievedChunk) (texts : Dict ℕ String)
      → AllIds chunks
      → AllOut (rerank r query chunks texts)
  unfolding rerank
  rerank-AllOut no_op query chunks texts h = h
  rerank-AllOut (local_cross_encoder encoder) query [] texts h = tt
  rerank-AllOut (local_cross_encoder encoder) query (c ∷ chunks) texts h =
      let to_rerank = take encoder.max_input (c ∷ chunks) in
      let kept = take-AllIds encoder.max_input (c ∷ chunks) h in
      let text_list =
        map (λ (d : RetrievedChunk). text_or_empty (get d.chunk_id texts)) to_rerank in
      if-cases AllOut (not (any (λ t. not (t == "")) text_list))
        (some (record { chunks = to_rerank; scored = false; degraded = false }))
        (outcome_of encoder.top_k (c ∷ chunks) to_rerank (encoder.post query text_list)) (λ _. kept)
        (λ _.
          outcome_of-AllOut encoder.top_k (c ∷ chunks) to_rerank (encoder.post query text_list) h
            kept)

-- the pipeline returns a result as it is said, or its reranker raises
abbrev pub Delivers :
    {V : Type 0} → RagDeps V → String → (PipelineResult → Type 0) → Option PipelineResult → Type 0
Delivers deps query P none =
    (chunks : List RetrievedChunk) × (texts : Dict ℕ String) × (rerank deps.reranker query chunks
        texts
      ≡ none)
Delivers deps query P (some r) = P r
