-- ===== src/Retrieval/Fusion.antt =====
-- src/services/retrieval/hybrid_retriever.py: reciprocal rank fusion. A weight and a score (floats) are
-- fixed-point numbers, so that a share is a division that rounds down; a negative weight or `k`,
-- which the source refuses, cannot be written.
pub mod Ranking
use ai_financial_copilot.Common.{
  ℕ, zero, suc, ◌+◌, ◌/◌, ◌≤◌, ◌≡◌, refl, Bool, true, false, List, [], ◌∷◌, Option, none, some,
  length, take, elem, if◌then◌else◌, leb, nat_beq, nat_eq, arith,
}
use ai_financial_copilot.Common.Dict.{Dict, get, put}
use ai_financial_copilot.Common.Sort.{sorted}
use ai_financial_copilot.Schemas.Retrieval.{RetrievedChunk, hybrid}

abbrev pub or_zero : Option ℕ → ℕ
or_zero none = 0
or_zero (some n) = n

abbrev pub keep_first :
    ℕ → RetrievedChunk → Option RetrievedChunk → Dict ℕ RetrievedChunk → Dict ℕ RetrievedChunk
keep_first id chunk none d = put id chunk d
keep_first id chunk (some c) d = d

-- `_accumulate_rrf`, from a rank on and behind the ids seen
unfoldable pub accumulate_rrf :
    ℕ
    → ℕ
    → ℕ
    → List ℕ
    → List RetrievedChunk
    → Dict ℕ ℕ × Dict ℕ RetrievedChunk
    → Dict ℕ ℕ × Dict ℕ RetrievedChunk
accumulate_rrf weight k rank seen [] acc = acc
accumulate_rrf weight k rank seen (chunk ∷ results) (scores, by_id) =
    let id = chunk.chunk_id in
    let skip = accumulate_rrf weight k (rank + 1) seen results (scores, by_id) in
    let count = accumulate_rrf weight k (rank + 1) (id ∷ seen) results (
      put id (or_zero (get id scores) + weight / (k + rank)) scores,
      keep_first id chunk (get id by_id) by_id,
    ) in
    if elem id seen then skip else count

-- `a or b`, of a number that may be None
abbrev number_or : Option ℕ → ℕ → ℕ
number_or none b = b
number_or (some zero) b = b
number_or (some (suc n)) b = suc n

-- the rank and the score of each chunk of one ranking; the last one of an id stays
unfoldable pub rank_meta :
    (RetrievedChunk → Option ℕ)
    → (RetrievedChunk → Option ℕ)
    → ℕ
    → List RetrievedChunk
    → Dict ℕ (ℕ × ℕ)
    → Dict ℕ (ℕ × ℕ)
rank_meta rank_of score_of rank [] d = d
rank_meta rank_of score_of rank (chunk ∷ results) d =
    rank_meta rank_of score_of (rank + 1) results (
      put chunk.chunk_id (number_or (rank_of chunk) rank, number_or (score_of chunk) chunk.score) d)

abbrev rank_in : Option (ℕ × ℕ) → Option ℕ
rank_in none = none
rank_in (some (rank, score)) = some rank

abbrev score_in : Option (ℕ × ℕ) → Option ℕ
score_in none = none
score_in (some (rank, score)) = some score

-- `_annotate_hybrid_chunk`
unfoldable pub annotate_hybrid_chunk :
    RetrievedChunk → ℕ → Option (ℕ × ℕ) → Option (ℕ × ℕ) → RetrievedChunk
annotate_hybrid_chunk chunk fused_score vector_info keyword_info = record chunk {
  score = fused_score;
  source = hybrid;
  vector_rank = rank_in vector_info;
  vector_score = score_in vector_info;
  keyword_rank = rank_in keyword_info;
  keyword_score = score_in keyword_info;
}

-- the higher fused score first
abbrev pub by_fused : ℕ × ℕ → ℕ × ℕ → Bool
by_fused a b = leb b.1 a.1

-- (A ranked id is one of a counted chunk, so the lookup succeeds.)
abbrev pub annotate_found :
    Option RetrievedChunk
    → ℕ
    → Option (ℕ × ℕ)
    → Option (ℕ × ℕ)
    → List RetrievedChunk
    → List RetrievedChunk
annotate_found none fused_score vector_info keyword_info rest = rest
annotate_found (some chunk) fused_score vector_info keyword_info rest =
    annotate_hybrid_chunk chunk fused_score vector_info keyword_info ∷ rest

unfoldable pub annotate_all :
    Dict ℕ RetrievedChunk → Dict ℕ (ℕ × ℕ) → Dict ℕ (ℕ × ℕ) → List (ℕ × ℕ) → List RetrievedChunk
annotate_all by_id vector_meta keyword_meta [] = []
annotate_all by_id vector_meta keyword_meta ((id, fused_score) ∷ ranked) =
    annotate_found (get id by_id) fused_score (get id vector_meta) (get id keyword_meta)
      (annotate_all by_id vector_meta keyword_meta ranked)

-- a ranking that counts: none of it where its weight is 0
abbrev pub counted : ℕ → List RetrievedChunk → List RetrievedChunk
counted zero results = []
counted (suc weight) results = results

-- `fuse_rrf`
unfoldable pub fuse_rrf :
    List RetrievedChunk → List RetrievedChunk → ℕ → ℕ → ℕ → ℕ → List RetrievedChunk
fuse_rrf vector_results keyword_results vector_weight keyword_weight k final_top_k =
    let vectors = counted vector_weight vector_results in
    let keywords = counted keyword_weight keyword_results in
    let (scores, by_id) =
      accumulate_rrf keyword_weight k 1 [] keywords
        (accumulate_rrf vector_weight k 1 [] vectors ([], [])) in
    annotate_all by_id (rank_meta (λ c. c.vector_rank) (λ c. c.vector_score) 1 vectors [])
      (rank_meta (λ c. c.keyword_rank) (λ c. c.keyword_score) 1 keywords [])
      (take final_top_k (sorted by_fused scores))
