-- ===== src/Retrieval/Fusion/Ranking.antt =====
-- What fusion promises of its result: at most so many chunks, the best first.
use ai_financial_copilot.Common.{
  ℕ, zero, suc, ◌+◌, ◌≤◌, ◌≡◌, true, List, [], ◌∷◌, Option, none, some, length, take, All, leb,
  nat_eq, arith,
}
use ai_financial_copilot.Common.Dict.{Dict, get}
use ai_financial_copilot.Common.Sort.{sorted, IsSorted, sorted-IsSorted}
use ai_financial_copilot.Schemas.Retrieval.{RetrievedChunk}
use ai_financial_copilot.Agent.Evidence.{by_score}
use ai_financial_copilot.Retrieval.Fusion.{
  by_fused, annotate_all, annotate_found, annotate_hybrid_chunk, fuse_rrf,
}

pub record IsRanking (limit : ℕ) (results : List RetrievedChunk) : Type 0 where
  pub bounded : length results ≤ limit
  pub descending : IsSorted by_score results

take-All : (P : ℕ × ℕ → Type 0) (n : ℕ) (xs : List (ℕ × ℕ)) → All P xs → All P (take n xs)
take-All P zero xs h = tt
take-All P (suc n) [] h = tt
take-All P (suc n) (x ∷ xs) h = (h.0, take-All P n xs h.1)

take-IsSorted : (n : ℕ) (xs : List (ℕ × ℕ)) → IsSorted by_fused xs → IsSorted by_fused (take n xs)
take-IsSorted zero xs h = tt
take-IsSorted (suc n) [] h = tt
take-IsSorted (suc n) (x ∷ xs) h =
    (take-All (λ y. by_fused x y ≡ true) n xs h.0, take-IsSorted n xs h.1)

length-take-le : (n : ℕ) (xs : List (ℕ × ℕ)) → length (take n xs) ≤ n
length-take-le zero xs = omega arith
length-take-le (suc n) [] = omega arith
length-take-le (suc n) (x ∷ xs) = omega (arith, length-take-le n xs)

length-annotate_found :
    (found : Option RetrievedChunk) (score : ℕ) (v w : Option (ℕ × ℕ)) (rest : List RetrievedChunk)
    → length (annotate_found found score v w rest) ≤ length rest + 1
length-annotate_found none score v w rest = omega arith
length-annotate_found (some chunk) score v w rest = omega arith

annotate_found-All :
    (found : Option RetrievedChunk) (s score : ℕ) (v w : Option (ℕ × ℕ))
    (rest : List RetrievedChunk)
    → leb score s ≡ true
    → All (λ c. leb c.score s ≡ true) rest
    → All (λ c. leb c.score s ≡ true) (annotate_found found score v w rest)
unfolding annotate_hybrid_chunk
annotate_found-All none s score v w rest h hs = hs
annotate_found-All (some chunk) s score v w rest h hs = (h, hs)

annotate_found-IsSorted :
    (found : Option RetrievedChunk) (score : ℕ) (v w : Option (ℕ × ℕ)) (rest : List RetrievedChunk)
    → All (λ c. leb c.score score ≡ true) rest
    → IsSorted by_score rest
    → IsSorted by_score (annotate_found found score v w rest)
unfolding annotate_hybrid_chunk
annotate_found-IsSorted none score v w rest below h = h
annotate_found-IsSorted (some chunk) score v w rest below h = (below, h)

module _ (by_id : Dict ℕ RetrievedChunk) (vectors keywords : Dict ℕ (ℕ × ℕ)) where
  length-annotate_all :
      (ranked : List (ℕ × ℕ)) → length (annotate_all by_id vectors keywords ranked) ≤ length ranked
  unfolding annotate_all
  length-annotate_all [] = omega arith
  length-annotate_all ((id, score) ∷ ranked) = omega (
    arith,
    length-annotate_all ranked,
    length-annotate_found (get id by_id) score (get id vectors) (get id keywords)
        (annotate_all by_id vectors keywords ranked),
  )

  annotate_all-All :
      (s : ℕ) (ranked : List (ℕ × ℕ))
      → All (λ e. leb e.1 s ≡ true) ranked
      → All (λ c. leb c.score s ≡ true) (annotate_all by_id vectors keywords ranked)
  unfolding annotate_all
  annotate_all-All s [] h = tt
  annotate_all-All s ((id, score) ∷ ranked) h =
      annotate_found-All (get id by_id) s score _ _ _ h.0 (annotate_all-All s ranked h.1)

  annotate_all-IsSorted :
      (ranked : List (ℕ × ℕ))
      → IsSorted by_fused ranked
      → IsSorted by_score (annotate_all by_id vectors keywords ranked)
  unfolding annotate_all
  annotate_all-IsSorted [] h = tt
  annotate_all-IsSorted ((id, score) ∷ ranked) h =
      annotate_found-IsSorted (get id by_id) score _ _ _ (annotate_all-All score ranked h.0)
        (annotate_all-IsSorted ranked h.1)

  annotate_all-IsRanking :
      (limit : ℕ) (scores : List (ℕ × ℕ))
      → IsRanking limit (annotate_all by_id vectors keywords (take limit (sorted by_fused scores)))
  annotate_all-IsRanking limit scores =
      let ranked = take limit (sorted by_fused scores) in
      record {
        bounded =
            omega
              (arith, length-annotate_all ranked, length-take-le limit (sorted by_fused scores));
        descending = annotate_all-IsSorted ranked (
            take-IsSorted limit (sorted by_fused scores) (
              sorted-IsSorted by_fused (λ a b e. ground arith) (λ a b c e f. ground arith) scores));
      }

-- The fused result has no more chunks than asked for, and a higher score comes first.
pub fuse_rrf-IsRanking :
    (vector_results keyword_results : List RetrievedChunk)
    (vector_weight keyword_weight k final_top_k : ℕ)
    → IsRanking final_top_k
        (fuse_rrf vector_results keyword_results vector_weight keyword_weight k final_top_k)
unfolding fuse_rrf
fuse_rrf-IsRanking vector_results keyword_results vector_weight keyword_weight k final_top_k =
    annotate_all-IsRanking _ _ _ final_top_k _
