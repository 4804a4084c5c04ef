-- ===== src/Retrieval/Reranker/Outcome.antt =====
-- src/services/retrieval/reranker.py: what the order of the chunks stands for, in each case.
use mathlib.Core.List.{Perm}
use mathlib.Core.List.Perm
use ai_financial_copilot.Common.{
  ℕ, zero, suc, ◌≤◌, ◌≡◌, ◌⊎◌, inl, inr, Option, none, some, refl, ap, subst, sym, ◌∙◌, Bool, true,
  false, not, List, [], ◌∷◌, ◌++◌, String, map, length, take, drop, take-append-drop, length-take,
  any, if-cases, nat_beq, leb, nat_eq, string_eq, ◌==◌, All, arith,
}
use ai_financial_copilot.Common.Dict.{Dict, get}
use ai_financial_copilot.Common.Int.{ℤ, int_eq}
use ai_financial_copilot.Common.Sort.{sorted, sorted-perm, IsSorted, sorted-IsSorted}
use ai_financial_copilot.Schemas.Retrieval.{RetrievedChunk}
use ai_financial_copilot.Agent.Evidence.{by_score}
use ai_financial_copilot.Retrieval.Reranker.{
  RerankOutcome, RerankResponse, request_failed, not_a_list, rerank_items, RerankItem, CrossEncoder,
  local_cross_encoder, score_by_idx, with_scores, by_rerank, rescored, fell_open, ranked_if,
  outcome_of, rerank, text_or_empty,
}

-- a chunk with the score it has been given
abbrev pub scored_id : RetrievedChunk → ℕ × ℕ
scored_id c = (c.chunk_id, c.score)

abbrev pub ranked_id : RetrievedChunk × ℕ → ℕ × ℕ
ranked_id r = (r.0.chunk_id, r.1)

-- The best of some scored chunks: with `rest` they are those chunks with those scores, the higher score
-- comes first, none of the rest has a higher score than one of them, and there are `top_k` of them
-- unless there is no rest.
pub record IsBest (top_k : ℕ) (chunks : List (RetrievedChunk × ℕ)) (best : List RetrievedChunk)
    : Type 0 where
  pub rest : List (ℕ × ℕ)
  pub same : Perm (map scored_id best ++ rest) (map ranked_id chunks)
  pub descending : IsSorted by_score best
  pub beaten : All (λ c. All (λ r. leb r.1 c.score ≡ true) rest) best
  pub bounded : length best ≤ top_k
  pub filled : (rest ≡ []) ⊎ (length best ≡ top_k)

-- a service that is asked about some chunks
module _ (encoder : CrossEncoder) (query : String) (chunks : List RetrievedChunk)
    (texts : Dict ℕ String) where
  abbrev pub seen : List RetrievedChunk
  seen = take encoder.max_input chunks

  abbrev pub seen_texts : List String
  seen_texts = map (λ (c : RetrievedChunk). text_or_empty (get c.chunk_id texts)) seen

  -- the service gives a score to each chunk, and the best by these scores are returned
  abbrev pub Scored : List RetrievedChunk → Type 0
  Scored out =
      (items : List RerankItem) × (scores : Dict ℤ ℕ) × (encoder.post query seen_texts
        ≡ rerank_items items)
      × (score_by_idx items [] ≡ some scores)
      × (length scores ≡ length seen)
      × IsBest encoder.top_k (with_scores scores 0 seen) out

  -- by whether the chunks are scored, and whether the service has failed
  abbrev pub Outcome : Bool → Bool → List RetrievedChunk → Type 0
  Outcome true true out = ⊥
  Outcome true false out = ((chunks ≡ []) × (out ≡ [])) ⊎ Scored out
  Outcome false true out = out ≡ take encoder.top_k chunks
  Outcome false false out = (out ≡ seen) × (any (λ t. not (t == "")) seen_texts ≡ false)

  abbrev pub IsOutcome : Option RerankOutcome → Type 0
  IsOutcome none =
      (items : List RerankItem) × (encoder.post query seen_texts ≡ rerank_items items)
      × (score_by_idx items [] ≡ none)
  IsOutcome (some o) = Outcome o.scored o.degraded o.chunks

scored_id-rescored :
    (ranked : List (RetrievedChunk × ℕ)) → map scored_id (rescored ranked) ≡ map ranked_id ranked
scored_id-rescored [] = refl
scored_id-rescored ((c, s) ∷ ranked) = ap (◌∷◌ (c.chunk_id, s)) (scored_id-rescored ranked)

length-rescored : (ranked : List (RetrievedChunk × ℕ)) → length (rescored ranked) ≡ length ranked
length-rescored [] = refl
length-rescored ((c, s) ∷ ranked) = ap suc (length-rescored ranked)

ranked_id-append :
    (xs ys : List (RetrievedChunk × ℕ))
    → map ranked_id (xs ++ ys) ≡ map ranked_id xs ++ map ranked_id ys
ranked_id-append [] ys = refl
ranked_id-append (x ∷ xs) ys = ap (◌∷◌ (ranked_id x)) (ranked_id-append xs ys)

ranked_id-drop :
    (s n : ℕ) (ranked : List (RetrievedChunk × ℕ))
    → All (λ r. leb r.1 s ≡ true) ranked
    → All (λ r. leb r.1 s ≡ true) (map ranked_id (drop n ranked))
ranked_id-drop s zero [] h = tt
ranked_id-drop s zero (r ∷ ranked) h = (h.0, ranked_id-drop s zero ranked h.1)
ranked_id-drop s (suc n) [] h = tt
ranked_id-drop s (suc n) (r ∷ ranked) h = ranked_id-drop s n ranked h.1

rescored-beaten :
    (n : ℕ) (ranked : List (RetrievedChunk × ℕ))
    → IsSorted by_rerank ranked
    → All
        (λ c. All (λ r. leb r.1 c.score ≡ true) (map ranked_id (drop n ranked)))
        (rescored (take n ranked))
rescored-beaten zero ranked h = tt
rescored-beaten (suc n) [] h = tt
rescored-beaten (suc n) ((c, s) ∷ ranked) h =
    (ranked_id-drop s n ranked h.0, rescored-beaten n ranked h.1)

take_filled :
    (n : ℕ) (ranked : List (RetrievedChunk × ℕ))
    → (map ranked_id (drop n ranked) ≡ []) ⊎ (length (rescored (take n ranked)) ≡ n)
take_filled zero ranked = inr refl
take_filled (suc n) [] = inl refl
take_filled (suc n) ((c, s) ∷ ranked) = elim (take_filled n ranked) [
  | inl e ↦ inl e
  | inr e ↦ inr (omega (arith, e))
]

below-rescored :
    (s n : ℕ) (ranked : List (RetrievedChunk × ℕ))
    → All (λ r. leb r.1 s ≡ true) ranked
    → All (λ c. leb c.score s ≡ true) (rescored (take n ranked))
below-rescored s zero ranked h = tt
below-rescored s (suc n) [] h = tt
below-rescored s (suc n) ((c, t) ∷ ranked) h = (h.0, below-rescored s n ranked h.1)

rescored-IsSorted :
    (n : ℕ) (ranked : List (RetrievedChunk × ℕ))
    → IsSorted by_rerank ranked
    → IsSorted by_score (rescored (take n ranked))
rescored-IsSorted zero ranked h = tt
rescored-IsSorted (suc n) [] h = tt
rescored-IsSorted (suc n) ((c, s) ∷ ranked) h =
    (below-rescored s n ranked h.0, rescored-IsSorted n ranked h.1)

rescored-IsBest :
    (top_k : ℕ) (chunks : List (RetrievedChunk × ℕ))
    → IsBest top_k chunks (rescored (take top_k (sorted by_rerank chunks)))
rescored-IsBest top_k chunks =
    let ranked = sorted by_rerank chunks in
    let in_order : IsSorted by_rerank ranked =
      sorted-IsSorted by_rerank (λ a b e. ground arith) (λ a b c e f. ground arith) chunks in
    record {
      rest = map ranked_id (drop top_k ranked);
      same =
          subst (λ l. Perm l (map ranked_id chunks))
            (sym (
              ap (λ (l : List (ℕ × ℕ)). l ++ map ranked_id (drop top_k ranked))
                (scored_id-rescored (take top_k ranked))
              ∙ sym (ranked_id-append (take top_k ranked) (drop top_k ranked))
              ∙ ap (map ranked_id) (take-append-drop top_k ranked)))
            (Perm.map ranked_id (sorted-perm by_rerank chunks));
      descending = rescored-IsSorted top_k ranked in_order;
      beaten = rescored-beaten top_k ranked in_order;
      bounded = omega (arith, length-rescored (take top_k ranked), length-take top_k ranked);
      filled = take_filled top_k ranked;
    }

module _ (encoder : CrossEncoder) (query : String) (chunks : List RetrievedChunk)
    (texts : Dict ℕ String) where
  ranked_if-IsOutcome :
      (items : List RerankItem) (scores : Option (Dict ℤ ℕ))
      → encoder.post query (seen_texts encoder query chunks texts) ≡ rerank_items items
      → score_by_idx items [] ≡ scores
      → IsOutcome encoder query chunks texts
          (ranked_if encoder.top_k chunks (take encoder.max_input chunks) scores)
  ranked_if-IsOutcome items none said read = (items, said, read)
  ranked_if-IsOutcome items (some scores) said read =
      let to_rerank = take encoder.max_input chunks in
      if-cases (λ o. IsOutcome encoder query chunks texts (some o))
        (not (nat_beq (length scores) (length to_rerank))) (fell_open encoder.top_k chunks)
        (record {
          chunks =
              rescored (take encoder.top_k (sorted by_rerank (with_scores scores 0 to_rerank)));
          scored = true;
          degraded = false;
        })
        (λ _. refl)
        (λ whole. inr (
          items,
          scores,
          said,
          read,
          ground (arith, whole),
          rescored-IsBest encoder.top_k (with_scores scores 0 to_rerank),
        ))

  outcome_of-IsOutcome :
      (response : RerankResponse)
      → encoder.post query (seen_texts encoder query chunks texts) ≡ response
      → IsOutcome encoder query chunks texts
          (outcome_of encoder.top_k chunks (take encoder.max_input chunks) response)
  outcome_of-IsOutcome request_failed said = refl
  outcome_of-IsOutcome not_a_list said = refl
  outcome_of-IsOutcome (rerank_items items) said =
      ranked_if-IsOutcome items (score_by_idx items []) said refl

pub rerank-IsOutcome :
    (encoder : CrossEncoder) (query : String) (chunks : List RetrievedChunk) (texts : Dict ℕ String)
    → IsOutcome encoder query chunks texts (rerank (local_cross_encoder encoder) query chunks texts)
unfolding rerank
rerank-IsOutcome encoder query [] texts = inl (refl, refl)
rerank-IsOutcome encoder query (c ∷ chunks) texts =
    let to_rerank = take encoder.max_input (c ∷ chunks) in
    let text_list = seen_texts encoder query (c ∷ chunks) texts in
    if-cases (IsOutcome encoder query (c ∷ chunks) texts) (not (any (λ t. not (t == "")) text_list))
      (some (record { chunks = to_rerank; scored = false; degraded = false }))
      (outcome_of encoder.top_k (c ∷ chunks) to_rerank (encoder.post query text_list))
      (λ blank. (refl, ground (arith, blank)))
      (λ _.
        outcome_of-IsOutcome encoder query (c ∷ chunks) texts (encoder.post query text_list) refl)
