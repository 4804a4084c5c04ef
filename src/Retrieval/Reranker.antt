-- ===== src/Retrieval/Reranker.antt =====
-- src/services/retrieval/reranker.py: a service scores the chunks against the question. What it answers is a
-- parameter. Scores (floats) are fixed-point numbers that are not negative, and NaN is left out.
pub mod Outcome
use ai_financial_copilot.Common.{
  ℕ, ◌+◌, Bool, true, false, not, List, [], ◌∷◌, Option, none, some, String, map, length, take, any,
  if◌then◌else◌, nat_beq, leb, nat_eq, string_eq, ◌==◌,
}
use ai_financial_copilot.Common.Dict.{Dict, get, put}
use ai_financial_copilot.Common.Int.{ℤ, pos, int_eq}
use ai_financial_copilot.Common.Sort.{sorted}
use ai_financial_copilot.Schemas.Retrieval.{RetrievedChunk}

pub record RerankOutcome : Type 0 where
  pub chunks : List RetrievedChunk
  pub scored : Bool
  pub degraded : Bool

-- An item of the answer: one that is skipped, being no object with an index and a score or one whose
-- numbers raise a TypeError or a ValueError; one whose numbers raise an OverflowError, which is not
-- suppressed; or an index and its score.
pub data RerankItem : Type 0 where
  skipped overflowing : RerankItem
  score_at : ℤ → ℕ → RerankItem

-- what the service answers: the request fails, the JSON is no list, or the list of the items
pub data RerankResponse : Type 0 where
  request_failed not_a_list : RerankResponse
  rerank_items : List RerankItem → RerankResponse

pub record CrossEncoder : Type 0 where
  pub top_k : ℕ
  pub max_input : ℕ
  pub post : String → List String → RerankResponse

-- NoOpReranker and LocalCrossEncoderReranker
pub data Reranker : Type 0 where
  no_op : Reranker
  local_cross_encoder : CrossEncoder → Reranker

-- `get_reranker`
abbrev pub get_reranker : Bool → CrossEncoder → Reranker
get_reranker true encoder = local_cross_encoder encoder
get_reranker false encoder = no_op

abbrev pub text_or_empty : Option String → String
text_or_empty none = ""
text_or_empty (some s) = s

-- `none` is an OverflowError
abbrev pub score_by_idx : List RerankItem → Dict ℤ ℕ → Option (Dict ℤ ℕ)
score_by_idx [] d = some d
score_by_idx (skipped ∷ items) d = score_by_idx items d
score_by_idx (overflowing ∷ items) d = none
score_by_idx (score_at idx score ∷ items) d = score_by_idx items (put idx score d)

abbrev score_or_zero : Option ℕ → ℕ
score_or_zero none = 0
score_or_zero (some s) = s

-- the chunks with their scores, from the i-th on
abbrev pub with_scores : Dict ℤ ℕ → ℕ → List RetrievedChunk → List (RetrievedChunk × ℕ)
with_scores scores i [] = []
with_scores scores i (c ∷ chunks) =
    (c, score_or_zero (get (pos i) scores)) ∷ with_scores scores (i + 1) chunks

abbrev pub by_rerank : RetrievedChunk × ℕ → RetrievedChunk × ℕ → Bool
by_rerank a b = leb b.1 a.1

abbrev pub rescored : List (RetrievedChunk × ℕ) → List RetrievedChunk
rescored [] = []
rescored ((c, s) ∷ ranked) = record c { score = s } ∷ rescored ranked

-- `_fell_open`
abbrev pub fell_open : ℕ → List RetrievedChunk → RerankOutcome
fell_open top_k chunks = record { chunks = take top_k chunks; scored = false; degraded = true }

abbrev pub ranked_outcome : ℕ → List RetrievedChunk → List RetrievedChunk → Dict ℤ ℕ → RerankOutcome
ranked_outcome top_k chunks to_rerank scores =
    if not (nat_beq (length scores) (length to_rerank)) then fell_open top_k chunks else record {
      chunks = rescored (take top_k (sorted by_rerank (with_scores scores 0 to_rerank)));
      scored = true;
      degraded = false;
    }

abbrev pub ranked_if :
    ℕ → List RetrievedChunk → List RetrievedChunk → Option (Dict ℤ ℕ) → Option RerankOutcome
ranked_if top_k chunks to_rerank none = none
ranked_if top_k chunks to_rerank (some scores) = some (ranked_outcome top_k chunks to_rerank scores)

abbrev pub outcome_of :
    ℕ → List RetrievedChunk → List RetrievedChunk → RerankResponse → Option RerankOutcome
outcome_of top_k chunks to_rerank request_failed = some (fell_open top_k chunks)
outcome_of top_k chunks to_rerank not_a_list = some (fell_open top_k chunks)
outcome_of top_k chunks to_rerank (rerank_items items) =
    ranked_if top_k chunks to_rerank (score_by_idx items [])

abbrev pub rerank_some :
    CrossEncoder → String → List RetrievedChunk → Dict ℕ String → Option RerankOutcome
rerank_some encoder query chunks texts =
    let to_rerank = take encoder.max_input chunks in
    let text_list = map (λ (c : RetrievedChunk). text_or_empty (get c.chunk_id texts)) to_rerank in
    if not (any (λ t. not (t == "")) text_list)
    then some (record { chunks = to_rerank; scored = false; degraded = false })
    else outcome_of encoder.top_k chunks to_rerank (encoder.post query text_list)

-- `rerank`; `none` is an OverflowError
unfoldable pub rerank :
    Reranker → String → List RetrievedChunk → Dict ℕ String → Option RerankOutcome
rerank no_op query chunks texts =
    some (record { chunks = chunks; scored = false; degraded = false })
rerank (local_cross_encoder encoder) query [] texts =
    some (record { chunks = []; scored = true; degraded = false })
rerank (local_cross_encoder encoder) query (c ∷ chunks) texts =
    rerank_some encoder query (c ∷ chunks) texts
