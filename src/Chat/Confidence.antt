-- ===== src/Chat/Confidence.antt =====
-- src/services/chat/confidence.py: the badge of an answer. A score (a float) is a fixed-point number, of
-- which `unit` is 1.0.
use ai_financial_copilot.Common.{
  ℕ, zero, suc, ◌*◌, Bool, not, Option, none, some, if◌then◌else◌, leb,
}

pub data Confidence : Type 0 where
  no_confidence medium high low : Confidence

abbrev pub by_threshold : ℕ → Option ℕ → Bool → Confidence
by_threshold unit none scores_are_rerank = medium
by_threshold unit (some top_score) scores_are_rerank =
    if not scores_are_rerank
    then medium
    else if leb (7 * unit) (10 * top_score)
    then high
    else if leb unit (4 * top_score)
    then medium
    else low

-- `compute_confidence`
unfoldable pub compute_confidence : ℕ → Option ℕ → ℕ → Bool → Confidence
compute_confidence unit top_score zero scores_are_rerank = no_confidence
compute_confidence unit top_score (suc num_chunks) scores_are_rerank =
    by_threshold unit top_score scores_are_rerank
