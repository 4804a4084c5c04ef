-- ===== src/Tests/Stream.antt =====
-- A model's reasoning in its stream, the pill of a request, and the documents whose worker is gone.
use ai_financial_copilot.Common.{ℕ, ◌≡◌, refl, false, List, [], ◌∷◌, none, some, String, arith}
use ai_financial_copilot.Common.Dict.{get, put}
use ai_financial_copilot.Chat.Thinking.{Stripper, new_stripper, one_round, feed, feed_all}
use ai_financial_copilot.Chat.Thinking.Ends.{feed-Ended}
use ai_financial_copilot.Chat.Thinking.Lost.{thinking, feed_all-thinking}
use ai_financial_copilot.Common.Decimal.{show}
use ai_financial_copilot.Chat.Activity.Pill.{OutcomeInputs, too_broad, build_outcome}
use ai_financial_copilot.Ingestion.Recovery.{
  Document, ReapState, ReapEnv, enqueue_once, reap_abandoned, reaped,
}
use ai_financial_copilot.Ingestion.Recovery.Once.{Follows, reap_abandoned-Follows}

abbrev one_thought : String
one_thought = "<think>sum both years</think>\n\nRevenue grew."

feed-Ended_example :
    (out : String) × (t : Stripper) × (feed one_thought new_stripper ≡ some (out, t)) × (t.buf ≡ "")
feed-Ended_example = feed-Ended one_thought new_stripper

thought_is_stripped :
    feed one_thought new_stripper
    ≡ some ("Revenue grew.", record { in_think = false; strip_leading_newlines = false; buf = "" })
unfolding feed one_round
thought_is_stripped = refl

-- together the chunks close the block
abbrev split_tag : List String
split_tag = "both years</thi" ∷ "nk>Revenue grew." ∷ []

feed_all-thinking_example : feed_all split_tag (thinking false) ≡ some ("", thinking false)
feed_all-thinking_example = feed_all-thinking false split_tag (refl, (refl, tt))

abbrev two_documents : List Document
two_documents =
    record { id = 1; status = "processing" }
    ∷ record { id = 2; status = "ready" }
    ∷ record { id = 3; status = "processing" }
    ∷ []

abbrev at_time : ℕ → ReapEnv
at_time now = record {
  check_fails = false;
  has_lease = λ id. false;
  claim_fails = λ id. false;
  delay_fails = λ id. false;
  delete_fails = λ id. false;
  debounce_seconds = 60;
  now = now;
}

abbrev nothing_reaped : ReapState
nothing_reaped = record { reap_keys = []; queue = [] }

-- a worker has taken the third document meanwhile
abbrev third_taken : ReapState
third_taken = record { reap_keys = (1, 160) ∷ []; queue = 1 ∷ [] }

reap_abandoned-Follows_example :
    Follows
      (at_time 100)
      (at_time 130)
      two_documents
      two_documents
      nothing_reaped
      third_taken
      (reap_abandoned (at_time 100) two_documents nothing_reaped)
reap_abandoned-Follows_example =
    reap_abandoned-Follows (at_time 100) (at_time 130) two_documents two_documents nothing_reaped
      third_taken (omega arith) (omega arith) (λ id. refl) (λ id. refl) (omega arith)

two_are_sent :
    reap_abandoned (at_time 100) two_documents nothing_reaped
    ≡ reaped (record { reap_keys = (1, 160) ∷ (3, 160) ∷ []; queue = 1 ∷ 3 ∷ [] }) (1 ∷ 3 ∷ [])
unfolding reap_abandoned enqueue_once get put
two_are_sent = refl

abbrev many_companies : OutcomeInputs
many_companies = record {
  exit_path = too_broad;
  scope = none;
  query_shape = none;
  meta = none;
  unresolved = [];
  synthesis_fallback = none;
  carried_outcome = none;
  too_broad_count = some 12;
  max_companies = some 5;
}

not_run :
    (build_outcome many_companies).text
    ≡ "Not run: the question covers 12 companies; up to 5 per question"
unfolding build_outcome show
not_run = refl
