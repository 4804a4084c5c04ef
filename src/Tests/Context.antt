-- ===== src/Tests/Context.antt =====
-- The history, on two turns, and the fallback over two models.
use mathlib.Core.List.{reverse}
use ai_financial_copilot.Common.{
  ◌++◌, ℕ, ◌≡◌, true, false, List, [], ◌∷◌, Option, none, some, String, All, map, string_eq,
}
use ai_financial_copilot.Common.Dict.{Dict, get}
use ai_financial_copilot.Samples.{plain_texts, plain_assembly}
use ai_financial_copilot.Llm.Messages.{user, assistant}
use ai_financial_copilot.Llm.Fallback.{
  ModelStream, Streamed, exhausted, stream_error, fallback_stream, Serves, fallback_stream-Serves,
  merge_params, set_over, override_of, get-merge_params,
}
use ai_financial_copilot.Context.Turns.{
  Turn, HistoryBudget, StoredMessage, cap_turns, prior_turns, keep_recent,
}
use ai_financial_copilot.Context.Turns.Capping.{IsCapped, cap_turns-IsCapped, keep_recent-suffix}
use ai_financial_copilot.Context.Turns.Screening.{WasScreened, prior_turns-screened}
use ai_financial_copilot.Agent.History.{agent_history, reworded, agent_history-reworded}

abbrev two_turns : List Turn
two_turns =
    record {
      index = 0;
      question = "Revenue of Acme?";
      answer = some "12 M";
      from_carryover = false;
    }
    ∷ record {
      index = 1;
      question = "As a table?";
      answer = some "| 12 M |";
      from_carryover = true;
    }
    ∷ []

abbrev small_budget : HistoryBudget
small_budget = record { budget_tokens = 6; max_answer_tokens = some 4; step = 1 }

abbrev stored : List StoredMessage
stored =
    record { role = user; content = "Revenue of Acme?"; answer_derived_from_carryover = false }
    ∷ record { role = assistant; content = "12 M"; answer_derived_from_carryover = false }
    ∷ record { role = user; content = "As a table?"; answer_derived_from_carryover = false }
    ∷ []

cap_turns-IsCapped_example : IsCapped 6 two_turns (cap_turns plain_texts two_turns small_budget)
cap_turns-IsCapped_example = cap_turns-IsCapped plain_texts small_budget two_turns

prior_turns-screened_example :
    All
      (λ t. WasScreened plain_assembly.scan_retrieved_chunk t.question)
      (prior_turns plain_assembly.scan_retrieved_chunk true stored)
prior_turns-screened_example = prior_turns-screened plain_assembly.scan_retrieved_chunk stored

agent_history-reworded_example :
    agent_history plain_texts small_budget (map (reworded (λ s. "other prose")) two_turns)
    ≡ agent_history plain_texts small_budget two_turns
agent_history-reworded_example =
    agent_history-reworded plain_texts small_budget (λ s. "other prose") two_turns

abbrev failing : ModelStream
failing = record { model_id = "gpt-5-mini"; chunks = []; end = stream_error }

abbrev answering : ModelStream
answering = record { model_id = "fallback"; chunks = "Revenue " ∷ "grew." ∷ []; end = exhausted }

fallback_stream-Serves_example :
    (s : Streamed) × (fallback_stream (failing ∷ answering ∷ []) ≡ some s)
    × Serves (failing ∷ answering ∷ []) s
fallback_stream-Serves_example = fallback_stream-Serves failing (answering ∷ [])

abbrev defaults : Dict String ℕ
defaults = ("max_tokens", 100) ∷ ("top_k", 5) ∷ []

abbrev overrides : Dict String (Option ℕ)
overrides = ("max_tokens", some 20) ∷ ("top_k", none) ∷ []

get-merge_params_example :
    get "top_k" (merge_params defaults overrides)
    ≡ set_over (override_of "top_k" overrides) (get "top_k" defaults)
get-merge_params_example = get-merge_params "top_k" defaults overrides

keep_recent-suffix_example :
    (front : List Turn) × (reverse (reverse two_turns) ++ []
      ≡ front ++ keep_recent 6 0 (reverse two_turns) [])
keep_recent-suffix_example = keep_recent-suffix 6 0 (reverse two_turns) []
