-- ===== src/Tests/Loop.antt =====
-- The loop, on a model that searches and then reports.
use ai_financial_copilot.Common.{
  ◌+◌, ◌≡◌, refl, ==_iff, false, [], ◌∷◌, some, String, string_eq, arith,
}
use ai_financial_copilot.Common.Dict.{get, has}
use ai_financial_copilot.Samples.{
  plain_texts, sample_deps, sample_settings, sample_report, sample_stats, search_call, report_call,
  turn_of,
}
use ai_financial_copilot.Llm.Messages.{user}
use ai_financial_copilot.Agent.Transcript.{Transcript, plain_message}
use ai_financial_copilot.Agent.State.{
  AgentRunState, ShapeConfig, shape_config, record_spend, cost_usd_total, or_zero, new_state,
}
use ai_financial_copilot.Agent.State.Coverage.{record_spend-cost}
use ai_financial_copilot.Agent.Loop.{TurnFacts}
use ai_financial_copilot.Agent.Loop.Search.{mint}
use ai_financial_copilot.Agent.Loop.Report.{apply_parsed, searched}
use ai_financial_copilot.Agent.Loop.Turn.{decide, dispatch, tool_names}
use ai_financial_copilot.Agent.Loop.Run.{iterate, iterate_from, start_state}
use ai_financial_copilot.Agent.Loop.Minting.{IsMinted, IsMint, mint-IsMint}
use ai_financial_copilot.Agent.Loop.Decision.{Decision, decide-Decision}
use ai_financial_copilot.Agent.Loop.Final.{EndsAsFound, iterate_from-EndsAsFound}
use ai_financial_copilot.Agent.Loop.Results.{IsAnswered, dispatch-IsAnswered}
use ai_financial_copilot.Agent.Loop.Refused.{
  AllNegative, apply_parsed-unsearched, apply_parsed-unplanned,
}
use ai_financial_copilot.Agent.Loop.Invariant.Runs.{IsGoodEnd, iterate-IsGood}

abbrev shape : ShapeConfig
shape = shape_config (some "extraction") sample_settings

abbrev messages : Transcript
messages = plain_message user "How much did revenue grow?" ∷ []

abbrev state : AgentRunState
state = start_state shape sample_settings messages ("Acme" ∷ "Beta" ∷ []) 180

abbrev facts : TurnFacts
facts = record { searches = 1; backend_failures = 0; new_labels = 2; closed = [] }

iterate-IsGood_example : IsGoodEnd sample_deps (
    iterate sample_deps shape
      (start_state shape sample_settings messages ("Acme" ∷ "Beta" ∷ []) 180))
iterate-IsGood_example =
    iterate-IsGood sample_deps shape sample_settings messages ("Acme" ∷ "Beta" ∷ []) 180

abbrev last_state : AgentRunState
last_state = record state { max_iterations = 3 }

iterate_from-EndsAsFound_example :
    EndsAsFound last_state (iterate_from sample_deps shape 1 2 last_state)
iterate_from-EndsAsFound_example = iterate_from-EndsAsFound sample_deps shape 2 last_state refl

dispatch-IsAnswered_example :
    IsAnswered sample_deps shape tool_names
      (turn_of (report_call ∷ search_call ∷ []))
      state
      (dispatch sample_deps shape tool_names
        (turn_of (report_call ∷ search_call ∷ []))
        state).1.transcript
dispatch-IsAnswered_example =
    dispatch-IsAnswered sample_deps shape tool_names (turn_of (report_call ∷ search_call ∷ []))
      state

decide-Decision_example : Decision state facts (decide state facts)
decide-Decision_example = decide-Decision state facts

no_plan-IsMinted : IsMinted []
unfolding has
no_plan-IsMinted k e = ground arith

mint-IsMint_example : IsMint 2 [] (mint plain_texts [] (some "Why did margins fall?") 2)
mint-IsMint_example = mint-IsMint plain_texts [] (some "Why did margins fall?") 2 no_plan-IsMinted

-- two entities to cover, none of them searched
abbrev planned_state : AgentRunState
planned_state = record (new_state sample_settings 5 messages) {
  plan = ("Acme", "Acme") ∷ ("Beta", "Beta") ∷ [];
}

Beta-unsearched : searched planned_state "Beta" ≡ false
unfolding searched get new_state
Beta-unsearched = refl

Beta-AllNegative : AllNegative "Beta" sample_report.findings
Beta-AllNegative = (
  (λ e. ground (arith, ==_iff {K = String} "Acme" "Beta")),
  ((λ e. ground (arith, ==_iff {K = String} "Other" "Beta")), ((λ e. refl), tt)),
)

apply_parsed-unsearched_example :
    get "Beta" (apply_parsed sample_deps sample_report planned_state).2.findings.entries
    ≡ get "Beta" planned_state.findings.entries
apply_parsed-unsearched_example =
    apply_parsed-unsearched sample_deps sample_report planned_state "Beta" Beta-unsearched
      Beta-AllNegative

Other-unplanned : has "Other" planned_state.plan ≡ false
unfolding has
Other-unplanned = refl

apply_parsed-unplanned_example :
    get "Other" (apply_parsed sample_deps sample_report planned_state).2.findings.entries
    ≡ get "Other" planned_state.findings.entries
apply_parsed-unplanned_example =
    apply_parsed-unplanned sample_deps sample_report planned_state "Other" Other-unplanned

record_spend-cost_example :
    cost_usd_total (record_spend "gpt-5-mini" (some sample_stats) state)
    ≡ cost_usd_total state + or_zero sample_stats.cost_usd
record_spend-cost_example = record_spend-cost "gpt-5-mini" sample_stats state
