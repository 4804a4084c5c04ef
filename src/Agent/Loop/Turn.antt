-- ===== src/Agent/Loop/Turn.antt =====
-- One turn of src/services/chat/agent/loop.py: the call of a model, the dispatch of its tool calls, the
-- fold of what they did, one tool result for each call, and the decision to go on.
use Prim.Native.String.{◌++◌ as ◌+++◌}
use ai_financial_copilot.Common.{
  ℕ, ◌+◌, Bool, true, false, ◌&&◌, ◌||◌, not, List, [], ◌∷◌, ◌++◌, Option, none, some, String,
  length, if◌then◌else◌, nat_beq, ltb, string_eq, is_empty, map, elem, dedup, filter_by, ◌==◌,
}
use ai_financial_copilot.Common.Text.{join, text_leb}
use ai_financial_copilot.Common.Sort.{sorted}
use ai_financial_copilot.Common.Dict.{Dict, get, put}
use ai_financial_copilot.Common.Int.{ℤ, pos, sub_ℕ, ltb_ℤ}
use ai_financial_copilot.Llm.Messages.{
  tool, ToolCallRef, ChatMessage, AssistantTurnResult, LlmResponseStats,
}
use ai_financial_copilot.Agent.Transcript.{Transcript, with_status, append_turn, append_message}
use ai_financial_copilot.Agent.State.{
  AgentRunState, ShapeConfig, natural, convergence, budget_cap, covered, truncated,
  search_unavailable, addressed, open_aspects, spend_within_budget, record_spend, render_status,
  or_zero,
}
use ai_financial_copilot.Agent.Loop.{
  RunDeps, SearchResult, Attempt, answered, call_timeout, call_error, TurnOutcome, continue, stop,
  TurnFacts,
}
use ai_financial_copilot.Agent.Loop.Search.{guarded_search, search_keys, fold_searches}
use ai_financial_copilot.Agent.Loop.Report.{fold_reports}

abbrev pub report_tool_name : String
report_tool_name = "report_findings"

abbrev pub search_tool_name : String
search_tool_name = "search_documents"

-- the names of `ShapeConfig.tools`: those of both shapes
abbrev pub tool_names : List String
tool_names = search_tool_name ∷ report_tool_name ∷ []

-- every key of the plan holds a finding
abbrev pub is_covered : AgentRunState → Bool
is_covered s = not (is_empty s.plan) && is_empty (open_aspects s)

abbrev pub within_budget : AgentRunState → TurnOutcome × AgentRunState
within_budget s = if spend_within_budget s then (continue, s) else (stop budget_cap, s)

abbrev pub is_progress : TurnFacts → Bool
is_progress facts = not (nat_beq facts.new_labels 0) || not (is_empty facts.closed)

abbrev stalled : AgentRunState → TurnOutcome × AgentRunState
stalled s =
    if ltb s.settings.max_empty_rounds s.empty_rounds
    then (stop convergence, s)
    else within_budget s

-- `decide`
unfoldable pub decide : AgentRunState → TurnFacts → TurnOutcome × AgentRunState
decide s facts =
    if is_covered s && nat_beq facts.new_labels 0
    then (stop covered, record s { sealed_by_coverage = true })
    else if not (nat_beq facts.searches 0) && nat_beq facts.backend_failures facts.searches
    then (stop search_unavailable, s)
    else if is_progress facts
    then within_budget (record s { empty_rounds = 0 })
    else stalled (record s { empty_rounds = s.empty_rounds + 1 })

abbrev min_ℤ : ℤ → ℤ → ℤ
min_ℤ a b = if ltb_ℤ b a then b else a

abbrev budget_at : ℕ → AgentRunState → Option ℕ → ℤ
budget_at now s none = pos s.settings.turn_timeout_cap_seconds
budget_at now s (some deadline_at) =
    min_ℤ (pos s.settings.turn_timeout_cap_seconds)
      (sub_ℕ deadline_at (now + s.settings.deadline_reserve_seconds))

-- `_call_budget`, at a time
unfoldable pub call_budget : ℕ → AgentRunState → ℤ
call_budget now s = budget_at now s s.deadline_at

-- `_turn_kind`
abbrev kind_of : List String → String
kind_of [] = "none"
kind_of (n ∷ names) =
    if not (elem report_tool_name (n ∷ names))
    then "search"
    else if is_empty names
    then "report"
    else "mixed"

abbrev kind_of_turn : Option AssistantTurnResult → String
kind_of_turn none = "unknown"
kind_of_turn (some turn) = kind_of (dedup (map (λ tc. tc.name) turn.tool_calls))

unfoldable pub turn_kind : Option (List String) → Option AssistantTurnResult → String
turn_kind (some allowed) turn = "final"
turn_kind none turn = kind_of_turn turn

-- How the call of the chain ends: a model serves, a timeout is raised, or the last error is.
pub data Called : Type 0 where
  served : String → AssistantTurnResult → Called
  raised_timeout raised_error : Called

abbrev pub spend_stats : String → Option LlmResponseStats → AgentRunState → AgentRunState
spend_stats model none s = s
spend_stats model (some stats) s = record (record_spend model (some stats) s) {
  last_turn_input_tokens = or_zero stats.input_tokens;
}

-- the state that `_record_turn_spend` writes
unfoldable pub record_turn_spend : String → AssistantTurnResult → AgentRunState → AgentRunState
record_turn_spend model turn s = spend_stats model turn.stats s

-- `offered`, of the names allowed; an empty list of them stands for all
abbrev pub offered_of : Option (List String) → List String
offered_of none = tool_names
offered_of (some []) = tool_names
offered_of (some (n ∷ names)) = n ∷ names

abbrev pub reports_of : AssistantTurnResult → List ToolCallRef
reports_of turn = filter_by (λ tc. tc.name == report_tool_name) turn.tool_calls

abbrev pub searches_of : List String → AssistantTurnResult → List ToolCallRef
searches_of offered turn =
    filter_by (λ tc. elem tc.name offered && not (tc.name == report_tool_name)) turn.tool_calls

abbrev text_or_none : Option String → String
text_or_none none = "(no result)"
text_or_none (some text) = text

abbrev pub tool_result : Dict String String → ToolCallRef → ChatMessage
tool_result texts tc = record {
  role = tool;
  content = some (text_or_none (get tc.id texts));
  tool_call_id = some tc.id;
  tool_calls = [];
  opaque = [];
}

-- one tool message for each call, in the order of the calls
unfoldable pub append_results : Dict String String → List ToolCallRef → Transcript → Transcript
append_results texts [] t = t
append_results texts (tc ∷ tcs) t =
    append_results texts tcs (append_message (tool_result texts tc) t)

-- The state after the turn's message is appended and its calls are counted.
unfoldable pub begin_calls : AssistantTurnResult → AgentRunState → AgentRunState
begin_calls turn s = record s {
  transcript = append_turn turn s.transcript;
  tool_calls_total = s.tool_calls_total + length turn.tool_calls;
}

abbrev failures : List (ToolCallRef × SearchResult) → ℕ
failures [] = 0
failures ((tc, result) ∷ results) =
    if result.backend_failed then failures results + 1 else failures results

abbrev sum : List ℕ → ℕ
sum [] = 0
sum (n ∷ ns) = n + sum ns

abbrev without : List String → List String → List String
without xs ys = filter_by (λ x. not (elem x ys)) xs

abbrev is_length : Option String → Bool
is_length none = false
is_length (some reason) = reason == "length"

-- a turn without a tool call
abbrev pub end_without_call : AssistantTurnResult → AgentRunState → TurnOutcome × AgentRunState
end_without_call turn s =
    if is_covered s
    then (stop covered, record s { sealed_by_coverage = true })
    else (stop (if is_length turn.finish_reason then truncated else natural), s)

-- `add_status`, of the status at the start of the turn
unfoldable pub add_status : AgentRunState → AgentRunState
add_status s = record s { transcript = with_status s.transcript (render_status s) }

module _ (deps : RunDeps) where
  open deps use {assembly, complete, llm, fallbacks}

  -- what follows an attempt: a provider error goes on to the rest of the chain
  abbrev pub after_attempt : String → Called → Attempt → Called
  after_attempt model rest (answered turn) = served model turn
  after_attempt model rest call_timeout = raised_timeout
  after_attempt model rest call_error = rest

  unfoldable pub call_chain : List String → List ChatMessage → Option (List String) → ℕ → Called
  call_chain [] messages allowed iteration = raised_error
  call_chain (model ∷ models) messages allowed iteration =
      after_attempt model (call_chain models messages allowed iteration)
        (complete model messages allowed iteration)

  -- `_call_tool_model`
  unfoldable pub call_tool_model : List ChatMessage → Option (List String) → ℕ → Called
  call_tool_model messages allowed iteration =
      call_chain (llm ∷ fallbacks) messages allowed iteration

  -- the results of the calls to tools that are not offered
  unfoldable pub refuse_calls :
      List String → List ToolCallRef → Dict String String → Dict String String
  refuse_calls offered [] texts = texts
  refuse_calls offered (tc ∷ tcs) texts = refuse_calls offered tcs (
      if elem tc.name offered
      then texts
      else put tc.id
          ("Tool "
            +++ deps.repr tc.name
            +++ " is not available. Available: "
            +++ join ", " (sorted text_leb offered)
            +++ ".")
          texts)

  abbrev pub with_results : List ToolCallRef → ℕ → List (ToolCallRef × SearchResult)
  with_results searches iteration = map (λ tc. (tc, guarded_search deps tc iteration)) searches

  -- What the calls of a turn do: the keys are minted, the reports are folded, the searches are folded,
  -- the results are appended. The outcome's facts are for `decide`.
  unfoldable pub dispatch :
      ShapeConfig → List String → AssistantTurnResult → AgentRunState → TurnFacts × AgentRunState
  dispatch shape offered turn s =
      let searches = searches_of offered turn in
      let (ks, s1) = search_keys deps searches shape (begin_calls turn s) [] in
      let (texts1, closed, s2) =
        fold_reports deps (reports_of turn) s1 (refuse_calls offered turn.tool_calls []) in
      let results = with_results searches s2.iteration in
      let (texts2, news, s3) = fold_searches deps results ks s2 texts1 in
      (
        record {
          searches = length searches;
          backend_failures = failures results;
          new_labels = sum news;
          closed = closed ++ without (addressed s3) (addressed s2);
        },
        record s3 { transcript = append_results texts2 turn.tool_calls s3.transcript },
      )

  -- a turn that a model has answered
  unfoldable pub take_turn :
      ShapeConfig
      → Option (List String)
      → AssistantTurnResult
      → AgentRunState
      → TurnOutcome × AgentRunState
  take_turn shape allowed turn s =
      let (facts, s') = dispatch shape (offered_of allowed) turn s in
      if is_empty turn.tool_calls then end_without_call turn s else decide s' facts
