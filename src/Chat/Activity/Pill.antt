-- ===== src/Chat/Activity/Pill.antt =====
-- src/services/chat/activity.py: the pill that closes a request on the timeline, and its lines.
use Prim.Native.String.{String, ◌++◌}
use mathlib.Core.List.{List, [], ◌∷◌}
use ai_financial_copilot.Common.{
  ℕ, suc, Bool, true, false, ◌||◌, not, Option, none, some, length, is_empty, is_some, concat,
  if◌then◌else◌, string_eq, ◌==◌,
}
use ai_financial_copilot.Common.Dict.{Dict}
use ai_financial_copilot.Common.Decimal.{show}
use ai_financial_copilot.Common.Text.{join}
use ai_financial_copilot.Schemas.Routing.{DocumentScopeResult}
use ai_financial_copilot.Agent.State.{
  AgentLoopMeta, natural, convergence, iteration_cap, budget_cap, timeout, covered,
  search_unavailable, deadline, llm_error, truncated,
}
use ai_financial_copilot.Chat.Activity.{
  ActivityStatus, ok, warn, fail, skipped, is_warn_stop, is_unavailable, count, per_entity,
  names_with, where_searched, capabilities, searches_of,
}

pub record Outcome : Type 0 where
  pub status : ActivityStatus
  pub text : String
  pub lines : List String
  pub hidden : Bool

abbrev pub outcome : ActivityStatus → String → Outcome
outcome status text = record { status = status; text = text; lines = []; hidden = false }

pub data ExitPath : Type 0 where
  agent direct clarification too_broad out_of_scope blocked error : ExitPath

pub data SynthesisFallback : Type 0 where
  no_findings no_citations : SynthesisFallback

pub record OutcomeInputs : Type 0 where
  pub exit_path : ExitPath
  pub scope : Option DocumentScopeResult
  pub query_shape : Option String
  pub meta : Option AgentLoopMeta
  pub unresolved : List String
  pub synthesis_fallback : Option SynthesisFallback
  pub carried_outcome : Option String
  pub too_broad_count : Option ℕ
  pub max_companies : Option ℕ

-- `stop_text`, over `_STOP_TEXT`
abbrev pub stop_text : AgentLoopMeta → String
stop_text meta = elim meta.convergence_reason [
  | natural ↦
      if meta.sealed then "finished" else "the search model stopped before covering everything"
  | convergence ↦ "recent searches found nothing new"
  | iteration_cap ↦ "reached the search limit"
  | budget_cap ↦ "reached the cost limit"
  | timeout ↦ "the search model took too long"
  | covered ↦ "everything planned was covered"
  | search_unavailable ↦ "document search was unavailable"
  | deadline ↦ "ran out of time"
  | llm_error ↦ "the search model failed"
  | truncated ↦ "the search model's reply was cut off"
]

-- `_FALLBACK_PILL`
abbrev pub fallback_pill : SynthesisFallback → String
fallback_pill no_findings = "no findings recorded, answered from excerpts"
fallback_pill no_citations = "no finding cited an excerpt, answered from excerpts"

-- `_FALLBACK_LINE`
abbrev pub fallback_line : SynthesisFallback → String
fallback_line no_findings =
    "No findings were recorded; the answer is drawn directly from retrieved excerpts."
fallback_line no_citations =
    "No finding cited an excerpt; the answer is drawn directly from retrieved excerpts."

-- `_CARRIED`, with its default
abbrev pub carried : String → Outcome
carried key =
    if key == "carried"
    then outcome ok "Reused findings from your previous question"
    else if key == "dropped_scope"
    then outcome warn "Earlier findings don't match the current scope — answered without documents"
    else if key == "dropped_hop_cap"
    then outcome warn "Earlier findings too far back to reuse — answered without documents"
    else outcome ok "Answered without searching documents"

abbrev text_or_empty : Option String → String
text_or_empty none = ""
text_or_empty (some s) = s

-- str() of a number that may be missing
abbrev show_option : Option ℕ → String
show_option none = "None"
show_option (some n) = show n

abbrev entities_of : Option DocumentScopeResult → Dict String (List ℕ)
entities_of none = []
entities_of (some scope) = per_entity scope

-- the names in the scope that have no documents
abbrev pub missing : OutcomeInputs → List String
missing inputs = names_with false (entities_of inputs.scope)

abbrev missing_text : List String → String
missing_text [] = show 0 ++ " companies"
missing_text (a ∷ []) = a
missing_text (a ∷ b ∷ names) = show (suc (suc (length names))) ++ " companies"

abbrev names_companies : Option String → Bool
names_companies none = false
names_companies (some shape) = shape == "extraction" || shape == "comparison"

abbrev pub names_missing : OutcomeInputs → Bool
names_missing inputs =
    if is_empty (missing inputs) then false else names_companies inputs.query_shape

abbrev line_if : Bool → String → List String
line_if true s = s ∷ []
line_if false s = []

abbrev fallback_lines : Option SynthesisFallback → List String
fallback_lines none = []
fallback_lines (some f) = fallback_line f ∷ []

abbrev pub lines_of : OutcomeInputs → AgentLoopMeta → List String
lines_of inputs meta = concat (
    (("Stopped: " ++ stop_text meta) ∷ inputs.unresolved)
    ∷ line_if (if is_empty (missing inputs) then false else not (names_missing inputs))
        ("Not in your documents: " ++ join ", " (missing inputs))
    ∷ line_if (not (is_empty meta.degraded_capabilities)) (
        "Some searches ran without "
        ++ capabilities meta.degraded_capabilities
        ++ "; results may be less relevant.")
    ∷ fallback_lines inputs.synthesis_fallback
    ∷ [])

abbrev pub warns : OutcomeInputs → AgentLoopMeta → Bool
warns inputs meta =
    not meta.sealed
    || not (is_empty (missing inputs))
    || is_warn_stop meta.convergence_reason
    || not (is_empty meta.degraded_capabilities)
    || is_some inputs.synthesis_fallback

abbrev missing_pill : OutcomeInputs → String
missing_pill inputs =
    let entities = entities_of inputs.scope in
    "Searched "
    ++ show (length (names_with true entities))
    ++ " of "
    ++ show (length entities)
    ++ " companies — "
    ++ missing_text (missing inputs)
    ++ " not in your documents"

abbrev searched : OutcomeInputs → String
searched inputs = "Searched " ++ where_searched inputs.scope

-- below the fallback of the synthesis
abbrev pub plain_pill : OutcomeInputs → AgentLoopMeta → ActivityStatus × String
plain_pill inputs meta =
    if not meta.sealed
    then (warn, "Stopped early: " ++ stop_text meta)
    else if not (is_empty meta.degraded_capabilities)
    then (
      warn,
      searched inputs
          ++ " · partial search ("
          ++ capabilities meta.degraded_capabilities
          ++ " unavailable)",
    )
    else (
      (if warns inputs meta then warn else ok),
      searched inputs ++ " · " ++ count (searches_of meta) "search" "searches",
    )

abbrev pub fallback_or_plain :
    OutcomeInputs → AgentLoopMeta → Option SynthesisFallback → ActivityStatus × String
fallback_or_plain inputs meta none = plain_pill inputs meta
fallback_or_plain inputs meta (some f) = (warn, searched inputs ++ " · " ++ fallback_pill f)

abbrev pub pill : OutcomeInputs → AgentLoopMeta → ActivityStatus × String
pill inputs meta =
    if is_unavailable meta.convergence_reason
    then (fail, "Document search unavailable — answer not grounded")
    else if names_missing inputs
    then (warn, missing_pill inputs)
    else if is_warn_stop meta.convergence_reason
    then (warn, "Stopped early: " ++ stop_text meta)
    else fallback_or_plain inputs meta inputs.synthesis_fallback

-- `_agent_outcome`
unfoldable pub agent_outcome : OutcomeInputs → AgentLoopMeta → Outcome
agent_outcome inputs meta =
    let (status, text) = pill inputs meta in
    record { status = status; text = text; lines = lines_of inputs meta; hidden = false }

abbrev searched_or_carried : OutcomeInputs → Option AgentLoopMeta → Outcome
searched_or_carried inputs none = carried (text_or_empty inputs.carried_outcome)
searched_or_carried inputs (some meta) = agent_outcome inputs meta

-- `build_outcome`
unfoldable pub build_outcome : OutcomeInputs → Outcome
build_outcome inputs = elim inputs.exit_path [
  | error ↦ outcome fail "Something went wrong"
  | blocked ↦ outcome fail "Request blocked by the safety check"
  | out_of_scope ↦ outcome skipped "Not answered: outside what this assistant covers"
  | clarification ↦ record (outcome ok "") { hidden = true }
  | too_broad ↦ outcome skipped (
      "Not run: the question covers "
      ++ show_option inputs.too_broad_count
      ++ " companies; up to "
      ++ show_option inputs.max_companies
      ++ " per question")
  | direct ↦ searched_or_carried inputs none
  | agent ↦ searched_or_carried inputs inputs.meta
]
