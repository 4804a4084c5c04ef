-- ===== src/Agent/Loop/Run.antt =====
-- The run of src/services/chat/agent/loop.py: turns until one stops, the iteration cap or the
-- deadline, and what `run_loop` serves. A cancellation in the middle of a turn is left out.
use ai_financial_copilot.Common.{
  ℕ, zero, suc, ◌+◌, ◌&&◌, not, List, [], ◌∷◌, Option, none, some, String, if◌then◌else◌, nat_beq,
  is_empty, string_eq,
}
use ai_financial_copilot.Common.Sort.{sorted}
use ai_financial_copilot.Common.Text.{text_leb}
use ai_financial_copilot.Common.Dict.{Dict, put}
use ai_financial_copilot.Common.Int.{pos, ltb_ℤ}
use ai_financial_copilot.Schemas.Findings.{AgentFindings}
use ai_financial_copilot.Agent.Evidence.{EvidenceLedger, chunk_total}
use ai_financial_copilot.Agent.Findings.{projection}
use ai_financial_copilot.Agent.Transcript.{Transcript}
use ai_financial_copilot.Agent.State.{
  AgentRunState, AgentSettings, ShapeConfig, AgentLoopMeta, ConvergenceReason, timeout, deadline,
  llm_error, new_state, sealed, unresolved_lines, build_meta, addressed,
}
use ai_financial_copilot.Agent.Loop.{RunDeps, TurnOutcome, continue, stop}
use ai_financial_copilot.Agent.Loop.Turn.{
  Called, served, raised_timeout, raised_error, report_tool_name, call_budget, call_tool_model,
  record_turn_spend, take_turn, add_status,
}

-- How a run ends: with a state to serve, or with the last provider error.
pub data RunEnd : Type 0 where
  done : AgentRunState → RunEnd
  failed : RunEnd

abbrev pub stop_for : ConvergenceReason → AgentRunState → AgentRunState
stop_for reason s = record s { convergence_reason = reason }

abbrev pub allowed_at : ℕ → ℕ → Option (List String)
allowed_at iteration max_iterations =
    if nat_beq (iteration + 1) max_iterations then some (report_tool_name ∷ []) else none

abbrev pub at_iteration : ℕ → AgentRunState → AgentRunState
at_iteration iteration s = record s { iteration = iteration }

-- a provider error of the whole chain: what was gathered is served, nothing is not
abbrev pub on_error : AgentRunState → RunEnd
on_error s =
    if nat_beq (chunk_total s.evidence) 0 && is_empty (addressed s)
    then failed
    else done (stop_for llm_error s)

-- the rest of the run, after an outcome
abbrev pub on_outcome : (AgentRunState → RunEnd) → TurnOutcome × AgentRunState → RunEnd
on_outcome rest (continue, s) = rest s
on_outcome rest (stop reason, s) = done (stop_for reason s)

module _ (deps : RunDeps) (shape : ShapeConfig) where
  open deps use {now}

  -- `_run_turn`, with the handlers of `_iterate` around it
  abbrev pub on_called :
      (AgentRunState → RunEnd) → Option (List String) → AgentRunState → Called → RunEnd
  on_called rest allowed s (served model turn) =
      on_outcome rest (take_turn deps shape allowed turn (record_turn_spend model turn s))
  on_called rest allowed s raised_timeout = done (stop_for timeout s)
  on_called rest allowed s raised_error = on_error s

  unfoldable pub run_turn : (AgentRunState → RunEnd) → Option (List String) → AgentRunState → RunEnd
  run_turn rest allowed s =
      let s1 = add_status s in
      on_called rest allowed s1 (call_tool_model deps s1.transcript allowed s1.iteration)

  -- `_iterate`, with that many iterations left
  unfoldable pub iterate_from : ℕ → ℕ → AgentRunState → RunEnd
  iterate_from zero iteration s = done s
  iterate_from (suc left) iteration s =
      let s1 = at_iteration iteration s in
      if ltb_ℤ (pos 0) (call_budget (now iteration) s1)
      then run_turn (iterate_from left (iteration + 1)) (allowed_at iteration s1.max_iterations) s1
      else done (stop_for deadline s1)

  -- `_iterate`
  unfoldable pub iterate : AgentRunState → RunEnd
  iterate s = iterate_from s.max_iterations 0 s

abbrev pub seed_names : List String → Dict String String → Dict String String
seed_names [] plan = plan
seed_names (name ∷ names) plan = seed_names names (put name name plan)

-- the state that a run starts from; `entities` are the names of the scope
unfoldable pub start_state :
    ShapeConfig → AgentSettings → Transcript → List String → ℕ → AgentRunState
start_state shape settings messages entities deadline_at =
    record (new_state settings shape.max_iterations messages) {
      plan = if shape.seed_plan_from_entities then seed_names (sorted text_leb entities) [] else [];
      deadline_at = some deadline_at;
    }

-- what a run that ends without an error serves
unfoldable pub served_of :
    ShapeConfig → AgentRunState → EvidenceLedger × Option AgentFindings × AgentLoopMeta
served_of shape s = (
  s.evidence,
  projection (not (sealed s)) (unresolved_lines s) s.findings,
  build_meta s (s.iteration + 1) (some shape.prompt),
)

abbrev serve : ShapeConfig → RunEnd → Option (EvidenceLedger × Option AgentFindings × AgentLoopMeta)
serve shape (done s) = some (served_of shape s)
serve shape failed = none

-- `run_loop`, from its prompt on; `none` is the provider error that propagates
unfoldable pub run_loop :
    RunDeps
    → ShapeConfig
    → AgentSettings
    → Transcript
    → List String
    → ℕ
    → Option (EvidenceLedger × Option AgentFindings × AgentLoopMeta)
run_loop deps shape settings messages entities deadline_at =
    serve shape (iterate deps shape (start_state shape settings messages entities deadline_at))
