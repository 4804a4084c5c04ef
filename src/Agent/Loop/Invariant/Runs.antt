-- ===== src/Agent/Loop/Invariant/Runs.antt =====
-- Whole turns and runs keep the invariant.
use ai_financial_copilot.Common.{
  ℕ, zero, suc, ◌+◌, ap, ◌∙◌, ◌&&◌, List, [], Option, none, some, String, string_eq, arith,
  if-cases, nat_eq,
}
use ai_financial_copilot.Common.Dict.{get, has}
use ai_financial_copilot.Llm.Messages.{AssistantTurnResult}
use ai_financial_copilot.Agent.State.{AgentRunState, ShapeConfig}
use ai_financial_copilot.Agent.Loop.{RunDeps}
use ai_financial_copilot.Agent.Loop.Search.{search_keys}
use ai_financial_copilot.Agent.Loop.Report.{fold_report_calls, fold_reports}
use ai_financial_copilot.Llm.Messages.{LlmResponseStats}
use ai_financial_copilot.Agent.State.{
  AgentSettings, spend_within_budget, record_spend, addressed, llm_error, new_state,
}
use ai_financial_copilot.Agent.Evidence.{chunk_total}
use ai_financial_copilot.Agent.Evidence.History.{empty-IsShown}
use ai_financial_copilot.Agent.Transcript.{Transcript}
use ai_financial_copilot.Common.Int.{pos, ltb_ℤ}
use ai_financial_copilot.Common.{nat_beq, ltb, not, is_empty}
use ai_financial_copilot.Agent.Loop.{TurnOutcome, TurnFacts, continue, stop}
use ai_financial_copilot.Agent.Loop.Run.{
  RunEnd, done, failed, on_error, on_outcome, on_called, at_iteration, run_turn, iterate_from,
  iterate, start_state, stop_for,
}
use ai_financial_copilot.Agent.Loop.Turn.{
  decide, take_turn, offered_of, is_covered, is_progress, within_budget, spend_stats,
  record_turn_spend, add_status, call_budget, Called, served, raised_timeout, raised_error,
  dispatch, begin_calls, searches_of, reports_of, refuse_calls, with_results,
}
use ai_financial_copilot.Agent.Loop.Invariant.{
  IsGoodState, IsKeyed-good, search_keys-IsKeyed, search_keys-planned, AllPlanned-nil,
}
use ai_financial_copilot.Agent.Loop.Invariant.Reports.{
  fold_report_calls-IsGood, fold_report_calls-plan,
}
use ai_financial_copilot.Agent.Loop.Invariant.Searches.{fold_searches-IsGood}

module _ (deps : RunDeps) where
  open deps use {assembly}

  -- The calls of a turn, whatever they are and whatever the searches return, keep the invariant.
  pub dispatch-IsGood :
      (shape : ShapeConfig) (offered : List String) (turn : AssistantTurnResult) (s : AgentRunState)
      → IsGoodState deps s
      → IsGoodState deps (dispatch deps shape offered turn s).1
  unfolding dispatch fold_reports begin_calls
  dispatch-IsGood shape offered turn s h =
      let searches = searches_of offered turn in
      let s0 = begin_calls turn s in
      let (ks, s1) = search_keys deps searches shape s0 [] in
      let texts = refuse_calls deps offered turn.tool_calls [] in
      let (texts1, s2) = fold_report_calls deps (reports_of turn) s1 texts in
      let good1 : IsGoodState deps s1 =
        IsKeyed-good deps s0 s1 (search_keys-IsKeyed deps searches shape s0 [])
          (record { sound = h.sound; grounded = h.grounded; planned = h.planned }) in
      let good3 =
        fold_searches-IsGood deps (with_results deps searches s2.iteration) ks s2 texts1
          (λ id k e.
            ap (has k) (fold_report_calls-plan deps (reports_of turn) s1 texts)
            ∙ search_keys-planned deps searches shape s0 [] (AllPlanned-nil deps s0.plan) id k e)
          (fold_report_calls-IsGood deps (reports_of turn) s1 texts good1) in
      record { sound = good3.sound; grounded = good3.grounded; planned = good3.planned }

  abbrev Good : TurnOutcome × AgentRunState → Type 0
  Good r = IsGoodState deps r.1

  within_budget-IsGood : (s : AgentRunState) → IsGoodState deps s → Good (within_budget s)
  within_budget-IsGood s h = if-cases Good (spend_within_budget s) _ _ (λ _. h) (λ _. h)

  decide-IsGood :
      (s : AgentRunState) (facts : TurnFacts)
      → IsGoodState deps s
      → IsGoodState deps (decide s facts).1
  unfolding decide
  decide-IsGood s facts h =
      if-cases Good (is_covered s && nat_beq facts.new_labels 0) _ _
        (λ _. record { sound = h.sound; grounded = h.grounded; planned = h.planned })
        (λ _.
          if-cases Good
            (not (nat_beq facts.searches 0) && nat_beq facts.backend_failures facts.searches) _ _
            (λ _. h)
            (λ _.
              if-cases Good (is_progress facts) _ _
                (λ _.
                  within_budget-IsGood _
                    (record { sound = h.sound; grounded = h.grounded; planned = h.planned }))
                (λ _.
                  if-cases Good (ltb s.settings.max_empty_rounds (s.empty_rounds + 1)) _ _
                    (λ _. record { sound = h.sound; grounded = h.grounded; planned = h.planned })
                    (λ _.
                      within_budget-IsGood _
                        (record { sound = h.sound; grounded = h.grounded; planned = h.planned })))))

  take_turn-IsGood :
      (shape : ShapeConfig) (allowed : Option (List String)) (turn : AssistantTurnResult)
      (s : AgentRunState)
      → IsGoodState deps s
      → IsGoodState deps (take_turn deps shape allowed turn s).1
  unfolding take_turn
  take_turn-IsGood shape allowed turn s h =
      if-cases (λ (r : TurnOutcome × AgentRunState). IsGoodState deps r.1)
        (is_empty turn.tool_calls) _ _
        (λ _.
          if-cases (λ (r : TurnOutcome × AgentRunState). IsGoodState deps r.1) (is_covered s) _ _
            (λ _. record { sound = h.sound; grounded = h.grounded; planned = h.planned }) (λ _. h))
        (λ _. decide-IsGood _ _ (dispatch-IsGood shape (offered_of allowed) turn s h))

  -- what a run serves is good
  abbrev pub IsGoodEnd : RunEnd → Type 0
  IsGoodEnd (done s) = IsGoodState deps s
  IsGoodEnd failed = Unit

  on_error-IsGood : (s : AgentRunState) → IsGoodState deps s → IsGoodEnd (on_error s)
  on_error-IsGood s h =
      if-cases IsGoodEnd (nat_beq (chunk_total s.evidence) 0 && is_empty (addressed s)) failed
        (done (stop_for llm_error s)) (λ _. tt)
        (λ _. record { sound = h.sound; grounded = h.grounded; planned = h.planned })

  on_outcome-IsGood :
      (rest : AgentRunState → RunEnd) (r : TurnOutcome × AgentRunState)
      → ((t : AgentRunState) → IsGoodState deps t → IsGoodEnd (rest t))
      → Good r
      → IsGoodEnd (on_outcome rest r)
  on_outcome-IsGood rest (continue, s) go h = go s h
  on_outcome-IsGood rest (stop reason, s) go h = record {
    sound = h.sound;
    grounded = h.grounded;
    planned = h.planned;
  }

  spend_stats-IsGood :
      (model : String) (stats : Option LlmResponseStats) (s : AgentRunState)
      → IsGoodState deps s
      → IsGoodState deps (spend_stats model stats s)
  unfolding record_spend
  spend_stats-IsGood model none s h = h
  spend_stats-IsGood model (some stats) s h = record {
    sound = h.sound;
    grounded = h.grounded;
    planned = h.planned;
  }

  record_turn_spend-IsGood :
      (model : String) (turn : AssistantTurnResult) (s : AgentRunState)
      → IsGoodState deps s
      → IsGoodState deps (record_turn_spend model turn s)
  unfolding record_turn_spend
  record_turn_spend-IsGood model turn s h = spend_stats-IsGood model turn.stats s h

  on_called-IsGood :
      (shape : ShapeConfig) (rest : AgentRunState → RunEnd) (allowed : Option (List String))
      (s : AgentRunState) (called : Called)
      → ((t : AgentRunState) → IsGoodState deps t → IsGoodEnd (rest t))
      → IsGoodState deps s
      → IsGoodEnd (on_called deps shape rest allowed s called)
  on_called-IsGood shape rest allowed s (served model turn) go h =
      on_outcome-IsGood rest (take_turn deps shape allowed turn (record_turn_spend model turn s)) go
        (take_turn-IsGood shape allowed turn (record_turn_spend model turn s)
          (record_turn_spend-IsGood model turn s h))
  on_called-IsGood shape rest allowed s raised_timeout go h = record {
    sound = h.sound;
    grounded = h.grounded;
    planned = h.planned;
  }
  on_called-IsGood shape rest allowed s raised_error go h = on_error-IsGood s h

  iterate_from-IsGood :
      (shape : ShapeConfig) (left iteration : ℕ) (s : AgentRunState)
      → IsGoodState deps s
      → IsGoodEnd (iterate_from deps shape left iteration s)
  unfolding iterate_from run_turn add_status
  iterate_from-IsGood shape zero iteration s h = h
  iterate_from-IsGood shape (suc left) iteration s h =
      if-cases IsGoodEnd
        (ltb_ℤ (pos 0) (call_budget (deps.now iteration) (at_iteration iteration s))) _ _
        (λ _.
          on_called-IsGood shape (iterate_from deps shape left (iteration + 1)) _ _ _
            (iterate_from-IsGood shape left (iteration + 1))
            (record { sound = h.sound; grounded = h.grounded; planned = h.planned }))
        (λ _. record { sound = h.sound; grounded = h.grounded; planned = h.planned })

  start_state-IsGood :
      (shape : ShapeConfig) (settings : AgentSettings) (messages : Transcript)
      (entities : List String) (deadline_at : ℕ)
      → IsGoodState deps (start_state shape settings messages entities deadline_at)
  unfolding start_state new_state get has
  start_state-IsGood shape settings messages entities deadline_at = record {
    sound = empty-IsShown.sound;
    grounded = λ k f e. ground arith;
    planned = λ k e. ground arith;
  }

  -- Whatever the models answer, the searches return and the clock says, a run ends, and unless it
  -- ends with the provider error, in a state whose labels are sound, whose positive findings each
  -- cite a chunk of the evidence, and whose findings stand under keys of the plan.
  pub iterate-IsGood :
      (shape : ShapeConfig) (settings : AgentSettings) (messages : Transcript)
      (entities : List String) (deadline_at : ℕ)
      → IsGoodEnd (iterate deps shape (start_state shape settings messages entities deadline_at))
  unfolding iterate
  iterate-IsGood shape settings messages entities deadline_at =
      let s = start_state shape settings messages entities deadline_at in
      iterate_from-IsGood shape s.max_iterations 0 s
        (start_state-IsGood shape settings messages entities deadline_at)
