-- ===== src/Agent/Loop/Final.antt =====
-- src/services/chat/agent/loop.py: the last iteration, which offers the report tool alone.
use ai_financial_copilot.Common.{
  ℕ, zero, sym, subst, ◌+◌, ◌≡◌, refl, ◌∙◌, ◌&&◌, not, List, [], ◌∷◌, Option, none, some, String,
  elem, filter_by, string_eq, ◌==◌, nat_beq, is_empty, if-cases, arith,
}
use ai_financial_copilot.Common.Int.{pos, ltb_ℤ}
use ai_financial_copilot.Common.Dict.{Dict}
use ai_financial_copilot.Schemas.Findings.{FindingsReport}
use ai_financial_copilot.Llm.Messages.{ToolCallRef, AssistantTurnResult, LlmResponseStats}
use ai_financial_copilot.Agent.Evidence.{chunk_total}
use ai_financial_copilot.Agent.State.{
  AgentRunState, ShapeConfig, llm_error, deadline, record_spend, addressed,
}
use ai_financial_copilot.Agent.Loop.{RunDeps, TurnOutcome, continue, stop, TurnFacts}
use ai_financial_copilot.Agent.Loop.Search.{search_keys, fold_searches}
use ai_financial_copilot.Agent.Loop.Report.{
  apply_parsed, apply_if_parsed, apply_report, count_report, fold_report_calls, fold_reports,
}
use ai_financial_copilot.Agent.Loop.Turn.{
  report_tool_name, reports_of, searches_of, refuse_calls, begin_calls, with_results, dispatch,
  take_turn, end_without_call, decide, is_covered, record_turn_spend, Called, served,
  raised_timeout, raised_error, add_status, call_tool_model, call_budget, spend_stats,
}
use ai_financial_copilot.Agent.Loop.Decision.{
  Decision, by_coverage, by_outage, by_stall, by_budget, to_go_on, decide-Decision,
}
use ai_financial_copilot.Agent.Loop.Run.{
  RunEnd, done, failed, stop_for, at_iteration, on_error, on_outcome, on_called, run_turn,
  iterate_from, allowed_at,
}

-- a state with the evidence and the plan of another
abbrev pub IsAsFound : AgentRunState → AgentRunState → Type 0
IsAsFound s t = (t.evidence ≡ s.evidence) × (t.plan ≡ s.plan)

IsAsFound-trans : (s t u : AgentRunState) → IsAsFound s t → IsAsFound t u → IsAsFound s u
IsAsFound-trans s t u h k = (k.0 ∙ h.0, k.1 ∙ h.1)

-- a run that ends, if not with a provider's error, in such a state
abbrev pub EndsAsFound : AgentRunState → RunEnd → Type 0
EndsAsFound s failed = Unit
EndsAsFound s (done t) = IsAsFound s t

reports_only :
    (tcs : List ToolCallRef)
    → filter_by
        (λ tc. elem tc.name (report_tool_name ∷ []) && not (tc.name == report_tool_name))
        tcs
      ≡ []
reports_only [] = refl
reports_only (tc ∷ tcs) = ground (arith, reports_only tcs)

Decision-IsAsFound :
    (s : AgentRunState) (facts : TurnFacts) {r : TurnOutcome × AgentRunState}
    → Decision s facts r
    → IsAsFound s r.1
Decision-IsAsFound s facts (by_coverage _ _) = (refl, refl)
Decision-IsAsFound s facts (by_outage _ _ _) = (refl, refl)
Decision-IsAsFound s facts (by_stall _ _ _ _) = (refl, refl)
Decision-IsAsFound s facts (by_budget _ _ _ _ _) = (refl, refl)
Decision-IsAsFound s facts (to_go_on _ _ _ _ _) = (refl, refl)

allowed_last :
    (iteration max_iterations : ℕ)
    → iteration + 1 ≡ max_iterations
    → allowed_at iteration max_iterations ≡ some (report_tool_name ∷ [])
allowed_last iteration max_iterations h =
    if-cases (λ a. a ≡ some (report_tool_name ∷ [])) (nat_beq (iteration + 1) max_iterations)
      (some (report_tool_name ∷ [])) none (λ _. refl) (λ e. absurd (ground (arith, e, h)))

module _ (deps : RunDeps) where
  apply_if_parsed-IsAsFound :
      (report : Option FindingsReport) (name : String) (s : AgentRunState)
      → IsAsFound s (apply_if_parsed deps report name s).2
  unfolding apply_parsed
  apply_if_parsed-IsAsFound none name s = (refl, refl)
  apply_if_parsed-IsAsFound (some report) name s = (refl, refl)

  fold_report_calls-IsAsFound :
      (tcs : List ToolCallRef) (s : AgentRunState) (texts : Dict String String)
      → IsAsFound s (fold_report_calls deps tcs s texts).1
  unfolding fold_report_calls apply_report count_report
  fold_report_calls-IsAsFound [] s texts = (refl, refl)
  fold_report_calls-IsAsFound (tc ∷ tcs) s texts =
      let h = apply_if_parsed-IsAsFound (deps.parse_report tc.arguments) tc.name (count_report s) in
      let k = fold_report_calls-IsAsFound tcs _ _ in (k.0 ∙ h.0, k.1 ∙ h.1)

  -- where no call is a search
  search_keys-IsAsFound :
      (searches : List ToolCallRef) (shape : ShapeConfig) (s : AgentRunState)
      → searches ≡ []
      → IsAsFound s (search_keys deps searches shape s []).1
  unfolding search_keys
  search_keys-IsAsFound [] shape s h = (refl, refl)
  search_keys-IsAsFound (tc ∷ searches) shape s h = absurd (ground (arith, h))

  fold_searches-IsAsFound :
      (searches : List ToolCallRef) (iteration : ℕ) (ks : Dict String (Option String))
      (s : AgentRunState) (texts : Dict String String)
      → searches ≡ []
      → IsAsFound s (fold_searches deps (with_results deps searches iteration) ks s texts).2
  unfolding fold_searches
  fold_searches-IsAsFound [] iteration ks s texts h = (refl, refl)
  fold_searches-IsAsFound (tc ∷ searches) iteration ks s texts h = absurd (ground (arith, h))

  module _ (shape : ShapeConfig) where
    dispatch-IsAsFound :
        (offered : List String) (turn : AssistantTurnResult) (s : AgentRunState)
        → searches_of offered turn ≡ []
        → IsAsFound s (dispatch deps shape offered turn s).1
    unfolding dispatch fold_reports begin_calls
    dispatch-IsAsFound offered turn s h =
        let searches = searches_of offered turn in
        let (ks, s1) = search_keys deps searches shape (begin_calls turn s) [] in
        let texts0 = refuse_calls deps offered turn.tool_calls [] in
        let (texts1, s2) = fold_report_calls deps (reports_of turn) s1 texts0 in
        let a = search_keys-IsAsFound searches shape (begin_calls turn s) h in
        let b = fold_report_calls-IsAsFound (reports_of turn) s1 texts0 in
        let c = fold_searches-IsAsFound searches s2.iteration ks s2 texts1 h in
        (c.0 ∙ b.0 ∙ a.0, c.1 ∙ b.1 ∙ a.1)

    end_without_call-IsAsFound :
        (turn : AssistantTurnResult) (s : AgentRunState) → IsAsFound s (end_without_call turn s).1
    end_without_call-IsAsFound turn s =
        if-cases (λ (r : TurnOutcome × AgentRunState). IsAsFound s r.1) (is_covered s) _ _
          (λ _. (refl, refl)) (λ _. (refl, refl))

    take_turn-IsAsFound :
        (turn : AssistantTurnResult) (s : AgentRunState)
        → IsAsFound s (take_turn deps shape (some (report_tool_name ∷ [])) turn s).1
    unfolding take_turn
    take_turn-IsAsFound turn s =
        let (facts, t) = dispatch deps shape (report_tool_name ∷ []) turn s in
        let d = dispatch-IsAsFound (report_tool_name ∷ []) turn s (reports_only turn.tool_calls) in
        if-cases (λ (r : TurnOutcome × AgentRunState). IsAsFound s r.1) (is_empty turn.tool_calls)
          (end_without_call turn s) (decide t facts) (λ _. end_without_call-IsAsFound turn s)
          (λ _.
            IsAsFound-trans s t (decide t facts).1 d
              (Decision-IsAsFound t facts (decide-Decision t facts)))

    stats-IsAsFound :
        (model : String) (stats : Option LlmResponseStats) (s : AgentRunState)
        → IsAsFound s (spend_stats model stats s)
    unfolding record_spend
    stats-IsAsFound model none s = (refl, refl)
    stats-IsAsFound model (some stats) s = (refl, refl)

    -- the run is over after the last iteration, however its turn ends
    outcome-EndsAsFound :
        (s : AgentRunState) (iteration : ℕ) (r : TurnOutcome × AgentRunState)
        → IsAsFound s r.1
        → EndsAsFound s (on_outcome (iterate_from deps shape zero iteration) r)
    unfolding iterate_from
    outcome-EndsAsFound s iteration (continue, t) h = h
    outcome-EndsAsFound s iteration (stop reason, t) h = h

    error-EndsAsFound : (s : AgentRunState) → EndsAsFound s (on_error s)
    error-EndsAsFound s =
        if-cases (EndsAsFound s) (nat_beq (chunk_total s.evidence) 0 && is_empty (addressed s))
          failed (done (stop_for llm_error s)) (λ _. tt) (λ _. (refl, refl))

    called-EndsAsFound :
        (s : AgentRunState) (iteration : ℕ) (c : Called)
        → EndsAsFound s (
            on_called deps shape
              (iterate_from deps shape zero iteration)
              (some (report_tool_name ∷ []))
              s
              c)
    unfolding record_turn_spend
    called-EndsAsFound s iteration (served model turn) =
        let t = record_turn_spend model turn s in
        outcome-EndsAsFound s iteration (take_turn deps shape (some (report_tool_name ∷ [])) turn t)
          (IsAsFound-trans s t (take_turn deps shape (some (report_tool_name ∷ [])) turn t).1
            (stats-IsAsFound model turn.stats s) (take_turn-IsAsFound turn t))
    called-EndsAsFound s iteration raised_timeout = (refl, refl)
    called-EndsAsFound s iteration raised_error = error-EndsAsFound s

    turn-EndsAsFound :
        (s : AgentRunState) (iteration : ℕ)
        → EndsAsFound s (
            run_turn deps shape
              (iterate_from deps shape zero iteration)
              (some (report_tool_name ∷ []))
              s)
    unfolding run_turn add_status
    turn-EndsAsFound s iteration = called-EndsAsFound (add_status s) iteration (
        call_tool_model deps (add_status s).transcript (some (report_tool_name ∷ []))
          (add_status s).iteration)

    -- The last iteration that `max_iterations` allows takes no search, whatever the model calls: it
    -- mints no key and admits no chunk, and the run is over after it. So the run ends with the
    -- evidence and the plan that it had, unless the provider's error propagates.
    pub iterate_from-EndsAsFound :
        (iteration : ℕ) (s : AgentRunState)
        → iteration + 1 ≡ s.max_iterations
        → EndsAsFound s (iterate_from deps shape 1 iteration s)
    unfolding iterate_from
    iterate_from-EndsAsFound iteration s last =
        let s1 = at_iteration iteration s in
        if-cases (EndsAsFound s) (ltb_ℤ (pos 0) (call_budget (deps.now iteration) s1))
          (run_turn deps shape (iterate_from deps shape zero (iteration + 1))
            (allowed_at iteration s1.max_iterations) s1)
          (done (stop_for deadline s1))
          (λ _.
            subst
              (λ allowed.
                EndsAsFound s
                  (run_turn deps shape (iterate_from deps shape zero (iteration + 1)) allowed s1))
              (sym (allowed_last iteration s.max_iterations last))
              (turn-EndsAsFound s1 (iteration + 1)))
          (λ _. (refl, refl))
