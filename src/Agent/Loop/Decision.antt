-- ===== src/Agent/Loop/Decision.antt =====
-- When a run stops, and what the decision writes.
use ai_financial_copilot.Common.{
  ℕ, ◌+◌, ◌≤◌, ◌<◌, ◌≡◌, Bool, true, false, ◌&&◌, not, if◌then◌else◌, nat_beq, ltb, arith, if-cases,
  string_eq, ltb→lt,
}
use ai_financial_copilot.Agent.State.{
  AgentRunState, covered, search_unavailable, convergence, budget_cap, spend_within_budget,
  cost_usd_total,
}
use ai_financial_copilot.Agent.Loop.{TurnOutcome, continue, stop, TurnFacts}
use ai_financial_copilot.Agent.Loop.Turn.{decide, is_covered, is_progress, within_budget}

-- all that was planned is covered, and nothing new was shown
abbrev pub is_done : AgentRunState → TurnFacts → Bool
is_done s facts = is_covered s && nat_beq facts.new_labels 0

-- the turn searched, and every search failed
abbrev pub is_outage : TurnFacts → Bool
is_outage facts = not (nat_beq facts.searches 0) && nat_beq facts.backend_failures facts.searches

-- The outcome of a decision, and what it has written, reason by reason; each reason excludes those
-- that come before it.
pub data Decision (s : AgentRunState) (facts : TurnFacts)
    : TurnOutcome × AgentRunState → Type 0 where
  by_coverage :
      is_covered s ≡ true
      → facts.new_labels ≡ 0
      → Decision s facts (stop covered, record s { sealed_by_coverage = true })
  by_outage :
      is_done s facts ≡ false
      → 0 < facts.searches
      → facts.backend_failures ≡ facts.searches
      → Decision s facts (stop search_unavailable, s)
  by_stall :
      is_done s facts ≡ false
      → is_outage facts ≡ false
      → is_progress facts ≡ false
      → s.settings.max_empty_rounds < s.empty_rounds + 1
      → Decision s facts (stop convergence, record s { empty_rounds = s.empty_rounds + 1 })
  by_budget :
      {empty_rounds : ℕ}
      → is_done s facts ≡ false
      → is_outage facts ≡ false
      → empty_rounds ≡ (if is_progress facts then 0 else s.empty_rounds + 1)
      → empty_rounds ≤ s.settings.max_empty_rounds
      → s.settings.cost_budget_usd < cost_usd_total s
      → Decision s facts (stop budget_cap, record s { empty_rounds = empty_rounds })
  to_go_on :
      {empty_rounds : ℕ}
      → is_done s facts ≡ false
      → is_outage facts ≡ false
      → empty_rounds ≡ (if is_progress facts then 0 else s.empty_rounds + 1)
      → empty_rounds ≤ s.settings.max_empty_rounds
      → cost_usd_total s ≤ s.settings.cost_budget_usd
      → Decision s facts (continue, record s { empty_rounds = empty_rounds })

module _ (s : AgentRunState) (facts : TurnFacts) where
  within_budget-Decision :
      (empty_rounds : ℕ)
      → empty_rounds ≡ (if is_progress facts then 0 else s.empty_rounds + 1)
      → empty_rounds ≤ s.settings.max_empty_rounds
      → is_done s facts ≡ false
      → is_outage facts ≡ false
      → Decision s facts (within_budget (record s { empty_rounds = empty_rounds }))
  unfolding spend_within_budget cost_usd_total
  within_budget-Decision empty_rounds same small pending up =
      if-cases (Decision s facts) (spend_within_budget (record s { empty_rounds = empty_rounds })) _
        _ (λ within. to_go_on pending up same small (ground arith))
        (λ over. by_budget pending up same small (ground arith))

  -- A decision goes by the first of these that holds: covered, when every key of the plan holds a
  -- finding and the turn showed no new label; unavailable, when the turn searched and every search
  -- failed; convergence, after more rounds without progress than allowed; the budget, when the
  -- run's cost is above it. Else the run goes on. It writes the flag of the coverage in the first
  -- case, the count of the empty rounds in the last three, and nothing else.
  pub decide-Decision : Decision s facts (decide s facts)
  unfolding decide
  decide-Decision =
      if-cases (Decision s facts) (is_done s facts) _ _
        (λ all. by_coverage (ground arith) (ground arith))
        (λ pending.
          if-cases (Decision s facts) (is_outage facts) _ _
            (λ out. by_outage pending (ground arith) (ground arith))
            (λ up.
              if-cases (Decision s facts) (is_progress facts) _ _
                (λ progress. within_budget-Decision 0 (ground arith) (ground arith) pending up)
                (λ none_made.
                  if-cases (Decision s facts) (ltb s.settings.max_empty_rounds (s.empty_rounds + 1))
                    _ _
                    (λ many.
                      by_stall pending up none_made
                        (ltb→lt s.settings.max_empty_rounds (s.empty_rounds + 1) many))
                    (λ few.
                      within_budget-Decision (s.empty_rounds + 1) (ground arith) (ground arith)
                        pending up))))
