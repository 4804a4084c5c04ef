-- ===== src/Agent/State/Coverage.antt =====
-- What is spent: the views of the state agree with what they are views of.
use ai_financial_copilot.Common.{ℕ, ◌+◌, ◌≡◌, refl, [], ◌∷◌, some, String, string_eq, arith}
use ai_financial_copilot.Common.Dict.{Dict, get, put}
use ai_financial_copilot.Llm.Messages.{LlmResponseStats}
use ai_financial_copilot.Agent.State.{
  AgentRunState, TokenSpend, record_spend, add_spend, spend_or_new, total_by, cost_usd_total,
  or_zero, no_spend,
}

total_by-put :
    (f : TokenSpend → ℕ) (model : String) (t : TokenSpend) (spend : Dict String TokenSpend)
    (extra : ℕ)
    → f no_spend ≡ 0
    → f t ≡ f (spend_or_new (get model spend)) + extra
    → total_by f (put model t spend) ≡ total_by f spend + extra
unfolding put get
total_by-put f model t [] extra zero_at h = omega arith
total_by-put f model t ((m, u) ∷ spend) extra zero_at h =
    ground (arith, total_by-put f model t spend extra zero_at)

-- Recording the statistics of a call adds its cost, nothing if it has none, to the cost of the run.
pub record_spend-cost :
    (model : String) (stats : LlmResponseStats) (s : AgentRunState)
    → cost_usd_total (record_spend model (some stats) s) ≡ cost_usd_total s + or_zero stats.cost_usd
unfolding record_spend cost_usd_total
record_spend-cost model stats s =
    total_by-put (λ t. t.cost_usd) model (add_spend stats (spend_or_new (get model s.spend)))
      s.spend (or_zero stats.cost_usd) refl refl
