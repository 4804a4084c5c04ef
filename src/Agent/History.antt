-- ===== src/Agent/History.antt =====
-- `agent_history` of src/services/chat/agent/loop.py: the prior turns as the tool model sees them.
use ai_financial_copilot.Common.{
  ◌≡◌, refl, ap, List, [], ◌∷◌, Option, none, some, String, map, if◌then◌else◌, is_some, ◌&&◌,
  arith, Option-cases, inl, inr,
}
use ai_financial_copilot.Common.Text.{TextOps}
use ai_financial_copilot.Llm.Messages.{ChatMessage}
use ai_financial_copilot.Context.Turns.{Turn, HistoryBudget, cap_turns, as_messages}

abbrev pub carryover_stub : String
carryover_stub = "[prior turn: restated earlier results in a different format]"

-- one turn: an answer derived from a carried block is stubbed
abbrev pub stubbed : Turn → Turn
stubbed t =
    if t.from_carryover && is_some t.answer then record t { answer = some carryover_stub } else t

-- `agent_history`, under `tool_model_history()`
unfoldable pub agent_history : TextOps → HistoryBudget → List Turn → List ChatMessage
agent_history ops b turns = as_messages (cap_turns ops (map stubbed turns) b)

abbrev rewrite_answer : (String → String) → Option String → Option String
rewrite_answer f none = none
rewrite_answer f (some text) = some (f text)

-- other prose in an answer that is derived from a carried block
abbrev pub reworded : (String → String) → Turn → Turn
reworded f t = if t.from_carryover then record t { answer = rewrite_answer f t.answer } else t

stubbed-reworded : (f : String → String) (t : Turn) → stubbed (reworded f t) ≡ stubbed t
stubbed-reworded f t = elim (Option-cases t.answer) [
  | inl absent ↦ ground arith
  | inr (text, e) ↦ ground arith
]

map-stubbed-reworded :
    (f : String → String) (turns : List Turn)
    → map stubbed (map (reworded f) turns) ≡ map stubbed turns
map-stubbed-reworded f [] = refl
map-stubbed-reworded f (t ∷ turns) =
    ground (arith, stubbed-reworded f t, map-stubbed-reworded f turns)

-- The prose of an answer that is derived from a carried block has no influence on what the tool
-- model sees: any other prose in its place gives the same messages.
pub agent_history-reworded :
    (ops : TextOps) (b : HistoryBudget) (f : String → String) (turns : List Turn)
    → agent_history ops b (map (reworded f) turns) ≡ agent_history ops b turns
unfolding agent_history
agent_history-reworded ops b f turns =
    ap (λ ts. as_messages (cap_turns ops ts b)) (map-stubbed-reworded f turns)
