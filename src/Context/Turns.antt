-- ===== src/Context/Turns.antt =====
-- src/services/context/turns.py: prior questions and answers, paired, screened and capped. The
-- budgets that come from the configuration are arguments; `session_index` is left out.
pub mod Capping
pub mod Screening
use Prim.Native.String.{◌++◌ as ◌+++◌}
use mathlib.Core.List.{reverse}
use ai_financial_copilot.Common.{
  ℕ, suc, ◌+◌, ◌-◌, ◌*◌, ◌/◌, Bool, true, false, List, [], ◌∷◌, ◌++◌, Option, none, some, String,
  if◌then◌else◌, nat_beq, leb, ltb, filter_by, is_some,
}
use ai_financial_copilot.Common.Text.{TextOps, chars, cut}
use ai_financial_copilot.Retrieval.Assembler.{InjectionSignal, Severity, clean, flag, block}
use ai_financial_copilot.Llm.Messages.{Role, system, developer, user, assistant, tool, ChatMessage}
use ai_financial_copilot.Agent.Transcript.{plain_message}

-- the fields of a stored message that the history reads; of src/schemas/chat.py
pub record StoredMessage : Type 0 where
  pub role : Role
  pub content : String
  pub answer_derived_from_carryover : Bool

-- `Turn` of src/schemas/chat.py, without the router's summary
pub record Turn : Type 0 where
  pub index : ℕ
  pub question : String
  pub answer : Option String
  pub from_carryover : Bool

pub record HistoryBudget : Type 0 where
  pub budget_tokens : ℕ
  pub max_answer_tokens : Option ℕ
  pub step : ℕ

-- `__post_init__`: what is not refused
abbrev pub is_valid_budget : HistoryBudget → Bool
is_valid_budget b = if ltb b.budget_tokens 1 then false else leb 1 b.step

-- `from_config`: 0 means whole answers
unfoldable pub from_config : ℕ → ℕ → ℕ → HistoryBudget
from_config budget_tokens max_answer_tokens step = record {
  budget_tokens = budget_tokens;
  max_answer_tokens = if nat_beq max_answer_tokens 0 then none else some max_answer_tokens;
  step = step;
}

abbrev pub truncation_marker : String
truncation_marker = " […truncated]"

-- `approx_tokens`: a quarter of the characters, rounded up
abbrev pub approx_tokens : String → ℕ
approx_tokens s = (chars s + 3) / 4

abbrev or_blank : Option String → String
or_blank none = ""
or_blank (some s) = s

-- `_turn_tokens`
unfoldable pub turn_tokens : Turn → ℕ
turn_tokens t = approx_tokens t.question + approx_tokens (or_blank t.answer)

abbrev is_user : Role → Bool
is_user user = true
is_user _ = false

abbrev is_assistant : Role → Bool
is_assistant assistant = true
is_assistant _ = false

-- the messages without the current question at their end
unfoldable pub without_current : List StoredMessage → List StoredMessage
without_current [] = []
without_current (m ∷ []) = if is_user m.role then [] else m ∷ []
without_current (m ∷ n ∷ ms) = m ∷ without_current (n ∷ ms)

-- the pairs behind a question that waits for its answer, and behind a closed pair
mutual
  pub pairs_open : StoredMessage → List StoredMessage → List (StoredMessage × Option StoredMessage)
  pairs_open q [] = (q, none) ∷ []
  pairs_open q (m ∷ ms) =
      let asked = (q, none) ∷ pairs_open m ms in
      let answered = (q, some m) ∷ pairs_closed ms in
      let skipped = pairs_open q ms in
      if is_user m.role then asked else if is_assistant m.role then answered else skipped

  pub pairs_closed : List StoredMessage → List (StoredMessage × Option StoredMessage)
  pairs_closed [] = []
  pairs_closed (m ∷ ms) =
      let asked = pairs_open m ms in
      let skipped = pairs_closed ms in if is_user m.role then asked else skipped

abbrev some_text : String → Option String
some_text s = if nat_beq (chars s) 0 then none else some s

abbrev answer_of : Option StoredMessage → Option String
answer_of none = none
answer_of (some m) = some_text m.content

abbrev carried : Option StoredMessage → Bool
carried none = false
carried (some m) = m.answer_derived_from_carryover

abbrev turn_from : ℕ → String → Option StoredMessage → Turn
turn_from index text answer = record {
  index = index;
  question = text;
  answer = answer_of answer;
  from_carryover = carried answer;
}

module _ (scan_user_input : String → InjectionSignal) where
  -- a scanned question: none if it is blocked
  abbrev pub kept_text : Severity → InjectionSignal → Option String
  kept_text block signal = none
  kept_text _ signal = some signal.sanitized_text

  unfoldable pub screened_question : Bool → String → Option String
  screened_question scan text =
      let signal = scan_user_input text in
      if scan
      then (if nat_beq (chars text) 0 then some text else kept_text signal.severity signal)
      else some text

  abbrev cons_turn : ℕ → Option String → Option StoredMessage → List Turn → List Turn
  cons_turn index none answer turns = turns
  cons_turn index (some text) answer turns = turn_from index text answer ∷ turns

  -- the loop over the pairs, from an index on
  unfoldable pub turns_from : Bool → ℕ → List (StoredMessage × Option StoredMessage) → List Turn
  turns_from scan index [] = []
  turns_from scan index ((question, answer) ∷ pairs) =
      cons_turn index (screened_question scan question.content) answer
        (turns_from scan (index + 1) pairs)

  -- `prior_turns`
  unfoldable pub prior_turns : Bool → List StoredMessage → List Turn
  prior_turns scan messages = turns_from scan 0 (pairs_closed (without_current messages))

-- The backward loop: the turns, latest first, until the budget is over.
unfoldable pub keep_recent : ℕ → ℕ → List Turn → List Turn → List Turn
keep_recent budget total [] kept = kept
keep_recent budget total (t ∷ older) kept =
    let rest = keep_recent budget (total + turn_tokens t) older (t ∷ kept) in
    if ltb budget (total + turn_tokens t) then kept else rest

abbrev or_all : List Turn → List Turn → List Turn
or_all [] kept = kept
or_all (t ∷ window) kept = t ∷ window

-- the first multiple of `step` from `first` on
abbrev pub window_start : ℕ → ℕ → ℕ
window_start first step = (first + (step - 1)) / step * step

module _ (ops : TextOps) where
  -- `truncate_tokens`
  unfoldable pub truncate_tokens : String → ℕ → String
  truncate_tokens text max_tokens =
      if leb (approx_tokens text) max_tokens
      then text
      else ops.rstrip (cut (max_tokens * 4) text) +++ truncation_marker

  abbrev cut_answer : Option ℕ → Option String → Option String
  cut_answer none answer = answer
  cut_answer (some max_tokens) none = none
  cut_answer (some max_tokens) (some answer) = some (truncate_tokens answer max_tokens)

  abbrev pub capped_turns : Option ℕ → List Turn → List Turn
  capped_turns max_tokens [] = []
  capped_turns max_tokens (t ∷ turns) =
      record t { answer = cut_answer max_tokens t.answer } ∷ capped_turns max_tokens turns

  -- not even the last turn fits
  abbrev pub cut_last : ℕ → Turn → Turn
  cut_last budget last = record last {
    answer = cut_answer (some (budget - approx_tokens last.question)) last.answer;
  }

  abbrev pub choose : HistoryBudget → List Turn → List Turn → List Turn
  choose b [] [] = []
  choose b (last ∷ older) [] = cut_last b.budget_tokens last ∷ []
  choose b latest (t ∷ kept) =
      or_all (filter_by (λ u. leb (window_start t.index b.step) u.index) (t ∷ kept)) (t ∷ kept)

  -- `cap_turns`, of a budget that is not refused
  unfoldable pub cap_turns : List Turn → HistoryBudget → List Turn
  cap_turns turns b =
      let latest = reverse (capped_turns b.max_answer_tokens turns) in
      choose b latest (keep_recent b.budget_tokens 0 latest [])

abbrev answer_message : Option String → List ChatMessage
answer_message none = []
answer_message (some text) = plain_message assistant text ∷ []

-- `as_messages`
unfoldable pub as_messages : List Turn → List ChatMessage
as_messages [] = []
as_messages (t ∷ turns) =
    plain_message user t.question ∷ answer_message t.answer ++ as_messages turns
