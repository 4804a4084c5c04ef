-- ===== src/Context/Turns/Screening.antt =====
-- What the history never holds: a question that the injection scan blocks.
use ai_financial_copilot.Common.{
  ℕ, ◌+◌, ◌≡◌, ◌⊎◌, refl, ap, true, false, List, [], ◌∷◌, Option, none, some, String, All, nat_beq,
  arith, if-cases, inl, inr,
}
use ai_financial_copilot.Common.Text.{chars}
use ai_financial_copilot.Retrieval.Assembler.{
  InjectionSignal, Severity, clean, flag, block, is_block,
}
use ai_financial_copilot.Context.Turns.{
  Turn, StoredMessage, kept_text, screened_question, cons_turn, turns_from, prior_turns,
  without_current, pairs_closed,
}

module _ (scan_user_input : String → InjectionSignal) where
  -- blank, or what the scan makes of a text that it does not block
  abbrev pub WasScreened : String → Type 0
  WasScreened question =
      (chars question ≡ 0)
      ⊎ (text : String) × (is_block (scan_user_input text).severity ≡ false)
        × (question ≡ (scan_user_input text).sanitized_text)

  abbrev pub IsScreenedText : Option String → Type 0
  IsScreenedText none = Unit
  IsScreenedText (some question) = WasScreened question

  kept_text-IsScreenedText :
      (severity : Severity) (text : String)
      → (scan_user_input text).severity ≡ severity
      → IsScreenedText (kept_text scan_user_input severity (scan_user_input text))
  kept_text-IsScreenedText clean text e = inr (text, ap is_block e, refl)
  kept_text-IsScreenedText flag text e = inr (text, ap is_block e, refl)
  kept_text-IsScreenedText block text e = tt

  screened_question-IsScreenedText :
      (text : String) → IsScreenedText (screened_question scan_user_input true text)
  unfolding screened_question
  screened_question-IsScreenedText text =
      let signal = scan_user_input text in
      if-cases IsScreenedText (nat_beq (chars text) 0) (some text)
        (kept_text scan_user_input signal.severity signal) (λ blank. inl (ground arith))
        (λ written. kept_text-IsScreenedText signal.severity text refl)

  cons_turn-screened :
      (index : ℕ) (text : Option String) (answer : Option StoredMessage) (turns : List Turn)
      → IsScreenedText text
      → All (λ t. WasScreened t.question) turns
      → All (λ t. WasScreened t.question) (cons_turn scan_user_input index text answer turns)
  cons_turn-screened index none answer turns h hs = hs
  cons_turn-screened index (some text) answer turns h hs = (h, hs)

  turns_from-screened :
      (index : ℕ) (pairs : List (StoredMessage × Option StoredMessage))
      → All (λ t. WasScreened t.question) (turns_from scan_user_input true index pairs)
  unfolding turns_from
  turns_from-screened index [] = tt
  turns_from-screened index ((question, answer) ∷ pairs) =
      cons_turn-screened index (screened_question scan_user_input true question.content) answer
        (turns_from scan_user_input true (index + 1) pairs)
        (screened_question-IsScreenedText question.content) (turns_from-screened (index + 1) pairs)

  -- With the scan on, every question of the history is blank or is the sanitized text of a question
  -- that the scan does not block.
  pub prior_turns-screened :
      (messages : List StoredMessage)
      → All (λ t. WasScreened t.question) (prior_turns scan_user_input true messages)
  unfolding prior_turns
  prior_turns-screened messages = turns_from-screened 0 (pairs_closed (without_current messages))
