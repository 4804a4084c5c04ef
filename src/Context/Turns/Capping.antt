-- ===== src/Context/Turns/Capping.antt =====
-- What capping promises: recent whole turns within the budget.
use mathlib.Core.List.{reverse, reverse-cons}
use ai_financial_copilot.Common.{
  ℕ, ◌+◌, ◌≤◌, ◌≡◌, ◌⊎◌, refl, ap, ◌∙◌, Bool, false, List, [], ◌∷◌, ◌++◌, append_assoc, length, ltb,
  leb, filter_by, is_empty, arith, if-cases, inl, inr,
}
use ai_financial_copilot.Common.Text.{TextOps}
use ai_financial_copilot.Context.Turns.{
  Turn, HistoryBudget, turn_tokens, keep_recent, choose, or_all, capped_turns, cap_turns,
  window_start,
}

abbrev pub tokens_of : List Turn → ℕ
tokens_of [] = 0
tokens_of (t ∷ turns) = turn_tokens t + tokens_of turns

tokens_of-filter_by :
    (p : Turn → Bool) (turns : List Turn) → tokens_of (filter_by p turns) ≤ tokens_of turns
tokens_of-filter_by p [] = omega arith
tokens_of-filter_by p (t ∷ turns) = ground (arith, tokens_of-filter_by p turns)

module _ (budget : ℕ) where
  keep_recent-within :
      (total : ℕ) (latest kept : List Turn)
      → total ≡ tokens_of kept
      → total ≤ budget
      → tokens_of (keep_recent budget total latest kept) ≤ budget
  unfolding keep_recent
  keep_recent-within total [] kept same small = omega arith
  keep_recent-within total (t ∷ older) kept same small =
      if-cases (λ r. tokens_of r ≤ budget) (ltb budget (total + turn_tokens t)) _ _
        (λ over. omega arith)
        (λ within.
          keep_recent-within (total + turn_tokens t) older (t ∷ kept) (omega arith) (ground arith))

  -- The backward loop over the turns, latest first, keeps the last of them, whole and in their order.
  pub keep_recent-suffix :
      (total : ℕ) (latest kept : List Turn)
      → (front : List Turn) × (reverse latest ++ kept
          ≡ front ++ keep_recent budget total latest kept)
  unfolding keep_recent
  keep_recent-suffix total [] kept = ([], refl)
  keep_recent-suffix total (t ∷ older) kept =
      if-cases (λ r. (front : List Turn) × (reverse (t ∷ older) ++ kept ≡ front ++ r))
        (ltb budget (total + turn_tokens t)) _ _ (λ over. (reverse (t ∷ older), refl))
        (λ within.
          let (front, e) = keep_recent-suffix (total + turn_tokens t) older (t ∷ kept) in
          (
            front,
            ap (λ xs. xs ++ kept) (reverse-cons t older)
                ∙ append_assoc (reverse older) (t ∷ []) kept
                ∙ e,
          ))

is_empty-snoc : (ts : List Turn) (t : Turn) → is_empty (ts ++ t ∷ []) ≡ false
is_empty-snoc [] t = refl
is_empty-snoc (u ∷ ts) t = refl

-- What a model gets of its history.
pub record IsCapped (budget : ℕ) (turns result : List Turn) : Type 0 where
  pub within : (tokens_of result ≤ budget) ⊎ (length result ≡ 1)
  pub nonempty : is_empty turns ≡ false → is_empty result ≡ false

module _ (ops : TextOps) (b : HistoryBudget) where
  or_all-within :
      (window kept : List Turn)
      → tokens_of window ≤ tokens_of kept
      → tokens_of (or_all window kept) ≤ tokens_of kept
  or_all-within [] kept h = omega arith
  or_all-within (t ∷ window) kept h = h

  or_all-nonempty :
      (window : List Turn) (t : Turn) (kept : List Turn)
      → is_empty (or_all window (t ∷ kept)) ≡ false
  or_all-nonempty [] t kept = refl
  or_all-nonempty (u ∷ window) t kept = refl

  choose-IsCapped :
      (latest kept : List Turn)
      → tokens_of kept ≤ b.budget_tokens
      → IsCapped b.budget_tokens latest (choose ops b latest kept)
  choose-IsCapped [] [] h = record { within = inl (omega arith); nonempty = λ e. e }
  choose-IsCapped (last ∷ older) [] h = record { within = inr refl; nonempty = λ e. refl }
  choose-IsCapped [] (t ∷ kept) h =
      let at_boundary : Turn → Bool = λ u. leb (window_start t.index b.step) u.index in
      record {
        within = inl (
            omega (
              arith,
              h,
              or_all-within (filter_by at_boundary (t ∷ kept)) (t ∷ kept)
                  (tokens_of-filter_by at_boundary (t ∷ kept)),
            ));
        nonempty = λ e. or_all-nonempty (filter_by at_boundary (t ∷ kept)) t kept;
      }
  choose-IsCapped (last ∷ older) (t ∷ kept) h =
      let at_boundary : Turn → Bool = λ u. leb (window_start t.index b.step) u.index in
      record {
        within = inl (
            omega (
              arith,
              h,
              or_all-within (filter_by at_boundary (t ∷ kept)) (t ∷ kept)
                  (tokens_of-filter_by at_boundary (t ∷ kept)),
            ));
        nonempty = λ e. or_all-nonempty (filter_by at_boundary (t ∷ kept)) t kept;
      }

  is_empty-latest :
      (turns : List Turn)
      → is_empty turns ≡ false
      → is_empty (reverse (capped_turns ops b.max_answer_tokens turns)) ≡ false
  is_empty-latest [] h = h
  is_empty-latest (t ∷ turns) h =
      ap is_empty (reverse-cons _ (capped_turns ops b.max_answer_tokens turns))
      ∙ is_empty-snoc (reverse (capped_turns ops b.max_answer_tokens turns)) _

  -- The capped history is within the budget of tokens or is a single turn, and it is not empty when
  -- there are turns.
  pub cap_turns-IsCapped :
      (turns : List Turn) → IsCapped b.budget_tokens turns (cap_turns ops turns b)
  unfolding cap_turns
  cap_turns-IsCapped turns =
      let latest = reverse (capped_turns ops b.max_answer_tokens turns) in
      let c =
        choose-IsCapped latest (keep_recent b.budget_tokens 0 latest [])
          (keep_recent-within b.budget_tokens 0 latest [] refl (omega arith)) in
      record { within = c.within; nonempty = λ e. c.nonempty (is_empty-latest turns e) }
