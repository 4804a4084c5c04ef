-- ===== src/Redis/RateLimit/Bounds.antt =====
-- src/redis_client.py: how many requests the sliding window lets through.
use ai_financial_copilot.Common.{
  ℕ, ◌+◌, ◌≤◌, ◌≡◌, refl, subst, Bool, true, false, ◌&&◌, List, [], ◌∷◌, ◌++◌, String, length,
  append_assoc, append-nil, leb, filter_by, string_eq, Distinct, arith, Bool-cases, inl, inr,
}
use ai_financial_copilot.Redis.RateLimit.{no_key, is_recent, Verdict, verdicts}
use ai_financial_copilot.Redis.RateLimit.Reference.{
  recent, judge, logged, reference, IsChronological, members, verdicts-reference,
}

-- the times of the requests that are let through
abbrev pub accepted_times : List (ℕ × String) → List Verdict → List ℕ
accepted_times [] vs = []
accepted_times (r ∷ requests) [] = []
accepted_times ((now, m) ∷ requests) (v ∷ vs) =
    logged v.allowed now [] ++ accepted_times requests vs

-- the times in the window that ends at `x`
abbrev pub within : ℕ → ℕ → List ℕ → List ℕ
within window x times = filter_by (λ t. leb t x && is_recent window x t) times

within-append :
    (window x : ℕ) (ts us : List ℕ)
    → length (within window x (ts ++ us))
      ≡ length (within window x ts) + length (within window x us)
within-append window x [] us = omega arith
within-append window x (t ∷ ts) us = ground (arith, within-append window x ts us)

-- what counts later than some moment, counts at that moment
within-le :
    (window x now : ℕ) (times : List ℕ)
    → now ≤ x
    → length (within window x times) ≤ length (recent window now times)
within-le window x now [] h = omega arith
within-le window x now (t ∷ times) h = ground (arith, within-le window x now times h)

module _ (window limit : ℕ) where
  abbrev Fits : List ℕ → Type 0
  Fits times = (x : ℕ) → length (within window x times) ≤ limit

  logged-Fits :
      (now : ℕ) (accepted : List ℕ)
      → Fits accepted
      → Fits (logged (judge window limit now accepted).allowed now accepted)
  logged-Fits now accepted fits x =
      elim (Bool-cases (leb limit (length (recent window now accepted)))) [
        | inl full ↦ rw full (fits x)
        | inr room ↦ rw room (
            ground (
              arith,
              room,
              fits x,
              within-append window x accepted (now ∷ []),
              within-le window x now accepted,
            ))
      ]

  logged-append :
      (b : Bool) (now : ℕ) (accepted rest : List ℕ)
      → logged b now accepted ++ rest ≡ accepted ++ (logged b now [] ++ rest)
  logged-append true now accepted rest = append_assoc accepted (now ∷ []) rest
  logged-append false now accepted rest = refl

  reference-Fits :
      (requests : List (ℕ × String)) (accepted : List ℕ)
      → Fits accepted
      → Fits (accepted ++ accepted_times requests (reference window limit accepted requests))
  unfolding reference
  reference-Fits [] accepted fits = rw (append-nil accepted) fits
  reference-Fits ((now, m) ∷ requests) accepted fits =
      let v = judge window limit now accepted in
      subst Fits (logged-append v.allowed now accepted _)
        (reference-Fits requests (logged v.allowed now accepted) (logged-Fits now accepted fits))

-- In any window of time at most the limit of requests is let through, whenever the window ends.
pub verdicts-within :
    (window limit : ℕ) (requests : List (ℕ × String))
    → IsChronological 0 requests
    → Distinct (members requests)
    → (x : ℕ)
    → length (within window x (accepted_times requests (verdicts window limit no_key requests)))
      ≤ limit
verdicts-within window limit requests order once x =
    rw (verdicts-reference window limit requests order once)
      (reference-Fits window limit requests [] (λ y. omega arith) x)
