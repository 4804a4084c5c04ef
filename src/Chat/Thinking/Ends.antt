-- ===== src/Chat/Thinking/Ends.antt =====
-- src/services/chat/events.py: the loop of `ThinkingStripper.feed` ends.
use Prim.Native.String.{String, ◌++◌}
use ai_financial_copilot.Common.{
  ℕ, zero, suc, ◌+◌, ◌≤◌, ◌<◌, ◌≡◌, refl, Bool, true, false, Option, none, some, if-cases,
  Option-cases, inl, inr, arith,
}
use ai_financial_copilot.Common.Text.{chars}
use ai_financial_copilot.Chat.Thinking.{
  after_prefix, put_before, find_tag, lstrip_newlines, is_blank, Stripper, Round, stop, next,
  within, outside, stripped, text_round, one_round, prepend, after_round, drain, feed,
}

chars-after_prefix : (p s r : String) → after_prefix p s ≡ some r → chars r + chars p ≡ chars s
chars-after_prefix String.[] s r h = ground (arith, h)
chars-after_prefix (String.◌∷◌ c p) String.[] r h = ground (arith, h)
chars-after_prefix (String.◌∷◌ c p) (String.◌∷◌ d s) r h =
    ground (arith, h, chars-after_prefix p s r)

-- a tag that is found comes out of the text
abbrev Shorter : String → String → Option (String × String) → Type 0
Shorter tag s none = Unit
Shorter tag s (some (head, rest)) = chars rest + chars tag ≤ chars s

find_tag-Shorter : (tag s : String) → Shorter tag s (find_tag tag s)
find_tag-Shorter tag String.[] = elim (Option-cases (after_prefix tag String.[])) [
  | inl e ↦ rw e tt
  | inr (r, e) ↦ rw e (omega (arith, chars-after_prefix tag String.[] r e))
]
find_tag-Shorter tag (String.◌∷◌ c s) = elim (Option-cases (after_prefix tag (String.◌∷◌ c s))) [
  | inr (r, e) ↦ rw e (omega (arith, chars-after_prefix tag (String.◌∷◌ c s) r e))
  | inl e ↦ rw e (later (find_tag tag s) (find_tag-Shorter tag s))
]
  where
    later :
        (o : Option (String × String))
        → Shorter tag s o
        → Shorter tag (String.◌∷◌ c s) (put_before (String.◌∷◌ c String.[]) o)
    later none h = tt
    later (some (head, rest)) h = omega (arith, h)

chars-lstrip_newlines : (s : String) → chars (lstrip_newlines s) ≤ chars s
chars-lstrip_newlines String.[] = omega arith
chars-lstrip_newlines (String.◌∷◌ c s) = ground (arith, chars-lstrip_newlines s)

-- a round leaves nothing in the buffer, or less than there was
abbrev Progress : ℕ → Round → Type 0
Progress n (stop text st) = st.buf ≡ ""
Progress n (next text st) = chars st.buf < n

blank_buf : (s : String) → is_blank s ≡ true → s ≡ ""
blank_buf String.[] h = refl
blank_buf (String.◌∷◌ c s) h = ground (arith, h)

within-Progress :
    (st : Stripper) (n : ℕ) (o : Option (String × String))
    → Shorter "</think>" st.buf o
    → chars st.buf ≤ n
    → Progress n (within st o)
within-Progress st n none h le = refl
within-Progress st n (some (head, rest)) h le = omega (arith, h, le)

outside-Progress :
    (st : Stripper) (n : ℕ) (o : Option (String × String))
    → Shorter "<think>" st.buf o
    → chars st.buf ≤ n
    → Progress n (outside st o)
outside-Progress st n none h le = refl
outside-Progress st n (some (head, rest)) h le = omega (arith, h, le)

text_round-Progress : (st : Stripper) (n : ℕ) → chars st.buf ≤ n → Progress n (text_round st)
text_round-Progress st n le =
    if-cases (Progress n) (is_blank st.buf) (stop "" st) (outside st (find_tag "<think>" st.buf))
      (λ e. blank_buf st.buf e)
      (λ _. outside-Progress st n _ (find_tag-Shorter "<think>" st.buf) le)

chars-stripped : (b : Bool) (st : Stripper) → chars (stripped b st).buf ≤ chars st.buf
chars-stripped true st = chars-lstrip_newlines st.buf
chars-stripped false st = omega arith

one_round-Progress : (st : Stripper) → Progress (chars st.buf) (one_round st)
unfolding one_round
one_round-Progress st =
    if-cases (Progress (chars st.buf)) (is_blank st.buf) (stop "" st) _ (λ e. blank_buf st.buf e)
      (λ _.
        if-cases (Progress (chars st.buf)) st.in_think (within st (find_tag "</think>" st.buf))
          (text_round (stripped st.strip_leading_newlines st))
          (λ _. within-Progress st _ _ (find_tag-Shorter "</think>" st.buf) (omega arith))
          (λ _.
            text_round-Progress (stripped st.strip_leading_newlines st) (chars st.buf)
              (chars-stripped st.strip_leading_newlines st)))

-- the loop has ended, with nothing left to read
abbrev pub Ended : Option (String × Stripper) → Type 0
Ended none = ⊥
Ended (some (text, st)) = st.buf ≡ ""

prepend-Ended : (head : String) (o : Option (String × Stripper)) → Ended o → Ended (prepend head o)
prepend-Ended head none h = h
prepend-Ended head (some (text, st)) h = h

after_round-Ended :
    (n : ℕ) (r : Round) (more : Stripper → Option (String × Stripper))
    → ((t : Stripper) → chars t.buf < n → Ended (more t))
    → Progress n r
    → Ended (after_round r more)
after_round-Ended n (stop text t) more h e = e
after_round-Ended n (next text t) more h lt = prepend-Ended text (more t) (h t lt)

drain-Ended : (fuel : ℕ) (st : Stripper) → chars st.buf < fuel → Ended (drain fuel st)
drain-Ended zero st h = absurd (omega (arith, h))
drain-Ended (suc fuel) st h =
    after_round-Ended (chars st.buf) (one_round st) (drain fuel)
      (λ (t : Stripper) (lt : chars t.buf < chars st.buf).
        drain-Ended fuel t (omega (arith, lt, h)))
      (one_round-Progress st)

end_of_loop :
    (o : Option (String × Stripper))
    → Ended o
    → (text : String) × (t : Stripper) × (o ≡ some (text, t)) × (t.buf ≡ "")
end_of_loop none h = elim h [ ]
end_of_loop (some (text, t)) h = (text, t, refl, h)

-- The loop of `feed` ends on every text, in at most one round more than there are characters, and
-- it has read the whole buffer.
pub feed-Ended :
    (text : String) (st : Stripper)
    → (out : String) × (t : Stripper) × (feed text st ≡ some (out, t)) × (t.buf ≡ "")
unfolding feed
feed-Ended text st =
    end_of_loop (feed text st) (
      drain-Ended (suc (chars (st.buf ++ text))) (record st { buf = st.buf ++ text }) (omega arith))
