-- ===== src/Chat/Citation/Chunks.antt =====
-- How the provider cuts the answer into chunks does not matter.
use ai_financial_copilot.Common.{
  ℕ, ◌+◌, ◌≡◌, refl, sym, ap, ◌∙◌, Bool, true, false, List, [], ◌∷◌, ◌++◌, Option, none, some,
  length, length-append, append_assoc, arith, Bool-cases, inl, inr, is_empty, nat_beq, leb,
  if◌then◌else◌, append-nil,
}
use mathlib.Core.Path.{ap₂}
use ai_financial_copilot.Chat.Citation.{
  CharOps, Mode, text, bracket, max_bracket_len, AnswerCitationSpan, ParserOutput, Parser, Feed,
  position, flush_if_pending, flush_pending, show_text, set_mode, on_text, is_citation, strip,
  parse_refs, add_refs, close_bracket, on_bracket, feed_in, feed_char, feed_chars, settle, feed,
}

-- `g` as it is when `v` and `k` came out before it, and the offset and the spans still stand at
-- `c` and `old`.
abbrev shift : ℕ → List AnswerCitationSpan → List ℕ → List AnswerCitationSpan → Feed → Feed
shift c old v k g = record {
  parser = record g.parser { clean_offset = c; spans = old };
  visible = v ++ g.visible;
  completed = k ++ g.completed;
}

module _ (ops : CharOps) (c : ℕ) (old : List AnswerCitationSpan) (v : List ℕ)
    (k : List AnswerCitationSpan) where
  flush-shift :
      (g : Feed) → flush_if_pending (shift c old v k g) ≡ shift c old v k (flush_if_pending g)
  unfolding flush_if_pending flush_pending
  flush-shift g = elim (Bool-cases (is_empty g.parser.pending_refs)) [
    | inl idle ↦ rw idle
    | inr busy ↦ rw (busy, append_assoc)
  ]

  show-shift :
      (s : List ℕ) (g : Feed) → show_text s (shift c old v k g) ≡ shift c old v k (show_text s g)
  unfolding show_text
  show-shift s g = rw append_assoc

  flush_show-shift :
      (s : List ℕ) (g : Feed)
      → show_text s (flush_if_pending (shift c old v k g))
        ≡ shift c old v k (show_text s (flush_if_pending g))
  flush_show-shift s g = rw flush-shift (show-shift s (flush_if_pending g))

  on_text-shift :
      (ch : ℕ) (g : Feed) → on_text ch (shift c old v k g) ≡ shift c old v k (on_text ch g)
  unfolding on_text
  on_text-shift ch g = elim (Bool-cases (nat_beq ch b'[')) [
    | inl opens ↦ rw opens (unfold set_mode in refl)
    | inr plain ↦ rw plain (flush_show-shift (ch ∷ []) g)
  ]

  set_mode-shift :
      (m : Mode) (s : List ℕ) (g : Feed)
      → set_mode m s (shift c old v k g) ≡ shift c old v k (set_mode m s g)
  unfolding set_mode
  set_mode-shift m s g = refl

  module _ (g : Feed) (met : g.parser.clean_offset ≡ c + length v) where
    position-shift : position (shift c old v k g) ≡ position g
    position-shift = omega (arith, length-append v g.visible)

    add_refs-shift :
        (refs : List (List ℕ))
        → add_refs ops refs (shift c old v k g) ≡ shift c old v k (add_refs ops refs g)
    unfolding add_refs
    add_refs-shift refs = elim (Bool-cases (is_empty g.parser.pending_refs)) [
      | inl idle ↦ rw idle (
          ap
            (λ pos. record {
              parser = record g.parser {
                clean_offset = c;
                spans = old;
                pending_refs = refs;
                pending_pos = pos;
              };
              visible = v ++ g.visible;
              completed = k ++ g.completed;
            })
            position-shift)
      | inr busy ↦ rw busy
    ]

    close_bracket-shift :
        close_bracket ops (shift c old v k g) ≡ shift c old v k (close_bracket ops g)
    unfolding close_bracket
    close_bracket-shift = elim (Bool-cases (is_citation ops (strip ops g.parser.bracket_buffer))) [
      | inl cited ↦
          rw (cited, add_refs-shift (parse_refs ops (strip ops g.parser.bracket_buffer)))
            (set_mode-shift _ _ _)
      | inr other ↦ rw (other, flush_show-shift) (set_mode-shift _ _ _)
    ]

    on_bracket-shift :
        (ch : ℕ) → on_bracket ops ch (shift c old v k g) ≡ shift c old v k (on_bracket ops ch g)
    unfolding on_bracket
    on_bracket-shift ch = elim (Bool-cases (nat_beq ch b']')) [
      | inl closes ↦ rw closes close_bracket-shift
      | inr more ↦ elim (Bool-cases (nat_beq ch b'[')) [
        | inl opens ↦ rw (more, opens, flush_show-shift) (set_mode-shift _ _ _)
        | inr plain ↦ elim (Bool-cases (leb max_bracket_len (length g.parser.bracket_buffer))) [
          | inl full ↦ rw (more, plain, full, flush_show-shift) (set_mode-shift _ _ _)
          | inr room ↦ rw (more, plain, room) (set_mode-shift _ _ _)
        ]
      ]
    ]

    feed_in-shift :
        (m : Mode) (ch : ℕ)
        → feed_in ops m ch (shift c old v k g) ≡ shift c old v k (feed_in ops m ch g)
    unfolding feed_in
    feed_in-shift text ch = on_text-shift ch g
    feed_in-shift bracket ch = on_bracket-shift ch

    feed_char-shift :
        (ch : ℕ) → feed_char ops ch (shift c old v k g) ≡ shift c old v k (feed_char ops ch g)
    unfolding feed_char
    feed_char-shift ch = feed_in-shift g.parser.state ch

-- What `feed` alone moves.
pub record SameBase (g h : Feed) : Type 0 where
  pub offset : h.parser.clean_offset ≡ g.parser.clean_offset
  pub spans : h.parser.spans ≡ g.parser.spans
  pub finalized : h.parser.finalized ≡ g.parser.finalized

module _ (ops : CharOps) where
  feed_in-SameBase : (m : Mode) (ch : ℕ) (g : Feed) → SameBase g (feed_in ops m ch g)
  unfolding feed_in on_text on_bracket close_bracket add_refs set_mode show_text flush_if_pending
      flush_pending
  feed_in-SameBase text ch g = ground arith
  feed_in-SameBase bracket ch g = ground arith

  pub feed_chars-SameBase : (chunk : List ℕ) (g : Feed) → SameBase g (feed_chars ops chunk g)
  unfolding feed_chars feed_char
  feed_chars-SameBase [] g = record { offset = refl; spans = refl; finalized = refl }
  feed_chars-SameBase (ch ∷ chunk) g =
      let first = feed_in-SameBase g.parser.state ch g in
      let later = feed_chars-SameBase chunk (feed_in ops g.parser.state ch g) in
      record {
        offset = later.offset ∙ first.offset;
        spans = later.spans ∙ first.spans;
        finalized = later.finalized ∙ first.finalized;
      }

  feed_chars-shift :
      (c : ℕ) (old : List AnswerCitationSpan) (v : List ℕ) (k : List AnswerCitationSpan)
      (chunk : List ℕ) (g : Feed)
      → g.parser.clean_offset ≡ c + length v
      → feed_chars ops chunk (shift c old v k g) ≡ shift c old v k (feed_chars ops chunk g)
  unfolding feed_chars
  feed_chars-shift c old v k [] g met = refl
  feed_chars-shift c old v k (ch ∷ chunk) g met = rw (feed_char-shift ops c old v k g met ch) (
      feed_chars-shift c old v k chunk (feed_char ops ch g)
        (unfold feed_char in (feed_in-SameBase g.parser.state ch g).offset ∙ met))

  feed_chars-append :
      (a b : List ℕ) (g : Feed) → feed_chars ops (a ++ b) g ≡ feed_chars ops b (feed_chars ops a g)
  unfolding feed_chars
  feed_chars-append [] b g = refl
  feed_chars-append (ch ∷ a) b g = feed_chars-append a b (feed_char ops ch g)

abbrev pub fresh : Parser → Feed
fresh p = record { parser = p; visible = []; completed = [] }

abbrev pub joined : ParserOutput → ParserOutput → ParserOutput
joined x y = record {
  visible_text = x.visible_text ++ y.visible_text;
  completed_spans = x.completed_spans ++ y.completed_spans;
}

abbrev join_output : ParserOutput → Parser × ParserOutput → Parser × ParserOutput
join_output x (q, y) = (q, joined x y)

abbrev join_result : ParserOutput → Option (Parser × ParserOutput) → Option (Parser × ParserOutput)
join_result x none = none
join_result x (some r) = some (join_output x r)

abbrev pub then_feed :
    CharOps → List ℕ → Option (Parser × ParserOutput) → Option (Parser × ParserOutput)
then_feed ops b none = none
then_feed ops b (some (q, x)) = join_result x (feed ops q b)

-- Both chunks, one after the other, with their outputs joined.
abbrev pub feed_both : CharOps → Parser → List ℕ → List ℕ → Option (Parser × ParserOutput)
feed_both ops p a b = then_feed ops b (feed ops p a)

settle-shift :
    (c : ℕ) (old : List AnswerCitationSpan) (v : List ℕ) (k : List AnswerCitationSpan) (h : Feed)
    → h.parser.clean_offset ≡ c + length v
    → h.parser.spans ≡ old ++ k
    → settle (shift c old v k h)
      ≡ join_output (record { visible_text = v; completed_spans = k }) (settle h)
unfolding settle
settle-shift c old v k h met kept =
    ap₂
      (λ n s. (
        record h.parser { clean_offset = n; spans = s },
        record { visible_text = v ++ h.visible; completed_spans = k ++ h.completed },
      ))
      (omega (arith, length-append v h.visible))
      (sym (append_assoc old k h.completed) ∙ ap (λ s. s ++ h.completed) (sym kept))

module _ (ops : CharOps) (b : List ℕ) (g : Feed) where
  -- Going on from `g` is starting afresh from the parser that `settle` leaves.
  feed_chars-settle :
      feed_chars ops b g
      ≡ shift g.parser.clean_offset g.parser.spans g.visible g.completed
          (feed_chars ops b (fresh (settle g).0))
  unfolding settle
  feed_chars-settle =
      ap (feed_chars ops b) (rw (append-nil, append-nil))
      ∙ feed_chars-shift ops g.parser.clean_offset g.parser.spans g.visible g.completed b
          (fresh (settle g).0) refl

  settle_twice :
      settle (feed_chars ops b g)
      ≡ join_output (settle g).1 (settle (feed_chars ops b (fresh (settle g).0)))
  unfolding settle
  settle_twice =
      ap settle feed_chars-settle
      ∙ settle-shift g.parser.clean_offset g.parser.spans g.visible g.completed
          (feed_chars ops b (fresh (settle g).0))
          (feed_chars-SameBase ops b (fresh (settle g).0)).offset
          (feed_chars-SameBase ops b (fresh (settle g).0)).spans

module _ (ops : CharOps) (p : Parser) (chunk : List ℕ) where
  pub feed_lem :
      (b : Bool)
      → p.finalized ≡ b
      → feed ops p chunk ≡ (if b then none else some (settle (feed_chars ops chunk (fresh p))))
  unfolding feed
  feed_lem b e = ap (λ x. if x then none else some (settle (feed_chars ops chunk (fresh p)))) e

pub settle-finalized :
    (ops : CharOps) (p : Parser) (a : List ℕ)
    → p.finalized ≡ false
    → (settle (feed_chars ops a (fresh p))).0.finalized ≡ false
unfolding settle
settle-finalized ops p a e = (feed_chars-SameBase ops a (fresh p)).finalized ∙ e

-- Feeding a text in one chunk or cut at any place ends in the same parser state and shows the
-- same visible text and the same spans, and is refused in the same cases.
pub feed-append :
    (ops : CharOps) (p : Parser) (a b : List ℕ) → feed ops p (a ++ b) ≡ feed_both ops p a b
feed-append ops p a b = elim (Bool-cases p.finalized) [
  | inl done ↦ rw (feed_lem ops p (a ++ b) true done, feed_lem ops p a true done)
  | inr active ↦
      let g = feed_chars ops a (fresh p) in
      rw
        (
          feed_lem ops p (a ++ b) false active,
          feed_lem ops p a false active,
          feed_lem ops (settle g).0 b false (settle-finalized ops p a active),
        )
        (ap some (ap settle (feed_chars-append ops a b (fresh p)) ∙ settle_twice ops b g))
]
