-- ===== src/Chat/Citation/Spans.antt =====
-- The spans tile the visible text from its start, and stay inside what has been shown.
use ai_financial_copilot.Common.{
  ℕ, ◌+◌, ◌≤◌, ◌≡◌, refl, sym, ap, ◌∙◌, Bool, true, false, List, [], ◌∷◌, ◌++◌, Option, none, some,
  length, length-append, append_assoc, arith, Bool-cases, inl, inr, is_empty, append-nil,
  if◌then◌else◌,
}
use ai_financial_copilot.Chat.Citation.Chunks.{
  SameBase, fresh, feed_lem, feed_chars-SameBase, settle-finalized,
}
use ai_financial_copilot.Chat.Citation.{
  CharOps, Mode, text, bracket, AnswerCitationSpan, ParserOutput, Parser, initial, Feed, position,
  flush_if_pending, flush_pending, show_text, set_mode, on_text, add_refs, close_bracket,
  on_bracket, feed_in, feed_char, feed_chars, settle, feed, finalize, unclosed,
}

-- Each span starts where the one before it ended; the first at `a`, and the last ends at `b`.
abbrev pub Tiles : ℕ → List AnswerCitationSpan → ℕ → Type 0
Tiles a [] b = a ≡ b
Tiles a (s ∷ ss) b = (s.start ≡ a) × (a ≤ s.end) × Tiles s.end ss b

Tiles-snoc :
    (a : ℕ) (ss : List AnswerCitationSpan) (b : ℕ) (s : AnswerCitationSpan)
    → Tiles a ss b
    → s.start ≡ b
    → b ≤ s.end
    → Tiles a (ss ++ s ∷ []) s.end
Tiles-snoc a [] b s h e le = (e ∙ sym h, omega arith, refl)
Tiles-snoc a (t ∷ ss) b s h e le = (h.0, h.1, Tiles-snoc t.end ss b s h.2 e le)

record IsPlacedFeed (g : Feed) : Type 0 where
  tiles : Tiles 0 (g.parser.spans ++ g.completed) g.parser.last_span_end
  shown : g.parser.last_span_end ≤ position g
  waiting :
      is_empty g.parser.pending_refs ≡ false
      → (g.parser.last_span_end ≤ g.parser.pending_pos) × (g.parser.pending_pos ≤ position g)

flush_if_pending-IsPlacedFeed : (g : Feed) → IsPlacedFeed g → IsPlacedFeed (flush_if_pending g)
unfolding flush_if_pending flush_pending
flush_if_pending-IsPlacedFeed g h = elim (Bool-cases (is_empty g.parser.pending_refs)) [
  | inl idle ↦ rw idle h
  | inr busy ↦ rw busy (record {
    tiles = rw (← append_assoc) (
        Tiles-snoc 0 (g.parser.spans ++ g.completed) g.parser.last_span_end _ h.tiles refl
          (h.waiting busy).0);
    shown = (h.waiting busy).1;
    waiting = λ e. absurd (ground arith);
  })
]

show_text-IsPlacedFeed : (s : List ℕ) (g : Feed) → IsPlacedFeed g → IsPlacedFeed (show_text s g)
unfolding show_text
show_text-IsPlacedFeed s g h = record {
  tiles = h.tiles;
  shown = omega (arith, length-append g.visible s, h.shown);
  waiting = λ e. ((h.waiting e).0, omega (arith, length-append g.visible s, (h.waiting e).1));
}

set_mode-IsPlacedFeed :
    (m : Mode) (s : List ℕ) (g : Feed) → IsPlacedFeed g → IsPlacedFeed (set_mode m s g)
unfolding set_mode
set_mode-IsPlacedFeed m s g h = record { tiles = h.tiles; shown = h.shown; waiting = h.waiting }

ruleset placed_rules =
    (flush_if_pending-IsPlacedFeed, show_text-IsPlacedFeed, set_mode-IsPlacedFeed)

module _ (ops : CharOps) where
  add_refs-IsPlacedFeed :
      (refs : List (List ℕ)) (g : Feed) → IsPlacedFeed g → IsPlacedFeed (add_refs ops refs g)
  unfolding add_refs
  add_refs-IsPlacedFeed refs g h = elim (Bool-cases (is_empty g.parser.pending_refs)) [
    | inl idle ↦
        rw idle (record { tiles = h.tiles; shown = h.shown; waiting = λ e. (h.shown, omega arith) })
    | inr busy ↦
        rw busy (record { tiles = h.tiles; shown = h.shown; waiting = λ e. h.waiting busy })
  ]

  IsPlacedFeed-if :
      (b : Bool) (g h : Feed) → IsPlacedFeed g → IsPlacedFeed h → IsPlacedFeed (if b then g else h)
  IsPlacedFeed-if true g h pg ph = pg
  IsPlacedFeed-if false g h pg ph = ph

  feed_in-IsPlacedFeed :
      (m : Mode) (ch : ℕ) (g : Feed) → IsPlacedFeed g → IsPlacedFeed (feed_in ops m ch g)
  unfolding feed_in on_text on_bracket close_bracket
  feed_in-IsPlacedFeed text ch g h = search (placed_rules, IsPlacedFeed-if) depth 8
  feed_in-IsPlacedFeed bracket ch g h =
      search (placed_rules, IsPlacedFeed-if, add_refs-IsPlacedFeed) depth 12

  feed_chars-IsPlacedFeed :
      (chunk : List ℕ) (g : Feed) → IsPlacedFeed g → IsPlacedFeed (feed_chars ops chunk g)
  unfolding feed_chars feed_char
  feed_chars-IsPlacedFeed [] g h = h
  feed_chars-IsPlacedFeed (ch ∷ chunk) g h =
      feed_chars-IsPlacedFeed chunk _ (feed_in-IsPlacedFeed g.parser.state ch g h)

-- What holds of the parser between two calls.
pub record IsPlaced (p : Parser) : Type 0 where
  pub tiles : Tiles 0 p.spans p.last_span_end
  pub shown : p.last_span_end ≤ p.clean_offset
  pub waiting :
      is_empty p.pending_refs ≡ false
      → (p.last_span_end ≤ p.pending_pos) × (p.pending_pos ≤ p.clean_offset)

start :
    {p : Parser}
    → IsPlaced p
    → (v : List ℕ) → IsPlacedFeed (record { parser = p; visible = v; completed = [] })
start h v = record {
  tiles = rw append-nil h.tiles;
  shown = omega (arith, h.shown);
  waiting = λ e. ((h.waiting e).0, omega (arith, (h.waiting e).1));
}

settle-IsPlaced : (g : Feed) → IsPlacedFeed g → IsPlaced (settle g).0
unfolding settle
settle-IsPlaced g h = record { tiles = h.tiles; shown = h.shown; waiting = h.waiting }

IsPlaced-initial : IsPlaced initial
IsPlaced-initial = record { tiles = refl; shown = omega arith; waiting = λ e. ground arith }

-- A caller's loop: every chunk, then `finalize`, with the visible text that came out.
abbrev pub prepend : List ℕ → Option (Parser × List ℕ) → Option (Parser × List ℕ)
prepend v none = none
prepend v (some (p, w)) = some (p, v ++ w)

abbrev pub visible_of : Option (Parser × ParserOutput) → Option (Parser × List ℕ)
visible_of none = none
visible_of (some (p, out)) = some (p, out.visible_text)

abbrev pub and_then :
    (Parser → Option (Parser × List ℕ)) → Option (Parser × ParserOutput) → Option (Parser × List ℕ)
and_then k none = none
and_then k (some (p, out)) = prepend out.visible_text (k p)

module _ (ops : CharOps) where
  unfoldable pub stream : List (List ℕ) → Parser → Option (Parser × List ℕ)
  stream [] p = visible_of (finalize p)
  stream (chunk ∷ chunks) p = and_then (stream chunks) (feed ops p chunk)

-- `p` ended a stream whose visible text is `shown`.
pub record IsComplete (offset : ℕ) (p : Parser) (shown : List ℕ) : Type 0 where
  pub tiles : Tiles 0 p.spans p.last_span_end
  pub inside : p.last_span_end ≤ p.clean_offset
  pub offset_met : p.clean_offset ≡ offset + length shown
  pub flushed : p.pending_refs ≡ []
  pub closed : p.finalized ≡ true

is_empty→nil : (xs : List (List ℕ)) → is_empty xs ≡ true → xs ≡ []
is_empty→nil [] h = refl
is_empty→nil (x ∷ xs) h = cc

flush-pending_nil : (g : Feed) → (flush_if_pending g).parser.pending_refs ≡ []
unfolding flush_if_pending flush_pending
flush-pending_nil g = elim (Bool-cases (is_empty g.parser.pending_refs)) [
  | inl idle ↦ rw idle (is_empty→nil g.parser.pending_refs idle)
  | inr busy ↦ rw busy
]

flush-SameBase : (g : Feed) → SameBase g (flush_if_pending g)
unfolding flush_if_pending flush_pending
flush-SameBase g = ground arith

visible-flush : (g : Feed) → (flush_if_pending g).visible ≡ g.visible
unfolding flush_if_pending flush_pending
visible-flush g = ground arith

finalize_total :
    (p : Parser)
    → IsPlaced p
    → p.finalized ≡ false
    → (q : Parser) × (shown : List ℕ) × (visible_of (finalize p) ≡ some (q, shown))
      × IsComplete p.clean_offset q shown
unfolding finalize settle
finalize_total p h active =
    let g : Feed = record {
      parser = record p { finalized = true };
      visible = unclosed p;
      completed = [];
    } in
    let f = flush_if_pending g in
    let placed = flush_if_pending-IsPlacedFeed g (
      start {p = record p { finalized = true }}
        (record { tiles = h.tiles; shown = h.shown; waiting = h.waiting }) (unclosed p)) in
    (
      record f.parser {
        clean_offset = position f;
        spans = f.parser.spans ++ f.completed;
        state = text;
        bracket_buffer = [];
      },
      f.visible,
      ap
          (λ b. visible_of (
            if b
            then none
            else some (
              record f.parser {
                clean_offset = position f;
                spans = f.parser.spans ++ f.completed;
                state = text;
                bracket_buffer = [];
              },
              record { visible_text = f.visible; completed_spans = f.completed },
            )))
          active,
      record {
        tiles = placed.tiles;
        inside = placed.shown;
        offset_met = ap (λ n. n + length f.visible) (flush-SameBase g).offset;
        flushed = flush-pending_nil g;
        closed = (flush-SameBase g).finalized;
      },
    )

offset-settle :
    (g : Feed)
    → (settle g).0.clean_offset ≡ g.parser.clean_offset + length (settle g).1.visible_text
unfolding settle
offset-settle g = refl

stream_total :
    (ops : CharOps) (chunks : List (List ℕ)) (p : Parser)
    → IsPlaced p
    → p.finalized ≡ false
    → (q : Parser) × (shown : List ℕ) × (stream ops chunks p ≡ some (q, shown))
      × IsComplete p.clean_offset q shown
unfolding stream
stream_total ops [] p h active = finalize_total p h active
stream_total ops (chunk ∷ chunks) p h active =
    let g = feed_chars ops chunk (fresh p) in
    let placed = feed_chars-IsPlacedFeed ops chunk (fresh p) (start h []) in
    let next : IsPlaced (settle g).0 = settle-IsPlaced g placed in
    let (q, shown, ran, done) =
      stream_total ops chunks (settle g).0 next (settle-finalized ops p chunk active) in
    (
      q,
      (settle g).1.visible_text ++ shown,
      rw (feed_lem ops p chunk false active, ran),
      record {
        tiles = done.tiles;
        inside = done.inside;
        offset_met = omega (
          arith,
          done.offset_met,
          length-append (settle g).1.visible_text shown,
          offset-settle g,
          (feed_chars-SameBase ops chunk (fresh p)).offset,
        );
        flushed = done.flushed;
        closed = done.closed;
      },
    )

-- However an answer is cut into chunks, the parser accepts every chunk and the end, and then its
-- spans tile the visible text from offset 0 with no gap and no overlap, the last one ends inside
-- that text, the offset is the length of the visible text, no reference is left pending and the
-- parser is finalized.
pub stream_spans :
    (ops : CharOps) (chunks : List (List ℕ))
    → (q : Parser) × (shown : List ℕ) × (stream ops chunks initial ≡ some (q, shown))
      × IsComplete 0 q shown
stream_spans ops chunks = stream_total ops chunks initial IsPlaced-initial refl
