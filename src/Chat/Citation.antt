-- ===== src/Chat/Citation.antt =====
-- src/services/chat/citation_parser.py: the incremental parser of `[S1]` markers.
-- A text is the list of its code points. `visible` and `completed`, the lists that `feed` hands
-- down, are fields of `Feed`; the parts of `visible` stand joined.
pub mod Chunks
pub mod Spans
use ai_financial_copilot.Common.{
  ℕ, ◌+◌, ◌≡◌, Bool, true, false, ◌&&◌, ◌||◌, List, [], ◌∷◌, ◌++◌, Option, none, some, length, leb,
  nat_beq, if◌then◌else◌, is_empty, map, filter_by, not,
}

-- The tables of the character classes \d and \s, and `str.upper`.
pub record CharOps : Type 0 where
  pub is_digit : ℕ → Bool
  pub is_space : ℕ → Bool
  pub upper : List ℕ → List ℕ

pub data Mode : Type 0 where
  text bracket : Mode

-- AnswerCitationSpan of src/schemas/retrieval.py
pub record AnswerCitationSpan : Type 0 where
  pub start : ℕ
  pub end : ℕ
  pub ref_ids : List (List ℕ)

pub record ParserOutput : Type 0 where
  pub visible_text : List ℕ
  pub completed_spans : List AnswerCitationSpan

pub record Parser : Type 0 where
  pub state : Mode
  pub bracket_buffer : List ℕ
  pub clean_offset : ℕ
  pub last_span_end : ℕ
  pub pending_refs : List (List ℕ)
  pub pending_pos : ℕ
  pub spans : List AnswerCitationSpan
  pub finalized : Bool

abbrev pub initial : Parser
initial = record {
  state = text;
  bracket_buffer = [];
  clean_offset = 0;
  last_span_end = 0;
  pending_refs = [];
  pending_pos = 0;
  spans = [];
  finalized = false;
}

abbrev pub max_bracket_len : ℕ
max_bracket_len = 30

pub record Feed : Type 0 where
  pub parser : Parser
  pub visible : List ℕ
  pub completed : List AnswerCitationSpan

-- Where the next visible character goes.
abbrev pub position : Feed → ℕ
position g = g.parser.clean_offset + length g.visible

-- `_flush_pending`, the span appended to `completed`
unfoldable pub flush_pending : Feed → Feed
flush_pending g = record g {
  parser = record g.parser { last_span_end = g.parser.pending_pos; pending_refs = [] };
  completed =
      g.completed
      ++ (record {
        start = g.parser.last_span_end;
        end = g.parser.pending_pos;
        ref_ids = g.parser.pending_refs;
      })
        ∷ [];
}

-- `if self._pending_refs: completed.append(self._flush_pending())`
unfoldable pub flush_if_pending : Feed → Feed
flush_if_pending g = if is_empty g.parser.pending_refs then g else flush_pending g

unfoldable pub show_text : List ℕ → Feed → Feed
show_text s g = record g { visible = g.visible ++ s }

unfoldable pub set_mode : Mode → List ℕ → Feed → Feed
set_mode m buffer g = record g { parser = record g.parser { state = m; bracket_buffer = buffer } }

-- `_on_text`
unfoldable pub on_text : ℕ → Feed → Feed
on_text ch g =
    if nat_beq ch b'[' then set_mode bracket [] g else show_text (ch ∷ []) (flush_if_pending g)

-- The lines behind the loop: the offset moves on, the spans are kept.
unfoldable pub settle : Feed → Parser × ParserOutput
settle g = (
  record g.parser { clean_offset = position g; spans = g.parser.spans ++ g.completed },
  record { visible_text = g.visible; completed_spans = g.completed },
)

abbrev unclosed : Parser → List ℕ
unclosed p = elim p.state [ text ↦ [] | bracket ↦ b'[' ∷ p.bracket_buffer ]

-- `finalize`
unfoldable pub finalize : Parser → Option (Parser × ParserOutput)
finalize p =
    let q = record p { finalized = true } in
    let (r, out) =
      settle (flush_if_pending (record { parser = q; visible = unclosed p; completed = [] })) in
    if p.finalized then none else some (record r { state = text; bracket_buffer = [] }, out)

module _ (ops : CharOps) where
  open ops use {is_digit, is_space, upper}

  -- `S` under re.IGNORECASE: S, s and the long s
  abbrev is_s : ℕ → Bool
  is_s c = nat_beq c b'S' || (nat_beq c b's' || nat_beq c 0x17f)

  -- `_BRACKET_RE`, `^S(\d+)(?:,\s*S\d+)*$`, as the automaton of its four places
  mutual
    at_ref : List ℕ → Bool
    at_ref [] = false
    at_ref (c ∷ s) = is_s c && at_number s

    at_number : List ℕ → Bool
    at_number [] = false
    at_number (c ∷ s) = is_digit c && in_number s

    in_number : List ℕ → Bool
    in_number [] = true
    in_number (c ∷ s) = is_digit c && in_number s || nat_beq c b',' && in_gap s

    in_gap : List ℕ → Bool
    in_gap [] = false
    in_gap (c ∷ s) = is_space c && in_gap s || is_s c && at_number s

  -- `_is_citation`
  unfoldable pub is_citation : List ℕ → Bool
  unfolding at_ref at_number in_number in_gap
  is_citation content = at_ref content

  lstrip : List ℕ → List ℕ
  lstrip [] = []
  lstrip (c ∷ s) = let rest = lstrip s in if is_space c then rest else c ∷ s

  rstrip : List ℕ → List ℕ
  rstrip [] = []
  rstrip (c ∷ s) = let rest = rstrip s in if is_space c && is_empty rest then [] else c ∷ rest

  -- str.strip
  unfoldable pub strip : List ℕ → List ℕ
  unfolding lstrip rstrip
  strip s = rstrip (lstrip s)

  -- s.split(","), the part before the first comma in `part`
  split_comma : List ℕ → List ℕ → List (List ℕ)
  split_comma part [] = part ∷ []
  split_comma part (c ∷ s) =
      let here = part ∷ split_comma [] s in
      let more = split_comma (part ++ c ∷ []) s in if nat_beq c b',' then here else more

  -- `_parse_refs`
  unfoldable pub parse_refs : List ℕ → List (List ℕ)
  unfolding split_comma
  parse_refs content =
      map (λ part. upper (strip part))
        (filter_by (λ part. not (is_empty (strip part))) (split_comma [] content))

  -- the refs of a valid bracket join those pending at the same position, or start anew
  unfoldable pub add_refs : List (List ℕ) → Feed → Feed
  add_refs refs g =
      if is_empty g.parser.pending_refs
      then record g { parser = record g.parser { pending_refs = refs; pending_pos = position g } }
      else record g { parser = record g.parser { pending_refs = g.parser.pending_refs ++ refs } }

  -- the `ch == "]"` branch of `_on_bracket`
  unfoldable pub close_bracket : Feed → Feed
  close_bracket g =
      let content = strip g.parser.bracket_buffer in
      set_mode text [] (
        if is_citation content
        then add_refs (parse_refs content) g
        else show_text (b'[' ∷ g.parser.bracket_buffer ++ b']' ∷ []) (flush_if_pending g))

  -- `_on_bracket`
  unfoldable pub on_bracket : ℕ → Feed → Feed
  on_bracket ch g =
      let buffer = g.parser.bracket_buffer in
      if nat_beq ch b']'
      then close_bracket g
      else if nat_beq ch b'['
      then set_mode bracket [] (show_text (b'[' ∷ buffer) (flush_if_pending g))
      else if leb max_bracket_len (length buffer)
      then set_mode text [] (show_text (b'[' ∷ buffer ++ ch ∷ []) (flush_if_pending g))
      else set_mode bracket (buffer ++ ch ∷ []) g

  -- `_feed_char`
  unfoldable pub feed_in : Mode → ℕ → Feed → Feed
  feed_in text ch g = on_text ch g
  feed_in bracket ch g = on_bracket ch g

  unfoldable pub feed_char : ℕ → Feed → Feed
  feed_char ch g = feed_in g.parser.state ch g

  -- the loop of `feed`
  unfoldable pub feed_chars : List ℕ → Feed → Feed
  feed_chars [] g = g
  feed_chars (ch ∷ chunk) g = feed_chars chunk (feed_char ch g)

  -- `feed`; `none` is the RuntimeError of a finalized parser
  unfoldable pub feed : Parser → List ℕ → Option (Parser × ParserOutput)
  feed p chunk =
      if p.finalized
      then none
      else some (settle (feed_chars chunk (record { parser = p; visible = []; completed = [] })))
