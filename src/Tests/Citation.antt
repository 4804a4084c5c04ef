-- ===== src/Tests/Citation.antt =====
-- The citation parser, on "a[S1]".
use ai_financial_copilot.Common.{ℕ, ◌≡◌, List, [], ◌∷◌, ◌++◌, some, ltb, ◌&&◌, nat_beq}
use ai_financial_copilot.Chat.Citation.{CharOps, Parser, initial, feed}
use ai_financial_copilot.Chat.Citation.Chunks.{feed-append, feed_both}
use ai_financial_copilot.Chat.Citation.Spans.{stream, stream_spans, IsComplete}

abbrev ascii : CharOps
ascii = record {
  is_digit = λ c. ltb 47 c && ltb c 58;
  is_space = λ c. nat_beq c 32;
  upper = λ s. s;
}

-- "a[S1] b"
abbrev cited : List ℕ
cited = 97 ∷ 91 ∷ 83 ∷ 49 ∷ 93 ∷ 32 ∷ 98 ∷ []

feed-append_example :
    feed ascii initial ((97 ∷ 91 ∷ []) ++ 83 ∷ 49 ∷ 93 ∷ [])
    ≡ feed_both ascii initial (97 ∷ 91 ∷ []) (83 ∷ 49 ∷ 93 ∷ [])
feed-append_example = feed-append ascii initial (97 ∷ 91 ∷ []) (83 ∷ 49 ∷ 93 ∷ [])

stream_spans_example :
    (q : Parser) × (shown : List ℕ) × (stream ascii (cited ∷ cited ∷ []) initial ≡ some (q, shown))
    × IsComplete 0 q shown
stream_spans_example = stream_spans ascii (cited ∷ cited ∷ [])
