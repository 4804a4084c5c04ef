-- ===== src/Chat/Thinking/Lost.antt =====
-- src/services/chat/events.py: what becomes of a thinking block whose closing tag comes in two chunks.
use Prim.Native.String.{String, ◌++◌}
use ai_financial_copilot.Common.{
  ℕ, suc, ◌≡◌, refl, ap, ◌∙◌, Bool, true, List, [], ◌∷◌, none, some, All,
}
use ai_financial_copilot.Common.Text.{chars}
use text.Mathlib.TextLemmas.{nil-append}
use ai_financial_copilot.Chat.Thinking.{find_tag, Stripper, one_round, drain, feed, feed_all}

abbrev pub thinking : Bool → Stripper
thinking strip = record { in_think = true; strip_leading_newlines = strip; buf = "" }

holding : Bool → String → Stripper
holding strip buf = record { in_think = true; strip_leading_newlines = strip; buf = buf }

drain-thinking :
    (fuel : ℕ) (strip : Bool) (buf : String)
    → find_tag "</think>" buf ≡ none
    → drain (suc fuel) (holding strip buf) ≡ some ("", thinking strip)
unfolding one_round holding
drain-thinking fuel strip String.[] h = refl
drain-thinking fuel strip (String.◌∷◌ c buf) h = rw h refl

feed-thinking :
    (strip : Bool) (chunk : String)
    → find_tag "</think>" chunk ≡ none
    → feed chunk (thinking strip) ≡ some ("", thinking strip)
unfolding feed holding
feed-thinking strip chunk h =
    drain-thinking (chars ("" ++ chunk)) strip ("" ++ chunk)
      (ap (find_tag "</think>") (nil-append chunk) ∙ h)

-- Within a thinking block, where no chunk holds a whole closing tag, everything that is streamed is
-- dropped and the block never ends: also where the chunks together close it, and an answer
-- follows.
pub feed_all-thinking :
    (strip : Bool) (chunks : List String)
    → All (λ chunk. find_tag "</think>" chunk ≡ none) chunks
    → feed_all chunks (thinking strip) ≡ some ("", thinking strip)
feed_all-thinking strip [] h = refl
feed_all-thinking strip (chunk ∷ chunks) h =
    rw (feed-thinking strip chunk h.0, feed_all-thinking strip chunks h.1) refl
