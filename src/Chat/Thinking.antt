-- ===== src/Chat/Thinking.antt =====
-- src/services/chat/events.py: `ThinkingStripper`, which takes the reasoning of a model out of its stream.
-- The `while` loop runs on fuel; `none` is fuel that has run out.
pub mod Ends
pub mod Lost
use Prim.Native.Char.{code}
use Prim.Native.String.{String, ◌++◌}
use ai_financial_copilot.Common.{
  ℕ, zero, suc, List, [], ◌∷◌, Bool, true, false, Option, none, some, if◌then◌else◌, nat_beq,
}
use ai_financial_copilot.Common.Text.{chars}

-- what follows a prefix
abbrev pub after_prefix : String → String → Option String
after_prefix String.[] s = some s
after_prefix (String.◌∷◌ c p) String.[] = none
after_prefix (String.◌∷◌ c p) (String.◌∷◌ d s) =
    let rest = after_prefix p s in if nat_beq (code c) (code d) then rest else none

abbrev pub put_before : String → Option (String × String) → Option (String × String)
put_before c none = none
put_before c (some (head, rest)) = some (c ++ head, rest)

abbrev pub or_later : Option String → Option (String × String) → Option (String × String)
or_later none later = later
or_later (some rest) later = some ("", rest)

-- what stands before the first occurrence of a tag, and after it; `none` is find() == -1
abbrev pub find_tag : String → String → Option (String × String)
find_tag tag String.[] = or_later (after_prefix tag String.[]) none
find_tag tag (String.◌∷◌ c s) =
    or_later (after_prefix tag (String.◌∷◌ c s))
      (put_before (String.◌∷◌ c String.[]) (find_tag tag s))

-- s.lstrip("\n")
abbrev pub lstrip_newlines : String → String
lstrip_newlines String.[] = String.[]
lstrip_newlines (String.◌∷◌ c s) =
    let rest = lstrip_newlines s in if nat_beq (code c) 10 then rest else String.◌∷◌ c s

abbrev pub is_blank : String → Bool
is_blank String.[] = true
is_blank (String.◌∷◌ c s) = false

-- ThinkingStripper; the buffer is empty between two calls
pub record Stripper : Type 0 where
  pub in_think : Bool
  pub strip_leading_newlines : Bool
  pub buf : String

abbrev pub new_stripper : Stripper
new_stripper = record { in_think = false; strip_leading_newlines = false; buf = "" }

-- one round of the loop, with the text it puts out; `stop` is a `break`
pub data Round : Type 0 where
  stop next : String → Stripper → Round

abbrev pub within : Stripper → Option (String × String) → Round
within st none = stop "" (record st { buf = "" })
within st (some (thought, rest)) =
    next "" (record { in_think = false; strip_leading_newlines = true; buf = rest })

abbrev pub outside : Stripper → Option (String × String) → Round
outside st none = stop st.buf (record st { buf = "" })
outside st (some (head, rest)) = next head (record st { in_think = true; buf = rest })

abbrev pub stripped : Bool → Stripper → Stripper
stripped true st = record st { strip_leading_newlines = false; buf = lstrip_newlines st.buf }
stripped false st = st

abbrev pub text_round : Stripper → Round
text_round st = if is_blank st.buf then stop "" st else outside st (find_tag "<think>" st.buf)

unfoldable pub one_round : Stripper → Round
one_round st =
    if is_blank st.buf
    then stop "" st
    else if st.in_think
    then within st (find_tag "</think>" st.buf)
    else text_round (stripped st.strip_leading_newlines st)

abbrev pub prepend : String → Option (String × Stripper) → Option (String × Stripper)
prepend head none = none
prepend head (some (text, st)) = some (head ++ text, st)

abbrev pub after_round :
    Round → (Stripper → Option (String × Stripper)) → Option (String × Stripper)
after_round (stop text st) more = some (text, st)
after_round (next text st) more = prepend text (more st)

abbrev pub drain : ℕ → Stripper → Option (String × Stripper)
drain zero st = none
drain (suc fuel) st = after_round (one_round st) (drain fuel)

-- `feed`: each round but the last takes a tag out of the buffer
unfoldable pub feed : String → Stripper → Option (String × Stripper)
feed text st = drain (suc (chars (st.buf ++ text))) (record st { buf = st.buf ++ text })

abbrev pub feed_rest :
    (Stripper → Option (String × Stripper))
    → Option (String × Stripper)
    → Option (String × Stripper)
feed_rest more none = none
feed_rest more (some (text, st)) = prepend text (more st)

-- the chunks of a stream, one after the other
abbrev pub feed_all : List String → Stripper → Option (String × Stripper)
feed_all [] st = some ("", st)
feed_all (chunk ∷ chunks) st = feed_rest (feed_all chunks) (feed chunk st)
