-- ===== src/Common/Text.antt =====
-- Text by characters, and the operations of Python's `str`, `re` and `uuid` whose tables (case,
-- white space, hexadecimal digits) no statement depends on: those are parameters.
use Prim.Native.Nat.{ℕ, zero, suc}
use Prim.Native.Char.{code}
use Prim.Native.String.{String, ◌++◌}
use mathlib.Core.Option.{Option}
use mathlib.Core.List.{List, [], ◌∷◌}
use mathlib.Core.Bool.{Bool, true, false, ◌&&◌, ◌||◌}
use ai_financial_copilot.Common.Tests.{if◌then◌else◌, nat_beq, ltb}

-- len(s)
abbrev pub chars : String → ℕ
chars String.[] = 0
chars (String.◌∷◌ c s) = suc (chars s)

-- s[:n]
abbrev pub cut : ℕ → String → String
cut zero s = String.[]
cut (suc n) String.[] = String.[]
cut (suc n) (String.◌∷◌ c s) = String.◌∷◌ c (cut n s)

-- sep.join(parts)
abbrev pub join : String → List String → String
join sep [] = ""
join sep (x ∷ []) = x
join sep (x ∷ y ∷ xs) = x ++ sep ++ join sep (y ∷ xs)

-- s.partition("\n"): what stands before the first line break, the break, and the rest
abbrev pub partition_line : String → String × String × String
partition_line String.[] = ("", "", "")
partition_line (String.◌∷◌ c s) =
    let (head, sep, rest) = partition_line s in
    if nat_beq (code c) 10 then ("", String.◌∷◌ c String.[], s) else (String.◌∷◌ c head, sep, rest)

-- s <= t, by code points
abbrev pub text_leb : String → String → Bool
text_leb String.[] t = true
text_leb (String.◌∷◌ c s) String.[] = false
text_leb (String.◌∷◌ c s) (String.◌∷◌ d t) =
    ltb (code c) (code d) || nat_beq (code c) (code d) && text_leb s t

pub record TextOps : Type 0 where
  pub strip : String → String
  pub rstrip : String → String
  pub upper : String → String
  pub lower : String → String
  pub casefold : String → String
  -- s.split()
  pub split : String → List String
  -- s.replace(old, new), and s.replace(old, new, 1)
  pub replace : String → String → String → String
  pub replace_once : String → String → String → String
  -- a UUID is its 128-bit number; `none` is the ValueError of `UUID(s)`
  pub parse_uuid : String → Option ℕ
  -- str(uuid)
  pub show_uuid : ℕ → String
