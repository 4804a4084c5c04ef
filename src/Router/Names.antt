-- ===== src/Router/Names.antt =====
-- src/services/router/company_name.py. What depends on Unicode's tables (the folding of accents and
-- case, white space, the characters of words) is a parameter; the rest is by characters.
use Prim.Native.Char.{Char, code}
use Prim.Native.String.{String, ◌++◌}
use mathlib.Core.List.{reverse}
use ai_financial_copilot.Common.{
  ℕ, Bool, false, ◌&&◌, ◌||◌, not, List, [], ◌∷◌, Option, none, some, nat_beq, elem, if◌then◌else◌,
  string_eq,
}
use ai_financial_copilot.Common.Text.{join}

pub record NameOps : Type 0 where
  -- NFKD, without the combining characters, in lower case
  pub fold : String → String
  -- \s and \w
  pub is_space : ℕ → Bool
  pub is_word : ℕ → Bool

-- `_CORP_SUFFIXES`
abbrev pub corp_suffixes : List String
corp_suffixes =
    "limited" ∷ "ltd" ∷ "llc" ∷ "inc" ∷ "incorporated" ∷ "corp" ∷ "corporation" ∷ "company" ∷ "co"
    ∷ "plc" ∷ "lp" ∷ "llp" ∷ "pllc" ∷ "pc" ∷ "holdings" ∷ "holding" ∷ "group" ∷ "trust" ∷ "reit"
    ∷ "pty" ∷ "pte" ∷ "sdn" ∷ "bhd" ∷ "gmbh" ∷ "ag" ∷ "kg" ∷ "kgaa" ∷ "se" ∷ "bv" ∷ "nv" ∷ "cv"
    ∷ "sa" ∷ "sas" ∷ "sarl" ∷ "sca" ∷ "srl" ∷ "spa" ∷ "sl" ∷ "ab" ∷ "oy" ∷ "oyj" ∷ "as" ∷ "asa"
    ∷ "aps" ∷ "kk" ∷ "gk" ∷ []

abbrev has_char : ℕ → String → Bool
has_char c String.[] = false
has_char c (String.◌∷◌ d s) = nat_beq (code d) c || has_char c s

-- whether a bracketed text begins here, and the character that ends it
abbrev opens : ℕ → String → Option ℕ
opens c s =
    if nat_beq c 40 && has_char 41 s
    then some 41
    else if nat_beq c 91 && has_char 93 s
    then some 93
    else none

-- what stands in the result for a character outside brackets
abbrev shown : Option ℕ → Char → String
shown none c = String.◌∷◌ c String.[]
shown (some end) c = " "

-- `_BRACKETED.sub(" ", …)`, outside brackets or within those that a character ends
abbrev drop_bracketed : Option ℕ → String → String
drop_bracketed mode String.[] = ""
drop_bracketed none (String.◌∷◌ c s) =
    shown (opens (code c) s) c ++ drop_bracketed (opens (code c) s) s
drop_bracketed (some end) (String.◌∷◌ c s) =
    drop_bracketed (if nat_beq (code c) end then none else some end) s

module _ (names : NameOps) where
  -- `_NON_WORD.sub(" ", ….replace(".", ""))`
  abbrev separate : String → String
  separate String.[] = ""
  separate (String.◌∷◌ c s) =
      let kept = (names.is_word (code c) || names.is_space (code c)) && not (nat_beq (code c) 95) in
      (if nat_beq (code c) 46 then "" else if kept then String.◌∷◌ c String.[] else " ")
      ++ separate s

  abbrev push_word : String × List String → List String
  push_word (String.[], ws) = ws
  push_word (String.◌∷◌ c w, ws) = String.◌∷◌ c w ∷ ws

  -- the word that a text begins with, and the words after it
  abbrev split_from : String → String × List String
  split_from String.[] = ("", [])
  split_from (String.◌∷◌ c s) =
      let (w, ws) = split_from s in
      if names.is_space (code c) then ("", push_word (w, ws)) else (String.◌∷◌ c w, ws)

  -- the words of a name
  abbrev pub words : String → List String
  words name = push_word (split_from (separate (drop_bracketed none (names.fold name))))

-- the loop that pops suffixes, on the words in reverse order
abbrev pop_suffixes : List String → List String
pop_suffixes [] = []
pop_suffixes (w ∷ []) = w ∷ []
pop_suffixes (w ∷ v ∷ ws) =
    let popped = pop_suffixes (v ∷ ws) in if elem w corp_suffixes then popped else w ∷ v ∷ ws

abbrev pub without_suffixes : List String → List String
without_suffixes ws = reverse (pop_suffixes (reverse ws))

-- `normalize_company`
unfoldable pub normalize_company : NameOps → String → String
normalize_company names name = join " " (without_suffixes (words names name))
