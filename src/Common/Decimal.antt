-- ===== src/Common/Decimal.antt =====
-- `str(n)` of a natural number, and that no two numbers print alike.
use Prim.Native.Nat.{ℕ, zero, suc, ◌+◌, ◌*◌, ◌/◌, ◌%◌, ◌<◌, ◌-◌}
use Prim.Native.Char.{Char, code}
use Prim.Native.String.{String}
use mathlib.Core.Path.{◌≡◌, refl, sym, ap, ◌∙◌}
use mathlib.Core.Logic.{inl, inr}
use native.Mathlib.Omega.{arith}
use text.Mathlib.TextLemmas.{tail-eq_of_cons-eq}
use ai_financial_copilot.Common.Tests.{nat_beq, if◌then◌else◌, ltb, ltb→lt, Bool-cases}

digit : ℕ → Char
digit n =
    if nat_beq n 0
    then "0"
    else if nat_beq n 1
    then "1"
    else if nat_beq n 2
    then "2"
    else if nat_beq n 3
    then "3"
    else if nat_beq n 4
    then "4"
    else if nat_beq n 5
    then "5"
    else if nat_beq n 6
    then "6"
    else if nat_beq n 7
    then "7"
    else if nat_beq n 8
    then "8"
    else "9"

-- the digits of `n` before `rest`; the fuel bounds their number
digits : ℕ → ℕ → String → String
digits zero n rest = rest
digits (suc f) n rest =
    let more = digits f (n / 10) (String.◌∷◌ (digit (n % 10)) rest) in
    if ltb n 10 then String.◌∷◌ (digit n) rest else more

unfoldable pub show : ℕ → String
unfolding digits digit
show n = digits (suc n) n String.[]

-- reading the digits back
pub read : ℕ → String → ℕ
read acc String.[] = acc
read acc (String.◌∷◌ c s) = read (acc * 10 + (code c - 48)) s

code-digit : (n : ℕ) → n < 10 → code (digit n) - 48 ≡ n
unfolding digit
code-digit zero h = refl
code-digit (suc zero) h = refl
code-digit (suc (suc zero)) h = refl
code-digit (suc (suc (suc zero))) h = refl
code-digit (suc (suc (suc (suc zero)))) h = refl
code-digit (suc (suc (suc (suc (suc zero))))) h = refl
code-digit (suc (suc (suc (suc (suc (suc zero)))))) h = refl
code-digit (suc (suc (suc (suc (suc (suc (suc zero))))))) h = refl
code-digit (suc (suc (suc (suc (suc (suc (suc (suc zero)))))))) h = refl
code-digit (suc (suc (suc (suc (suc (suc (suc (suc (suc zero))))))))) h = refl
code-digit (suc (suc (suc (suc (suc (suc (suc (suc (suc (suc n)))))))))) h = absurd (omega arith)

read-digits : (f n : ℕ) (rest : String) → n < f → read 0 (digits f n rest) ≡ read n rest
unfolding read digits
read-digits zero n rest h = elim h [ ]
read-digits (suc f) n rest h = elim (Bool-cases (ltb n 10)) [
  | inl last ↦ rw last (ap (λ k. read k rest) (omega (arith, code-digit n (ltb→lt n 10 last))))
  | inr more ↦ rw more (
      read-digits f (n / 10) _ (ground arith)
      ∙ ap (λ k. read k rest) (omega (arith, code-digit (n % 10) (omega arith))))
]

-- The decimal text of a number reads back as the number.
pub read-show : (n : ℕ) → read 0 (show n) ≡ n
unfolding show read
read-show n = read-digits (suc n) n String.[] (omega arith)

pub show_injective : (a b : ℕ) → show a ≡ show b → a ≡ b
show_injective a b h = sym (read-show a) ∙ ap (read 0) h ∙ read-show b

-- `f"S{n}"` and the like: one letter, then the number
unfoldable pub label : Char → ℕ → String
label c n = String.◌∷◌ c (show n)

pub label_injective : (c : Char) (a b : ℕ) → label c a ≡ label c b → a ≡ b
unfolding label
label_injective c a b h = show_injective a b (tail-eq_of_cons-eq h)

show_204 : show 204 ≡ "204"
unfolding show
show_204 = refl
