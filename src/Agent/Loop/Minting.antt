-- ===== src/Agent/Loop/Minting.antt =====
-- The minting of aspect ids: the plan only grows, within its bound, and an id is never reused.
use ai_financial_copilot.Common.{
  ℕ, ◌+◌, ◌≤◌, ◌≡◌, sym, Bool, true, false, [], ◌∷◌, Option, none, some, String, length, max, leb,
  nat_beq, string_eq, ◌==◌, ==_iff, arith, Bool-cases, if-cases, inl, inr,
}
use ai_financial_copilot.Common.Text.{TextOps, chars}
use ai_financial_copilot.Common.Decimal.{label, label_injective}
use ai_financial_copilot.Common.Dict.{
  Dict, get, put, has, has-put, get-put, length-put, has-eq-is_some,
}
use ai_financial_copilot.Agent.Loop.Search.{
  squeezed, find_aspect, fresh_aspect, mint_new, mint_text, mint, or_empty,
}

-- Every key of the plan is "A" and a number of 1 to the plan's length.
abbrev pub IsMinted : Dict String String → Type 0
IsMinted plan =
    (k : String) → has k plan ≡ true → (n : ℕ) × (k ≡ label "A" n) × (1 ≤ n) × (n ≤ length plan)

-- What minting does to a plan.
pub record IsMint (max_plan_items : ℕ) (plan : Dict String String)
    (r : Option String × Dict String String) : Type 0 where
  pub planned : (k : String) → r.0 ≡ some k → has k r.1 ≡ true
  pub keeps : (k q : String) → get k plan ≡ some q → get k r.1 ≡ some q
  pub bounded : length r.1 ≤ max (length plan) max_plan_items
  pub minted : IsMinted r.1

same-IsMint :
    (max_plan_items : ℕ) (plan : Dict String String) (key : Option String)
    → ((k : String) → key ≡ some k → has k plan ≡ true)
    → IsMinted plan
    → IsMint max_plan_items plan (key, plan)
same-IsMint max_plan_items plan key there h = record {
  planned = there;
  keeps = λ k q e. e;
  bounded = omega arith;
  minted = h;
}

-- the id that a full plan would get next is not in use
fresh_id-not_has :
    (plan : Dict String String) → IsMinted plan → has (label "A" (length plan + 1)) plan ≡ false
fresh_id-not_has plan h = elim (Bool-cases (has (label "A" (length plan + 1)) plan)) [
  | inr e ↦ e
  | inl e ↦
      let (n, same, _, below) = h (label "A" (length plan + 1)) e in
      absurd (omega (arith, label_injective "A" (length plan + 1) n same))
]

put-IsMinted :
    (plan : Dict String String) (q : String)
    → IsMinted plan
    → IsMinted (put (label "A" (length plan + 1)) q plan)
put-IsMinted plan q h k e = elim (Bool-cases (label "A" (length plan + 1) == k)) [
  | inl same ↦ (
    length plan + 1,
    sym ((==_iff (label "A" (length plan + 1)) k).0 same),
    omega arith,
    ground (arith, length-put (label "A" (length plan + 1)) q plan, fresh_id-not_has plan h),
  )
  | inr other ↦
      let (n, is, low, high) =
        h k (ground (arith, has-put (label "A" (length plan + 1)) k q plan)) in
      (
        n,
        is,
        low,
        ground (arith, length-put (label "A" (length plan + 1)) q plan, fresh_id-not_has plan h),
      )
]

module _ (ops : TextOps) where
  find_aspect-has :
      (norm : String) (plan : Dict String String) (k : String)
      → find_aspect ops norm plan ≡ some k
      → has k plan ≡ true
  unfolding find_aspect has
  find_aspect-has norm [] k e = ground arith
  find_aspect-has norm ((aid, existing) ∷ plan) k e =
      ground (arith, ==_iff aid k, find_aspect-has norm plan k)

  fresh_aspect-IsMint :
      (q : String) (max_plan_items : ℕ) (plan : Dict String String)
      → IsMinted plan
      → IsMint max_plan_items plan (fresh_aspect ops q max_plan_items plan)
  fresh_aspect-IsMint q max_plan_items plan h =
      let aid = label "A" (length plan + 1) in
      if-cases (IsMint max_plan_items plan) (leb max_plan_items (length plan)) _ _
        (λ full. same-IsMint max_plan_items plan none (λ k e. ground arith) h)
        (λ room. record {
          planned = λ k e. ground (arith, has-put aid k q plan, ==_iff aid k);
          keeps = λ k r e. ground (
            arith,
            get-put aid k q plan,
            ==_iff aid k,
            has-eq-is_some k plan,
            fresh_id-not_has plan h,
          );
          bounded = ground (arith, length-put aid q plan, fresh_id-not_has plan h);
          minted = put-IsMinted plan q h;
        })

  mint_new-IsMint :
      (found : Option String) (q : String) (max_plan_items : ℕ) (plan : Dict String String)
      → ((k : String) → found ≡ some k → has k plan ≡ true)
      → IsMinted plan
      → IsMint max_plan_items plan (mint_new ops found q max_plan_items plan)
  mint_new-IsMint (some aid) q max_plan_items plan there h =
      same-IsMint max_plan_items plan (some aid) there h
  mint_new-IsMint none q max_plan_items plan there h = fresh_aspect-IsMint q max_plan_items plan h

  mint_text-IsMint :
      (blank : Bool) (q : String) (max_plan_items : ℕ) (plan : Dict String String)
      → IsMinted plan
      → IsMint max_plan_items plan (mint_text ops blank q max_plan_items plan)
  mint_text-IsMint true q max_plan_items plan h =
      same-IsMint max_plan_items plan none (λ k e. ground arith) h
  mint_text-IsMint false q max_plan_items plan h =
      mint_new-IsMint (find_aspect ops (ops.lower q) plan) q max_plan_items plan
        (find_aspect-has (ops.lower q) plan) h

  -- In a plan of the ids A1, A2 and so on, an id that minting returns is in the plan, every key
  -- keeps its question, the plan does not grow past `max_plan_items`, and the ids stay such.
  pub mint-IsMint :
      (plan : Dict String String) (sub_question : Option String) (max_plan_items : ℕ)
      → IsMinted plan
      → IsMint max_plan_items plan (mint ops plan sub_question max_plan_items)
  unfolding mint
  mint-IsMint plan sub_question max_plan_items h =
      let q = squeezed ops (or_empty sub_question) in
      mint_text-IsMint (nat_beq (chars q) 0) q max_plan_items plan h

  mint_new-planned :
      (found : Option String) (q : String) (max_plan_items : ℕ) (plan : Dict String String)
      (k : String)
      → ((j : String) → found ≡ some j → has j plan ≡ true)
      → (mint_new ops found q max_plan_items plan).0 ≡ some k
      → has k (mint_new ops found q max_plan_items plan).1 ≡ true
  mint_new-planned (some aid) q max_plan_items plan k there e = there k e
  mint_new-planned none q max_plan_items plan k there e =
      let aid = label "A" (length plan + 1) in ground (arith, has-put aid k q plan, ==_iff aid k)

  mint_new-has :
      (found : Option String) (q : String) (max_plan_items : ℕ) (plan : Dict String String)
      (k : String)
      → has k plan ≡ true
      → has k (mint_new ops found q max_plan_items plan).1 ≡ true
  mint_new-has (some aid) q max_plan_items plan k h = h
  mint_new-has none q max_plan_items plan k h =
      ground (arith, has-put (label "A" (length plan + 1)) k q plan)

  mint_text-planned :
      (blank : Bool) (q : String) (max_plan_items : ℕ) (plan : Dict String String) (k : String)
      → (mint_text ops blank q max_plan_items plan).0 ≡ some k
      → has k (mint_text ops blank q max_plan_items plan).1 ≡ true
  mint_text-planned true q max_plan_items plan k e = ground arith
  mint_text-planned false q max_plan_items plan k e =
      mint_new-planned (find_aspect ops (ops.lower q) plan) q max_plan_items plan k
        (find_aspect-has (ops.lower q) plan) e

  mint_text-has :
      (blank : Bool) (q : String) (max_plan_items : ℕ) (plan : Dict String String) (k : String)
      → has k plan ≡ true
      → has k (mint_text ops blank q max_plan_items plan).1 ≡ true
  mint_text-has true q max_plan_items plan k h = h
  mint_text-has false q max_plan_items plan k h =
      mint_new-has (find_aspect ops (ops.lower q) plan) q max_plan_items plan k h

  -- of any plan: the id returned is in it, and its keys stay
  pub mint-planned :
      (plan : Dict String String) (sub_question : Option String) (max_plan_items : ℕ) (k : String)
      → (mint ops plan sub_question max_plan_items).0 ≡ some k
      → has k (mint ops plan sub_question max_plan_items).1 ≡ true
  unfolding mint
  mint-planned plan sub_question max_plan_items k =
      let q = squeezed ops (or_empty sub_question) in
      mint_text-planned (nat_beq (chars q) 0) q max_plan_items plan k

  pub mint-has :
      (plan : Dict String String) (sub_question : Option String) (max_plan_items : ℕ) (k : String)
      → has k plan ≡ true
      → has k (mint ops plan sub_question max_plan_items).1 ≡ true
  unfolding mint
  mint-has plan sub_question max_plan_items k =
      let q = squeezed ops (or_empty sub_question) in
      mint_text-has (nat_beq (chars q) 0) q max_plan_items plan k
