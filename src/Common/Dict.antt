-- ===== src/Common/Dict.antt =====
-- Python's `dict`: an association list in insertion order. An assignment to a key that is there
-- keeps its place.
use Prim.Native.Nat.{◌+◌}
use mathlib.Core.Path.{◌≡◌, refl, subst}
use mathlib.Core.Logic.{inl, inr}
use mathlib.Core.Bool.{Bool, false, ◌||◌}
use mathlib.Core.Option.{Option, none, some}
use mathlib.Core.List.{List, [], ◌∷◌, ◌++◌}
use native.Mathlib.Omega.{arith}
use ai_financial_copilot.Common.Tests.{if◌then◌else◌, if-cases, Bool-cases}
use ai_financial_copilot.Common.Lists.{length}
use ai_financial_copilot.Common.Keys.{Key, ◌==◌, ==_iff, elem, is_some, All}

abbrev pub Dict {ℓ κ} : Type ℓ → Type κ → Type (ℓ ⊔ κ)
Dict K V = List (K × V)

module _ {ℓ κ} {K : Type ℓ} {V : Type κ} where
  abbrev pub keys : Dict K V → List K
  keys [] = []
  keys ((k, v) ∷ d) = k ∷ keys d

  abbrev pub values : Dict K V → List V
  values [] = []
  values ((k, v) ∷ d) = v ∷ values d

module _ {ℓ κ} {K : Type ℓ} {V : Type κ} ⦃e : Key K⦄ where
  -- d.get(k)
  unfoldable pub get : K → Dict K V → Option V
  get k [] = none
  get k ((j, v) ∷ d) = if j == k then some v else get k d

  -- d[k] = v
  unfoldable pub put : K → V → Dict K V → Dict K V
  put k v [] = (k, v) ∷ []
  put k v ((j, w) ∷ d) = if j == k then (j, v) ∷ d else (j, w) ∷ put k v d

  -- k in d
  unfoldable pub has : K → Dict K V → Bool
  has k [] = false
  has k ((j, v) ∷ d) = j == k || has k d

  pub get-put :
      (k j : K) (v : V) (d : Dict K V) → get j (put k v d) ≡ (if k == j then some v else get j d)
  unfolding get put
  get-put k j v [] = refl
  get-put k j v ((i, w) ∷ d) = ground (arith, ==_iff k j, ==_iff i k, ==_iff i j, get-put k j v d)

  pub has-put : (k j : K) (v : V) (d : Dict K V) → has j (put k v d) ≡ (k == j || has j d)
  unfolding has put
  has-put k j v [] = refl
  has-put k j v ((i, w) ∷ d) = ground (arith, ==_iff k j, ==_iff i k, ==_iff i j, has-put k j v d)

  pub has-eq-is_some : (k : K) (d : Dict K V) → has k d ≡ is_some (get k d)
  unfolding has get
  has-eq-is_some k [] = refl
  has-eq-is_some k ((j, v) ∷ d) = ground (arith, has-eq-is_some k d)

  pub elem-keys : (k : K) (d : Dict K V) → elem k (keys d) ≡ has k d
  unfolding has
  elem-keys k [] = refl
  elem-keys k ((j, v) ∷ d) = ground (arith, ==_iff k j, ==_iff j k, elem-keys k d)

  pub length-put :
      (k : K) (v : V) (d : Dict K V)
      → length (put k v d) ≡ (if has k d then length d else length d + 1)
  unfolding put has
  length-put k v [] = omega arith
  length-put k v ((j, w) ∷ d) = ground (arith, length-put k v d)

  -- A new key goes to the end.
  pub put_of_not_has :
      (k : K) (v : V) (d : Dict K V) → has k d ≡ false → put k v d ≡ d ++ (k, v) ∷ []
  unfolding put has
  put_of_not_has k v [] h = refl
  put_of_not_has k v ((j, w) ∷ d) h = ground (arith, put_of_not_has k v d)

  module _ {μ} (P : V → Type μ) where
    pub put-All :
        (k : K) (v : V) (d : Dict K V) → P v → All P (values d) → All P (values (put k v d))
    unfolding put
    put-All k v [] h hs = (h, tt)
    put-All k v ((j, w) ∷ d) h hs =
        if-cases (λ (e : Dict K V). All P (values e)) (j == k) ((j, v) ∷ d) ((j, w) ∷ put k v d)
          (λ _. (h, hs.1)) (λ _. (hs.0, put-All k v d h hs.1))

    pub get-All : (k : K) (v : V) (d : Dict K V) → All P (values d) → get k d ≡ some v → P v
    unfolding get
    get-All k v [] hs e = absurd (ground (arith, e))
    get-All k v ((j, w) ∷ d) hs e = elim (Bool-cases (j == k)) [
      | inl t ↦ subst P (ground (arith, e, t)) hs.0
      | inr f ↦ get-All k v d hs.1 (ground (arith, e, f))
    ]
