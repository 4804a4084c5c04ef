-- ===== src/Router/Entities/Candidates.antt =====
-- src/services/router/entity_resolver.py: the candidates of an entity, and whose they are.
use ai_financial_copilot.Common.{
  ◌≡◌, ◌⊎◌, inl, inr, true, false, List, [], ◌∷◌, Option, none, some, String, map, is_empty, concat,
  elem, string_eq, ◌==◌, ==_iff, ==_self, All, All-weaken, arith, if-cases, Bool-cases,
}
use ai_financial_copilot.Common.Dict.{Dict, get, values, put-All}
use ai_financial_copilot.Common.Sort.{sorted-All}
use ai_financial_copilot.Schemas.Routing.{CompanyCandidate}
use ai_financial_copilot.Router.Disambiguator.{is_unmatched}
use ai_financial_copilot.Router.Entities.{
  EntityResolution, Binding, best_of, is_better, by_score, merge_candidates, norms,
}

-- A company that an entity may stand for: one that was found for a key of the entity, or the one
-- that the user bound to it.
abbrev pub Own :
    (String → List CompanyCandidate) → List String → Option Binding → CompanyCandidate → Type 0
Own found ks b c =
    (elem c.company_norm (norms (concat (map found ks))) ≡ true)
    ⊎ ((a : Binding) × (b ≡ some a) × (a.skip ≡ false) × (c.company_norm ≡ a.company_norm))

-- A word on the documents outside the scope is the one of the binding of that company.
abbrev pub IsBound : Option Binding → EntityResolution → Type 0
IsBound b r =
    (r.outside_scope ≡ none)
    ⊎ ((a : Binding) × (b ≡ some a)
        × (r.outside_scope ≡ a.outside_scope)
        × All (λ c. c.company_norm ≡ a.company_norm) r.candidates)

-- There are candidates just where something matched, and each may stand for the entity.
abbrev pub Resolves :
    (String → List CompanyCandidate) → List String → Option Binding → EntityResolution → Type 0
Resolves found ks b r =
    (is_empty r.candidates ≡ is_unmatched r.decision)
    × All (Own found ks b) r.candidates
    × IsBound b r

module _ {κ} (P : CompanyCandidate → Type κ) where
  best_of-All :
      (cs : List CompanyCandidate) (best : Dict String CompanyCandidate)
      → All P cs
      → All P (values best)
      → All P (values (best_of cs best))
  best_of-All [] best h hs = hs
  best_of-All (c ∷ cs) best h hs = best_of-All cs _ h.1 (
      if-cases (λ (e : Dict String CompanyCandidate). All P (values e))
        (is_better c (get c.company_norm best)) _ _ (λ _. put-All P c.company_norm c best h.0 hs)
        (λ _. hs))

  pub merge_candidates-All :
      (lists : List (List CompanyCandidate)) → All P (concat lists) → All P (merge_candidates lists)
  unfolding merge_candidates
  merge_candidates-All lists h = sorted-All by_score P _ (best_of-All (concat lists) [] h tt)

abbrev pub Among : List CompanyCandidate → CompanyCandidate → Type 0
Among cs c = elem c.company_norm (norms cs) ≡ true

pub Among-self : (cs : List CompanyCandidate) → All (Among cs) cs
Among-self [] = tt
Among-self (c ∷ cs) = (
  ground (arith, ==_self c.company_norm),
  All-weaken (λ (d : CompanyCandidate) (h : Among cs d). ground (arith, h)) cs (Among-self cs),
)

-- a candidate named like one that may stand for the entity
pub Own-of_named :
    (found : String → List CompanyCandidate) (ks : List String) (b : Option Binding)
    (own : List CompanyCandidate)
    → All (Own found ks b) own
    → (c : CompanyCandidate) → Among own c
    → Own found ks b c
Own-of_named found ks b [] h c m = absurd (ground (arith, m))
Own-of_named found ks b (d ∷ own) h c m = elim (Bool-cases (c.company_norm == d.company_norm)) [
  | inl e ↦ rw (← (==_iff c.company_norm d.company_norm).0 e) at h.0
  | inr e ↦ Own-of_named found ks b own h.1 c (ground (arith, m, e))
]
