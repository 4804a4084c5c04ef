-- ===== src/Router/Entities/Answers.antt =====
-- src/services/router/entity_resolver.py: how one entity is resolved, by the search or by the model.
use ai_financial_copilot.Common.{
  ℕ, zero, suc, ◌<◌, ◌≡◌, ◌⊎◌, inl, inr, refl, sym, Bool, true, false, ◌&&◌, not, List, [], ◌∷◌,
  Option, none, some, String, length, is_empty, filter_by, elem, get_elem?, nat_beq, string_eq,
  ==_iff, All, All-weaken, All-filter_by, arith, if-cases, Bool-cases,
}
use ai_financial_copilot.Schemas.Routing.{CompanyCandidate}
use ai_financial_copilot.Router.Disambiguator.{Decision, is_unmatched, Disambiguation}
use ai_financial_copilot.Router.Disambiguator.{IsAnswer, Serves}
use ai_financial_copilot.Router.Entities.{
  EntityResolution, Binding, norms, from_llm, answered_by_llm, fall_back, first_named, skips,
  bound_company, skipped_over, bound_resolution, by_exact, by_binding, decide_entity, answer_for,
  past,
}
use ai_financial_copilot.Router.Entities.Candidates.{Own, IsBound, Resolves, Own-of_named}

nth_served :
    (ds : List Disambiguation) (n : ℕ)
    → All IsAnswer ds
    → n < length ds
    → (d : Disambiguation) × (get_elem? ds n ≡ some d) × IsAnswer d
nth_served [] n h enough = absurd (omega (arith, enough))
nth_served (d ∷ ds) zero h enough = (d, refl, h.0)
nth_served (d ∷ ds) (suc n) h enough = nth_served ds n h.1 (omega (arith, enough))

first_named-company_norm :
    (norm : String) (cs : List CompanyCandidate) (c : CompanyCandidate)
    → first_named norm cs ≡ some c
    → c.company_norm ≡ norm
first_named-company_norm norm [] c h = ground (arith, h)
first_named-company_norm norm (d ∷ cs) c h =
    ground (arith, h, ==_iff d.company_norm norm, first_named-company_norm norm cs c)

module _ (found : String → List CompanyCandidate) (ks : List String) where
  bound_company-Own :
      (b : Option Binding) (c : CompanyCandidate)
      → bound_company found b ≡ some c
      → Own found ks b c
  bound_company-Own none c h = absurd (ground (arith, h))
  bound_company-Own (some a) c h = elim (Bool-cases a.skip) [
    | inl e ↦ absurd (ground (arith, h, e))
    | inr e ↦ inr (
      a,
      refl,
      e,
      first_named-company_norm a.company_norm (found a.company_norm) c (ground (arith, h, e)),
    )
  ]

  bound_company-IsBound :
      (b : Option Binding) (c : CompanyCandidate)
      → bound_company found b ≡ some c
      → IsBound b (bound_resolution c b)
  bound_company-IsBound none c h = absurd (ground (arith, h))
  bound_company-IsBound (some a) c h = elim (Bool-cases a.skip) [
    | inl e ↦ absurd (ground (arith, h, e))
    | inr e ↦ inr (
      a,
      refl,
      refl,
      (first_named-company_norm a.company_norm (found a.company_norm) c (ground (arith, h, e)), tt),
    )
  ]

  module _ (b : Option Binding) where
    -- what has been settled is a resolution
    abbrev pub Settles : Option EntityResolution → Type 0
    Settles none = Unit
    Settles (some r) = Resolves found ks b r

    by_exact-Settles :
        (exact trigram : List CompanyCandidate)
        → All (Own found ks b) exact
        → Settles (by_exact exact trigram)
    by_exact-Settles [] [] h = (refl, tt, inl refl)
    by_exact-Settles [] (t ∷ trigram) h = tt
    by_exact-Settles (c ∷ []) trigram h = (refl, h, inl refl)
    by_exact-Settles (c ∷ d ∷ exact) [] h = (refl, tt, inl refl)
    by_exact-Settles (c ∷ d ∷ exact) (t ∷ trigram) h = tt

    by_binding-Settles :
        (c : Option CompanyCandidate) (rest : Option EntityResolution)
        → bound_company found b ≡ c
        → Settles rest
        → Settles (by_binding c b rest)
    by_binding-Settles none rest e h = h
    by_binding-Settles (some c) rest e h =
        (refl, (bound_company-Own b c e, tt), bound_company-IsBound b c e)

    pub decide_entity-Settles :
        (trigram : List CompanyCandidate)
        → All (Own found ks b) trigram
        → Settles (decide_entity found b ks trigram)
    unfolding decide_entity
    decide_entity-Settles trigram h =
        let exact = filter_by (λ (c : CompanyCandidate). elem c.company_norm ks) trigram in
        if-cases Settles (skips b && not (nat_beq (length exact) 1)) (some skipped_over)
          (by_binding (bound_company found b) b (by_exact exact trigram))
          (λ _. (refl, tt, inl refl))
          (λ _. by_binding-Settles (bound_company found b) _ refl (
            by_exact-Settles exact trigram (
              All-weaken
                (λ (c : CompanyCandidate) (p : Own found ks b c × (elem c.company_norm ks ≡ true)).
                  p.0)
                exact
                (All-filter_by (Own found ks b) (λ (c : CompanyCandidate). elem c.company_norm ks)
                  trigram h))))

    fall_back-Resolves :
        (trigram : List CompanyCandidate)
        → All (Own found ks b) trigram
        → Resolves found ks b (fall_back trigram)
    fall_back-Resolves [] h = (refl, tt, inl refl)
    fall_back-Resolves (c ∷ cs) h = (refl, h, inl refl)

    answered_by_llm-Resolves :
        (d : Decision) (kept : List CompanyCandidate)
        → (is_unmatched d ≡ false) ⊎ (is_empty kept ≡ true)
        → All (Own found ks b) kept
        → Resolves found ks b (answered_by_llm d kept)
    answered_by_llm-Resolves d [] e h = (refl, tt, inl refl)
    answered_by_llm-Resolves d (c ∷ kept) (inl e) h = (sym e, h, inl refl)
    answered_by_llm-Resolves d (c ∷ kept) (inr e) h = absurd (ground (arith, e))

    module _ (trigram : List CompanyCandidate) (own : All (Own found ks b) trigram) where
      abbrev is_own : CompanyCandidate → Bool
      is_own c = elem c.company_norm (norms trigram)

      filter_by-Own : (cs : List CompanyCandidate) → All (Own found ks b) (filter_by is_own cs)
      filter_by-Own [] = tt
      filter_by-Own (c ∷ cs) =
          if-cases (All (Own found ks b)) (is_own c) (c ∷ filter_by is_own cs) (filter_by is_own cs)
            (λ m. (Own-of_named found ks b trigram own c m, filter_by-Own cs))
            (λ _. filter_by-Own cs)

      kept_none :
          (d : Decision) (cs : List CompanyCandidate)
          → (is_unmatched d ≡ false) ⊎ (is_empty cs ≡ true)
          → (is_unmatched d ≡ false) ⊎ (is_empty (filter_by is_own cs) ≡ true)
      kept_none d cs (inl e) = inl e
      kept_none d [] (inr e) = inr e
      kept_none d (c ∷ cs) (inr e) = absurd (ground (arith, e))

      from_llm-Resolves :
          (d : Disambiguation) → IsAnswer d → Resolves found ks b (from_llm d trigram)
      unfolding from_llm
      from_llm-Resolves d e =
          answered_by_llm-Resolves d.decision (filter_by is_own d.candidates)
            (kept_none d.decision d.candidates e) (filter_by-Own d.candidates)

      -- what stands in an entity's place when the answers are in
      pub answer_for-Resolves :
          (ds : Option (List Disambiguation)) (n : ℕ) (o : Option EntityResolution)
          → Serves ds (past n o)
          → Settles o
          → (r : EntityResolution) × (answer_for ds n trigram o ≡ some r) × Resolves found ks b r
      answer_for-Resolves ds n (some r) enough h = (r, refl, h)
      answer_for-Resolves none n none enough h =
          (fall_back trigram, refl, fall_back-Resolves trigram own)
      answer_for-Resolves (some ds) n none enough h =
          let (d, e, a) = nth_served ds n enough.0 (omega (arith, enough.1)) in
          (from_llm d trigram, rw e refl, from_llm-Resolves d a)
