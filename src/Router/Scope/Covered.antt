-- ===== src/Router/Scope/Covered.antt =====
-- src/services/router/scope_resolver.py: whose documents the companies covered have.
use ai_financial_copilot.Common.{
  ℕ, ◌≡◌, ◌⊎◌, inl, inr, refl, Bool, true, ◌&&◌, not, List, [], ◌∷◌, ◌++◌, Option, none, some,
  String, is_empty, filter_by, elem, string_eq, nat_eq, option_eq, ◌==◌, ==_self, All, All-append,
  All-weaken, All-filter_by, Each, arith, if-cases, Option-cases,
}
use ai_financial_copilot.Common.Dict.{Dict, get, values, put-All, get-All}
use ai_financial_copilot.Schemas.Routing.{
  ExtractedEntity, CompanyCandidate, ambiguous, outside_scope, ClarificationOutcome,
}
use ai_financial_copilot.Router.Disambiguator.{Decision, is_unmatched}
use ai_financial_copilot.Router.Entities.{
  EntityResolution, Binding, OutsideScope, Resolver, keys_of, bound_to,
}
use ai_financial_copilot.Router.Entities.Complete.{IsResolution}
use ai_financial_copilot.Router.Scope.{
  Doc, DocRepo, Combined, ids_of, group_docs, name_groups, by_company, ask, pick_of, docs_of,
  is_include, place_docs, miss, is_exclude, ask_unless_resolved, cover, list_or_empty, group_name,
  is_skipped, placed, combine,
}

-- an entity and its resolution, in lists of them
abbrev pub Paired :
    List ExtractedEntity → List EntityResolution → ExtractedEntity → EntityResolution → Type 0
Paired [] rs e res = ⊥
Paired (d ∷ es) [] e res = ⊥
Paired (d ∷ es) (given ∷ rs) e res = ((d ≡ e) × (given ≡ res)) ⊎ Paired es rs e res

-- an entity of the question is bound to a company that the user includes from beyond the scope, that
-- company is its first candidate, and this is one of the documents the candidate lists
abbrev pub Included : Resolver → DocRepo → List ExtractedEntity → List EntityResolution → ℕ → Type 0
Included r repo entities rs id =
    (e : ExtractedEntity) × (res : EntityResolution) × (a : Binding) × (c : CompanyCandidate)
    × (more : List CompanyCandidate) × Paired entities rs e res
    × (res.candidates ≡ c ∷ more)
    × (bound_to r.bindings (keys_of r.names e) ≡ some a)
    × (a.outside_scope ≡ some OutsideScope.include)
    × (c.company_norm ≡ a.company_norm)
    × (elem id (ids_of (repo.get_scope_docs (some c.doc_ids))) ≡ true)

-- a document that a question may be about: one of the scope, or of a company included
abbrev pub Allowed :
    Resolver → DocRepo → List ExtractedEntity → List EntityResolution → List Doc → ℕ → Type 0
Allowed r repo entities rs docs id = (elem id (ids_of docs) ≡ true) ⊎ Included r repo entities rs id

IsListed-self : (docs : List Doc) → All (λ d. elem d.id (ids_of docs) ≡ true) docs
IsListed-self [] = tt
IsListed-self (d ∷ docs) = (
  ground (arith, ==_self d.id),
  All-weaken (λ (e : Doc) (h : elem e.id (ids_of docs) ≡ true). ground (arith, h)) docs
      (IsListed-self docs),
)

is_include-eq : (o : Option OutsideScope) → is_include o ≡ true → o ≡ some OutsideScope.include
is_include-eq none h = ground (arith, h)
is_include-eq (some OutsideScope.include) h = refl
is_include-eq (some OutsideScope.exclude) h = ground (arith, h)

first_norm :
    (a : Binding) (cs : List CompanyCandidate) (c : CompanyCandidate) (more : List CompanyCandidate)
    → cs ≡ c ∷ more
    → All (λ d. d.company_norm ≡ a.company_norm) cs
    → c.company_norm ≡ a.company_norm
first_norm a [] c more at h = ground (arith, at)
first_norm a (d ∷ cs) c more at h = ground (arith, at, h.0)

module _ (r : Resolver) (repo : DocRepo) (named : List ExtractedEntity)
    (found : List EntityResolution) (docs : List Doc) where
  abbrev pub MayUse : List Doc → Type 0
  MayUse ds = All (λ d. Allowed r repo named found docs d.id) ds

  abbrev pub MayCover : Combined → Type 0
  MayCover c = All MayUse (values c.covered)

  docs_of-MayUse :
      (e : ExtractedEntity) (res : EntityResolution) (pick : CompanyCandidate)
      (more : List CompanyCandidate)
      → res.candidates ≡ pick ∷ more
      → Paired named found e res
      → IsResolution r e res
      → MayUse (docs_of repo docs res.outside_scope pick)
  docs_of-MayUse e res pick more at pair h =
      let inside = filter_by (λ (d : Doc). d.company_norm == some pick.company_norm) docs in
      if-cases MayUse (is_empty inside && is_include res.outside_scope)
        (repo.get_scope_docs (some pick.doc_ids)) inside
        (λ t. elim h.2 [
          | inl silent ↦ absurd (ground (arith, silent, is_include-eq res.outside_scope, t))
          | inr (a, bound, said, same) ↦
              All-weaken
                (λ (d : Doc)
                    (l : elem d.id (ids_of (repo.get_scope_docs (some pick.doc_ids))) ≡ true).
                  inr (
                    e,
                    res,
                    a,
                    pick,
                    more,
                    pair,
                    at,
                    bound,
                    ground (arith, said, is_include-eq res.outside_scope, t),
                    first_norm a res.candidates pick more at same,
                    l,
                  ))
                (repo.get_scope_docs (some pick.doc_ids))
                (IsListed-self (repo.get_scope_docs (some pick.doc_ids)))
        ])
        (λ _.
          All-weaken
            (λ (d : Doc)
                (p : (elem d.id (ids_of docs) ≡ true)
                  × ((d.company_norm == some pick.company_norm) ≡ true)).
              inl p.0)
            inside
            (All-filter_by (λ (d : Doc). elem d.id (ids_of docs) ≡ true)
              (λ (d : Doc). d.company_norm == some pick.company_norm) docs (IsListed-self docs)))

  ask-covered :
      (e : ExtractedEntity) (o : ClarificationOutcome) (cs : List CompanyCandidate) (c : Combined)
      → MayCover c
      → MayCover (ask e o cs c)
  ask-covered e o cs c h = if-cases MayCover (e.entity_type == "company") _ c (λ _. h) (λ _. h)

  miss-covered :
      (e : ExtractedEntity) (res : EntityResolution) (o : ClarificationOutcome) (c : Combined)
      → MayCover c
      → MayCover (miss e res o c)
  miss-covered e res o c h =
      let missed : Combined = record c { unresolved = c.unresolved ++ e.name ∷ [] } in
      if-cases MayCover (is_exclude res.outside_scope) missed (ask e o res.candidates missed)
        (λ _. h) (λ _. ask-covered e o res.candidates missed h)

  ask_unless_resolved-covered :
      (d : Decision) (e : ExtractedEntity) (cs : List CompanyCandidate) (c : Combined)
      → MayCover c
      → MayCover (ask_unless_resolved d e cs c)
  ask_unless_resolved-covered Decision.resolved e cs c h = h
  ask_unless_resolved-covered Decision.ambiguous e cs c h = ask-covered e ambiguous cs c h
  ask_unless_resolved-covered Decision.unmatched e cs c h = ask-covered e ambiguous cs c h

  place_docs-covered :
      (e : ExtractedEntity) (res : EntityResolution) (pick : CompanyCandidate) (ds : List Doc)
      (c : Combined)
      → MayUse ds
      → MayCover c
      → MayCover (place_docs r.names e res pick ds c)
  place_docs-covered e res pick [] c hd h = miss-covered e res outside_scope c h
  place_docs-covered e res pick (d ∷ ds) c hd h =
      ask_unless_resolved-covered res.decision e res.candidates (cover r.names e pick (d ∷ ds) c)
        (put-All MayUse pick.display_name (d ∷ ds) c.covered hd h)

  -- the state of the loop: no exception so far, and only what may be covered
  abbrev pub Sound : Option Combined → Type 0
  Sound none = ⊥
  Sound (some c) = MayCover c

  placed-Sound :
      (e : ExtractedEntity) (res : EntityResolution) (d : Decision) (cs : List CompanyCandidate)
      (c : Option Combined)
      → res.candidates ≡ cs
      → is_empty cs ≡ is_unmatched d
      → Paired named found e res
      → IsResolution r e res
      → Sound c
      → Sound (placed r.names repo docs e res (pick_of d cs) c)
  placed-Sound e res d cs none at fits pair h s = elim s [ ]
  placed-Sound e res Decision.unmatched cs (some c) at fits pair h s =
      miss-covered e res ClarificationOutcome.unmatched c s
  placed-Sound e res Decision.resolved [] (some c) at fits pair h s = absurd (ground (arith, fits))
  placed-Sound e res Decision.ambiguous [] (some c) at fits pair h s = absurd (ground (arith, fits))
  placed-Sound e res Decision.resolved (p ∷ cs) (some c) at fits pair h s =
      place_docs-covered e res p (docs_of repo docs res.outside_scope p) c
        (docs_of-MayUse e res p cs at pair h) s
  placed-Sound e res Decision.ambiguous (p ∷ cs) (some c) at fits pair h s =
      place_docs-covered e res p (docs_of repo docs res.outside_scope p) c
        (docs_of-MayUse e res p cs at pair h) s

  -- the loop raises nothing, and covers nothing but what may be covered
  pub combine-Sound :
      (all_skipped : Bool) (entities : List ExtractedEntity) (rs : List EntityResolution)
      (c : Option Combined)
      → ((e : ExtractedEntity) (res : EntityResolution)
          → Paired entities rs e res
          → Paired named found e res)
      → Each (IsResolution r) entities rs
      → Sound c
      → Sound (combine r.names repo docs all_skipped entities rs c)
  unfolding combine
  combine-Sound all_skipped [] [] c among h s = s
  combine-Sound all_skipped [] (res ∷ rs) c among h s = elim h [ ]
  combine-Sound all_skipped (e ∷ es) [] c among h s = elim h [ ]
  combine-Sound all_skipped (e ∷ es) (res ∷ rs) c among h s =
      combine-Sound all_skipped es rs _ (λ d given p. among d given (inr p)) h.1
        (if-cases Sound (is_skipped res.method && not all_skipped) c
          (placed r.names repo docs e res (pick_of res.decision res.candidates) c) (λ _. s)
          (λ _.
            placed-Sound e res res.decision res.candidates c refl h.0.0
              (among e res (inl (refl, refl))) h.0 s))

  group_so_far :
      (norm : Option String) (groups : Dict (Option String) (List Doc))
      → All MayUse (values groups)
      → MayUse (list_or_empty (get norm groups))
  group_so_far norm groups h = elim (Option-cases (get norm groups)) [
    | inl e ↦ rw e tt
    | inr (ds, e) ↦ rw e (get-All MayUse norm ds groups h e)
  ]

  group_docs-MayUse :
      (ds : List Doc) (groups : Dict (Option String) (List Doc))
      → MayUse ds
      → All MayUse (values groups)
      → All MayUse (values (group_docs ds groups))
  group_docs-MayUse [] groups h hs = hs
  group_docs-MayUse (d ∷ ds) groups h hs = group_docs-MayUse ds _ h.1 (
      put-All MayUse d.company_norm (list_or_empty (get d.company_norm groups) ++ d ∷ []) groups
        (All-append (λ (e : Doc). Allowed r repo named found docs e.id)
          (list_or_empty (get d.company_norm groups)) (d ∷ [])
          (group_so_far d.company_norm groups hs) (h.0, tt))
        hs)

  name_groups-MayUse :
      (groups : Dict (Option String) (List Doc)) (named : Dict String (List Doc))
      → All MayUse (values groups)
      → All MayUse (values named)
      → All MayUse (values (name_groups groups named))
  name_groups-MayUse [] named h hs = hs
  name_groups-MayUse ((norm, ds) ∷ groups) named h hs =
      name_groups-MayUse groups _ h.1 (put-All MayUse (group_name norm ds) ds named h.0 hs)

  pub by_company-MayUse : All MayUse (values (by_company docs))
  unfolding by_company
  by_company-MayUse =
      name_groups-MayUse (group_docs docs []) []
        (group_docs-MayUse docs []
          (All-weaken (λ (d : Doc) (l : elem d.id (ids_of docs) ≡ true). inl l) docs
            (IsListed-self docs))
          tt)
        tt
