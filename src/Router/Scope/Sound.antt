-- ===== src/Router/Scope/Sound.antt =====
-- src/services/router/scope_resolver.py: the scope of a question is resolved, and stays in bounds.
use ai_financial_copilot.Common.{
  ℕ, ◌≤◌, ◌<◌, ◌≡◌, refl, List, [], ◌∷◌, Option, none, some, String, length, concat, if◌then◌else◌,
  ltb, string_eq, nat_eq, All, All-append, arith, Bool-cases, is_empty, all, Each, inl, inr, ltb→lt,
}
use ai_financial_copilot.Common.Dict.{Dict, put, values, put-All}
use ai_financial_copilot.Schemas.Routing.{
  ExtractedEntity, ChatScope, RouterOutput, ScopeSource, unresolved, entity_resolved,
  EntityManifestItem, DocumentScopeResult,
}
use ai_financial_copilot.Router.Entities.{EntityResolution, Resolver, resolve_entities}
use ai_financial_copilot.Router.Entities.Complete.{IsResolution, resolve_entities-Each}
use ai_financial_copilot.Router.Scope.{
  Doc, DocRepo, Combined, universe, ids_of, ids_of_groups, with_unresolved, manifest, scope_result,
  nothing_combined, combined_result, scope_for, resolve_scope, is_skipped, or_none, by_company,
}
use ai_financial_copilot.Router.Scope.Covered.{
  Allowed, MayUse, MayCover, Sound, combine-Sound, by_company-MayUse,
}

abbrev pub given_ids : Option (List ℕ) → List ℕ
given_ids none = []
given_ids (some ids) = ids

abbrev pub given_items : Option (List EntityManifestItem) → List EntityManifestItem
given_items none = []
given_items (some items) = items

-- where the companies covered are too many the run has no document; else they are listed
abbrev pub IsBounded : ℕ → Option ℕ → List ℕ → List EntityManifestItem → Type 0
IsBounded max_companies none ids items = length items ≤ max_companies
IsBounded max_companies (some n) ids items = (max_companies < n) × (ids ≡ []) × (items ≡ [])

module _ (r : Resolver) (repo : DocRepo) (max_companies : ℕ) (named : List ExtractedEntity)
    (found : List EntityResolution) (docs : List Doc) where
  abbrev pub IsScope : DocumentScopeResult → Type 0
  IsScope s =
      All (Allowed r repo named found docs) (given_ids s.doc_ids)
      × IsBounded max_companies s.too_broad_count (given_ids s.doc_ids)
          (given_items s.entity_manifest)

  abbrev AllowedIds : List ℕ → Type 0
  AllowedIds ids = All (Allowed r repo named found docs) ids

  ids_of-Allowed : (ds : List Doc) → MayUse r repo named found docs ds → AllowedIds (ids_of ds)
  ids_of-Allowed [] h = tt
  ids_of-Allowed (d ∷ ds) h = (h.0, ids_of-Allowed ds h.1)

  ids_of_groups-Allowed :
      (groups : Dict String (List Doc))
      → All (MayUse r repo named found docs) (values groups)
      → All AllowedIds (values (ids_of_groups groups))
  ids_of_groups-Allowed [] h = tt
  ids_of_groups-Allowed ((name, ds) ∷ groups) h =
      (ids_of-Allowed ds h.0, ids_of_groups-Allowed groups h.1)

  with_unresolved-Allowed :
      (names : List String) (d : Dict String (List ℕ))
      → All AllowedIds (values d)
      → All AllowedIds (values (with_unresolved names d))
  with_unresolved-Allowed [] d h = h
  with_unresolved-Allowed (name ∷ names) d h =
      with_unresolved-Allowed names (put name [] d) (put-All AllowedIds name [] d tt h)

  concat-Allowed : (lists : List (List ℕ)) → All AllowedIds lists → AllowedIds (concat lists)
  concat-Allowed [] h = tt
  concat-Allowed (l ∷ lists) h =
      All-append (Allowed r repo named found docs) l (concat lists) h.0 (concat-Allowed lists h.1)

  length-manifest :
      (m : Dict String (List String)) (groups : Dict String (List Doc))
      → length (given_items (or_none (manifest m groups))) ≡ length groups
  length-manifest m [] = refl
  length-manifest m ((name, ds) ∷ groups) = omega (arith, length-listed m groups)
    where
      length-listed :
          (m : Dict String (List String)) (groups : Dict String (List Doc))
          → length (manifest m groups) ≡ length groups
      length-listed m [] = refl
      length-listed m ((name, ds) ∷ groups) = omega (arith, length-listed m groups)

  scope_result-IsScope :
      (source : ScopeSource) (c : Combined)
      → MayCover r repo named found docs c
      → IsScope (scope_result max_companies source c)
  unfolding scope_result
  scope_result-IsScope source c h = elim (Bool-cases (ltb max_companies (length c.covered))) [
    | inl broad ↦
        rw broad (tt, (omega (arith, ltb→lt max_companies (length c.covered) broad), refl, refl))
    | inr fits ↦ rw fits (
      concat-Allowed _ (with_unresolved-Allowed c.unresolved _ (ids_of_groups-Allowed c.covered h)),
      ground (arith, fits, length-manifest c.mentioned_as c.covered),
    )
  ]

  abbrev Given : Option DocumentScopeResult → Type 0
  Given none = ⊥
  Given (some s) = IsScope s

  combined_result-Given :
      (c : Option Combined)
      → Sound r repo named found docs c
      → Given (combined_result max_companies c)
  combined_result-Given none s = s
  combined_result-Given (some c) s =
      scope_result-IsScope (if is_empty c.covered then unresolved else entity_resolved) c s

  IsScope-of_Given :
      (o : Option DocumentScopeResult)
      → Given o
      → (s : DocumentScopeResult) × (o ≡ some s) × IsScope s
  IsScope-of_Given none h = elim h [ ]
  IsScope-of_Given (some s) h = (s, refl, h)

scope_for-Given :
    (r : Resolver) (repo : DocRepo) (max_companies : ℕ) (docs : List Doc) (query : String)
    (source : ScopeSource) (entities : List ExtractedEntity) (rs : List EntityResolution)
    → resolve_entities r query entities ≡ some rs
    → Each (IsResolution r) entities rs
    → Given r repo max_companies entities rs docs
        (scope_for r repo max_companies query (docs, source) entities)
scope_for-Given r repo max_companies docs query source [] rs given each =
    scope_result-IsScope r repo max_companies [] rs docs source
      (record nothing_combined { covered = by_company docs }) (by_company-MayUse r repo [] rs docs)
scope_for-Given r repo max_companies docs query source (e ∷ es) rs given each = rw given (
    combined_result-Given r repo max_companies (e ∷ es) rs docs _ (
      combine-Sound r repo (e ∷ es) rs docs
        (all (λ (res : EntityResolution). is_skipped res.method) rs) (e ∷ es) rs
        (some nothing_combined) (λ d res p. p) each tt))

-- Resolving the scope of a question raises nothing. A document it is answered from is one of the
-- documents that the scope chosen by the user allows, or one that the first candidate of one of the
-- question's entities lists, where a binding of the user includes that company from beyond the
-- scope. It covers at most the maximum of companies, or no document at all where they would be more.
pub resolve_scope-IsScope :
    (r : Resolver) (repo : DocRepo) (max_companies : ℕ) (scope : Option ChatScope)
    (router_output : RouterOutput) (query : String)
    → (rs : List EntityResolution) × (s : DocumentScopeResult) × (resolve_entities r query
          router_output.entities
        ≡ some rs)
      × (resolve_scope r repo max_companies scope router_output query ≡ some s)
      × IsScope r repo max_companies router_output.entities rs (universe repo scope).0 s
unfolding resolve_scope
resolve_scope-IsScope r repo max_companies scope router_output query =
    let entities = router_output.entities in
    let (rs, given, each) = resolve_entities-Each r query entities in
    let (s, found, sound) =
      IsScope-of_Given r repo max_companies entities rs (universe repo scope).0
        (resolve_scope r repo max_companies scope router_output query)
        (scope_for-Given r repo max_companies (universe repo scope).0 query (universe repo scope).1
          entities rs given each) in
    (rs, s, given, found, sound)
