-- ===== src/Router/Scope.antt =====
-- src/services/router/scope_resolver.py: the documents that a question is about. The reads of
-- PostgreSQL are parameters.
pub mod Sound
pub mod Covered
use ai_financial_copilot.Common.{
  ℕ, Bool, true, false, ◌&&◌, not, List, [], ◌∷◌, ◌++◌, Option, none, some, String, map, length,
  is_empty, all, concat, filter_by, if◌then◌else◌, ltb, string_eq, nat_eq, option_eq, ◌==◌,
}
use ai_financial_copilot.Common.Dict.{Dict, get, put, values}
use ai_financial_copilot.Common.Text.{text_leb}
use ai_financial_copilot.Schemas.Routing.{
  ExtractedEntity, CompanyCandidate, ChatScope, ScopeMode, all_docs, filtered_by_metadata,
  selected_docs, this_doc, ScopeFilters, RouterOutput, ClarificationOutcome, ambiguous, unmatched,
  outside_scope, EntityClarification, ScopeSource, explicit, filtered, entity_resolved, unresolved,
  everything, EntityManifestItem, DocumentScopeResult,
}
use ai_financial_copilot.Router.Names.{NameOps, normalize_company}
use ai_financial_copilot.Router.Disambiguator.{Decision, is_unmatched}
use ai_financial_copilot.Router.Disambiguator
use ai_financial_copilot.Router.Entities.{
  EntityResolution, Method, OutsideScope, Resolver, resolve_entities,
}

-- `scope_outcome`
unfoldable pub scope_outcome : RouterOutput → DocumentScopeResult → String
scope_outcome router_output scope = elim scope.too_broad_count [
  | some n ↦ "too_broad"
  | none ↦
      if not (is_empty scope.unresolved_entities)
      then "unresolved"
      else if is_empty router_output.entities
      then "no_entities"
      else "resolved"
]

abbrev no_company : String
no_company = "Documents without a company"

-- `_Doc`
pub record Doc : Type 0 where
  pub id : ℕ
  pub company_norm : Option String
  pub company : Option String
  pub year : Option ℕ

pub record DocRepo : Type 0 where
  -- the documents among some ids, or all of the user's
  pub get_scope_docs : Option (List ℕ) → List Doc
  pub find_by_metadata_filters :
      Option (List String) → Option (List ℕ) → Option (List String) → List ℕ

-- `xs or None`
abbrev pub or_none {ℓ} : {A : Type ℓ} → List A → Option (List A)
or_none [] = none
or_none (x ∷ xs) = some (x ∷ xs)

abbrev pub selection : DocRepo → List ℕ → List Doc × ScopeSource
selection repo [] = (repo.get_scope_docs none, everything)
selection repo (id ∷ ids) = (repo.get_scope_docs (some (id ∷ ids)), explicit)

abbrev pub universe_of : DocRepo → ScopeMode → ChatScope → List Doc × ScopeSource
universe_of repo all_docs scope = (repo.get_scope_docs none, everything)
universe_of repo selected_docs scope = selection repo scope.doc_ids
universe_of repo this_doc scope = selection repo scope.doc_ids
universe_of repo filtered_by_metadata scope =
    let f = scope.filters in
    let ids = repo.find_by_metadata_filters (or_none f.company) (or_none f.year) (or_none f.type) in
    (repo.get_scope_docs (some ids), filtered)

-- `_universe`
abbrev pub universe : DocRepo → Option ChatScope → List Doc × ScopeSource
universe repo none = (repo.get_scope_docs none, everything)
universe repo (some scope) = universe_of repo scope.mode scope

abbrev pub list_or_empty {ℓ} : {A : Type ℓ} → Option (List A) → List A
list_or_empty none = []
list_or_empty (some xs) = xs

abbrev pub group_docs : List Doc → Dict (Option String) (List Doc) → Dict (Option String) (List Doc)
group_docs [] groups = groups
group_docs (d ∷ docs) groups =
    group_docs docs
      (put d.company_norm (list_or_empty (get d.company_norm groups) ++ d ∷ []) groups)

-- `d[2] or norm`
abbrev shown_name : String → Doc → String
shown_name norm d = elim d.company [ none ↦ norm | some c ↦ if c == "" then norm else c ]

abbrev min_text : String → String → String
min_text a b = if text_leb a b then a else b

-- the least name of a group, which has a document at least
abbrev least_name : String → List Doc → String
least_name norm [] = norm
least_name norm (d ∷ []) = shown_name norm d
least_name norm (d ∷ e ∷ docs) = min_text (shown_name norm d) (least_name norm (e ∷ docs))

abbrev pub group_name : Option String → List Doc → String
group_name none docs = no_company
group_name (some norm) docs = least_name norm docs

abbrev pub name_groups :
    Dict (Option String) (List Doc) → Dict String (List Doc) → Dict String (List Doc)
name_groups [] named = named
name_groups ((norm, docs) ∷ groups) named =
    name_groups groups (put (group_name norm docs) docs named)

-- `_by_company`
unfoldable pub by_company : List Doc → Dict String (List Doc)
by_company docs = name_groups (group_docs docs []) []

-- what the loop over the entities has gathered
pub record Combined : Type 0 where
  pub covered : Dict String (List Doc)
  pub mentioned_as : Dict String (List String)
  pub unresolved : List String
  pub clarifications : List EntityClarification

abbrev pub is_include : Option OutsideScope → Bool
is_include none = false
is_include (some OutsideScope.include) = true
is_include (some OutsideScope.exclude) = false

abbrev pub is_exclude : Option OutsideScope → Bool
is_exclude none = false
is_exclude (some OutsideScope.include) = false
is_exclude (some OutsideScope.exclude) = true

-- Only companies get a card.
abbrev pub ask :
    ExtractedEntity → ClarificationOutcome → List CompanyCandidate → Combined → Combined
ask e outcome candidates c =
    if e.entity_type == "company"
    then record c {
      clarifications =
          c.clarifications
          ++ record {
            entity = e.name;
            raw_span = e.raw_span;
            outcome = outcome;
            candidates = candidates;
          }
            ∷ [];
    }
    else c

-- the first candidate; `none` is an IndexError
abbrev pub pick_of : Decision → List CompanyCandidate → Option (Option CompanyCandidate)
pick_of Decision.unmatched candidates = some none
pick_of d [] = none
pick_of d (c ∷ candidates) = some (some c)

-- the documents of a picked company
abbrev pub docs_of : DocRepo → List Doc → Option OutsideScope → CompanyCandidate → List Doc
docs_of repo docs outside pick =
    let inside = filter_by (λ d. d.company_norm == some pick.company_norm) docs in
    if is_empty inside && is_include outside
    then repo.get_scope_docs (some pick.doc_ids)
    else inside

abbrev pub cover : NameOps → ExtractedEntity → CompanyCandidate → List Doc → Combined → Combined
cover names e pick inside c = record c {
  covered = put pick.display_name inside c.covered;
  mentioned_as =
      if normalize_company names e.raw_span == pick.company_norm
      then c.mentioned_as
      else put pick.display_name
          (list_or_empty (get pick.display_name c.mentioned_as) ++ e.raw_span ∷ []) c.mentioned_as;
}

abbrev pub ask_unless_resolved :
    Decision → ExtractedEntity → List CompanyCandidate → Combined → Combined
ask_unless_resolved Decision.resolved e candidates c = c
ask_unless_resolved Decision.ambiguous e candidates c = ask e ambiguous candidates c
ask_unless_resolved Decision.unmatched e candidates c = ask e ambiguous candidates c

abbrev pub miss : ExtractedEntity → EntityResolution → ClarificationOutcome → Combined → Combined
miss e res outcome c =
    let missed = record c { unresolved = c.unresolved ++ e.name ∷ [] } in
    if is_exclude res.outside_scope then missed else ask e outcome res.candidates missed

-- an entity with its pick and what the pick covers
abbrev pub place_docs :
    NameOps → ExtractedEntity → EntityResolution → CompanyCandidate → List Doc → Combined → Combined
place_docs names e res pick [] c = miss e res outside_scope c
place_docs names e res pick (d ∷ inside) c =
    ask_unless_resolved res.decision e res.candidates (cover names e pick (d ∷ inside) c)

abbrev pub place :
    NameOps
    → DocRepo
    → List Doc
    → ExtractedEntity
    → EntityResolution
    → Option CompanyCandidate
    → Combined
    → Combined
place names repo docs e res none c = miss e res unmatched c
place names repo docs e res (some pick) c =
    place_docs names e res pick (docs_of repo docs res.outside_scope pick) c

abbrev pub is_skipped : Method → Bool
is_skipped Method.skipped = true
is_skipped Method.binding = false
is_skipped Method.fast_path = false
is_skipped Method.llm = false
is_skipped Method.fallback = false
is_skipped Method.no_candidates = false

abbrev pub placed :
    NameOps
    → DocRepo
    → List Doc
    → ExtractedEntity
    → EntityResolution
    → Option (Option CompanyCandidate)
    → Option Combined
    → Option Combined
placed names repo docs e res none c = none
placed names repo docs e res (some pick) none = none
placed names repo docs e res (some pick) (some c) = some (place names repo docs e res pick c)

-- the loop; `none` is an exception: an IndexError, or lists of different lengths
unfoldable pub combine :
    NameOps
    → DocRepo
    → List Doc
    → Bool
    → List ExtractedEntity
    → List EntityResolution
    → Option Combined
    → Option Combined
combine names repo docs all_skipped [] [] c = c
combine names repo docs all_skipped [] (r ∷ rs) c = none
combine names repo docs all_skipped (e ∷ es) [] c = none
combine names repo docs all_skipped (e ∷ es) (r ∷ rs) c =
    combine names repo docs all_skipped es rs (
      if is_skipped r.method && not all_skipped
      then c
      else placed names repo docs e r (pick_of r.decision r.candidates) c)

abbrev pub ids_of : List Doc → List ℕ
ids_of docs = map (λ d. d.id) docs

abbrev pub ids_of_groups : Dict String (List Doc) → Dict String (List ℕ)
ids_of_groups [] = []
ids_of_groups ((name, docs) ∷ groups) = (name, ids_of docs) ∷ ids_of_groups groups

-- `per_entity.update({name: [] for name in unresolved})`
abbrev pub with_unresolved : List String → Dict String (List ℕ) → Dict String (List ℕ)
with_unresolved [] d = d
with_unresolved (name ∷ names) d = with_unresolved names (put name [] d)

abbrev pub manifest : Dict String (List String) → Dict String (List Doc) → List EntityManifestItem
manifest mentioned_as [] = []
manifest mentioned_as ((name, docs) ∷ groups) =
    record {
      entity_name = name;
      doc_summaries = map (λ d. record { doc_id = d.id; name = d.company; year = d.year }) docs;
      mentioned_as = list_or_empty (get name mentioned_as);
    }
    ∷ manifest mentioned_as groups

-- what is returned for the companies covered
unfoldable pub scope_result : ℕ → ScopeSource → Combined → DocumentScopeResult
scope_result max_companies source c =
    let per_entity = with_unresolved c.unresolved (ids_of_groups c.covered) in
    if ltb max_companies (length c.covered)
    then record {
      doc_ids = some [];
      source = source;
      per_entity_doc_ids = none;
      unresolved_entities = c.unresolved;
      entity_manifest = none;
      clarifications = c.clarifications;
      too_broad_count = some (length c.covered);
    }
    else record {
      doc_ids = some (concat (values per_entity));
      source = source;
      per_entity_doc_ids = or_none per_entity;
      unresolved_entities = c.unresolved;
      entity_manifest = or_none (manifest c.mentioned_as c.covered);
      clarifications = c.clarifications;
      too_broad_count = none;
    }

abbrev pub nothing_combined : Combined
nothing_combined = record { covered = []; mentioned_as = []; unresolved = []; clarifications = [] }

abbrev pub combined_result : ℕ → Option Combined → Option DocumentScopeResult
combined_result max_companies none = none
combined_result max_companies (some c) =
    some (scope_result max_companies (if is_empty c.covered then unresolved else entity_resolved) c)

abbrev pub resolved_scope :
    Resolver
    → DocRepo
    → ℕ
    → List Doc
    → List ExtractedEntity
    → Option (List EntityResolution)
    → Option DocumentScopeResult
resolved_scope r repo max_companies docs entities none = none
resolved_scope r repo max_companies docs entities (some rs) = combined_result max_companies (
    combine r.names repo docs (all (λ (res : EntityResolution). is_skipped res.method) rs) entities
      rs (some nothing_combined))

-- the scope of a question that names some entities, or none
abbrev pub scope_for :
    Resolver
    → DocRepo
    → ℕ
    → String
    → List Doc × ScopeSource
    → List ExtractedEntity
    → Option DocumentScopeResult
scope_for r repo max_companies query (docs, source) [] =
    some (scope_result max_companies source (record nothing_combined { covered = by_company docs }))
scope_for r repo max_companies query (docs, source) (e ∷ es) =
    resolved_scope r repo max_companies docs (e ∷ es) (resolve_entities r query (e ∷ es))

-- `resolve_scope`
unfoldable pub resolve_scope :
    Resolver → DocRepo → ℕ → Option ChatScope → RouterOutput → String → Option DocumentScopeResult
resolve_scope r repo max_companies scope router_output query =
    scope_for r repo max_companies query (universe repo scope) router_output.entities
