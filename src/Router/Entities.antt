-- ===== src/Router/Entities.antt =====
-- src/services/router/entity_resolver.py: each entity of a question resolved to companies. The
-- search of candidates by PostgreSQL and the bindings of the conversation are parameters.
pub mod Candidates
pub mod Answers
pub mod Complete
use ai_financial_copilot.Common.{
  ℕ, ◌+◌, ◌≡◌, Bool, true, false, ◌&&◌, not, List, [], ◌∷◌, ◌++◌, Option, none, some, String, map,
  length, is_empty, is_some, concat, filter_by, elem, dedup, get_elem?, if◌then◌else◌, leb, ltb,
  nat_beq, string_eq, ◌==◌,
}
use ai_financial_copilot.Common.Dict.{Dict, get, put, values}
use ai_financial_copilot.Common.Sort.{sorted}
use ai_financial_copilot.Schemas.Routing.{ExtractedEntity, CompanyCandidate}
use ai_financial_copilot.Router.Names.{NameOps, normalize_company}
use ai_financial_copilot.Router.Disambiguator.{
  Decision, resolved, ambiguous, unmatched, Disambiguation, Disambiguator, disambiguate, push_some,
}

pub data Method : Type 0 where
  binding skipped fast_path llm fallback no_candidates : Method

pub data OutsideScope : Type 0 where
  include exclude : OutsideScope

pub record EntityResolution : Type 0 where
  pub decision : Decision
  pub candidates : List CompanyCandidate
  pub method : Method
  pub outside_scope : Option OutsideScope

-- An answer to a clarification card; the company is read only where `skip` is off.
pub record Binding : Type 0 where
  pub skip : Bool
  pub company_norm : String
  pub outside_scope : Option OutsideScope

-- `_keys`
unfoldable pub keys_of : NameOps → ExtractedEntity → List String
keys_of names e =
    filter_by (λ k. not (k == ""))
      (dedup (normalize_company names e.raw_span ∷ normalize_company names e.name ∷ []))

-- whether a candidate takes its company's place
abbrev pub is_better : CompanyCandidate → Option CompanyCandidate → Bool
is_better c none = true
is_better c (some best) = ltb best.score c.score

abbrev pub best_of :
    List CompanyCandidate → Dict String CompanyCandidate → Dict String CompanyCandidate
best_of [] best = best
best_of (c ∷ cs) best =
    best_of cs (if is_better c (get c.company_norm best) then put c.company_norm c best else best)

abbrev pub by_score : CompanyCandidate → CompanyCandidate → Bool
by_score a b = leb b.score a.score

-- `_merge`
unfoldable pub merge_candidates : List (List CompanyCandidate) → List CompanyCandidate
merge_candidates lists = sorted by_score (values (best_of (concat lists) []))

abbrev pub norms : List CompanyCandidate → List String
norms cs = map (λ c. c.company_norm) cs

abbrev pub answered_by_llm : Decision → List CompanyCandidate → EntityResolution
answered_by_llm d [] = record {
  decision = unmatched;
  candidates = [];
  method = llm;
  outside_scope = none;
}
answered_by_llm d (c ∷ kept) = record {
  decision = d;
  candidates = c ∷ kept;
  method = llm;
  outside_scope = none;
}

-- `_from_llm`
unfoldable pub from_llm : Disambiguation → List CompanyCandidate → EntityResolution
from_llm d own =
    answered_by_llm d.decision (filter_by (λ c. elem c.company_norm (norms own)) d.candidates)

-- `_fallback`
abbrev pub fall_back : List CompanyCandidate → EntityResolution
fall_back [] = record {
  decision = unmatched;
  candidates = [];
  method = fallback;
  outside_scope = none;
}
fall_back (c ∷ trigram) = record {
  decision = ambiguous;
  candidates = c ∷ trigram;
  method = fallback;
  outside_scope = none;
}

-- the binding of the first key that has one
abbrev pub bound_to : Dict String Binding → List String → Option Binding
bound_to bindings [] = none
bound_to bindings (k ∷ ks) =
    let later = bound_to bindings ks in elim (get k bindings) [ none ↦ later | some b ↦ some b ]

abbrev pub first_named : String → List CompanyCandidate → Option CompanyCandidate
first_named norm [] = none
first_named norm (c ∷ cs) =
    let later = first_named norm cs in if c.company_norm == norm then some c else later

abbrev pub skips : Option Binding → Bool
skips none = false
skips (some b) = b.skip

-- the company of a binding that names one, if it is found
abbrev pub bound_company :
    (String → List CompanyCandidate) → Option Binding → Option CompanyCandidate
bound_company found none = none
bound_company found (some b) =
    if b.skip then none else first_named b.company_norm (found b.company_norm)

abbrev pub outside_of : Option Binding → Option OutsideScope
outside_of none = none
outside_of (some b) = b.outside_scope

abbrev pub skipped_over : EntityResolution
skipped_over = record {
  decision = unmatched;
  candidates = [];
  method = skipped;
  outside_scope = none;
}

-- with no binding that counts; `none` is left to the disambiguator
abbrev pub by_exact : List CompanyCandidate → List CompanyCandidate → Option EntityResolution
by_exact (c ∷ []) trigram =
    some (record {
      decision = resolved;
      candidates = c ∷ [];
      method = fast_path;
      outside_scope = none;
    })
by_exact exact [] =
    some (record {
      decision = unmatched;
      candidates = [];
      method = no_candidates;
      outside_scope = none;
    })
by_exact exact (c ∷ trigram) = none

abbrev pub bound_resolution : CompanyCandidate → Option Binding → EntityResolution
bound_resolution c b = record {
  decision = resolved;
  candidates = c ∷ [];
  method = binding;
  outside_scope = outside_of b;
}

abbrev pub by_binding :
    Option CompanyCandidate → Option Binding → Option EntityResolution → Option EntityResolution
by_binding none b rest = rest
by_binding (some c) b rest = some (bound_resolution c b)

-- the body of the loop over the keys
unfoldable pub decide_entity :
    (String → List CompanyCandidate)
    → Option Binding
    → List String
    → List CompanyCandidate
    → Option EntityResolution
decide_entity found b ks trigram =
    let exact = filter_by (λ c. elem c.company_norm ks) trigram in
    if skips b && not (nat_beq (length exact) 1)
    then some skipped_over
    else by_binding (bound_company found b) b (by_exact exact trigram)

-- an entity with its candidates and its place in `results`
pub record Slot : Type 0 where
  pub entity : ExtractedEntity
  pub trigram : List CompanyCandidate
  pub result : Option EntityResolution

pub record Resolver : Type 0 where
  pub names : NameOps
  -- `find_company_candidates`, of one key
  pub found : String → List CompanyCandidate
  pub bindings : Dict String Binding
  pub llm : Disambiguator

abbrev pub slot_of : Resolver → ExtractedEntity → Slot
slot_of r e =
    let ks = keys_of r.names e in
    let trigram = merge_candidates (map r.found ks) in
    record {
      entity = e;
      trigram = trigram;
      result = decide_entity r.found (bound_to r.bindings ks) ks trigram;
    }

abbrev pub pending : List Slot → List Slot
pending slots = filter_by (λ s. not (is_some s.result)) slots

-- the decisions for the pending entities; without any there is no call
abbrev pub decisions_for : Resolver → String → List Slot → Option (List Disambiguation)
decisions_for r query [] = none
decisions_for r query (s ∷ slots) =
    disambiguate r.llm query (map (λ (t : Slot). t.entity) (s ∷ slots))
      (merge_candidates (map (λ (t : Slot). t.trigram) (s ∷ slots)))

abbrev pub from_decision : Option Disambiguation → List CompanyCandidate → Option EntityResolution
from_decision none trigram = none
from_decision (some d) trigram = some (from_llm d trigram)

-- the resolution of the n-th pending entity; `none` is an IndexError
abbrev pub nth_answer :
    Option (List Disambiguation) → ℕ → List CompanyCandidate → Option EntityResolution
nth_answer none n trigram = some (fall_back trigram)
nth_answer (some ds) n trigram = from_decision (get_elem? ds n) trigram

abbrev pub cons_some {ℓ} : {A : Type ℓ} → Option A → Option (List A) → Option (List A)
cons_some none xs = none
cons_some (some x) none = none
cons_some (some x) (some xs) = some (x ∷ xs)

abbrev pub answer_for :
    Option (List Disambiguation)
    → ℕ
    → List CompanyCandidate
    → Option EntityResolution
    → Option EntityResolution
answer_for ds n trigram (some r) = some r
answer_for ds n trigram none = nth_answer ds n trigram

abbrev pub past : ℕ → Option EntityResolution → ℕ
past n (some r) = n
past n none = n + 1

-- the results, where n pending entities stand before
abbrev pub fill_slots :
    Option (List Disambiguation) → ℕ → List Slot → Option (List EntityResolution)
fill_slots ds n [] = some []
fill_slots ds n (s ∷ slots) =
    cons_some (answer_for ds n s.trigram s.result) (fill_slots ds (past n s.result) slots)

-- `resolve_entities`
unfoldable pub resolve_entities :
    Resolver → String → List ExtractedEntity → Option (List EntityResolution)
resolve_entities r query entities =
    let slots = map (slot_of r) entities in
    fill_slots (decisions_for r query (pending slots)) 0 slots
