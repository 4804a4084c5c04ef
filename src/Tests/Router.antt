-- ===== src/Tests/Router.antt =====
-- The router, on a question about two companies, one of which the user has included.
use ai_financial_copilot.Common.{
  ℕ, ◌≡◌, refl, false, List, [], ◌∷◌, Option, none, some, String, if◌then◌else◌, nat_beq, leb,
  string_eq, ◌==◌, Each, ◌&&◌,
}
use ai_financial_copilot.Common.Dict.{get, put}
use ai_financial_copilot.Common.Sort.{sorted}
use ai_financial_copilot.Common.Decimal.{show}
use ai_financial_copilot.Schemas.Routing.{
  ExtractedEntity, CompanyCandidate, ChatScope, selected_docs, RouterOutput, retrieval,
  DocumentScopeResult,
}
use ai_financial_copilot.Router.Names.{NameOps, normalize_company}
use ai_financial_copilot.Router.Disambiguator.{Disambiguator, resolved, map_picks, disambiguate}
use ai_financial_copilot.Router.Entities.{
  OutsideScope, Resolver, EntityResolution, keys_of, merge_candidates, from_llm, decide_entity,
  resolve_entities,
}
use ai_financial_copilot.Router.Entities.Complete.{IsResolution, resolve_entities-Each}
use ai_financial_copilot.Router.Scope.{Doc, DocRepo, universe, combine, scope_result, resolve_scope}
use ai_financial_copilot.Router.Scope.Sound.{IsScope, resolve_scope-IsScope}

-- lower-case names of letters and spaces
abbrev plain_names : NameOps
plain_names = record {
  fold = λ name. name;
  is_space = λ c. nat_beq c 32;
  is_word = λ c. leb 97 c && leb c 122;
}

suffixes_are_popped :
    normalize_company plain_names "blue apron (scanned) holdings, inc." ≡ "blue apron"
unfolding normalize_company
suffixes_are_popped = refl

last_word_stays : normalize_company plain_names "holdings, inc." ≡ "holdings"
unfolding normalize_company
last_word_stays = refl

abbrev company : String → String → List ℕ → ℕ → CompanyCandidate
company norm name ids score = record {
  company_norm = norm;
  display_name = name;
  doc_ids = ids;
  years = [];
  titles = [];
  score = score;
}

abbrev found : String → List CompanyCandidate
found key =
    if key == "acme"
    then company "acme" "Acme" (1 ∷ []) 100 ∷ company "acme steel" "Acme Steel" (2 ∷ []) 60 ∷ []
    else if key == "beta mills"
    then company "beta mills" "Beta Mills" (3 ∷ []) 100 ∷ []
    else if key == "acm"
    then company "acme" "Acme" (1 ∷ []) 50 ∷ company "acme steel" "Acme Steel" (2 ∷ []) 40 ∷ []
    else []

abbrev sample_llm : Disambiguator
sample_llm = record {
  complete = λ query entities candidates. some "picks";
  validate_picks = λ text.
      some (record { entity = "E1"; decision = resolved; candidates = "C2" ∷ "C9" ∷ [] } ∷ []);
}

abbrev resolver : Resolver
resolver = record {
  names = plain_names;
  found = found;
  bindings =
      (
        "beta",
        record {
          skip = false;
          company_norm = "beta mills";
          outside_scope = some OutsideScope.include;
        },
      )
      ∷ [];
  llm = sample_llm;
}

abbrev entity : String → ExtractedEntity
entity name = record { name = name; entity_type = "company"; raw_span = name }

abbrev three_entities : List ExtractedEntity
three_entities = entity "acme" ∷ entity "acm" ∷ entity "beta" ∷ []

abbrev doc : ℕ → String → String → Doc
doc id norm name = record {
  id = id;
  company_norm = some norm;
  company = some name;
  year = some 2024;
}

-- the third document is outside the selection
abbrev repo : DocRepo
repo = record {
  get_scope_docs = λ ids. elim ids [
    | none ↦
        doc 1 "acme" "Acme" ∷ doc 2 "acme steel" "Acme Steel" ∷ doc 3 "beta mills" "Beta Mills" ∷ []
    | some [] ↦ []
    | some (i ∷ rest) ↦
        if nat_beq i 3
        then doc 3 "beta mills" "Beta Mills" ∷ []
        else doc 1 "acme" "Acme" ∷ doc 2 "acme steel" "Acme Steel" ∷ []
  ];
  find_by_metadata_filters = λ companies years types. [];
}

abbrev selection_scope : ChatScope
selection_scope = record {
  mode = selected_docs;
  doc_ids = 1 ∷ 2 ∷ [];
  filters = record { company = []; year = []; type = [] };
}

abbrev routed : RouterOutput
routed = record {
  route = retrieval;
  entities = three_entities;
  user_intent = "compare";
  reasoning = "";
  query_shape = some "comparison";
  requested_currency = none;
}

resolve_entities-Each_example :
    (rs : List EntityResolution) × (resolve_entities resolver "compare them" three_entities
      ≡ some rs)
    × Each (IsResolution resolver) three_entities rs
resolve_entities-Each_example = resolve_entities-Each resolver "compare them" three_entities

resolve_scope-IsScope_example :
    (rs : List EntityResolution) × (s : DocumentScopeResult) × (resolve_entities resolver
        "compare them" routed.entities
      ≡ some rs)
    × (resolve_scope resolver repo 5 (some selection_scope) routed "compare them" ≡ some s)
    × IsScope resolver repo 5 routed.entities rs (universe repo (some selection_scope)).0 s
resolve_scope-IsScope_example =
    resolve_scope-IsScope resolver repo 5 (some selection_scope) routed "compare them"

abbrev ids_in : Option DocumentScopeResult → Option (List ℕ)
ids_in none = none
ids_in (some s) = s.doc_ids

included_company_is_searched :
    ids_in (resolve_scope resolver repo 5 (some selection_scope) routed "compare them")
    ≡ some (1 ∷ 2 ∷ 3 ∷ [])
unfolding resolve_scope resolve_entities keys_of normalize_company merge_candidates from_llm
    decide_entity disambiguate map_picks combine scope_result get put sorted show
included_company_is_searched = refl
