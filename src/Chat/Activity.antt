-- ===== src/Chat/Activity.antt =====
-- src/services/chat/activity.py: what the timeline says of a request: where it looked, and how its run ended.
pub mod Rows
pub mod Pill
use Prim.Native.String.{String, ◌++◌}
use mathlib.Core.List.{List, [], ◌∷◌, map}
use ai_financial_copilot.Common.{
  ℕ, suc, ◌+◌, Bool, true, false, ◌||◌, not, Option, none, some, length, is_empty, dedup, take,
  if◌then◌else◌, nat_beq, leb, nat_eq, string_eq, ◌==◌,
}
use ai_financial_copilot.Common.Dict.{Dict}
use ai_financial_copilot.Common.Int.{ℤ, pos, negsuc, sub_ℕ}
use ai_financial_copilot.Common.Decimal.{show}
use ai_financial_copilot.Common.Sort.{sorted}
use ai_financial_copilot.Common.Text.{join, text_leb}
use ai_financial_copilot.Schemas.Routing.{
  Route, direct_answer, retrieval, out_of_scope, RouterOutput, DocumentScopeResult,
  EntityManifestItem, DocSummary, ScopeSource, explicit, filtered, everything, entity_resolved,
  unresolved,
}
use ai_financial_copilot.Agent.State.{
  AgentLoopMeta, ConvergenceReason, natural, convergence, iteration_cap, budget_cap, timeout,
  covered, search_unavailable, deadline, llm_error, truncated,
}
use ai_financial_copilot.Agent.Loop.{SearchResult}

pub data ActivityStatus : Type 0 where
  ok warn fail skipped : ActivityStatus

-- `WARN_STOPS`
abbrev pub is_warn_stop : ConvergenceReason → Bool
is_warn_stop natural = false
is_warn_stop convergence = false
is_warn_stop iteration_cap = false
is_warn_stop budget_cap = true
is_warn_stop timeout = true
is_warn_stop covered = false
is_warn_stop search_unavailable = false
is_warn_stop deadline = true
is_warn_stop llm_error = true
is_warn_stop truncated = true

abbrev pub is_unavailable : ConvergenceReason → Bool
is_unavailable search_unavailable = true
is_unavailable natural = false
is_unavailable convergence = false
is_unavailable iteration_cap = false
is_unavailable budget_cap = false
is_unavailable timeout = false
is_unavailable covered = false
is_unavailable deadline = false
is_unavailable llm_error = false
is_unavailable truncated = false

abbrev show_int : ℤ → String
show_int (pos n) = show n
show_int (negsuc n) = "-" ++ show (n + 1)

abbrev is_one : ℤ → Bool
is_one (pos n) = nat_beq n 1
is_one (negsuc n) = false

-- `_count`
abbrev pub count : ℤ → String → String → String
count n one many = show_int n ++ " " ++ (if is_one n then one else many)

abbrev pub per_entity : DocumentScopeResult → Dict String (List ℕ)
per_entity scope = elim scope.per_entity_doc_ids [ none ↦ [] | some d ↦ d ]

-- the names of the entities that have documents, and of those that have none
abbrev pub names_with : Bool → Dict String (List ℕ) → List String
names_with b [] = []
names_with b ((name, ids) ∷ d) =
    let rest = names_with b d in
    if is_empty ids then (if b then rest else name ∷ rest) else if b then name ∷ rest else rest

abbrev year_entries : List DocSummary → List ℕ
year_entries [] = []
year_entries (d ∷ docs) = elim d.year [
  | none ↦ year_entries docs
  | some y ↦ if nat_beq y 0 then year_entries docs else y ∷ year_entries docs
]

abbrev years_in : String → List EntityManifestItem → List ℕ
years_in name [] = []
years_in name (item ∷ items) =
    let later = years_in name items in
    if item.entity_name == name
    then sorted (λ a b. leb b a) (dedup (year_entries item.doc_summaries))
    else later

-- `_years`
abbrev pub years : DocumentScopeResult → String → List ℕ
years scope name = elim scope.entity_manifest [ none ↦ [] | some items ↦ years_in name items ]

abbrev pub year_text : List ℕ → String
year_text ys = join ", " (map show ys)

abbrev documents_text : ScopeSource → ℕ → String
documents_text explicit n = count (pos n) "selected document" "selected documents"
documents_text filtered n = count (pos n) "filtered document" "filtered documents"
documents_text everything n = "all " ++ count (pos n) "document" "documents"
documents_text entity_resolved n = count (pos n) "document" "documents"
documents_text unresolved n = count (pos n) "document" "documents"

abbrev named_with_years : String → List ℕ → String
named_with_years name [] = name
named_with_years name (y ∷ ys) = name ++ " (" ++ year_text (y ∷ ys) ++ ")"

abbrev unnamed_text : DocumentScopeResult → String
unnamed_text scope = elim scope.doc_ids [
  | none ↦ "your documents"
  | some ids ↦ documents_text scope.source (length ids)
]

abbrev pub where_found : DocumentScopeResult → List String → String
where_found scope [] = unnamed_text scope
where_found scope (a ∷ []) = named_with_years a (years scope a)
where_found scope (a ∷ b ∷ []) = a ++ " and " ++ b
where_found scope (a ∷ b ∷ c ∷ found) = show (suc (suc (suc (length found)))) ++ " companies"

-- `where`
unfoldable pub where_searched : Option DocumentScopeResult → String
where_searched none = "your documents"
where_searched (some scope) = where_found scope (names_with true (per_entity scope))

abbrev capability_text : String → String
capability_text c =
    if c == "dense"
    then "semantic search"
    else if c == "keyword"
    then "keyword search"
    else "reranking"

-- `_capabilities`
abbrev pub capabilities : List String → String
capabilities caps = join " and " (map capability_text (sorted text_leb caps))

abbrev pub searches_of : AgentLoopMeta → ℤ
searches_of meta = sub_ℕ meta.tool_calls_total meta.report_calls_total
