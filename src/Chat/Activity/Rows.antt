-- ===== src/Chat/Activity/Rows.antt =====
-- src/services/chat/activity.py: the rows of the routing and agent stages and of a search. A timeout (a
-- float) comes as its text.
use Prim.Native.String.{String, ◌++◌}
use mathlib.Core.List.{List, [], ◌∷◌, map}
use ai_financial_copilot.Common.{
  ℕ, Bool, true, ◌||◌, not, Option, none, some, length, is_empty, take, if◌then◌else◌, nat_beq,
  nat_eq, string_eq, ◌==◌,
}
use ai_financial_copilot.Common.Dict.{Dict}
use ai_financial_copilot.Common.Int.{pos}
use ai_financial_copilot.Common.Decimal.{show}
use ai_financial_copilot.Common.Text.{join}
use ai_financial_copilot.Schemas.Routing.{
  Route, direct_answer, retrieval, out_of_scope, RouterOutput, DocumentScopeResult,
}
use ai_financial_copilot.Agent.State.{AgentLoopMeta}
use ai_financial_copilot.Agent.Loop.{SearchResult}
use ai_financial_copilot.Chat.Activity.{
  ActivityStatus, ok, warn, fail, skipped, is_warn_stop, is_unavailable, count, per_entity,
  names_with, years, year_text, where_found, where_searched, capabilities, searches_of,
}

-- a company of the comparison, with the years of its documents and whether it has any
pub record CompanyRow : Type 0 where
  pub name : String
  pub years : List ℕ
  pub found : Bool

pub record StageResult : Type 0 where
  pub status : ActivityStatus
  pub note : Option String
  pub hidden : Option Bool
  pub companies : Option (List CompanyRow)

abbrev noted : String → StageResult
noted note = record { status = ok; note = some note; hidden = none; companies = none }

abbrev company_rows : DocumentScopeResult → Dict String (List ℕ) → List CompanyRow
company_rows scope [] = []
company_rows scope ((name, ids) ∷ d) =
    record { name = name; years = years scope name; found = not (is_empty ids) }
    ∷ company_rows scope d

-- the row of a comparison, where the scope names companies
abbrev comparison_stage : DocumentScopeResult → Dict String (List ℕ) → StageResult → StageResult
comparison_stage scope [] otherwise = otherwise
comparison_stage scope (e ∷ d) otherwise =
    let rows = company_rows scope (e ∷ d) in
    record (noted (count (pos (length rows)) "company" "companies")) { companies = some rows }

abbrev compared : Option DocumentScopeResult → StageResult → StageResult
compared none otherwise = otherwise
compared (some scope) otherwise = comparison_stage scope (per_entity scope) otherwise

abbrev dotted_with_years : String → List ℕ → String
dotted_with_years name [] = name
dotted_with_years name (y ∷ ys) = name ++ " · " ++ year_text (y ∷ ys)

abbrev extraction_note : DocumentScopeResult → List String → String
extraction_note scope [] = where_found scope []
extraction_note scope (a ∷ []) = dotted_with_years a (years scope a)
extraction_note scope (a ∷ b ∷ found) = where_found scope (a ∷ b ∷ found)

abbrev looked_up : Option DocumentScopeResult → StageResult
looked_up none = noted "your documents"
looked_up (some scope) = noted (extraction_note scope (names_with true (per_entity scope)))

abbrev retrieval_stage : String → Option DocumentScopeResult → StageResult
retrieval_stage shape scope =
    if shape == "comparison"
    then compared scope (looked_up scope)
    else if shape == "analytical"
    then noted ("explain · " ++ where_searched scope)
    else looked_up scope

abbrev shape_or_empty : Option String → String
shape_or_empty none = ""
shape_or_empty (some shape) = shape

abbrev stage_of_route : Route → String → Option DocumentScopeResult → StageResult
stage_of_route out_of_scope shape scope = record {
  status = ok;
  note = none;
  hidden = none;
  companies = none;
}
stage_of_route direct_answer shape scope = noted "answer without searching"
stage_of_route retrieval shape scope = retrieval_stage shape scope

-- `route_stage`
unfoldable pub route_stage : RouterOutput → Option DocumentScopeResult → StageResult
route_stage router_output scope =
    stage_of_route router_output.route (shape_or_empty router_output.query_shape) scope

abbrev pages_text : List ℕ → String
pages_text pages = join ", " (map (λ p. "p." ++ show p) pages)

abbrev source_text : String → List ℕ → String
source_text name [] = name
source_text name (p ∷ pages) = name ++ " " ++ pages_text (p ∷ pages)

abbrev text_or_none : String → Option String
text_or_none s = if s == "" then none else some s

-- `search_sources`
unfoldable pub search_sources : ℕ → List (String × List ℕ) → Option String
search_sources max_sources sources =
    text_or_none (join " · " (map (λ s. source_text s.0 s.1) (take max_sources sources)))

-- `agent_stage`
unfoldable pub agent_stage : AgentLoopMeta → StageResult
agent_stage meta =
    let note =
      count (searches_of meta) "search" "searches"
      ++ ", "
      ++ count (pos meta.iterations) "pass" "passes" in
    let status =
      if is_unavailable meta.convergence_reason
      then fail
      else if not meta.sealed
          || is_warn_stop meta.convergence_reason
          || not (is_empty meta.degraded_capabilities)
      then warn
      else ok in
    record { status = status; note = some note; hidden = none; companies = none }

abbrev with_degraded : List String → ActivityStatus × String → ActivityStatus × String
with_degraded [] row = row
with_degraded (c ∷ caps) (status, note) =
    (warn, note ++ " · " ++ capabilities (c ∷ caps) ++ " unavailable")

-- `search_result_row`
unfoldable pub search_result_row : SearchResult → ℕ → String → ActivityStatus × String
search_result_row result new timeout_s =
    let came_back =
      if not (nat_beq new 0)
      then (ok, "+" ++ show new ++ " new")
      else if not (is_empty result.chunks)
      then (skipped, "nothing new")
      else (skipped, "no results") in
    if result.timed_out
    then (warn, "timed out after " ++ timeout_s ++ "s")
    else if result.backend_failed
    then (warn, "search failed")
    else if result.not_found
    then (skipped, result.entity ++ " is not in your documents")
    else if result.args_invalid
    then (skipped, "malformed search, skipped")
    else with_degraded result.degraded came_back
