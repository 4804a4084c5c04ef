-- ===== src/Agent/Loop/Report.antt =====
-- The reports of src/services/chat/agent/loop.py: references become chunk ids, findings without an
-- open key and negatives without a search are left out, and the rest is folded into the ledger.
use Prim.Native.String.{◌++◌ as ◌+++◌}
use ai_financial_copilot.Common.{
  ◌+◌, Bool, true, false, ◌&&◌, ◌||◌, not, List, [], ◌∷◌, ◌++◌, Option, none, some, String, length,
  if◌then◌else◌, nat_beq, ltb, string_eq, is_empty, map, elem, dedup, filter_by, is_some,
}
use ai_financial_copilot.Common.Text.{join, text_leb}
use ai_financial_copilot.Common.Sort.{sorted}
use ai_financial_copilot.Common.Dict.{Dict, get, put, has, keys}
use ai_financial_copilot.Schemas.Findings.{Finding, FindingsReport}
use ai_financial_copilot.Llm.Messages.{ToolCallRef}
use ai_financial_copilot.Agent.Evidence.{EvidenceLedger, resolve_refs}
use ai_financial_copilot.Agent.Findings.{RecordOutcome, ingest}
use ai_financial_copilot.Agent.State.{AgentRunState, AspectStats, addressed}
use ai_financial_copilot.Agent.Loop.{RunDeps}

-- what became of one finding of a report
pub data ReportOutcome : Type 0 where
  unknown unsearched : ReportOutcome
  ingested : RecordOutcome → Option Finding → ReportOutcome

-- every key once
abbrev pub report_keys : List Finding → List String
report_keys findings = dedup (map (λ f. f.key) findings)

abbrev without : List String → List String → List String
without xs ys = filter_by (λ x. not (elem x ys)) xs

abbrev within : List String → List String → List String
within xs ys = filter_by (λ x. elem x ys) xs

abbrev was_searched : Option AspectStats → Bool
was_searched none = false
was_searched (some stats) = ltb 0 stats.searches

-- `_searched`
unfoldable pub searched : AgentRunState → String → Bool
searched s key = was_searched (get key s.aspect_stats)

-- a finding whose key the plan has, and that is positive or whose key was searched
unfoldable pub is_kept : AgentRunState → Finding → Bool
is_kept s f = has f.key s.plan && (f.supported || searched s f.key)

-- the keys of the plan that the report names, and the others
abbrev pub known_keys : AgentRunState → List Finding → List String
known_keys s findings = filter_by (λ k. has k s.plan) (report_keys findings)

abbrev pub unknown_keys : AgentRunState → List Finding → List String
unknown_keys s findings = filter_by (λ k. not (has k s.plan)) (report_keys findings)

-- the keys of the plan that get a negative and that no search covered
abbrev pub unsearched_keys : AgentRunState → List Finding → List String
unsearched_keys s findings =
    filter_by (λ k. has k s.plan)
      (report_keys (filter_by (λ f. not f.supported && not (searched s f.key)) findings))

-- the outcomes of the findings kept, back in the order of the report
unfoldable pub report_outcomes :
    AgentRunState → List Finding → List (RecordOutcome × Option Finding) → List ReportOutcome
report_outcomes s [] outcomes = []
report_outcomes s (f ∷ findings) [] =
    let rest = report_outcomes s findings [] in
    if has f.key s.plan then unsearched ∷ rest else unknown ∷ rest
report_outcomes s (f ∷ findings) ((o, stored) ∷ outcomes) =
    let rejected = report_outcomes s findings ((o, stored) ∷ outcomes) in
    let taken = report_outcomes s findings outcomes in
    if not (has f.key s.plan)
    then unknown ∷ rejected
    else if is_kept s f
    then ingested o stored ∷ taken
    else unsearched ∷ rejected

abbrev plural_or : Bool → String → String → String
plural_or many one_form many_form = if many then many_form else one_form

abbrev is_plural : List String → Bool
is_plural xs = not (nat_beq (length xs) 1)

abbrev clause_if : Bool → String → List String
clause_if true text = text ∷ []
clause_if false text = []

abbrev absent_clause : List String → String
absent_clause ks =
    let many = is_plural ks in
    join ", " ks
    +++ " "
    +++ plural_or many "was" "were"
    +++ " not recorded as absent — no earlier search covered "
    +++ plural_or many "it" "them"
    +++ ". Search first, then report what the results show."

abbrev dropped_clause : List String → String
dropped_clause ks =
    let many = is_plural ks in
    join ", " ks
    +++ " "
    +++ plural_or many "was" "were"
    +++ " not recorded — "
    +++ plural_or many "its" "their"
    +++ " findings cited no chunk from the evidence you retrieved. Re-report citing chunk labels from a search result, or, if the documents do not support it, report it with supported: false."

abbrev sort_texts : List String → List String
sort_texts xs = sorted text_leb xs

abbrev or_nothing : List String → String
or_nothing [] = "Nothing was recorded — no known key was reported."
or_nothing (p ∷ parts) = join " " (p ∷ parts)

-- the count of the calls, and the turn of the first one
unfoldable pub count_report : AgentRunState → AgentRunState
count_report s = record s {
  report_calls_total = s.report_calls_total + 1;
  turns_to_first_report =
      if is_some s.turns_to_first_report then s.turns_to_first_report else some s.iteration;
}

module _ (deps : RunDeps) where
  open deps use {assembly}

  abbrev unknown_clause : List String → String
  unknown_clause ks =
      let many = is_plural ks in
      join ", " (map deps.repr (sort_texts ks))
      +++ " "
      +++ plural_or many "is" "are"
      +++ " not an open key and "
      +++ plural_or many "was" "were"
      +++ " not recorded. Use the key shown in brackets in a search result."

  -- `_render_report_result`, of the keys that hold a finding by now
  unfoldable pub render_report_result :
      List String → List String → List String → List String → String
  render_report_result done closed unknown_ks unsearched_ks =
      let landed = sort_texts (within closed done) in
      let absent = sort_texts (without unsearched_ks done) in
      let dropped = sort_texts (without (without closed done) unsearched_ks) in
      or_nothing (
        clause_if (not (is_empty landed)) ("Recorded " +++ join ", " landed +++ ".")
        ++ clause_if (not (is_empty absent)) (absent_clause absent)
        ++ clause_if (not (is_empty dropped)) (dropped_clause dropped)
        ++ clause_if (not (is_empty unknown_ks)) (unknown_clause unknown_ks))

  abbrev resolve_finding : EvidenceLedger → Finding → Finding
  resolve_finding evidence f = record f { evidence = (resolve_refs assembly f.evidence evidence).0 }

  -- `_resolve_refs`
  unfoldable pub resolve_report : FindingsReport → EvidenceLedger → FindingsReport
  resolve_report report evidence = record report {
    findings = map (resolve_finding evidence) report.findings;
  }

  -- `_apply_report` of a report that parses, its references resolved
  unfoldable pub apply_parsed :
      FindingsReport → AgentRunState → String × List ReportOutcome × AgentRunState
  apply_parsed report s =
      let kept = filter_by (is_kept s) report.findings in
      let unknown_ks = unknown_keys s report.findings in
      let unsearched_ks = unsearched_keys s report.findings in
      let (findings, outcomes) =
        ingest assembly (record report { findings = kept }) s.evidence s.findings in
      (
        render_report_result (keys findings.entries) (known_keys s report.findings) unknown_ks
            unsearched_ks,
        report_outcomes s report.findings outcomes,
        record s {
          unknown_aspect_keys = s.unknown_aspect_keys + length unknown_ks;
          unsearched_negatives = s.unsearched_negatives + length unsearched_ks;
          findings = findings;
        },
      )

  abbrev pub apply_if_parsed :
      Option FindingsReport → String → AgentRunState → String × List ReportOutcome × AgentRunState
  apply_if_parsed none name s = (
    name +++ " arguments did not parse against the schema. Re-issue the call with valid arguments.",
    [],
    record s { report_parse_failures = s.report_parse_failures + 1 },
  )
  apply_if_parsed (some report) name s = apply_parsed (resolve_report report s.evidence) s

  -- `_apply_report`: the tool result, the outcome of each finding, and the state
  unfoldable pub apply_report :
      ToolCallRef → AgentRunState → String × List ReportOutcome × AgentRunState
  apply_report tc s = apply_if_parsed (deps.parse_report tc.arguments) tc.name (count_report s)

  -- the loop of `fold_reports`
  unfoldable pub fold_report_calls :
      List ToolCallRef → AgentRunState → Dict String String → Dict String String × AgentRunState
  fold_report_calls [] s texts = (texts, s)
  fold_report_calls (tc ∷ tcs) s texts =
      let (text, outcomes, s1) = apply_report tc s in
      fold_report_calls tcs s1 (put tc.id text texts)

  -- `fold_reports`: the texts by call id, the keys closed, and the state
  unfoldable pub fold_reports :
      List ToolCallRef
      → AgentRunState
      → Dict String String
      → Dict String String × List String × AgentRunState
  fold_reports tcs s texts =
      let (texts', s') = fold_report_calls tcs s texts in
      (texts', without (addressed s') (addressed s), s')
