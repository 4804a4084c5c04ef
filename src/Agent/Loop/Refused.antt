-- ===== src/Agent/Loop/Refused.antt =====
-- What a report cannot do: record a key that the plan does not have, or a negative without a search.
use ai_financial_copilot.Common.{
  ◌≡◌, refl, ap, ◌∙◌, false, List, [], ◌∷◌, Option, String, length, string_eq, ◌==◌, ==_iff,
  filter_by, arith, All, Bool-cases, inl, inr,
}
use ai_financial_copilot.Common.Dict.{get, has}
use ai_financial_copilot.Schemas.Findings.{Finding, FindingsReport}
use ai_financial_copilot.Agent.Findings.{RecordOutcome}
use ai_financial_copilot.Agent.Findings.Counts.{keys_named, ingest-other}
use ai_financial_copilot.Agent.State.{AgentRunState}
use ai_financial_copilot.Agent.Loop.{RunDeps}
use ai_financial_copilot.Agent.Loop.Report.{is_kept, searched, apply_parsed, report_outcomes}

-- every finding of the key is a negative
abbrev pub AllNegative : String → List Finding → Type 0
AllNegative k = All (λ f. f.key ≡ k → f.supported ≡ false)

unsearched-dropped :
    (s : AgentRunState) (k : String) (findings : List Finding)
    → searched s k ≡ false
    → AllNegative k findings
    → keys_named k (filter_by (is_kept s) findings) ≡ false
unfolding is_kept
unsearched-dropped s k [] h negative = refl
unsearched-dropped s k (f ∷ findings) h negative = elim (Bool-cases (f.key == k)) [
  | inl same ↦
      let is : f.key ≡ k = (==_iff f.key k).0 same in
      let unseen : searched s f.key ≡ false = ap (searched s) is ∙ h in
      ground (arith, negative.0 is, unseen, unsearched-dropped s k findings h negative.1)
  | inr other ↦ ground (arith, unsearched-dropped s k findings h negative.1)
]

unplanned-dropped :
    (s : AgentRunState) (k : String) (findings : List Finding)
    → has k s.plan ≡ false
    → keys_named k (filter_by (is_kept s) findings) ≡ false
unfolding is_kept
unplanned-dropped s k [] h = refl
unplanned-dropped s k (f ∷ findings) h =
    ground (arith, ==_iff f.key k, unplanned-dropped s k findings h)

module _ (deps : RunDeps) (report : FindingsReport) (s : AgentRunState) (k : String) where
  -- A report whose findings of a key are all negatives does not touch what the ledger holds for the
  -- key, when no search has covered the key so far.
  pub apply_parsed-unsearched :
      searched s k ≡ false
      → AllNegative k report.findings
      → get k (apply_parsed deps report s).2.findings.entries ≡ get k s.findings.entries
  unfolding apply_parsed
  apply_parsed-unsearched h negative =
      ingest-other deps.assembly
        (record report { findings = filter_by (is_kept s) report.findings }) s.evidence s.findings k
        (unsearched-dropped s k report.findings h negative)

  -- A report does not touch what the ledger holds for a key that is not in the plan.
  pub apply_parsed-unplanned :
      has k s.plan ≡ false
      → get k (apply_parsed deps report s).2.findings.entries ≡ get k s.findings.entries
  unfolding apply_parsed
  apply_parsed-unplanned h =
      ingest-other deps.assembly
        (record report { findings = filter_by (is_kept s) report.findings }) s.evidence s.findings k
        (unplanned-dropped s k report.findings h)

-- The outcomes of a report stand for its findings, one each.
pub length-report_outcomes :
    (s : AgentRunState) (findings : List Finding) (outcomes : List (RecordOutcome × Option Finding))
    → length (report_outcomes s findings outcomes) ≡ length findings
unfolding report_outcomes
length-report_outcomes s [] outcomes = refl
length-report_outcomes s (f ∷ findings) [] = ground (arith, length-report_outcomes s findings [])
length-report_outcomes s (f ∷ findings) ((o, stored) ∷ outcomes) = ground (
  arith,
  length-report_outcomes s findings outcomes,
  length-report_outcomes s findings ((o, stored) ∷ outcomes),
)
