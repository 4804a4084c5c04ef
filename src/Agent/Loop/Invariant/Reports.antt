-- ===== src/Agent/Loop/Invariant/Reports.antt =====
-- Reports keep the invariant.
use ai_financial_copilot.Common.{
  ◌≡◌, refl, ◌∙◌, true, List, [], ◌∷◌, Option, none, some, String, string_eq, ==_iff, filter_by,
  arith, Bool-cases, inl, inr, nat_eq,
}
use ai_financial_copilot.Common.Dict.{Dict, put, has, has-eq-is_some}
use ai_financial_copilot.Schemas.Findings.{Finding, FindingsReport}
use ai_financial_copilot.Llm.Messages.{ToolCallRef}
use ai_financial_copilot.Agent.Findings.{ingest}
use ai_financial_copilot.Agent.Findings.Grounded.{ingest-IsGrounded}
use ai_financial_copilot.Agent.Findings.Counts.{keys_named, ingest-other}
use ai_financial_copilot.Agent.State.{AgentRunState}
use ai_financial_copilot.Agent.Loop.{RunDeps}
use ai_financial_copilot.Agent.Loop.Report.{
  is_kept, apply_parsed, apply_if_parsed, apply_report, count_report, resolve_report,
  fold_report_calls,
}
use ai_financial_copilot.Agent.Loop.Invariant.{IsGoodState}

module _ (deps : RunDeps) where
  open deps use {assembly}

  keys_named-kept :
      (s : AgentRunState) (k : String) (findings : List Finding)
      → keys_named k (filter_by (is_kept s) findings) ≡ true
      → has k s.plan ≡ true
  unfolding is_kept
  keys_named-kept s k [] h = ground arith
  keys_named-kept s k (f ∷ findings) h =
      ground (arith, ==_iff f.key k, keys_named-kept s k findings)

  apply_parsed-IsGood :
      (report : FindingsReport) (s : AgentRunState)
      → IsGoodState deps s
      → IsGoodState deps (apply_parsed deps report s).2
  unfolding apply_parsed
  apply_parsed-IsGood report s h =
      let kept : FindingsReport = record report {
        findings = filter_by (is_kept s) report.findings;
      } in
      record {
        sound = h.sound;
        grounded = ingest-IsGrounded assembly kept s.evidence s.findings h.grounded;
        planned = λ k e. elim (Bool-cases (keys_named k kept.findings)) [
          | inl named ↦ keys_named-kept s k report.findings named
          | inr other ↦
              let old = ingest-other assembly kept s.evidence s.findings k other in
              h.planned k (
                ground (
                  arith,
                  has-eq-is_some k s.findings.entries,
                  old,
                  has-eq-is_some k (ingest assembly kept s.evidence s.findings).0.entries,
                ))
        ];
      }

  apply_if_parsed-IsGood :
      (report : Option FindingsReport) (name : String) (s : AgentRunState)
      → IsGoodState deps s
      → IsGoodState deps (apply_if_parsed deps report name s).2
  apply_if_parsed-IsGood none name s h = record {
    sound = h.sound;
    grounded = h.grounded;
    planned = h.planned;
  }
  apply_if_parsed-IsGood (some report) name s h =
      apply_parsed-IsGood (resolve_report deps report s.evidence) s h

  pub fold_report_calls-IsGood :
      (tcs : List ToolCallRef) (s : AgentRunState) (texts : Dict String String)
      → IsGoodState deps s
      → IsGoodState deps (fold_report_calls deps tcs s texts).1
  unfolding fold_report_calls apply_report count_report
  fold_report_calls-IsGood [] s texts h = h
  fold_report_calls-IsGood (tc ∷ tcs) s texts h =
      let r = apply_if_parsed deps (deps.parse_report tc.arguments) tc.name (count_report s) in
      fold_report_calls-IsGood tcs r.2 (put tc.id r.0 texts) (
        apply_if_parsed-IsGood (deps.parse_report tc.arguments) tc.name (count_report s)
          (record { sound = h.sound; grounded = h.grounded; planned = h.planned }))

  apply_if_parsed-plan :
      (report : Option FindingsReport) (name : String) (s : AgentRunState)
      → (apply_if_parsed deps report name s).2.plan ≡ s.plan
  unfolding apply_parsed
  apply_if_parsed-plan none name s = refl
  apply_if_parsed-plan (some report) name s = refl

  pub fold_report_calls-plan :
      (tcs : List ToolCallRef) (s : AgentRunState) (texts : Dict String String)
      → (fold_report_calls deps tcs s texts).1.plan ≡ s.plan
  unfolding fold_report_calls apply_report count_report
  fold_report_calls-plan [] s texts = refl
  fold_report_calls-plan (tc ∷ tcs) s texts =
      fold_report_calls-plan tcs _ _
      ∙ apply_if_parsed-plan (deps.parse_report tc.arguments) tc.name (count_report s)
