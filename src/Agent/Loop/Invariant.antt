-- ===== src/Agent/Loop/Invariant.antt =====
-- What holds of the evidence, the findings and the plan all along a run; keying searches keeps it.
pub mod Reports
pub mod Searches
pub mod Runs
use mathlib.Core.Path.{subst}
use ai_financial_copilot.Common.{
  ℕ, zero, suc, ◌+◌, ◌≡◌, refl, ap, sym, ◌∙◌, Bool, true, false, ◌&&◌, List, [], ◌∷◌, Option, none,
  some, String, if◌then◌else◌, string_eq, ◌==◌, ==_iff, filter_by, arith, Option-cases, Bool-cases,
  if-cases, inl, inr, map, take, nat_eq,
}
use ai_financial_copilot.Common.Dict.{Dict, get, put, has, has-put, get-put, has-eq-is_some}
use ai_financial_copilot.Schemas.Findings.{Finding, FindingsReport}
use ai_financial_copilot.Retrieval.Assembler.{Assembly}
use ai_financial_copilot.Llm.Messages.{ToolCallRef, AssistantTurnResult}
use ai_financial_copilot.Agent.Evidence.{EvidenceLedger, admit, assign_labels}
use ai_financial_copilot.Agent.Evidence.Sound.{IsSound, admit-IsSound, assign_labels-IsAssigned}
use ai_financial_copilot.Agent.Evidence.Grow.{admit-Includes, assign_labels-Includes}
use ai_financial_copilot.Agent.Findings.{FindingsLedger, record_finding, ingest}
use ai_financial_copilot.Agent.Findings.Grounded.{
  IsGrounded, IsGrounded-mono, ingest-IsGrounded, record_finding-IsGrounded,
}
use ai_financial_copilot.Agent.Findings.Counts.{keys_named, ingest-other, record_finding-other}
use ai_financial_copilot.Agent.State.{AgentRunState, ShapeConfig}
use ai_financial_copilot.Agent.Loop.{RunDeps, SearchDocumentsArgs, SearchResult}
use ai_financial_copilot.Agent.Loop.Search.{
  mint, key_of_args, search_key, search_keys, flat_key, admit_result, settle_missing,
  missing_document, show_result, fold_search, fold_searches,
}
use ai_financial_copilot.Agent.Loop.Minting.{mint-planned, mint-has}
use ai_financial_copilot.Agent.Loop.Report.{
  is_kept, apply_parsed, apply_if_parsed, apply_report, count_report, resolve_report,
  fold_report_calls, fold_reports,
}
use ai_financial_copilot.Agent.Loop.Turn.{
  dispatch, begin_calls, searches_of, reports_of, refuse_calls, with_results,
}

-- the keys of a turn's searches are keys of the plan
abbrev pub AllPlanned : Dict String (Option String) → Dict String String → Type 0
AllPlanned ks plan = (id k : String) → flat_key (get id ks) ≡ some k → has k plan ≡ true

-- what keying searches does: it only adds to the plan
pub record IsKeyed (s : AgentRunState) (r : AgentRunState) : Type 0 where
  pub evidence : r.evidence ≡ s.evidence
  pub findings : r.findings ≡ s.findings
  pub grows : (k : String) → has k s.plan ≡ true → has k r.plan ≡ true

module _ (deps : RunDeps) where
  open deps use {assembly}

  -- The labels are sound, every positive finding cites a chunk of the evidence, and findings
  -- stand only under keys of the plan.
  pub record IsGood (evidence : EvidenceLedger) (findings : FindingsLedger)
      (plan : Dict String String) : Type 0 where
    pub sound : IsSound evidence
    pub grounded : IsGrounded assembly evidence findings
    pub planned : (k : String) → has k findings.entries ≡ true → has k plan ≡ true

  abbrev pub IsGoodState : AgentRunState → Type 0
  IsGoodState s = IsGood s.evidence s.findings s.plan

  pub IsKeyed-good : (s r : AgentRunState) → IsKeyed s r → IsGoodState s → IsGoodState r
  IsKeyed-good s r step h = record {
    sound = subst IsSound (sym step.evidence) h.sound;
    grounded =
        subst (λ l. IsGrounded assembly r.evidence l) (sym step.findings)
          (subst (λ e. IsGrounded assembly e s.findings) (sym step.evidence) h.grounded);
    planned = λ k e. step.grows k (h.planned k (ap (λ l. has k l.entries) (sym step.findings) ∙ e));
  }

  key_of_args-IsKeyed :
      (args : Option SearchDocumentsArgs) (shape : ShapeConfig) (s : AgentRunState)
      → IsKeyed s (key_of_args deps args shape s).1
  key_of_args-IsKeyed none shape s = record { evidence = refl; findings = refl; grows = λ k h. h }
  key_of_args-IsKeyed (some args) shape s =
      if-cases (λ (r : Option String × AgentRunState). IsKeyed s r.1)
        shape.search_takes_sub_question _ _
        (λ _. record {
          evidence = refl;
          findings = refl;
          grows = mint-has assembly.text_ops s.plan args.sub_question s.settings.max_plan_items;
        })
        (λ _. record { evidence = refl; findings = refl; grows = λ k h. h })

  key_of_args-planned :
      (args : Option SearchDocumentsArgs) (shape : ShapeConfig) (s : AgentRunState) (k : String)
      → (key_of_args deps args shape s).0 ≡ some k
      → has k (key_of_args deps args shape s).1.plan ≡ true
  key_of_args-planned none shape s k = λ e. ground arith
  key_of_args-planned (some args) shape s k =
      if-cases (λ (r : Option String × AgentRunState). r.0 ≡ some k → has k r.1.plan ≡ true)
        shape.search_takes_sub_question _ _
        (λ _. mint-planned assembly.text_ops s.plan args.sub_question s.settings.max_plan_items k)
        (λ _ e. ground arith)

  IsKeyed-trans : (s r t : AgentRunState) → IsKeyed s r → IsKeyed r t → IsKeyed s t
  IsKeyed-trans s r t a b = record {
    evidence = b.evidence ∙ a.evidence;
    findings = b.findings ∙ a.findings;
    grows = λ k h. b.grows k (a.grows k h);
  }

  pub search_keys-IsKeyed :
      (tcs : List ToolCallRef) (shape : ShapeConfig) (s : AgentRunState)
      (d : Dict String (Option String))
      → IsKeyed s (search_keys deps tcs shape s d).1
  unfolding search_keys search_key
  search_keys-IsKeyed [] shape s d = record { evidence = refl; findings = refl; grows = λ k h. h }
  search_keys-IsKeyed (tc ∷ tcs) shape s d =
      let (key, s1) = key_of_args deps (deps.parse_search tc.arguments) shape s in
      IsKeyed-trans s s1 _ (key_of_args-IsKeyed (deps.parse_search tc.arguments) shape s)
        (search_keys-IsKeyed tcs shape s1 (put tc.id key d))

  AllPlanned-put :
      (id : String) (key : Option String) (d : Dict String (Option String))
      (plan : Dict String String)
      → ((k : String) → key ≡ some k → has k plan ≡ true)
      → AllPlanned d plan
      → AllPlanned (put id key d) plan
  AllPlanned-put id key d plan new h j k e = elim (Bool-cases (id == j)) [
    | inl same ↦ new k (ground (arith, get-put id j key d))
    | inr other ↦ h j k (ground (arith, get-put id j key d))
  ]

  pub search_keys-planned :
      (tcs : List ToolCallRef) (shape : ShapeConfig) (s : AgentRunState)
      (d : Dict String (Option String))
      → AllPlanned d s.plan
      → AllPlanned (search_keys deps tcs shape s d).0 (search_keys deps tcs shape s d).1.plan
  unfolding search_keys search_key
  search_keys-planned [] shape s d h = h
  search_keys-planned (tc ∷ tcs) shape s d h =
      let args = deps.parse_search tc.arguments in
      let (key, s1) = key_of_args deps args shape s in
      search_keys-planned tcs shape s1 (put tc.id key d) (
        AllPlanned-put tc.id key d s1.plan (key_of_args-planned args shape s)
          (λ j k e. (key_of_args-IsKeyed args shape s).grows k (h j k e)))

  pub AllPlanned-nil : (plan : Dict String String) → AllPlanned [] plan
  unfolding get
  AllPlanned-nil plan id k e = ground arith
