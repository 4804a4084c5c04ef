-- ===== src/Agent/Loop/Invariant/Searches.antt =====
-- Search results keep the invariant.
use ai_financial_copilot.Common.{
  ◌≡◌, refl, ap, ◌∙◌, true, ◌&&◌, List, [], ◌∷◌, Option, none, some, String, string_eq, ◌==◌,
  ==_iff, arith, Bool-cases, if-cases, inl, inr, take, nat_eq,
}
use ai_financial_copilot.Common.Dict.{Dict, get, put, has, has-eq-is_some}
use ai_financial_copilot.Llm.Messages.{ToolCallRef}
use ai_financial_copilot.Agent.Evidence.{admit, assign_labels}
use ai_financial_copilot.Agent.Evidence.Sound.{admit-IsSound, assign_labels-IsAssigned}
use ai_financial_copilot.Agent.Evidence.Grow.{admit-Includes, assign_labels-Includes}
use ai_financial_copilot.Agent.Findings.{record_finding}
use ai_financial_copilot.Agent.Findings.Grounded.{IsGrounded-mono, record_finding-IsGrounded}
use ai_financial_copilot.Agent.Findings.Counts.{record_finding-other}
use ai_financial_copilot.Agent.State.{AgentRunState}
use ai_financial_copilot.Agent.Loop.{RunDeps, SearchResult}
use ai_financial_copilot.Agent.Loop.Search.{
  flat_key, admit_result, settle_missing, missing_document, show_result, fold_search, fold_searches,
}
use ai_financial_copilot.Agent.Loop.Invariant.{IsGoodState, AllPlanned}

module _ (deps : RunDeps) where
  open deps use {assembly}

  settle_missing-IsGood :
      (aspect : Option String) (result : SearchResult) (s : AgentRunState)
      → ((k : String) → aspect ≡ some k → has k s.plan ≡ true)
      → IsGoodState deps s
      → IsGoodState deps (settle_missing deps aspect result s)
  settle_missing-IsGood none result s there h = h
  settle_missing-IsGood (some aspect) result s there h =
      let new = missing_document aspect in
      let ledger = (record_finding assembly aspect new s.evidence s.findings).0 in
      if-cases (IsGoodState deps) (result.not_found && aspect == result.entity) _ _
        (λ _. record {
          sound = h.sound;
          grounded = record_finding-IsGrounded assembly s.evidence aspect new s.findings h.grounded;
          planned = λ k e. elim (Bool-cases (aspect == k)) [
            | inl same ↦ ground (arith, ==_iff aspect k, there aspect refl)
            | inr other ↦ h.planned k (
                ground (
                  arith,
                  has-eq-is_some k s.findings.entries,
                  has-eq-is_some k ledger.entries,
                  record_finding-other assembly s.evidence aspect k new s.findings other,
                ))
          ];
        })
        (λ _. h)

  admit_result-IsGood :
      (result : SearchResult) (aspect : Option String) (s : AgentRunState)
      → ((k : String) → aspect ≡ some k → has k s.plan ≡ true)
      → IsGoodState deps s
      → IsGoodState deps (admit_result deps result aspect s)
  unfolding admit_result
  admit_result-IsGood result aspect s there h =
      let evidence = (admit result.chunks s.evidence).0 in
      settle_missing-IsGood aspect result _ there (record {
        sound = admit-IsSound result.chunks s.evidence h.sound;
        grounded =
            IsGrounded-mono assembly s.evidence evidence s.findings
              (admit-Includes result.chunks s.evidence) h.grounded;
        planned = h.planned;
      })

  show_result-IsGood :
      (result : SearchResult) (aspect : Option String) (s : AgentRunState) (error : Option String)
      → IsGoodState deps s
      → IsGoodState deps (show_result deps result aspect s error).2
  unfolding show_result
  show_result-IsGood result aspect s (some error) h = h
  show_result-IsGood result aspect s none h =
      let top = take s.settings.max_chunks_per_entity result.chunks in
      let evidence = (assign_labels assembly top result.payloads s.evidence).0 in
      record {
        sound = (assign_labels-IsAssigned assembly top result.payloads s.evidence h.sound).sound;
        grounded =
            IsGrounded-mono assembly s.evidence evidence s.findings
              (assign_labels-Includes assembly top result.payloads s.evidence) h.grounded;
        planned = h.planned;
      }

  settle_missing-plan :
      (aspect : Option String) (result : SearchResult) (s : AgentRunState)
      → (settle_missing deps aspect result s).plan ≡ s.plan
  settle_missing-plan none result s = refl
  settle_missing-plan (some aspect) result s =
      if-cases (λ (r : AgentRunState). r.plan ≡ s.plan)
        (result.not_found && aspect == result.entity) _ _ (λ _. refl) (λ _. refl)

  show_result-plan :
      (result : SearchResult) (aspect : Option String) (s : AgentRunState) (error : Option String)
      → (show_result deps result aspect s error).2.plan ≡ s.plan
  unfolding show_result
  show_result-plan result aspect s (some error) = refl
  show_result-plan result aspect s none = refl

  pub fold_search-plan :
      (result : SearchResult) (aspect : Option String) (s : AgentRunState)
      → (fold_search deps result aspect s).2.plan ≡ s.plan
  unfolding fold_search admit_result
  fold_search-plan result aspect s =
      show_result-plan result aspect _ result.error_str ∙ settle_missing-plan aspect result _

  pub fold_searches-IsGood :
      (results : List (ToolCallRef × SearchResult)) (ks : Dict String (Option String))
      (s : AgentRunState) (texts : Dict String String)
      → AllPlanned ks s.plan
      → IsGoodState deps s
      → IsGoodState deps (fold_searches deps results ks s texts).2
  unfolding fold_searches
  fold_searches-IsGood [] ks s texts there h = h
  fold_searches-IsGood ((tc, result) ∷ rest) ks s texts there h =
      let aspect = flat_key (get tc.id ks) in
      let r = fold_search deps result aspect s in
      let good : IsGoodState deps r.2 =
        unfold fold_search in
        show_result-IsGood result aspect (admit_result deps result aspect s) result.error_str
          (admit_result-IsGood result aspect s (there tc.id) h) in
      fold_searches-IsGood rest ks r.2 (put tc.id r.0 texts)
        (λ id k e. ap (has k) (fold_search-plan result aspect s) ∙ there id k e) good
