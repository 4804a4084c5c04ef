-- ===== src/Agent/Findings/Counts.antt =====
-- The counters of the ledger, the keys that stay, and the outcomes of a report.
use ai_financial_copilot.Common.{
  suc, ◌+◌, ◌≤◌, ◌≡◌, refl, ap, ◌∙◌, Bool, true, false, ◌||◌, List, [], ◌∷◌, String, length,
  string_eq, ◌==◌, arith,
}
use ai_financial_copilot.Common.Dict.{get, has, get-put, has-put}
use ai_financial_copilot.Schemas.Findings.{Finding, FindingsReport}
use ai_financial_copilot.Retrieval.Assembler.{Assembly}
use ai_financial_copilot.Agent.Evidence.{EvidenceLedger}
use ai_financial_copilot.Agent.Findings.{
  FindingsLedger, RecordOutcome, record_finding, ingest_findings, ingest_envelope, ingest, value_or,
}
use ai_financial_copilot.Agent.Findings.Frame.{screen-SameStore, ingest_envelope-entries}
use ai_financial_copilot.Agent.Findings.Grounded.{
  Recorded, was_blocked, was_uncited, was_accepted, record_finding-Recorded,
}

-- From `l` to `m` no key is lost and the counters grow; an uncited claim is a claim.
pub record IsGrowth (l m : FindingsLedger) : Type 0 where
  pub keeps : (k : String) → has k l.entries ≡ true → has k m.entries ≡ true
  pub claims : l.claims ≤ m.claims
  pub uncited : l.uncited_claims ≤ m.uncited_claims
  pub counted : m.uncited_claims + l.claims ≤ m.claims + l.uncited_claims

IsGrowth-self : (l : FindingsLedger) → IsGrowth l l
IsGrowth-self l = record {
  keeps = λ k h. h;
  claims = omega arith;
  uncited = omega arith;
  counted = omega arith;
}

IsGrowth-trans : {l m n : FindingsLedger} → IsGrowth l m → IsGrowth m n → IsGrowth l n
IsGrowth-trans a b = record {
  keeps = λ k h. b.keeps k (a.keeps k h);
  claims = omega (arith, a.claims, b.claims);
  uncited = omega (arith, a.uncited, b.uncited);
  counted = omega (arith, a.counted, b.counted);
}

abbrev pub keys_named : String → List Finding → Bool
keys_named k [] = false
keys_named k (f ∷ findings) = f.key == k || keys_named k findings

module _ (env : Assembly) where
  Recorded-IsGrowth :
      (evidence : EvidenceLedger) (key : String) (finding : Finding) (l : FindingsLedger)
      {r : FindingsLedger × RecordOutcome}
      → Recorded env evidence key finding l r
      → IsGrowth l r.0
  Recorded-IsGrowth evidence key finding l (was_blocked e c u) = record {
    keeps = λ k h. ap (has k) e ∙ h;
    claims = omega arith;
    uncited = omega arith;
    counted = omega arith;
  }
  Recorded-IsGrowth evidence key finding l (was_uncited _ _ e c u) = record {
    keeps = λ k h. ap (has k) e ∙ h;
    claims = omega arith;
    uncited = omega arith;
    counted = omega arith;
  }
  Recorded-IsGrowth evidence key finding l (was_accepted {m = m} f e _ _ _ c u) = record {
    keeps = λ k h. ground (arith, ap (has k) e, has-put key k f l.entries);
    claims = ground arith;
    uncited = omega arith;
    counted = ground arith;
  }

  pub record_finding-IsGrowth :
      (evidence : EvidenceLedger) (key : String) (finding : Finding) (l : FindingsLedger)
      → IsGrowth l (record_finding env key finding evidence l).0
  record_finding-IsGrowth evidence key finding l =
      Recorded-IsGrowth evidence key finding l (record_finding-Recorded env evidence key finding l)

  Recorded-other :
      (evidence : EvidenceLedger) (key j : String) (finding : Finding) (l : FindingsLedger)
      {r : FindingsLedger × RecordOutcome}
      → Recorded env evidence key finding l r
      → (key == j) ≡ false
      → get j r.0.entries ≡ get j l.entries
  Recorded-other evidence key j finding l (was_blocked e _ _) h = ap (get j) e
  Recorded-other evidence key j finding l (was_uncited _ _ e _ _) h = ap (get j) e
  Recorded-other evidence key j finding l (was_accepted f e _ _ _ _ _) h =
      ground (arith, ap (get j) e, get-put key j f l.entries)

  pub record_finding-other :
      (evidence : EvidenceLedger) (key j : String) (finding : Finding) (l : FindingsLedger)
      → (key == j) ≡ false
      → get j (record_finding env key finding evidence l).0.entries ≡ get j l.entries
  record_finding-other evidence key j finding l =
      Recorded-other evidence key j finding l (record_finding-Recorded env evidence key finding l)

  ingest_findings-IsGrowth :
      (findings : List Finding) (evidence : EvidenceLedger) (l : FindingsLedger)
      → IsGrowth l (ingest_findings env findings evidence l).0
  unfolding ingest_findings
  ingest_findings-IsGrowth [] evidence l = IsGrowth-self l
  ingest_findings-IsGrowth (f ∷ findings) evidence l =
      IsGrowth-trans (record_finding-IsGrowth evidence f.key f l)
        (ingest_findings-IsGrowth findings evidence (record_finding env f.key f evidence l).0)

  ingest_envelope-IsGrowth :
      (report : FindingsReport) (l : FindingsLedger) → IsGrowth l (ingest_envelope env report l)
  unfolding ingest_envelope
  ingest_envelope-IsGrowth report l =
      let h = screen-SameStore env report.conclusion (record l {
        reported = true;
        comparison_op = value_or report.comparison_op l.comparison_op;
      }) in
      record {
        keeps = λ k e. ap (has k) h.entries ∙ e;
        claims = omega (arith, h.claims);
        uncited = omega (arith, h.uncited_claims);
        counted = omega (arith, h.claims, h.uncited_claims);
      }

  -- Ingesting a report loses no key of the ledger, and the counters only grow, the uncited claims by
  -- no more than the claims.
  pub ingest-IsGrowth :
      (report : FindingsReport) (evidence : EvidenceLedger) (l : FindingsLedger)
      → IsGrowth l (ingest env report evidence l).0
  unfolding ingest
  ingest-IsGrowth report evidence l =
      IsGrowth-trans (ingest_envelope-IsGrowth report l)
        (ingest_findings-IsGrowth report.findings evidence (ingest_envelope env report l))

  ingest_findings-other :
      (findings : List Finding) (evidence : EvidenceLedger) (l : FindingsLedger) (k : String)
      → keys_named k findings ≡ false
      → get k (ingest_findings env findings evidence l).0.entries ≡ get k l.entries
  unfolding ingest_findings
  ingest_findings-other [] evidence l k h = refl
  ingest_findings-other (f ∷ findings) evidence l k h =
      ingest_findings-other findings evidence (record_finding env f.key f evidence l).0 k
        (ground arith)
      ∙ record_finding-other evidence f.key k f l (ground arith)

  -- A report leaves alone what is stored under the keys that it does not name.
  pub ingest-other :
      (report : FindingsReport) (evidence : EvidenceLedger) (l : FindingsLedger) (k : String)
      → keys_named k report.findings ≡ false
      → get k (ingest env report evidence l).0.entries ≡ get k l.entries
  unfolding ingest ingest_envelope
  ingest-other report evidence l k h =
      ingest_findings-other report.findings evidence (ingest_envelope env report l) k h
      ∙ ap (get k) (ingest_envelope-entries env report l)

  -- A report has one outcome for each of its findings.
  pub length-ingest :
      (findings : List Finding) (evidence : EvidenceLedger) (l : FindingsLedger)
      → length (ingest_findings env findings evidence l).1 ≡ length findings
  unfolding ingest_findings
  length-ingest [] evidence l = refl
  length-ingest (f ∷ findings) evidence l =
      ap suc (length-ingest findings evidence (record_finding env f.key f evidence l).0)
