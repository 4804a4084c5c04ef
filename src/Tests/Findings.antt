-- ===== src/Tests/Findings.antt =====
-- The findings ledger, on a report that cites an admitted chunk.
use ai_financial_copilot.Common.{◌≡◌, refl, string_eq, nat_eq, arith}
use ai_financial_copilot.Common.Dict.{get}
use ai_financial_copilot.Samples.{plain_assembly, sample_report, two_chunks}
use ai_financial_copilot.Agent.Evidence.{EvidenceLedger, empty_ledger, admit}
use ai_financial_copilot.Agent.Findings.{no_findings, ingest}
use ai_financial_copilot.Agent.Findings.Grounded.{IsGrounded, ingest-IsGrounded}
use ai_financial_copilot.Agent.Findings.Counts.{IsGrowth, ingest-IsGrowth, ingest-other}

abbrev evidence : EvidenceLedger
evidence = (admit two_chunks empty_ledger).0

no_findings-IsGrounded : IsGrounded plain_assembly evidence no_findings
unfolding get
no_findings-IsGrounded k f e = ground arith

ingest-IsGrounded_example :
    IsGrounded plain_assembly evidence (ingest plain_assembly sample_report evidence no_findings).0
ingest-IsGrounded_example =
    ingest-IsGrounded plain_assembly sample_report evidence no_findings no_findings-IsGrounded

ingest-IsGrowth_example :
    IsGrowth no_findings (ingest plain_assembly sample_report evidence no_findings).0
ingest-IsGrowth_example = ingest-IsGrowth plain_assembly sample_report evidence no_findings

ingest-other_example :
    get "Gamma" (ingest plain_assembly sample_report evidence no_findings).0.entries
    ≡ get "Gamma" no_findings.entries
ingest-other_example = ingest-other plain_assembly sample_report evidence no_findings "Gamma" refl
