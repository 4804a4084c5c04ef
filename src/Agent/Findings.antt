-- ===== src/Agent/Findings.antt =====
-- src/services/chat/agent/findings.py: the keyed store of concluded findings. The log lines of a
-- flagged text are left out.
pub mod Grounded
pub mod Frame
pub mod Counts
use Prim.Native.String.{◌++◌ as ◌+++◌}
use ai_financial_copilot.Common.{
  ℕ, ◌+◌, Bool, true, false, ◌&&◌, List, [], ◌∷◌, ◌++◌, Option, none, some, String, if◌then◌else◌,
  nat_beq, string_eq, option_eq, pair_eq, is_some, is_empty, dedup, not,
}
use ai_financial_copilot.Common.Text.{TextOps, chars}
use ai_financial_copilot.Common.Dict.{Dict, get, put, keys, values}
use ai_financial_copilot.Schemas.Findings.{
  Figure, Finding, ComparisonOp, FindingsReport, AgentFindings,
}
use ai_financial_copilot.Retrieval.Assembler.{Assembly, Severity, clean, flag, block}
use ai_financial_copilot.Agent.Evidence.{EvidenceLedger, contains_chunk}

pub data RecordOutcome : Type 0 where
  accepted blocked uncited : RecordOutcome

pub record FindingsLedger : Type 0 where
  pub entries : Dict String Finding
  pub reported : Bool
  pub comparison_op : Option ComparisonOp
  pub conclusion : Option String
  pub claims : ℕ
  pub uncited_claims : ℕ
  pub flagged_texts : ℕ
  pub blocked_texts : ℕ

abbrev pub no_findings : FindingsLedger
no_findings = record {
  entries = [];
  reported = false;
  comparison_op = none;
  conclusion = none;
  claims = 0;
  uncited_claims = 0;
  flagged_texts = 0;
  blocked_texts = 0;
}

abbrev pub flagged_marker : String
flagged_marker = "[flagged] "

abbrev pub degraded_caveat : String
degraded_caveat =
    "The search did not fully converge; these findings are partial and may be incomplete."

-- `not text`, of a text that may be None
abbrev pub is_falsy : Option String → Bool
is_falsy none = true
is_falsy (some s) = nat_beq (chars s) 0

-- `a or b`, of texts that may be None
abbrev pub text_or : Option String → Option String → Option String
text_or a b = if is_falsy a then b else a

-- `a or b`, of values that are true unless None
abbrev pub value_or {ℓ} : {A : Type ℓ} → Option A → Option A → Option A
value_or none b = b
value_or (some a) b = some a

module _ (env : Assembly) where
  open env use {text_ops, scan_retrieved_chunk}

  -- `_resolves`
  unfoldable pub resolves : List String → EvidenceLedger → Bool
  resolves [] evidence = false
  resolves (ref ∷ refs) evidence =
      let rest = resolves refs evidence in
      elim (text_ops.parse_uuid ref) [
        | none ↦ rest
        | some u ↦ if contains_chunk u evidence then true else rest
      ]

  -- `_figure_key`
  unfoldable pub figure_key : Figure → String × Option String
  figure_key f = (text_ops.casefold (text_ops.strip f.metric), text_or f.period_end f.fiscal_label)

  -- the dict of figures by key, filled in order
  unfoldable pub figures_by_key :
      List Figure → Dict (String × Option String) Figure → Dict (String × Option String) Figure
  figures_by_key [] d = d
  figures_by_key (f ∷ figures) d = figures_by_key figures (put (figure_key f) f d)

  -- `_merge`
  unfoldable pub merge : Finding → Finding → Finding
  merge prior new = record new {
    figures = values (figures_by_key new.figures (figures_by_key prior.figures []));
    evidence = dedup (prior.evidence ++ new.evidence);
  }

  -- `_screen` of a nonempty text, by its severity
  abbrev screened_as : Severity → String → String → FindingsLedger → Option String × FindingsLedger
  screened_as clean text sanitized l = (some text, l)
  screened_as flag text sanitized l =
      (some (flagged_marker +++ sanitized), record l { flagged_texts = l.flagged_texts + 1 })
  screened_as block text sanitized l = (none, record l { blocked_texts = l.blocked_texts + 1 })

  -- `_screen`
  unfoldable pub screen : Option String → FindingsLedger → Option String × FindingsLedger
  screen none l = (none, l)
  screen (some text) l =
      let signal = scan_retrieved_chunk text in
      if nat_beq (chars text) 0
      then (some text, l)
      else screened_as signal.severity text signal.sanitized_text l

  abbrev set_texts : Figure → Option String → Option String → Option Figure
  set_texts fig none fiscal_label = none
  set_texts fig (some metric) fiscal_label =
      if not (is_falsy fig.fiscal_label) && not (is_some fiscal_label)
      then none
      else some (record fig { metric = metric; fiscal_label = fiscal_label })

  -- one round over the figures: None where the metric or the label is blocked
  unfoldable pub screen_figure : Figure → FindingsLedger → Option Figure × FindingsLedger
  screen_figure fig l =
      let (metric, l1) = screen (some fig.metric) l in
      let (fiscal_label, l2) = screen fig.fiscal_label l1 in (set_texts fig metric fiscal_label, l2)

  -- what one figure adds to the rest; a blocked one leaves `l1`, without the rest
  abbrev cons_figure :
      Option Figure
      → FindingsLedger
      → Option (List Figure) × FindingsLedger
      → Option (List Figure) × FindingsLedger
  cons_figure none l1 rest = (none, l1)
  cons_figure (some fig) l1 (none, l) = (none, l)
  cons_figure (some fig) l1 (some figs, l) = (some (fig ∷ figs), l)

  -- The first blocked figure ends the loop, with what was counted until then.
  unfoldable pub screen_figures :
      List Figure → FindingsLedger → Option (List Figure) × FindingsLedger
  screen_figures [] l = (some [], l)
  screen_figures (fig ∷ figs) l =
      let (first, l1) = screen_figure fig l in
      let rest = screen_figures figs l1 in cons_figure first l1 rest

  abbrev with_figures : Finding → String → Option (List Figure) → Option Finding
  with_figures finding claim none = none
  with_figures finding claim (some figs) = some (record finding { claim = claim; figures = figs })

  abbrev screen_rest : Finding → Option String → FindingsLedger → Option Finding × FindingsLedger
  screen_rest finding none l = (none, l)
  screen_rest finding (some claim) l =
      let (figs, l') = screen_figures finding.figures l in (with_figures finding claim figs, l')

  -- `_screen_finding`
  unfoldable pub screen_finding : Finding → FindingsLedger → Option Finding × FindingsLedger
  screen_finding finding l =
      let (claim, l1) = screen (some finding.claim) l in screen_rest finding claim l1

  -- The finding that replaces a prior one: figures add up between supported findings.
  unfoldable pub combined : Option Finding → Finding → Finding
  combined none finding = finding
  combined (some prior) finding = if prior.supported then merge prior finding else finding

  abbrev store : String → Finding → FindingsLedger → FindingsLedger
  store key finding l = record l { entries = put key finding l.entries }

  -- `record` behind the screening of the text
  unfoldable pub admit_finding :
      String → Finding → EvidenceLedger → FindingsLedger → FindingsLedger × RecordOutcome
  admit_finding key finding evidence l =
      if finding.supported
      then (if resolves finding.evidence evidence
          then (
            store key (combined (get key l.entries) finding) (record l { claims = l.claims + 1 }),
            accepted,
          )
          else (record l { claims = l.claims + 1; uncited_claims = l.uncited_claims + 1 }, uncited))
      else (store key finding l, accepted)

  abbrev record_screened :
      String → Option Finding → EvidenceLedger → FindingsLedger → FindingsLedger × RecordOutcome
  record_screened key none evidence l = (l, blocked)
  record_screened key (some finding) evidence l = admit_finding key finding evidence l

  -- `record`
  unfoldable pub record_finding :
      String → Finding → EvidenceLedger → FindingsLedger → FindingsLedger × RecordOutcome
  record_finding key finding evidence l =
      let (screened, l1) = screen_finding finding (record l { reported = true }) in
      record_screened key screened evidence l1

  abbrev stored_if : RecordOutcome → String → FindingsLedger → Option Finding
  stored_if accepted key l = get key l.entries
  stored_if _ key l = none

  -- the loop of `ingest`
  unfoldable pub ingest_findings :
      List Finding
      → EvidenceLedger
      → FindingsLedger
      → FindingsLedger × List (RecordOutcome × Option Finding)
  ingest_findings [] evidence l = (l, [])
  ingest_findings (finding ∷ findings) evidence l =
      let (l1, outcome) = record_finding finding.key finding evidence l in
      let (l2, outcomes) = ingest_findings findings evidence l1 in
      (l2, (outcome, stored_if outcome finding.key l1) ∷ outcomes)

  -- the envelope fields, written before the loop
  unfoldable pub ingest_envelope : FindingsReport → FindingsLedger → FindingsLedger
  ingest_envelope report l =
      let (conclusion, l1) = screen report.conclusion (record l {
        reported = true;
        comparison_op = value_or report.comparison_op l.comparison_op;
      }) in
      record l1 { conclusion = text_or conclusion l1.conclusion }

  -- `ingest`
  unfoldable pub ingest :
      FindingsReport
      → EvidenceLedger
      → FindingsLedger
      → FindingsLedger × List (RecordOutcome × Option Finding)
  ingest report evidence l = ingest_findings report.findings evidence (ingest_envelope report l)

-- `uncited_claim_rate`, as a numerator and a denominator
unfoldable pub uncited_claim_rate : FindingsLedger → ℕ × ℕ
uncited_claim_rate l = if nat_beq l.claims 0 then (0, 1) else (l.uncited_claims, l.claims)

-- `projection`
unfoldable pub projection : Bool → List String → FindingsLedger → Option AgentFindings
projection degraded unresolved l =
    if not l.reported && is_empty unresolved
    then none
    else some (record {
      report = record {
        findings = values l.entries;
        comparison_op = l.comparison_op;
        conclusion = l.conclusion;
      };
      unresolved = unresolved ++ (if degraded then degraded_caveat ∷ [] else []);
    })
