-- ===== src/Agent/Findings/Frame.antt =====
-- What recording leaves alone: screening never touches the stored findings or the claim counters.
use ai_financial_copilot.Common.{
  ◌≡◌, refl, ◌∙◌, true, List, [], ◌∷◌, Option, none, some, String, nat_beq, arith, Bool-cases, inl,
  inr,
}
use ai_financial_copilot.Common.Text.{chars}
use ai_financial_copilot.Schemas.Findings.{Figure, Finding, FindingsReport}
use ai_financial_copilot.Retrieval.Assembler.{Assembly, Severity, clean, flag, block}
use ai_financial_copilot.Agent.Findings.{
  FindingsLedger, screened_as, screen, screen_figure, screen_figures, cons_figure, with_figures,
  screen_rest, screen_finding, ingest_envelope, value_or,
}

-- all but the two counters of screened texts
pub record SameStore (l m : FindingsLedger) : Type 0 where
  pub entries : m.entries ≡ l.entries
  pub claims : m.claims ≡ l.claims
  pub uncited_claims : m.uncited_claims ≡ l.uncited_claims

SameStore-self : (l : FindingsLedger) → SameStore l l
SameStore-self l = record { entries = refl; claims = refl; uncited_claims = refl }

SameStore-trans : {l m n : FindingsLedger} → SameStore l m → SameStore m n → SameStore l n
SameStore-trans a b = record {
  entries = b.entries ∙ a.entries;
  claims = b.claims ∙ a.claims;
  uncited_claims = b.uncited_claims ∙ a.uncited_claims;
}

module _ (env : Assembly) where
  screened_as-SameStore :
      (severity : Severity) (text sanitized : String) (l : FindingsLedger)
      → SameStore l (screened_as env severity text sanitized l).1
  screened_as-SameStore clean text sanitized l = SameStore-self l
  screened_as-SameStore flag text sanitized l = record {
    entries = refl;
    claims = refl;
    uncited_claims = refl;
  }
  screened_as-SameStore block text sanitized l = record {
    entries = refl;
    claims = refl;
    uncited_claims = refl;
  }

  pub screen-SameStore :
      (text : Option String) (l : FindingsLedger) → SameStore l (screen env text l).1
  unfolding screen
  screen-SameStore none l = SameStore-self l
  screen-SameStore (some text) l = elim (Bool-cases (nat_beq (chars text) 0)) [
    | inl e ↦ rw e (SameStore-self l)
    | inr e ↦
        let signal = env.scan_retrieved_chunk text in
        rw e (screened_as-SameStore signal.severity text signal.sanitized_text l)
  ]

  cons_figure-SameStore :
      (first : Option Figure) {l l1 : FindingsLedger} (rest : Option (List Figure) × FindingsLedger)
      → SameStore l l1
      → SameStore l rest.1
      → SameStore l (cons_figure env first l1 rest).1
  cons_figure-SameStore none rest a b = a
  cons_figure-SameStore (some fig) (none, m) a b = b
  cons_figure-SameStore (some fig) (some figs, m) a b = b

  screen_figure-SameStore :
      (fig : Figure) (l : FindingsLedger) → SameStore l (screen_figure env fig l).1
  unfolding screen_figure
  screen_figure-SameStore fig l =
      SameStore-trans (screen-SameStore (some fig.metric) l) (screen-SameStore fig.fiscal_label _)

  screen_figures-SameStore :
      (figs : List Figure) (l : FindingsLedger) → SameStore l (screen_figures env figs l).1
  unfolding screen_figures
  screen_figures-SameStore [] l = SameStore-self l
  screen_figures-SameStore (fig ∷ figs) l =
      let (first, l1) = screen_figure env fig l in
      let head = screen_figure-SameStore fig l in
      cons_figure-SameStore first (screen_figures env figs l1) head
        (SameStore-trans head (screen_figures-SameStore figs l1))

  -- The screened finding, if there is one, is the same but for its texts.
  pub record IsScreened (finding : Finding) (l : FindingsLedger)
      (r : Option Finding × FindingsLedger) : Type 0 where
    pub same : SameStore l r.1
    pub cites : (f : Finding) → r.0 ≡ some f → f.evidence ≡ finding.evidence
    pub claims_to : (f : Finding) → r.0 ≡ some f → f.supported ≡ finding.supported

  with_figures-cites :
      (finding : Finding) (claim : String) (figs : Option (List Figure)) (f : Finding)
      → with_figures env finding claim figs ≡ some f
      → (f.evidence ≡ finding.evidence) × (f.supported ≡ finding.supported)
  with_figures-cites finding claim none f e = ground arith
  with_figures-cites finding claim (some figs) f e = ground arith

  screen_rest-IsScreened :
      (finding : Finding) (claim : Option String) (l l1 : FindingsLedger)
      → SameStore l l1
      → IsScreened finding l (screen_rest env finding claim l1)
  screen_rest-IsScreened finding none l l1 h = record {
    same = h;
    cites = λ f e. ground arith;
    claims_to = λ f e. ground arith;
  }
  screen_rest-IsScreened finding (some claim) l l1 h =
      let figs = (screen_figures env finding.figures l1).0 in
      record {
        same = SameStore-trans h (screen_figures-SameStore finding.figures l1);
        cites = λ f e. (with_figures-cites finding claim figs f e).0;
        claims_to = λ f e. (with_figures-cites finding claim figs f e).1;
      }

  pub screen_finding-IsScreened :
      (finding : Finding) (l : FindingsLedger) → IsScreened finding l (screen_finding env finding l)
  unfolding screen_finding
  screen_finding-IsScreened finding l =
      screen_rest-IsScreened finding (screen env (some finding.claim) l).0 l
        (screen env (some finding.claim) l).1 (screen-SameStore (some finding.claim) l)

  pub ingest_envelope-entries :
      (report : FindingsReport) (l : FindingsLedger)
      → (ingest_envelope env report l).entries ≡ l.entries
  unfolding ingest_envelope
  ingest_envelope-entries report l =
      (screen-SameStore report.conclusion (record l {
        reported = true;
        comparison_op = value_or report.comparison_op l.comparison_op;
      })).entries
