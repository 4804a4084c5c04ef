-- ===== src/Agent/Findings/Grounded.antt =====
-- Grounding: a supported finding in the ledger cites a chunk of the evidence.
use mathlib.Core.Path.{subst}
use ai_financial_copilot.Common.{
  ℕ, ◌+◌, ◌≡◌, refl, ap, sym, ◌∙◌, true, false, List, [], ◌∷◌, ◌++◌, Option, none, some, String,
  if◌then◌else◌, string_eq, ◌==◌, ==_iff, ==_self, elem, elem-append, dedup_after, arith,
  Option-cases, Bool-cases, if-cases, inl, inr,
}
use ai_financial_copilot.Common.Dict.{get, put, get-put}
use ai_financial_copilot.Schemas.Findings.{Finding, FindingsReport}
use ai_financial_copilot.Retrieval.Assembler.{Assembly}
use ai_financial_copilot.Agent.Evidence.{EvidenceLedger, contains_chunk}
use ai_financial_copilot.Agent.Findings.{
  FindingsLedger, RecordOutcome, accepted, blocked, uncited, resolves, merge, combined,
  admit_finding, record_screened, record_finding, ingest_findings, ingest_envelope, ingest,
}
use ai_financial_copilot.Agent.Findings.Frame.{
  SameStore, IsScreened, screen_finding-IsScreened, ingest_envelope-entries,
}

elem-dedup_after :
    (r : String) (seen xs : List String)
    → elem r seen ≡ false
    → elem r (dedup_after seen xs) ≡ elem r xs
elem-dedup_after r seen [] out = refl
elem-dedup_after r seen (x ∷ xs) out = elim (Bool-cases (r == x)) [
  | inl same ↦ ground (arith, ==_iff r x, ==_self x)
  | inr other ↦ ground (
    arith,
    ==_iff r x,
    elem-dedup_after r seen xs out,
    elem-dedup_after r (x ∷ seen) xs (ground arith),
  )
]

module _ (env : Assembly) where
  -- a reference of the list that names a chunk of the evidence
  abbrev pub Cites : List String → EvidenceLedger → Type 0
  Cites refs evidence =
      (r : String) × (u : ℕ) × (elem r refs ≡ true)
      × (env.text_ops.parse_uuid r ≡ some u)
      × (contains_chunk u evidence ≡ true)

  pub Cites-of_resolves :
      (refs : List String) (evidence : EvidenceLedger)
      → resolves env refs evidence ≡ true
      → Cites refs evidence
  unfolding resolves
  Cites-of_resolves [] evidence h = ground arith
  Cites-of_resolves (ref ∷ refs) evidence h = elim (Option-cases (env.text_ops.parse_uuid ref)) [
    | inl absent ↦
        let (r, u, e, p, c) = Cites-of_resolves refs evidence (ground arith) in
        (r, u, ground arith, p, c)
    | inr (u, e) ↦ elim (Bool-cases (contains_chunk u evidence)) [
      | inl there ↦ (ref, u, ground (arith, ==_self ref), e, there)
      | inr gone ↦
          let (r, u', e', p, c) = Cites-of_resolves refs evidence (ground arith) in
          (r, u', ground arith, p, c)
    ]
  ]

  pub resolves_of_Cites :
      (refs : List String) (evidence : EvidenceLedger)
      → Cites refs evidence
      → resolves env refs evidence ≡ true
  unfolding resolves
  resolves_of_Cites [] evidence (r, u, e, p, c) = ground arith
  resolves_of_Cites (ref ∷ refs) evidence (r, u, e, p, c) = elim (Bool-cases (r == ref)) [
    | inl same ↦ ground (arith, ==_iff r ref)
    | inr other ↦ ground (arith, resolves_of_Cites refs evidence (r, u, ground arith, p, c))
  ]

  -- Every supported finding of the ledger cites a chunk of the evidence.
  abbrev pub IsGrounded : EvidenceLedger → FindingsLedger → Type 0
  IsGrounded evidence l =
      (key : String) (f : Finding)
      → get key l.entries ≡ some f
      → f.supported ≡ true
      → Cites f.evidence evidence

  merge-Cites :
      (prior new : Finding) (evidence : EvidenceLedger)
      → Cites new.evidence evidence
      → Cites (merge env prior new).evidence evidence
  unfolding merge
  merge-Cites prior new evidence (r, u, e, p, c) = (
    r,
    u,
    ground (
      arith,
      elem-dedup_after r [] (prior.evidence ++ new.evidence) refl,
      elem-append r prior.evidence new.evidence,
    ),
    p,
    c,
  )

  combined-Cites :
      (prior : Option Finding) (finding : Finding) (evidence : EvidenceLedger)
      → Cites finding.evidence evidence
      → Cites (combined env prior finding).evidence evidence
  unfolding combined
  combined-Cites none finding evidence h = h
  combined-Cites (some prior) finding evidence h =
      if-cases (λ f. Cites f.evidence evidence) prior.supported (merge env prior finding) finding
        (λ _. merge-Cites prior finding evidence h) (λ _. h)

  combined-supported :
      (prior : Option Finding) (finding : Finding)
      → (combined env prior finding).supported ≡ finding.supported
  unfolding combined merge
  combined-supported none finding = refl
  combined-supported (some prior) finding = ground arith

  -- the entries after one more is stored
  store-IsGrounded :
      (key : String) (finding : Finding) (evidence : EvidenceLedger) (l m : FindingsLedger)
      → m.entries ≡ put key finding l.entries
      → (finding.supported ≡ true → Cites finding.evidence evidence)
      → IsGrounded evidence l
      → IsGrounded evidence m
  store-IsGrounded key finding evidence l m stored new h k f e s = elim (Bool-cases (key == k)) [
    | inl same ↦
        let is : finding ≡ f = ground (arith, get-put key k finding l.entries, ap (get k) stored) in
        subst (λ x. Cites x.evidence evidence) is (new (ground arith))
    | inr other ↦ h k f (ground (arith, get-put key k finding l.entries, ap (get k) stored)) s
  ]

  -- What recording a finding did, by its outcome.
  pub data Recorded (evidence : EvidenceLedger) (key : String) (finding : Finding)
      (l : FindingsLedger) : FindingsLedger × RecordOutcome → Type 0 where
    was_blocked :
        {m : FindingsLedger}
        → m.entries ≡ l.entries
        → m.claims ≡ l.claims
        → m.uncited_claims ≡ l.uncited_claims
        → Recorded evidence key finding l (m, blocked)
    was_uncited :
        {m : FindingsLedger}
        → finding.supported ≡ true
        → resolves env finding.evidence evidence ≡ false
        → m.entries ≡ l.entries
        → m.claims ≡ l.claims + 1
        → m.uncited_claims ≡ l.uncited_claims + 1
        → Recorded evidence key finding l (m, uncited)
    was_accepted :
        {m : FindingsLedger} (f : Finding)
        → m.entries ≡ put key f l.entries
        → f.supported ≡ finding.supported
        → (finding.supported ≡ true → Cites finding.evidence evidence)
        → (f.supported ≡ true → Cites f.evidence evidence)
        → m.claims ≡ (if finding.supported then l.claims + 1 else l.claims)
        → m.uncited_claims ≡ l.uncited_claims
        → Recorded evidence key finding l (m, accepted)

  module _ (evidence : EvidenceLedger) (key : String) (finding screened : Finding)
      (l l1 : FindingsLedger) (same : SameStore l l1) (cites : screened.evidence ≡ finding.evidence)
      (claims_to : screened.supported ≡ finding.supported) where
    admit_finding-Recorded :
        Recorded evidence key finding l (admit_finding env key screened evidence l1)
    unfolding admit_finding
    admit_finding-Recorded =
        if-cases (Recorded evidence key finding l) screened.supported _ _
          (λ positive.
            if-cases (Recorded evidence key finding l) (resolves env screened.evidence evidence) _ _
              (λ found.
                was_accepted (combined env (get key l1.entries) screened)
                  (ap (λ d. put key (combined env (get key l1.entries) screened) d) same.entries)
                  (combined-supported (get key l1.entries) screened ∙ claims_to)
                  (λ _.
                    subst (λ refs. Cites refs evidence) cites
                      (Cites-of_resolves screened.evidence evidence found))
                  (λ _.
                    combined-Cites (get key l1.entries) screened evidence
                      (Cites-of_resolves screened.evidence evidence found))
                  (ground (arith, claims_to, same.claims)) same.uncited_claims)
              (λ lost.
                was_uncited (sym claims_to ∙ positive)
                  (ap (λ refs. resolves env refs evidence) (sym cites) ∙ lost) same.entries
                  (omega (arith, same.claims)) (omega (arith, same.uncited_claims))))
          (λ negative.
            was_accepted screened (ap (put key screened) same.entries) claims_to
              (λ positive. ground (arith, claims_to)) (λ positive. ground arith)
              (ground (arith, claims_to, same.claims)) same.uncited_claims)

  record_screened-Recorded :
      (evidence : EvidenceLedger) (key : String) (finding : Finding) (l : FindingsLedger)
      (r : Option Finding × FindingsLedger)
      → IsScreened env finding l r
      → Recorded evidence key finding l (record_screened env key r.0 evidence r.1)
  record_screened-Recorded evidence key finding l (none, l1) h =
      was_blocked h.same.entries h.same.claims h.same.uncited_claims
  record_screened-Recorded evidence key finding l (some f, l1) h =
      admit_finding-Recorded evidence key finding f l l1 h.same (h.cites f refl)
        (h.claims_to f refl)

  pub record_finding-Recorded :
      (evidence : EvidenceLedger) (key : String) (finding : Finding) (l : FindingsLedger)
      → Recorded evidence key finding l (record_finding env key finding evidence l)
  unfolding record_finding
  record_finding-Recorded evidence key finding l =
      let h = screen_finding-IsScreened env finding (record l { reported = true }) in
      record_screened-Recorded evidence key finding l _ (record {
        same = record {
          entries = h.same.entries;
          claims = h.same.claims;
          uncited_claims = h.same.uncited_claims;
        };
        cites = h.cites;
        claims_to = h.claims_to;
      })

  Recorded-IsGrounded :
      (evidence : EvidenceLedger) (key : String) (finding : Finding) (l : FindingsLedger)
      {r : FindingsLedger × RecordOutcome}
      → Recorded evidence key finding l r
      → IsGrounded evidence l
      → IsGrounded evidence r.0
  Recorded-IsGrounded evidence key finding l (was_blocked e _ _) h =
      λ k f at s. h k f (ap (get k) (sym e) ∙ at) s
  Recorded-IsGrounded evidence key finding l (was_uncited _ _ e _ _) h =
      λ k f at s. h k f (ap (get k) (sym e) ∙ at) s
  Recorded-IsGrounded evidence key finding l (was_accepted {m = m} stored e _ _ cites _ _) h =
      store-IsGrounded key stored evidence l m e cites h

  pub record_finding-IsGrounded :
      (evidence : EvidenceLedger) (key : String) (finding : Finding) (l : FindingsLedger)
      → IsGrounded evidence l
      → IsGrounded evidence (record_finding env key finding evidence l).0
  record_finding-IsGrounded evidence key finding l =
      Recorded-IsGrounded evidence key finding l (record_finding-Recorded evidence key finding l)

  ingest_findings-IsGrounded :
      (findings : List Finding) (evidence : EvidenceLedger) (l : FindingsLedger)
      → IsGrounded evidence l
      → IsGrounded evidence (ingest_findings env findings evidence l).0
  unfolding ingest_findings
  ingest_findings-IsGrounded [] evidence l h = h
  ingest_findings-IsGrounded (f ∷ findings) evidence l h =
      ingest_findings-IsGrounded findings evidence (record_finding env f.key f evidence l).0
        (record_finding-IsGrounded evidence f.key f l h)

  -- More evidence keeps the ledger grounded.
  pub IsGrounded-mono :
      (evidence evidence' : EvidenceLedger) (l : FindingsLedger)
      → ((u : ℕ) → contains_chunk u evidence ≡ true → contains_chunk u evidence' ≡ true)
      → IsGrounded evidence l
      → IsGrounded evidence' l
  IsGrounded-mono evidence evidence' l grow h k f at s =
      let (r, u, e, p, c) = h k f at s in (r, u, e, p, grow u c)

  -- Ingesting any report keeps the ledger grounded: every positive finding in it, merged ones
  -- included, cites a chunk of the evidence.
  pub ingest-IsGrounded :
      (report : FindingsReport) (evidence : EvidenceLedger) (l : FindingsLedger)
      → IsGrounded evidence l
      → IsGrounded evidence (ingest env report evidence l).0
  unfolding ingest
  ingest-IsGrounded report evidence l h =
      ingest_findings-IsGrounded report.findings evidence (ingest_envelope env report l)
        (λ k f at. h k f (ap (get k) (sym (ingest_envelope-entries env report l)) ∙ at))
