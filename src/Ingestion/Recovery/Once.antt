-- ===== src/Ingestion/Recovery/Once.antt =====
-- src/services/ingestion/recovery.py: a document is enqueued if its worker is gone, and not twice in a while.
use ai_financial_copilot.Common.{
  ℕ, ◌+◌, ◌<◌, ◌≡◌, ◌⊎◌, refl, sym, ◌∙◌, ap, subst, true, false, List, [], ◌∷◌, ◌++◌, append-nil,
  append_assoc, if◌then◌else◌, if-cases, Bool-cases, inl, inr, filter_by, elem, map, nat_eq,
  string_eq, ◌==◌, ==_iff, ==_self, All, All-weaken, arith,
}
use ai_financial_copilot.Common.Dict.{get}
use ai_financial_copilot.Ingestion.Recovery.{
  Document, ReapState, ReapEnv, live_until, is_live, Attempt, raised, done, enqueue_once, Reaped,
  failed, reaped, add_reaped, after_attempt, reap, reap_abandoned,
}
use ai_financial_copilot.Ingestion.Recovery.Attempts.{
  Keeps, IsAbandoned, IsDebounced, IsReleased, Attempted, enqueue_once-Attempted, dead-before,
}

-- the documents that claim to be processing
abbrev pub processing_ids : List Document → List ℕ
processing_ids [] = []
processing_ids (d ∷ docs) =
    let rest = processing_ids docs in if d.status == "processing" then d.id ∷ rest else rest

abbrev ids_of : List Document → List ℕ
ids_of docs = map (λ d. d.id) docs

ids_of-filter_by :
    (docs : List Document)
    → ids_of (filter_by (λ d. d.status == "processing") docs) ≡ processing_ids docs
ids_of-filter_by [] = refl
ids_of-filter_by (d ∷ docs) = ground (arith, ids_of-filter_by docs)

All-elem : (cs : List ℕ) → All (λ id. elem id cs ≡ true) cs
All-elem [] = tt
All-elem (c ∷ cs) = (
  ground (arith, ==_self c),
  All-weaken (λ (j : ℕ) (h : elem j cs ≡ true). ground (arith, h)) cs (All-elem cs),
)

module _ (env : ReapEnv) where
  -- a document that may be enqueued, where Redis answers, is: unless the broker has failed on it
  abbrev Settled : ReapState → List ℕ → ReapState → ℕ → Type 0
  Settled st ids st' id =
      env.check_fails ≡ false
      → IsAbandoned env st id
      → env.claim_fails id ≡ false
      → (elem id ids ≡ true) ⊎ IsReleased env st' id

  -- What a run over some candidates has done: exactly the documents listed are sent, each of them a
  -- candidate that was abandoned before and is debounced after; a candidate that could be sent is
  -- listed, or left for the next run; and the keys that were live stay.
  pub record IsReaped (cs : List ℕ) (st st' : ReapState) (ids : List ℕ) : Type 0 where
    pub keeps : Keeps env st st'
    pub sent : st'.queue ≡ st.queue ++ ids
    pub among : All (λ id. elem id cs ≡ true) ids
    pub abandoned : All (IsAbandoned env st) ids
    pub debounced : All (IsDebounced env st') ids
    pub settled : All (Settled st ids st') cs
    retried :
        (j : ℕ)
        → env.delay_fails j ≡ true
        → is_live env.now j st ≡ false
        → is_live env.now j st' ≡ false

  abbrev pub Reaps : List ℕ → ReapState → Reaped → Type 0
  Reaps cs st failed = ⊥
  Reaps cs st (reaped st' ids) = IsReaped cs st st' ids

  Keeps-trans : (a b c : ReapState) → Keeps env a b → Keeps env b c → Keeps env a c
  Keeps-trans a b c h k j alive = k j (ap (live_until env.now) (h j alive) ∙ alive) ∙ h j alive

  among-cons :
      (c : ℕ) (cs ids : List ℕ)
      → All (λ id. elem id cs ≡ true) ids
      → All (λ id. elem id (c ∷ cs) ≡ true) ids
  among-cons c cs ids h = All-weaken (λ (j : ℕ) (e : elem j cs ≡ true). ground (arith, e)) ids h

  leased-Reaps :
      (id : ℕ) (cs : List ℕ) (st : ReapState) (r : Reaped)
      → env.has_lease id ≡ true
      → Reaps cs st r
      → Reaps (id ∷ cs) st r
  leased-Reaps id cs st failed busy h = h
  leased-Reaps id cs st (reaped end ids) busy h = record {
    keeps = h.keeps;
    sent = h.sent;
    among = among-cons id cs ids h.among;
    abandoned = h.abandoned;
    debounced = h.debounced;
    settled = (λ up free claim. absurd (ground (arith, busy, free.0)), h.settled);
    retried = h.retried;
  }

  earlier-IsAbandoned :
      (st st' : ReapState) (ids : List ℕ)
      → Keeps env st st'
      → All (IsAbandoned env st') ids
      → All (IsAbandoned env st) ids
  earlier-IsAbandoned st st' ids keeps h =
      All-weaken (λ (j : ℕ) (a : IsAbandoned env st' j). (a.0, dead-before env st st' j keeps a.1))
        ids h

  skipped-Reaps :
      (id : ℕ) (cs : List ℕ) (st t : ReapState) (r : Reaped)
      → Attempted env st id (done t false)
      → Reaps cs t r
      → Reaps (id ∷ cs) st r
  skipped-Reaps id cs st t failed a h = h
  skipped-Reaps id cs st t (reaped end ids) (keeps, same, leaves, unsent) h = record {
    keeps = Keeps-trans st t end keeps h.keeps;
    sent = h.sent ∙ ap (λ (q : List ℕ). q ++ ids) same;
    among = among-cons id cs ids h.among;
    abandoned = earlier-IsAbandoned st t ids keeps h.abandoned;
    debounced = h.debounced;
    settled = (
      λ up free claim.
          let released = unsent claim free.1 in
          inr (released.0, h.retried id released.0 released.1),
      All-weaken
          (λ (j : ℕ) (s : Settled t ids end j).
            λ up free claim. s up (free.0, leaves j free.1 (λ e. absurd (ground (arith, e)))) claim)
          cs h.settled,
    );
    retried = λ j broken dead. h.retried j broken (leaves j dead (λ e. absurd (ground (arith, e))));
  }

  module _ (positive : 0 < env.debounce_seconds)
      (sure : (id : ℕ) → env.delete_fails id ≡ false) where
    debounced_alive :
        (st : ReapState) (id : ℕ) → IsDebounced env st id → is_live env.now id st ≡ true
    debounced_alive st id h = rw h (ground (arith, positive))

    added-Reaps :
        (id : ℕ) (cs : List ℕ) (st t : ReapState) (r : Reaped)
        → env.has_lease id ≡ false
        → Attempted env st id (done t true)
        → Reaps cs t r
        → Reaps (id ∷ cs) st (add_reaped id r)
    added-Reaps id cs st t failed free a h = h
    added-Reaps id cs st t (reaped end ids) free (keeps, grown, leaves, dead, bounced, works) h =
        record {
          keeps = Keeps-trans st t end keeps h.keeps;
          sent = h.sent ∙ ap (λ (q : List ℕ). q ++ ids) grown ∙ append_assoc st.queue (id ∷ []) ids;
          among = (ground (arith, ==_self id), among-cons id cs ids h.among);
          abandoned = ((free, dead), earlier-IsAbandoned st t ids keeps h.abandoned);
          debounced = (h.keeps id (debounced_alive t id bounced) ∙ bounced, h.debounced);
          settled = (
            λ up was claim. inl (ground (arith, ==_self id)),
            All-weaken (λ (j : ℕ) (s : Settled t ids end j). λ up was claim. later j s up was claim)
                cs h.settled,
          );
          retried = λ j broken was. h.retried j broken (leaves j was (λ e. differs j broken));
        }
      where
        differs : (j : ℕ) → env.delay_fails j ≡ true → (j == id) ≡ false
        differs j broken = elim (Bool-cases (j == id)) [
          | inr e ↦ e
          | inl e ↦ absurd (ground (arith, works, broken, ap env.delay_fails ((==_iff j id).0 e)))
        ]

        later : (j : ℕ) → Settled t ids end j → Settled st (id ∷ ids) end j
        later j s up was claim = elim (Bool-cases (j == id)) [
          | inl same ↦ inl (ground (arith, same))
          | inr other ↦ elim (s up (was.0, leaves j was.1 (λ e. other)) claim) [
            | inl there ↦ inl (ground (arith, there))
            | inr released ↦ inr released
          ]
        ]

    after_attempt-Reaps :
        (id : ℕ) (cs : List ℕ) (st : ReapState) (a : Attempt) (more : ReapState → Reaped)
        → env.has_lease id ≡ false
        → Attempted env st id a
        → ((t : ReapState) → Reaps cs t (more t))
        → Reaps (id ∷ cs) st (after_attempt id a more)
    after_attempt-Reaps id cs st raised more free h rest = h
    after_attempt-Reaps id cs st (done t true) more free h rest =
        added-Reaps id cs st t (more t) free h (rest t)
    after_attempt-Reaps id cs st (done t false) more free h rest =
        skipped-Reaps id cs st t (more t) h (rest t)

    reap-Reaps : (docs : List Document) (st : ReapState) → Reaps (ids_of docs) st (reap env docs st)
    reap-Reaps [] st = record {
      keeps = λ j h. refl;
      sent = sym (append-nil st.queue);
      among = tt;
      abandoned = tt;
      debounced = tt;
      settled = tt;
      retried = λ j broken dead. dead;
    }
    reap-Reaps (d ∷ docs) st =
        if-cases (Reaps (d.id ∷ ids_of docs) st) (env.has_lease d.id) (reap env docs st) _
          (λ busy. leased-Reaps d.id (ids_of docs) st (reap env docs st) busy (reap-Reaps docs st))
          (λ free.
            after_attempt-Reaps d.id (ids_of docs) st (enqueue_once env d.id st) (reap env docs)
              free (enqueue_once-Attempted env d.id st (sure d.id)) (reap-Reaps docs))

    pub reap_abandoned-Reaps :
        (docs : List Document) (st : ReapState)
        → Reaps (processing_ids docs) st (reap_abandoned env docs st)
    unfolding reap_abandoned
    reap_abandoned-Reaps docs st =
        if-cases (Reaps (processing_ids docs) st) env.check_fails (reaped st []) _
          (λ down. record {
            keeps = λ j h. refl;
            sent = sym (append-nil st.queue);
            among = tt;
            abandoned = tt;
            debounced = tt;
            settled =
                All-weaken
                  (λ (j : ℕ) (e : elem j (processing_ids docs) ≡ true).
                    λ up free claim. absurd (ground (arith, down, up)))
                  (processing_ids docs) (All-elem (processing_ids docs));
            retried = λ j broken dead. dead;
          })
          (λ _.
            subst
              (λ (cs : List ℕ).
                Reaps cs st (reap env (filter_by (λ d. d.status == "processing") docs) st))
              (ids_of-filter_by docs)
              (reap-Reaps (filter_by (λ d. d.status == "processing") docs) st))

-- A read from some later state: it sends no document whose key the earlier read has left there.
abbrev pub Spares : ReapEnv → List ℕ → ReapState → List ℕ → ReapState → Reaped → Type 0
Spares env cs st ids mid failed = ⊥
Spares env cs st ids mid (reaped end later) =
    IsReaped env cs mid end later
    × All (λ id. get id mid.reap_keys ≡ get id st.reap_keys → elem id later ≡ false) ids

-- a read, and another one from any state
abbrev pub Follows :
    ReapEnv → ReapEnv → List Document → List Document → ReapState → ReapState → Reaped → Type 0
Follows env next docs more st mid failed = ⊥
Follows env next docs more st mid (reaped st' ids) =
    IsReaped env (processing_ids docs) st st' ids
    × Spares next (processing_ids more) st' ids mid (reap_abandoned next more mid)

not_again :
    (id : ℕ) (later : List ℕ) (env : ReapEnv) (st : ReapState)
    → is_live env.now id st ≡ true
    → All (IsAbandoned env st) later
    → elem id later ≡ false
not_again id [] env st alive h = refl
not_again id (j ∷ later) env st alive h = elim (Bool-cases (id == j)) [
  | inr e ↦ ground (arith, e, not_again id later env st alive h.1)
  | inl e ↦
      absurd
        (ground (arith, alive, ap (λ (i : ℕ). is_live env.now i st) ((==_iff id j).0 e) ∙ h.0.1))
]

Spares-of_Reaps :
    (env next : ReapEnv) (cs ids : List ℕ) (st mid : ReapState) (r : Reaped)
    → next.now < env.now + env.debounce_seconds
    → All (IsDebounced env st) ids
    → Reaps next cs mid r
    → Spares next cs st ids mid r
Spares-of_Reaps env next cs ids st mid failed soon bounced h = h
Spares-of_Reaps env next cs ids st mid (reaped end later) soon bounced h = (
  h,
  All-weaken
      (λ (id : ℕ) (b : IsDebounced env st id).
        λ (kept : get id mid.reap_keys ≡ get id st.reap_keys).
          not_again id later next mid (rw (kept ∙ b) (ground (arith, soon))) h.abandoned)
      ids bounced,
)

-- As long as deleting a reap key does not raise, no read raises, whatever else of Redis or the broker
-- fails. A read sends exactly the documents it reports: each claims to be processing and has no
-- lease and no reap key. Where Redis answers, every such document is sent, unless the broker fails
-- on it, and then it has no reap key and is left for the next read. A second read, from any state,
-- before the debounce of the first is over, sends none of the first one's documents whose reap key
-- is still there: as it is unless a worker has taken the document meanwhile and deleted the key.
pub reap_abandoned-Follows :
    (env next : ReapEnv) (docs more : List Document) (st mid : ReapState)
    → 0 < env.debounce_seconds
    → 0 < next.debounce_seconds
    → ((id : ℕ) → env.delete_fails id ≡ false)
    → ((id : ℕ) → next.delete_fails id ≡ false)
    → next.now < env.now + env.debounce_seconds
    → Follows env next docs more st mid (reap_abandoned env docs st)
reap_abandoned-Follows env next docs more st mid p q sure secure soon =
    both (reap_abandoned env docs st) (reap_abandoned-Reaps env p sure docs st)
  where
    both : (r : Reaped) → Reaps env (processing_ids docs) st r → Follows env next docs more st mid r
    both failed h = h
    both (reaped st' ids) h = (
      h,
      Spares-of_Reaps env next (processing_ids more) ids st' mid (reap_abandoned next more mid) soon
          h.debounced (reap_abandoned-Reaps next q secure more mid),
    )
