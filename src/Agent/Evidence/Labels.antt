-- ===== src/Agent/Evidence/Labels.antt =====
-- What one round of labelling does to the lookups, and which chunks `assign_labels` labels.
use ai_financial_copilot.Common.{
  ℕ, ◌≡◌, refl, ap, sym, ◌∙◌, true, false, List, [], ◌∷◌, none, some, String, if◌then◌else◌, nat_eq,
  string_eq, ◌==◌, ==_iff, elem, Distinct, All, arith, Option-cases, Bool-cases, inl, inr,
}
use mathlib.Core.List.{head-eq_of_cons-eq, tail-eq_of_cons-eq}
use ai_financial_copilot.Common.Dict.{Dict, get, put, has, keys, values, get-put, has-eq-is_some}
use ai_financial_copilot.Schemas.Retrieval.{RetrievedChunk, ChunkPromptPayload, ContextItem}
use ai_financial_copilot.Retrieval.Assembler.{Assembly}
use ai_financial_copilot.Retrieval.Assembler.Labels.{chunk_ids}
use ai_financial_copilot.Agent.Evidence.{
  EvidenceRecord, EvidenceLedger, fresh_record, ref_for, set_label, label_item, unlabelled,
}

-- The lookups of `m` are those of `l` and the new label.
pub record IsLabelStep (id : ℕ) (ref : String) (l m : EvidenceLedger) : Type 0 where
  pub ref_at : (j : ℕ) → ref_for j m ≡ (if id == j then some ref else ref_for j l)
  pub registry_at :
      (r : String) → get r m.ref_registry ≡ (if ref == r then some id else get r l.ref_registry)
  pub bound : m.next_ref ≡ l.next_ref

module _ (env : Assembly) (payloads : Dict ℕ ChunkPromptPayload) (search rank : ℕ)
    (item : ContextItem) (l : EvidenceLedger) where
  set_label-IsLabelStep :
      (r : EvidenceRecord)
      → IsLabelStep item.chunk_id item.ref_id l (set_label env payloads search rank item r l)
  unfolding set_label ref_for
  set_label-IsLabelStep r = record {
    ref_at = λ j. ground (
      arith,
      get-put item.chunk_id j (record r { ref_id = some item.ref_id; search = search; rank = rank })
          l.records,
    );
    registry_at = λ s. get-put item.ref_id s item.chunk_id l.ref_registry;
    bound = refl;
  }

  pub label_item-IsLabelStep :
      (fresh : Dict ℕ RetrievedChunk)
      → has item.chunk_id fresh ≡ true
      → IsLabelStep item.chunk_id item.ref_id l (label_item env fresh payloads search rank item l)
  unfolding label_item
  label_item-IsLabelStep fresh h = elim (Option-cases (get item.chunk_id l.records)) [
    | inr (r, e) ↦ rw e (set_label-IsLabelStep r)
    | inl absent ↦ elim (Option-cases (get item.chunk_id fresh)) [
      | inr (c, e) ↦ rw (absent, e) (set_label-IsLabelStep (fresh_record c))
      | inl gone ↦ absurd (ground (arith, has-eq-is_some item.chunk_id fresh))
    ]
  ]

-- The chunks to label, by their own ids, each once, and none of them labelled before.
pub record IsFresh (l : EvidenceLedger) (d : Dict ℕ RetrievedChunk) : Type 0 where
  pub keyed : chunk_ids (values d) ≡ keys d
  pub once : Distinct (keys d)
  pub new : All (λ i. ref_for i l ≡ none) (keys d)

elem-keys-put :
    (i k : ℕ) (c : RetrievedChunk) (d : Dict ℕ RetrievedChunk)
    → elem i (keys d) ≡ false
    → (i == k) ≡ false
    → elem i (keys (put k c d)) ≡ false
unfolding put
elem-keys-put i k c [] h e = ground arith
elem-keys-put i k c ((j, v) ∷ d) h e = ground (arith, elem-keys-put i k c d)

IsFresh-head :
    (l : EvidenceLedger) (j : ℕ) (v : RetrievedChunk) (d : Dict ℕ RetrievedChunk)
    → IsFresh l ((j, v) ∷ d)
    → v.chunk_id ≡ j
IsFresh-head l j v d f = head-eq_of_cons-eq f.keyed

IsFresh-tail :
    (l : EvidenceLedger) (j : ℕ) (v : RetrievedChunk) (d : Dict ℕ RetrievedChunk)
    → IsFresh l ((j, v) ∷ d)
    → IsFresh l d
IsFresh-tail l j v d f = record {
  keyed = tail-eq_of_cons-eq f.keyed;
  once = f.once.1;
  new = f.new.1;
}

put-IsFresh :
    (l : EvidenceLedger) (c : RetrievedChunk) (d : Dict ℕ RetrievedChunk)
    → ref_for c.chunk_id l ≡ none
    → IsFresh l d
    → IsFresh l (put c.chunk_id c d)
unfolding put
put-IsFresh l c [] h f = record { keyed = refl; once = (refl, tt); new = (h, tt) }
put-IsFresh l c ((j, v) ∷ d) h f = elim (Bool-cases (j == c.chunk_id)) [
  | inl same ↦ rw same (record {
    keyed =
        ap (◌∷◌ c.chunk_id) (IsFresh-tail l j v d f).keyed
        ∙ ap (λ i. i ∷ keys d) (sym ((==_iff j c.chunk_id).0 same));
    once = f.once;
    new = f.new;
  })
  | inr other ↦
      let more = put-IsFresh l c d h (IsFresh-tail l j v d f) in
      rw other (record {
        keyed = cc (IsFresh-head l j v d f, more.keyed);
        once = (elem-keys-put j c.chunk_id c d f.once.0 other, more.once);
        new = (f.new.0, more.new);
      })
]

pub unlabelled-IsFresh :
    (chunks : List RetrievedChunk) (l : EvidenceLedger) (found : Dict ℕ RetrievedChunk)
    → IsFresh l found
    → IsFresh l (unlabelled chunks l found)
unfolding unlabelled
unlabelled-IsFresh [] l found f = f
unlabelled-IsFresh (c ∷ chunks) l found f =
    unlabelled-IsFresh chunks l _ (elim (Option-cases (ref_for c.chunk_id l)) [
      | inl new ↦ rw new (put-IsFresh l c found new f)
      | inr (r, known) ↦ rw known f
    ])

pub IsFresh-nil : (l : EvidenceLedger) → IsFresh l []
IsFresh-nil l = record { keyed = refl; once = tt; new = tt }
