-- ===== src/Agent/Evidence/Sound.antt =====
-- The invariant of the ledger: labels and records agree, and labels are numbered below `next_ref`.
use ai_financial_copilot.Common.{
  ℕ, ◌+◌, ◌<◌, ◌≡◌, refl, ap, sym, ◌∙◌, true, false, List, [], ◌∷◌, none, some, length, String,
  nat_eq, string_eq, ◌==◌, ==_iff, elem, filter_by, Distinct, All, arith, Bool-cases, inl, inr,
}
use mathlib.Core.Path.{subst}
use mathlib.Core.List.{head-eq_of_cons-eq, tail-eq_of_cons-eq}
use ai_financial_copilot.Common.Decimal.{label, label_injective}
use ai_financial_copilot.Common.Dict.{Dict, get, put, has, keys, values, get-put, has-eq-is_some}
use ai_financial_copilot.Schemas.Retrieval.{RetrievedChunk, ChunkPromptPayload, ContextItem}
use ai_financial_copilot.Retrieval.Assembler.{Assembly, is_admitted}
use ai_financial_copilot.Retrieval.Assembler.Labels.{
  chunk_ids, item_ids, item_refs, labels_from, Distinct-filter_by, All-filter_by, assemble_numbers,
  length-items,
}
use ai_financial_copilot.Agent.Evidence.{
  EvidenceLedger, fresh_record, ref_for, admit, label_item, label_items, unlabelled, one_search,
  labelled_by, assign_labels,
}
use ai_financial_copilot.Agent.Evidence.Labels.{
  IsLabelStep, label_item-IsLabelStep, IsFresh, IsFresh-nil, unlabelled-IsFresh,
}

-- A registered label is the one of the chunk that it names, the label of a record is registered,
-- and every label is "S" and a number below `m`.
pub record IsSoundBelow (m : ℕ) (l : EvidenceLedger) : Type 0 where
  pub registered : (r : String) (id : ℕ) → get r l.ref_registry ≡ some id → ref_for id l ≡ some r
  pub labelled : (id : ℕ) (r : String) → ref_for id l ≡ some r → get r l.ref_registry ≡ some id
  pub numbered :
      (r : String) (id : ℕ) → get r l.ref_registry ≡ some id → (n : ℕ) × (r ≡ label "S" n) × (n < m)

abbrev pub IsSound : EvidenceLedger → Type 0
IsSound l = IsSoundBelow l.next_ref l

module _ {m id : ℕ} {l l' : EvidenceLedger} (h : IsSoundBelow m l)
    (step : IsLabelStep id (label "S" m) l l') (new : ref_for id l ≡ none) where
  label_unused : (j : ℕ) → get (label "S" m) l.ref_registry ≡ some j → ⊥
  label_unused j e =
      let (n, same, below) = h.numbered (label "S" m) j e in
      omega (arith, label_injective "S" m n same)

  IsLabelStep-registered :
      (r : String) (j : ℕ) → get r l'.ref_registry ≡ some j → ref_for j l' ≡ some r
  IsLabelStep-registered r j e = ground (
    arith,
    step.ref_at j,
    step.registry_at r,
    ==_iff id j,
    ==_iff (label "S" m) r,
    h.registered r j,
  )

  IsLabelStep-labelled :
      (j : ℕ) (r : String) → ref_for j l' ≡ some r → get r l'.ref_registry ≡ some j
  IsLabelStep-labelled j r e = ground (
    arith,
    step.ref_at j,
    step.registry_at r,
    ==_iff id j,
    ==_iff (label "S" m) r,
    h.labelled j r,
    label_unused j,
  )

  IsLabelStep-numbered :
      (r : String) (j : ℕ)
      → get r l'.ref_registry ≡ some j
      → (n : ℕ) × (r ≡ label "S" n) × (n < m + 1)
  IsLabelStep-numbered r j e = elim (Bool-cases (label "S" m == r)) [
    | inl last ↦ (m, sym ((==_iff (label "S" m) r).0 last), omega arith)
    | inr old ↦
        let (n, same, below) = h.numbered r j (ground (arith, step.registry_at r)) in
        (n, same, omega arith)
  ]

  IsLabelStep-IsSoundBelow : IsSoundBelow (m + 1) l'
  IsLabelStep-IsSoundBelow = record {
    registered = IsLabelStep-registered;
    labelled = IsLabelStep-labelled;
    numbered = IsLabelStep-numbered;
  }

IsSoundBelow-cast : {m n : ℕ} {l : EvidenceLedger} → m ≡ n → IsSoundBelow m l → IsSoundBelow n l
IsSoundBelow-cast {l = l} e h = subst (λ k. IsSoundBelow k l) e h

module _ {id : ℕ} {ref : String} {l l' : EvidenceLedger} (step : IsLabelStep id ref l l') where
  IsLabelStep-persists :
      ref_for id l ≡ none → (j : ℕ) (r : String) → ref_for j l ≡ some r → ref_for j l' ≡ some r
  IsLabelStep-persists new j r e = ground (arith, step.ref_at j, ==_iff id j)

  IsLabelStep-given : ref_for id l' ≡ some ref
  IsLabelStep-given = ground (arith, step.ref_at id, ==_iff id id)

-- What labelling `items` from the number `m` on has done to `l`.
pub record IsLabelling (m : ℕ) (items : List ContextItem) (l l' : EvidenceLedger) : Type 0 where
  pub sound : IsSoundBelow (m + length items) l'
  pub bound : l'.next_ref ≡ l.next_ref
  pub persists : (j : ℕ) (r : String) → ref_for j l ≡ some r → ref_for j l' ≡ some r
  pub given : All (λ item. ref_for item.chunk_id l' ≡ some item.ref_id) items

abbrev pub AllNew : EvidenceLedger → List ℕ → Type 0
AllNew l = All (λ i. ref_for i l ≡ none)

AllNew-step :
    {id : ℕ} {r : String} {l l' : EvidenceLedger}
    → IsLabelStep id r l l'
    → (ids : List ℕ) → elem id ids ≡ false
    → AllNew l ids
    → AllNew l' ids
AllNew-step step [] out new = tt
AllNew-step {id} step (j ∷ ids) out new =
    (ground (arith, step.ref_at j), AllNew-step step ids (ground arith) new.1)

module _ (env : Assembly) (fresh : Dict ℕ RetrievedChunk) (payloads : Dict ℕ ChunkPromptPayload)
    (search : ℕ) where
  label_items-IsLabelling :
      (rank m : ℕ) (items : List ContextItem) (l : EvidenceLedger)
      → item_refs items ≡ labels_from m (length items)
      → Distinct (item_ids items)
      → AllNew l (item_ids items)
      → All (λ i. has i fresh ≡ true) (item_ids items)
      → IsSoundBelow m l
      → IsLabelling m items l (label_items env fresh payloads search rank items l)
  unfolding label_items
  label_items-IsLabelling rank m [] l refs once new known h = record {
    sound = IsSoundBelow-cast (omega arith) h;
    bound = refl;
    persists = λ j r e. e;
    given = tt;
  }
  label_items-IsLabelling rank m (item ∷ items) l refs once new known h =
      let l' = label_item env fresh payloads search rank item l in
      let step : IsLabelStep item.chunk_id (label "S" m) l l' =
        subst (λ r. IsLabelStep item.chunk_id r l l') (head-eq_of_cons-eq refs)
          (label_item-IsLabelStep env payloads search rank item l fresh known.0) in
      let rest =
        label_items-IsLabelling (rank + 1) (m + 1) items l' (tail-eq_of_cons-eq refs) once.1
          (AllNew-step step (item_ids items) once.0 new.1) known.1
          (IsLabelStep-IsSoundBelow h step new.0) in
      record {
        sound = IsSoundBelow-cast (omega arith) rest.sound;
        bound = rest.bound ∙ step.bound;
        persists = λ j r e. rest.persists j r (IsLabelStep-persists step new.0 j r e);
        given = (
          rest.persists item.chunk_id item.ref_id (
              subst (λ r. ref_for item.chunk_id l' ≡ some r) (sym (head-eq_of_cons-eq refs))
                (IsLabelStep-given step)),
          rest.given,
        );
      }

-- The same labels, whatever else has changed.
pub record SameLabels (l l' : EvidenceLedger) : Type 0 where
  pub refs : (j : ℕ) → ref_for j l' ≡ ref_for j l
  pub registry : l'.ref_registry ≡ l.ref_registry

SameLabels-IsSoundBelow :
    {m : ℕ} {l l' : EvidenceLedger} → SameLabels l l' → IsSoundBelow m l → IsSoundBelow m l'
SameLabels-IsSoundBelow same h = record {
  registered = λ r id e. same.refs id ∙ h.registered r id (cc (ap (get r) same.registry));
  labelled = λ id r e. ap (get r) same.registry ∙ h.labelled id r (sym (same.refs id) ∙ e);
  numbered = λ r id e. h.numbered r id (cc (ap (get r) same.registry));
}

one_search-SameLabels : (l : EvidenceLedger) → SameLabels l (one_search l)
unfolding ref_for
one_search-SameLabels l = record { refs = λ j. refl; registry = refl }

put-SameLabels :
    (c : RetrievedChunk) (l : EvidenceLedger)
    → has c.chunk_id l.records ≡ false
    → SameLabels l (record l { records = put c.chunk_id (fresh_record c) l.records })
unfolding ref_for
put-SameLabels c l absent = record {
  refs = λ j. ground (
    arith,
    get-put c.chunk_id j (fresh_record c) l.records,
    ==_iff c.chunk_id j,
    has-eq-is_some c.chunk_id l.records,
  );
  registry = refl;
}

-- `admit` changes no label.
pub admit-SameLabels :
    (chunks : List RetrievedChunk) (l : EvidenceLedger) → SameLabels l (admit chunks l).0
unfolding admit
admit-SameLabels [] l = record { refs = λ j. refl; registry = refl }
admit-SameLabels (c ∷ chunks) l = elim (Bool-cases (has c.chunk_id l.records)) [
  | inl known ↦ rw known (admit-SameLabels chunks l)
  | inr absent ↦
      let first = put-SameLabels c l absent in
      let rest =
        admit-SameLabels chunks
          (record l { records = put c.chunk_id (fresh_record c) l.records }) in
      rw absent (record {
        refs = λ j. rest.refs j ∙ first.refs j;
        registry = rest.registry ∙ first.registry;
      })
]

pub next_ref-admit :
    (chunks : List RetrievedChunk) (l : EvidenceLedger) → (admit chunks l).0.next_ref ≡ l.next_ref
unfolding admit
next_ref-admit [] l = refl
next_ref-admit (c ∷ chunks) l = ground (
  arith,
  next_ref-admit chunks l,
  next_ref-admit chunks (record l { records = put c.chunk_id (fresh_record c) l.records }),
)

pub admit-IsSound :
    (chunks : List RetrievedChunk) (l : EvidenceLedger) → IsSound l → IsSound (admit chunks l).0
admit-IsSound chunks l h =
    IsSoundBelow-cast (sym (next_ref-admit chunks l))
      (SameLabels-IsSoundBelow (admit-SameLabels chunks l) h)

All-has {ℓ} :
    {V : Type ℓ} (d whole : Dict ℕ V)
    → ((i : ℕ) → has i d ≡ true → has i whole ≡ true)
    → All (λ i. has i whole ≡ true) (keys d)
unfolding has
All-has [] whole sub = tt
All-has ((j, v) ∷ d) whole sub =
    (sub j (ground (arith, ==_iff j j)), All-has d whole (λ i e. sub i (ground arith)))

All-has-keys {ℓ} : {V : Type ℓ} (d : Dict ℕ V) → All (λ i. has i d ≡ true) (keys d)
All-has-keys d = All-has d d (λ i e. e)

-- What `assign_labels` has done.
pub record IsAssigned (items : List ContextItem) (l l' : EvidenceLedger) : Type 0 where
  pub sound : IsSound l'
  pub moved : l'.next_ref ≡ l.next_ref + length items
  pub persists : (j : ℕ) (r : String) → ref_for j l ≡ some r → ref_for j l' ≡ some r
  pub given : All (λ item. ref_for item.chunk_id l' ≡ some item.ref_id) items

-- The new items of a search are chunks that had no label, each once.
module _ (env : Assembly) (chunks : List RetrievedChunk) (payloads : Dict ℕ ChunkPromptPayload)
    (l : EvidenceLedger) where
  abbrev pub fresh_chunks : Dict ℕ RetrievedChunk
  fresh_chunks = unlabelled chunks l []

  abbrev pub new_items : List ContextItem
  new_items = (assign_labels env chunks payloads l).1.items

  fresh_chunks-IsFresh : IsFresh l fresh_chunks
  fresh_chunks-IsFresh = unlabelled-IsFresh chunks l [] (IsFresh-nil l)

  new_items-ids :
      item_ids new_items ≡ chunk_ids (filter_by (is_admitted env payloads) (values fresh_chunks))
  unfolding assign_labels
  new_items-ids = (assemble_numbers env payloads true l.next_ref (values fresh_chunks)).1

  pub new_items-refs : item_refs new_items ≡ labels_from l.next_ref (length new_items)
  unfolding assign_labels
  new_items-refs =
      (assemble_numbers env payloads true l.next_ref (values fresh_chunks)).0
      ∙ ap (labels_from l.next_ref) (length-items env payloads l.next_ref (values fresh_chunks))

  pub Distinct-new_items : Distinct (item_ids new_items)
  Distinct-new_items = subst Distinct (sym new_items-ids) (
      Distinct-filter_by (is_admitted env payloads) (values fresh_chunks)
        (subst Distinct (sym fresh_chunks-IsFresh.keyed) fresh_chunks-IsFresh.once))

  All-new_items : (P : ℕ → Type 0) → All P (keys fresh_chunks) → All P (item_ids new_items)
  All-new_items P h = subst (All P) (sym new_items-ids) (
      All-filter_by P (is_admitted env payloads) (values fresh_chunks)
        (subst (All P) (sym fresh_chunks-IsFresh.keyed) h))

  pub AllNew-new_items : AllNew l (item_ids new_items)
  AllNew-new_items = All-new_items (λ i. ref_for i l ≡ none) fresh_chunks-IsFresh.new

  labelling :
      IsSound l
      → IsLabelling l.next_ref new_items
          (one_search l)
          (labelled_by env chunks payloads l new_items)
  unfolding labelled_by
  labelling h =
      label_items-IsLabelling env fresh_chunks payloads l.searches 0 l.next_ref new_items
        (one_search l) new_items-refs Distinct-new_items (unfold ref_for in AllNew-new_items)
        (All-new_items (λ i. has i fresh_chunks ≡ true) (All-has-keys fresh_chunks))
        (SameLabels-IsSoundBelow (one_search-SameLabels l) h)

  -- `assign_labels` keeps the invariant, moves `next_ref` on by the number of the new items, keeps
  -- every label, and gives each item's chunk the item's label.
  pub assign_labels-IsAssigned :
      IsSound l → IsAssigned new_items l (assign_labels env chunks payloads l).0
  unfolding assign_labels
  assign_labels-IsAssigned h =
      let done = labelling h in
      let same : SameLabels (labelled_by env chunks payloads l new_items)
          (assign_labels env chunks payloads l).0 =
        unfold ref_for in record { refs = λ j. refl; registry = refl } in
      record {
        sound =
            SameLabels-IsSoundBelow same (IsSoundBelow-cast (omega (arith, done.bound)) done.sound);
        moved = omega (arith, done.bound);
        persists = λ j r e. same.refs j ∙ done.persists j r ((one_search-SameLabels l).refs j ∙ e);
        given = unfold ref_for in done.given;
      }
