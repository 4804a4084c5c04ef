-- ===== src/Agent/Evidence/History.antt =====
-- The ledger along a run: whatever searches admit and label, the labels on screen stay good.
use Prim.Native.Nat.add
use mathlib.Core.Path.{subst, ap₂}
use mathlib.Core.List.{map-append}
use ai_financial_copilot.Common.{
  ℕ, zero, suc, ◌+◌, ◌≡◌, refl, ap, sym, ◌∙◌, false, List, [], ◌∷◌, ◌++◌, none, some, length,
  String, nat_eq, string_eq, ==_iff, elem, elem-append, Distinct, All, All-append, arith,
  length-append,
}
use ai_financial_copilot.Common.Decimal.{label}
use ai_financial_copilot.Common.Text.{TextOps}
use ai_financial_copilot.Common.Dict.{Dict, get}
use ai_financial_copilot.Schemas.Retrieval.{RetrievedChunk, ChunkPromptPayload, ContextItem}
use ai_financial_copilot.Retrieval.Assembler.{Assembly}
use ai_financial_copilot.Retrieval.Assembler.Labels.{item_ids, item_refs, labels_from}
use ai_financial_copilot.Agent.Evidence.{
  EvidenceLedger, empty_ledger, ref_for, admit, assign_labels, chunk_of_ref, resolve_ref,
  resolve_refs,
}
use ai_financial_copilot.Agent.Evidence.Sound.{
  IsSound, admit-SameLabels, admit-IsSound, next_ref-admit, new_items-refs, Distinct-new_items,
  AllNew-new_items, assign_labels-IsAssigned,
}

-- A run of the ledger's two writing operations, in any order, and the items it has shown.
pub data Run (env : Assembly) : EvidenceLedger → List ContextItem → Type 0 where
  start : Run env empty_ledger []
  admitted :
      {l : EvidenceLedger} {shown : List ContextItem} (chunks : List RetrievedChunk)
      → Run env l shown
      → Run env (admit chunks l).0 shown
  labelled :
      {l : EvidenceLedger} {shown : List ContextItem} (chunks : List RetrievedChunk)
      (payloads : Dict ℕ ChunkPromptPayload)
      → Run env l shown
      → Run env
          (assign_labels env chunks payloads l).0
          (shown ++ (assign_labels env chunks payloads l).1.items)

-- The items shown so far, against the ledger.
pub record IsShown (l : EvidenceLedger) (shown : List ContextItem) : Type 0 where
  pub sound : IsSound l
  pub next : l.next_ref ≡ length shown + 1
  pub refs : item_refs shown ≡ labels_from 1 (length shown)
  pub once : Distinct (item_ids shown)
  pub given : All (λ item. ref_for item.chunk_id l ≡ some item.ref_id) shown

labels_from-add : (n a b : ℕ) → labels_from n (a + b) ≡ labels_from n a ++ labels_from (n + a) b
labels_from-add n zero b = ap₂ labels_from (omega arith) (omega arith)
labels_from-add n (suc a) b = rw (add.suc a b) (
    ap (◌∷◌ (label "S" n)) (
      labels_from-add (n + 1) a b
      ∙ ap (λ m. labels_from (n + 1) a ++ labels_from m b) (omega arith)))

Given-mono :
    (l l' : EvidenceLedger) (items : List ContextItem)
    → ((j : ℕ) (r : String) → ref_for j l ≡ some r → ref_for j l' ≡ some r)
    → All (λ item. ref_for item.chunk_id l ≡ some item.ref_id) items
    → All (λ item. ref_for item.chunk_id l' ≡ some item.ref_id) items
Given-mono l l' [] keep h = tt
Given-mono l l' (item ∷ items) keep h =
    (keep item.chunk_id item.ref_id h.0, Given-mono l l' items keep h.1)

not-elem_of_new :
    (l : EvidenceLedger) (i : ℕ) (r : String) (ids : List ℕ)
    → ref_for i l ≡ some r
    → All (λ j. ref_for j l ≡ none) ids
    → elem i ids ≡ false
not-elem_of_new l i r [] e new = refl
not-elem_of_new l i r (j ∷ ids) e new =
    ground (arith, ==_iff i j, not-elem_of_new l i r ids e new.1)

Distinct-append :
    (l : EvidenceLedger) (shown : List ContextItem) (ids : List ℕ)
    → All (λ item. ref_for item.chunk_id l ≡ some item.ref_id) shown
    → Distinct (item_ids shown)
    → All (λ j. ref_for j l ≡ none) ids
    → Distinct ids
    → Distinct (item_ids shown ++ ids)
Distinct-append l [] ids given once new h = h
Distinct-append l (item ∷ shown) ids given once new h = (
  ground (
    arith,
    elem-append item.chunk_id (item_ids shown) ids,
    not-elem_of_new l item.chunk_id item.ref_id ids given.0 new,
  ),
  Distinct-append l shown ids given.1 once.1 new h,
)

labelled-IsShown :
    (env : Assembly) (chunks : List RetrievedChunk) (payloads : Dict ℕ ChunkPromptPayload)
    (l : EvidenceLedger) (shown : List ContextItem)
    → IsShown l shown
    → IsShown
        (assign_labels env chunks payloads l).0
        (shown ++ (assign_labels env chunks payloads l).1.items)
labelled-IsShown env chunks payloads l shown h =
    let items = (assign_labels env chunks payloads l).1.items in
    let l' = (assign_labels env chunks payloads l).0 in
    let done = assign_labels-IsAssigned env chunks payloads l h.sound in
    record {
      sound = done.sound;
      next = omega (arith, done.moved, h.next, length-append shown items);
      refs =
          map-append (λ item. item.ref_id) shown items
          ∙ ap₂ ◌++◌ h.refs (new_items-refs env chunks payloads l)
          ∙ ap (λ m. labels_from 1 (length shown) ++ labels_from m (length items))
              (omega (arith, h.next))
          ∙ sym (labels_from-add 1 (length shown) (length items))
          ∙ ap (labels_from 1) (sym (length-append shown items));
      once = subst Distinct (sym (map-append (λ item. item.chunk_id) shown items)) (
          Distinct-append l shown (item_ids items) h.given h.once
            (AllNew-new_items env chunks payloads l) (Distinct-new_items env chunks payloads l));
      given =
          All-append (λ item. ref_for item.chunk_id l' ≡ some item.ref_id) shown items
            (Given-mono l l' shown done.persists h.given) done.given;
    }

admitted-IsShown :
    (chunks : List RetrievedChunk) (l : EvidenceLedger) (shown : List ContextItem)
    → IsShown l shown
    → IsShown (admit chunks l).0 shown
admitted-IsShown chunks l shown h = record {
  sound = admit-IsSound chunks l h.sound;
  next = next_ref-admit chunks l ∙ h.next;
  refs = h.refs;
  once = h.once;
  given =
      Given-mono l (admit chunks l).0 shown (λ j r e. (admit-SameLabels chunks l).refs j ∙ e)
        h.given;
}

pub empty-IsShown : IsShown empty_ledger []
unfolding ref_for get
empty-IsShown = record {
  sound = record {
    registered = λ r id e. cc;
    labelled = λ id r e. cc;
    numbered = λ r id e. absurd (cc);
  };
  next = refl;
  refs = refl;
  once = tt;
  given = tt;
}

-- However a run admits and labels, the labels shown are S1, S2, S3 and so on over the whole run,
-- never restarted, and no chunk is shown twice; the ledger's invariant holds.
pub Run-IsShown :
    {env : Assembly} {l : EvidenceLedger} {shown : List ContextItem}
    → Run env l shown
    → IsShown l shown
Run-IsShown start = empty-IsShown
Run-IsShown (admitted {l = l} {shown = shown} chunks r) =
    admitted-IsShown chunks l shown (Run-IsShown r)
Run-IsShown {env} (labelled {l = l} {shown = shown} chunks payloads r) =
    labelled-IsShown env chunks payloads l shown (Run-IsShown r)

-- What `strip`, `upper` and `UUID` do to a label such as "S12".
pub record IsLabelText (ops : TextOps) : Type 0 where
  pub strip_label : (n : ℕ) → ops.strip (label "S" n) ≡ label "S" n
  pub upper_label : (n : ℕ) → ops.upper (label "S" n) ≡ label "S" n
  pub not_uuid : (n : ℕ) → ops.parse_uuid (label "S" n) ≡ none

module _ (env : Assembly) (texts : IsLabelText env.text_ops) where
  -- the reference resolves to the chunk, and nothing is left unresolved
  abbrev pub Resolves : EvidenceLedger → ContextItem → Type 0
  Resolves l item =
      resolve_refs env (item.ref_id ∷ []) l ≡ (env.text_ops.show_uuid item.chunk_id ∷ [], [])

  label_resolves :
      (l : EvidenceLedger) (r : String) (id n : ℕ)
      → r ≡ label "S" n
      → get r l.ref_registry ≡ some id
      → resolve_refs env (r ∷ []) l ≡ (env.text_ops.show_uuid id ∷ [], [])
  unfolding resolve_refs resolve_ref chunk_of_ref
  label_resolves l r id n same reg =
      let stripped : env.text_ops.strip r ≡ r = cc (texts.strip_label n, same) in
      let uppered : env.text_ops.upper r ≡ r = cc (texts.upper_label n, same) in
      let no_uuid : env.text_ops.parse_uuid r ≡ none = cc (texts.not_uuid n, same) in
      ground (arith, stripped, uppered, no_uuid, reg)

  Resolves-of_given :
      (l : EvidenceLedger) (item : ContextItem)
      → IsSound l
      → ref_for item.chunk_id l ≡ some item.ref_id
      → Resolves l item
  Resolves-of_given l item h e =
      let reg = h.labelled item.chunk_id item.ref_id e in
      let (n, same, _) = h.numbered item.ref_id item.chunk_id reg in
      label_resolves l item.ref_id item.chunk_id n same reg

  Resolves-All :
      (l : EvidenceLedger) (items : List ContextItem)
      → IsSound l
      → All (λ item. ref_for item.chunk_id l ≡ some item.ref_id) items
      → All (Resolves l) items
  Resolves-All l [] h given = tt
  Resolves-All l (item ∷ items) h given =
      (Resolves-of_given l item h given.0, Resolves-All l items h given.1)

  -- Every label that a run has shown resolves, to the chunk it was shown with, in the ledger that
  -- the run ends in.
  pub labels_resolve :
      {l : EvidenceLedger} {shown : List ContextItem} → Run env l shown → All (Resolves l) shown
  labels_resolve {l} {shown} r = let h = Run-IsShown r in Resolves-All l shown h.sound h.given
