-- ===== src/Agent/Evidence/Grow.antt =====
-- The record is complete: no operation of the ledger takes a chunk out.
use ai_financial_copilot.Common.{
  ℕ, ◌+◌, ◌≡◌, true, List, [], ◌∷◌, Option, none, some, nat_eq, ==_iff, arith, if-cases,
}
use ai_financial_copilot.Common.Dict.{Dict, put, has, has-put}
use ai_financial_copilot.Schemas.Retrieval.{RetrievedChunk, ChunkPromptPayload, ContextItem}
use ai_financial_copilot.Retrieval.Assembler.{Assembly}
use ai_financial_copilot.Agent.Evidence.{
  EvidenceRecord, EvidenceLedger, admit, fresh_record, contains_chunk, assign_labels, label_item,
  label_items, labelled_by, label_known, set_label, record_of, one_search,
}

-- every chunk of `l` is one of `m`
abbrev pub Includes : EvidenceLedger → EvidenceLedger → Type 0
Includes l m = (u : ℕ) → contains_chunk u l ≡ true → contains_chunk u m ≡ true

pub admit-Includes :
    (chunks : List RetrievedChunk) (l : EvidenceLedger) → Includes l (admit chunks l).0
unfolding admit
admit-Includes [] l u h = h
admit-Includes (c ∷ chunks) l u h =
    if-cases (λ (r : EvidenceLedger × ℕ). has u r.0.records ≡ true) (has c.chunk_id l.records) _ _
      (λ _. admit-Includes chunks l u h)
      (λ _.
        admit-Includes chunks _ u (ground (arith, has-put c.chunk_id u (fresh_record c) l.records)))

-- Every admitted chunk is in the ledger.
pub admit-contains :
    (chunks : List RetrievedChunk) (l : EvidenceLedger) (c : RetrievedChunk)
    → contains_chunk c.chunk_id (admit (c ∷ chunks) l).0 ≡ true
unfolding admit
admit-contains chunks l c =
    if-cases (λ (r : EvidenceLedger × ℕ). has c.chunk_id r.0.records ≡ true)
      (has c.chunk_id l.records) _ _ (λ there. admit-Includes chunks l c.chunk_id there)
      (λ _.
        admit-Includes chunks (record l { records = put c.chunk_id (fresh_record c) l.records })
          c.chunk_id
          (ground (
            arith,
            has-put c.chunk_id c.chunk_id (fresh_record c) l.records,
            ==_iff c.chunk_id c.chunk_id,
          )))

module _ (env : Assembly) (payloads : Dict ℕ ChunkPromptPayload) (search : ℕ) where
  label_known-Includes :
      (rank : ℕ) (item : ContextItem) (l : EvidenceLedger) (r : Option EvidenceRecord)
      → Includes l (label_known env payloads search rank item l r)
  unfolding set_label
  label_known-Includes rank item l none u h = h
  label_known-Includes rank item l (some r) u h = ground (
    arith,
    has-put item.chunk_id u (record r { ref_id = some item.ref_id; search = search; rank = rank })
        l.records,
  )

  label_items-Includes :
      (fresh : Dict ℕ RetrievedChunk) (rank : ℕ) (items : List ContextItem) (l : EvidenceLedger)
      → Includes l (label_items env fresh payloads search rank items l)
  unfolding label_items label_item
  label_items-Includes fresh rank [] l u h = h
  label_items-Includes fresh rank (item ∷ items) l u h =
      label_items-Includes fresh (rank + 1) items (label_item env fresh payloads search rank item l)
        u (label_known-Includes rank item l (record_of fresh item.chunk_id l) u h)

-- Assigning labels takes no chunk out of the ledger.
pub assign_labels-Includes :
    (env : Assembly) (chunks : List RetrievedChunk) (payloads : Dict ℕ ChunkPromptPayload)
    (l : EvidenceLedger)
    → Includes l (assign_labels env chunks payloads l).0
unfolding assign_labels labelled_by
assign_labels-Includes env chunks payloads l u h =
    label_items-Includes env payloads l.searches _ 0 _ (one_search l) u h
