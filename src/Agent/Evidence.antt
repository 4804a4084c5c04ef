-- ===== src/Agent/Evidence.antt =====
-- src/services/chat/agent/evidence.py: the run's record of chunks and of the labels that the
-- transcript has shown. A dict is an association list in insertion order.
pub mod Labels
pub mod Sound
pub mod History
pub mod Grow
use Prim.Native.String.{◌++◌ as ◌+++◌}
use ai_financial_copilot.Common.{
  ℕ, zero, suc, ◌+◌, Bool, true, false, ◌&&◌, ◌||◌, List, [], ◌∷◌, ◌++◌, Option, none, some, length,
  String, if◌then◌else◌, leb, ltb, nat_beq, nat_eq, string_eq, take, map, is_some, filter_by, not,
}
use mathlib.Core.Option
use ai_financial_copilot.Common.Text.{TextOps, cut, chars}
use ai_financial_copilot.Common.Dict.{Dict, get, put, has, values}
use ai_financial_copilot.Common.Sort.{sorted}
use ai_financial_copilot.Schemas.Retrieval.{
  RetrievedChunk, ChunkPromptPayload, ContextItem, RagContext, ref_placeholder,
}
use ai_financial_copilot.Retrieval.Assembler.{Assembly, assemble_rag_context}

pub record EvidenceRecord : Type 0 where
  pub chunk : RetrievedChunk
  pub ref_id : Option String
  pub search : ℕ
  pub rank : ℕ

pub record EvidenceLedger : Type 0 where
  pub records : Dict ℕ EvidenceRecord
  pub ref_registry : Dict String ℕ
  pub payloads : Dict ℕ ChunkPromptPayload
  pub next_ref : ℕ
  pub searches : ℕ

abbrev pub empty_ledger : EvidenceLedger
empty_ledger = record { records = []; ref_registry = []; payloads = []; next_ref = 1; searches = 0 }

abbrev pub fresh_record : RetrievedChunk → EvidenceRecord
fresh_record chunk = record { chunk = chunk; ref_id = none; search = 0; rank = 0 }

-- `admit`: the ledger, and how many chunks were new
unfoldable pub admit : List RetrievedChunk → EvidenceLedger → EvidenceLedger × ℕ
admit [] l = (l, 0)
admit (chunk ∷ chunks) l =
    let known = admit chunks l in
    let grown =
      admit chunks (record l { records = put chunk.chunk_id (fresh_record chunk) l.records }) in
    if has chunk.chunk_id l.records then known else (grown.0, grown.1 + 1)

-- `_ref_for`
unfoldable pub ref_for : ℕ → EvidenceLedger → Option String
ref_for chunk_id l = elim (get chunk_id l.records) [ none ↦ none | some r ↦ r.ref_id ]

-- `heading_trail[-1]`, or "" without headings
abbrev last_heading : List String → String
last_heading [] = ""
last_heading (h ∷ []) = h
last_heading (h ∷ k ∷ hs) = last_heading (k ∷ hs)

-- The chunks never labelled before, by id: a later chunk of the same id takes the place.
unfoldable pub unlabelled :
    List RetrievedChunk → EvidenceLedger → Dict ℕ RetrievedChunk → Dict ℕ RetrievedChunk
unlabelled [] l found = found
unlabelled (chunk ∷ chunks) l found =
    unlabelled chunks l
      (if is_some (ref_for chunk.chunk_id l) then found else put chunk.chunk_id chunk found)

-- `self._searches += 1`
abbrev pub one_search : EvidenceLedger → EvidenceLedger
one_search l = record l { searches = l.searches + 1 }

-- `setdefault`, where a labelled chunk was never admitted; it is among `fresh`
abbrev pub or_fresh : Option EvidenceRecord → Option RetrievedChunk → Option EvidenceRecord
or_fresh (some r) c = some r
or_fresh none none = none
or_fresh none (some c) = some (fresh_record c)

abbrev pub record_of : Dict ℕ RetrievedChunk → ℕ → EvidenceLedger → Option EvidenceRecord
record_of fresh chunk_id l = or_fresh (get chunk_id l.records) (get chunk_id fresh)

module _ (env : Assembly) where
  open env use {text_ops}

  -- the line that `shown_before` writes for one labelled chunk
  unfoldable pub shown_line : ℕ → String → RetrievedChunk → String
  shown_line max_chars ref_id chunk =
      let whole = last_heading chunk.heading_trail in
      let heading =
        if ltb max_chars (chars whole)
        then text_ops.rstrip (cut max_chars whole) +++ "…"
        else whole in
      text_ops.rstrip (ref_id +++ " " +++ heading)

  -- `shown_before`; `max_chars` is `get_agent_shown_heading_chars()`
  unfoldable pub shown_before : ℕ → List RetrievedChunk → EvidenceLedger → List String
  shown_before max_chars [] l = []
  shown_before max_chars (chunk ∷ chunks) l =
      let rest = shown_before max_chars chunks l in
      elim (ref_for chunk.chunk_id l) [
        | none ↦ rest
        | some ref_id ↦ shown_line max_chars ref_id chunk ∷ rest
      ]

  -- the sanitized payload is kept under the item's id, if the search brought one
  abbrev keep_payload :
      Dict ℕ ChunkPromptPayload
      → ContextItem
      → Dict ℕ ChunkPromptPayload
      → Dict ℕ ChunkPromptPayload
  keep_payload payloads item kept = elim (get item.chunk_id payloads) [
    | none ↦ kept
    | some payload ↦
        put item.chunk_id
          (record payload {
            prompt_text = text_ops.replace_once item.ref_id ref_placeholder item.prompt_text;
          })
          kept
  ]

  unfoldable pub set_label :
      Dict ℕ ChunkPromptPayload
      → ℕ
      → ℕ
      → ContextItem
      → EvidenceRecord
      → EvidenceLedger
      → EvidenceLedger
  set_label payloads search rank item r l = record l {
    records =
        put item.chunk_id (record r { ref_id = some item.ref_id; search = search; rank = rank })
          l.records;
    ref_registry = put item.ref_id item.chunk_id l.ref_registry;
    payloads = keep_payload payloads item l.payloads;
  }

  abbrev label_known :
      Dict ℕ ChunkPromptPayload
      → ℕ
      → ℕ
      → ContextItem
      → EvidenceLedger
      → Option EvidenceRecord
      → EvidenceLedger
  label_known payloads search rank item l none = l
  label_known payloads search rank item l (some r) = set_label payloads search rank item r l

  -- One round of the loop over the context's items. (An item that is not among `fresh` cannot be:
  -- the context is assembled from it.)
  unfoldable pub label_item :
      Dict ℕ RetrievedChunk
      → Dict ℕ ChunkPromptPayload
      → ℕ
      → ℕ
      → ContextItem
      → EvidenceLedger
      → EvidenceLedger
  label_item fresh payloads search rank item l =
      label_known payloads search rank item l (record_of fresh item.chunk_id l)

  unfoldable pub label_items :
      Dict ℕ RetrievedChunk
      → Dict ℕ ChunkPromptPayload
      → ℕ
      → ℕ
      → List ContextItem
      → EvidenceLedger
      → EvidenceLedger
  label_items fresh payloads search rank [] l = l
  label_items fresh payloads search rank (item ∷ items) l =
      label_items fresh payloads search (rank + 1) items
        (label_item fresh payloads search rank item l)

  -- the ledger behind the loop over the items
  unfoldable pub labelled_by :
      List RetrievedChunk
      → Dict ℕ ChunkPromptPayload
      → EvidenceLedger
      → List ContextItem
      → EvidenceLedger
  labelled_by chunks payloads l items =
      label_items (unlabelled chunks l []) payloads l.searches 0 items (one_search l)

  -- `assign_labels`
  unfoldable pub assign_labels :
      List RetrievedChunk → Dict ℕ ChunkPromptPayload → EvidenceLedger → EvidenceLedger × RagContext
  assign_labels chunks payloads l =
      let ctx =
        (assemble_rag_context env payloads true l.next_ref (values (unlabelled chunks l []))).0 in
      let labelled = labelled_by chunks payloads l ctx.items in
      (record labelled { next_ref = labelled.next_ref + length ctx.items }, ctx)

  -- the chunk that a reference names: a UUID, or a label that was shown
  unfoldable pub chunk_of_ref : String → EvidenceLedger → Option ℕ
  chunk_of_ref candidate l = elim (text_ops.parse_uuid candidate) [
    | some u ↦ some u
    | none ↦ get (text_ops.upper candidate) l.ref_registry
  ]

  -- one reference of `resolve_refs`: the canonical UUID text, or `none`
  unfoldable pub resolve_ref : String → EvidenceLedger → Option String
  resolve_ref ref l = Option.map text_ops.show_uuid (chunk_of_ref (text_ops.strip ref) l)

  -- `resolve_refs`: the resolved references and the others
  unfoldable pub resolve_refs : List String → EvidenceLedger → List String × List String
  resolve_refs [] l = ([], [])
  resolve_refs (ref ∷ refs) l =
      let (resolved, unresolved) = resolve_refs refs l in
      elim (resolve_ref ref l) [
        | none ↦ (resolved, text_ops.strip ref ∷ unresolved)
        | some u ↦ (u ∷ resolved, unresolved)
      ]

abbrev payloads_into :
    List ℕ → EvidenceLedger → Dict ℕ ChunkPromptPayload → Dict ℕ ChunkPromptPayload
payloads_into [] l d = d
payloads_into (i ∷ ids) l d =
    payloads_into ids l (elim (get i l.payloads) [ none ↦ d | some payload ↦ put i payload d ])

-- `payloads_for`
unfoldable pub payloads_for : List ℕ → EvidenceLedger → Dict ℕ ChunkPromptPayload
payloads_for ids l = payloads_into ids l []

abbrev labelled_records : EvidenceLedger → List EvidenceRecord
labelled_records l = filter_by (λ r. is_some r.ref_id) (values l.records)

-- the highest score first
abbrev pub by_score : RetrievedChunk → RetrievedChunk → Bool
by_score a b = leb b.score a.score

-- `labelled_chunks`
unfoldable pub labelled_chunks : EvidenceLedger → List RetrievedChunk
labelled_chunks l = sorted by_score (map (λ r. r.chunk) (labelled_records l))

-- the first rank first, and within a rank the first search
abbrev pub by_rank : EvidenceRecord → EvidenceRecord → Bool
by_rank a b = ltb a.rank b.rank || nat_beq a.rank b.rank && leb a.search b.search

-- `fallback_chunks`
unfoldable pub fallback_chunks : ℕ → EvidenceLedger → List RetrievedChunk
fallback_chunks limit l = map (λ r. r.chunk) (take limit (sorted by_rank (labelled_records l)))

-- `__contains__` and `__len__`
abbrev pub contains_chunk : ℕ → EvidenceLedger → Bool
contains_chunk chunk_id l = has chunk_id l.records

unfoldable pub chunk_total : EvidenceLedger → ℕ
chunk_total l = length l.records
