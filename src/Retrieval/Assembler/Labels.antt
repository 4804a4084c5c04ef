-- ===== src/Retrieval/Assembler/Labels.antt =====
-- Which chunks get in, and under which labels.
use ai_financial_copilot.Common.{
  ℕ, zero, suc, ◌+◌, ◌≡◌, refl, Bool, true, false, List, [], ◌∷◌, none, some, length, elem, String,
  if◌then◌else◌, nat_eq, string_eq, map, filter_by, Distinct, All, arith, Bool-cases, inl, inr,
}
use ai_financial_copilot.Common.Decimal.{label}
use ai_financial_copilot.Common.Dict.{Dict, get}
use ai_financial_copilot.Schemas.Retrieval.{RetrievedChunk, ChunkPromptPayload, ContextItem}
use ai_financial_copilot.Retrieval.Assembler.{
  Assembly, Rendered, dedup_chunks, is_block, scanned, screened, context_item, render_item,
  drop_chunk, is_admitted, render, assemble_rag_context,
}

-- `k` labels, numbered from `n` on
abbrev pub labels_from : ℕ → ℕ → List String
labels_from n zero = []
labels_from n (suc k) = label "S" n ∷ labels_from (n + 1) k

abbrev pub item_refs : List ContextItem → List String
item_refs = map (λ item. item.ref_id)

abbrev pub item_ids : List ContextItem → List ℕ
item_ids = map (λ item. item.chunk_id)

abbrev pub chunk_ids : List RetrievedChunk → List ℕ
chunk_ids = map (λ chunk. chunk.chunk_id)

module _ (env : Assembly) (payloads : Dict ℕ ChunkPromptPayload) where
  -- the chunk has a payload, and the scan blocks it
  abbrev pub is_blocked : RetrievedChunk → Bool
  is_blocked chunk = elim (get chunk.chunk_id payloads) [
    | none ↦ false
    | some payload ↦ is_block (scanned env payload).0.severity
  ]

  record IsNumbered (n : ℕ) (chunks : List RetrievedChunk) (out : Rendered) : Type 0 where
    refs : item_refs out.items ≡ labels_from n (length out.items)
    ids : item_ids out.items ≡ chunk_ids (filter_by (is_admitted env payloads) chunks)

  render-IsNumbered :
      (n : ℕ) (chunks : List RetrievedChunk) → IsNumbered n chunks (render env payloads n chunks)
  unfolding render is_admitted drop_chunk render_item context_item
  render-IsNumbered n [] = record { refs = refl; ids = refl }
  render-IsNumbered n (chunk ∷ chunks) =
      ground (arith, render-IsNumbered n chunks, render-IsNumbered (n + 1) chunks)

  dropped-render :
      (n : ℕ) (chunks : List RetrievedChunk)
      → map (λ d. d.chunk_id) (render env payloads n chunks).guardrails.dropped
        ≡ map (λ chunk. env.text_ops.show_uuid chunk.chunk_id) (filter_by is_blocked chunks)
  unfolding render drop_chunk render_item screened
  dropped-render n [] = refl
  dropped-render n (chunk ∷ chunks) =
      ground (arith, dropped-render n chunks, dropped-render (n + 1) chunks)

  -- The excerpts are the chunks that have a payload and that the scan does not block, in the given
  -- order; they are labelled S{ref_start}, S{ref_start + 1} and so on with no gap, and
  -- `chunk_count` is their number. The dropped chunks are those that the scan blocks, in order.
  -- All this holds with and without duplicates taken out first.
  pub assemble_numbers :
      (assume_unique : Bool) (ref_start : ℕ) (chunks : List RetrievedChunk)
      → (item_refs (assemble_rag_context env payloads assume_unique ref_start chunks).0.items
          ≡ labels_from ref_start
              (assemble_rag_context env payloads assume_unique ref_start chunks).0.chunk_count)
        × (item_ids (assemble_rag_context env payloads assume_unique ref_start chunks).0.items
            ≡ chunk_ids (
                filter_by
                  (is_admitted env payloads)
                  (if assume_unique then chunks else dedup_chunks chunks)))
        × (map
              (λ d. d.chunk_id)
              (assemble_rag_context env payloads assume_unique ref_start chunks).1.dropped
            ≡ map
                (λ chunk. env.text_ops.show_uuid chunk.chunk_id)
                (filter_by is_blocked (if assume_unique then chunks else dedup_chunks chunks)))
  unfolding assemble_rag_context
  assemble_numbers assume_unique ref_start chunks =
      let selected = if assume_unique then chunks else dedup_chunks chunks in
      let all = render-IsNumbered ref_start selected in
      (all.refs, all.ids, dropped-render ref_start selected)

module _ (p : RetrievedChunk → Bool) where
  elem-filter_by :
      (i : ℕ) (xs : List RetrievedChunk)
      → elem i (chunk_ids xs) ≡ false
      → elem i (chunk_ids (filter_by p xs)) ≡ false
  elem-filter_by i [] h = refl
  elem-filter_by i (x ∷ xs) h = ground (arith, elem-filter_by i xs)

  pub Distinct-filter_by :
      (xs : List RetrievedChunk) → Distinct (chunk_ids xs) → Distinct (chunk_ids (filter_by p xs))
  Distinct-filter_by [] h = tt
  Distinct-filter_by (x ∷ xs) h = elim (Bool-cases (p x)) [
    | inl kept ↦ rw kept (elem-filter_by x.chunk_id xs h.0, Distinct-filter_by xs h.1)
    | inr out ↦ rw out (Distinct-filter_by xs h.1)
  ]

pub All-filter_by {ℓ} :
    (P : ℕ → Type ℓ) (p : RetrievedChunk → Bool) (xs : List RetrievedChunk)
    → All P (chunk_ids xs)
    → All P (chunk_ids (filter_by p xs))
All-filter_by P p [] h = tt
All-filter_by P p (x ∷ xs) h = elim (Bool-cases (p x)) [
  | inl kept ↦ rw kept (h.0, All-filter_by P p xs h.1)
  | inr out ↦ rw out (All-filter_by P p xs h.1)
]

pub length-items :
    (env : Assembly) (payloads : Dict ℕ ChunkPromptPayload) (ref_start : ℕ)
    (chunks : List RetrievedChunk)
    → (assemble_rag_context env payloads true ref_start chunks).0.chunk_count
      ≡ length (assemble_rag_context env payloads true ref_start chunks).0.items
unfolding assemble_rag_context
length-items env payloads ref_start chunks = refl
