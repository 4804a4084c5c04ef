-- ===== src/Retrieval/Assembler.antt =====
-- src/services/retrieval/context_assembler.py: chunks and their hydrated payloads become numbered
-- excerpts. The injection scan is a parameter, since its rules do not matter here; so is the
-- substitution of `_RUN_STATUS_TAG_RE`. The counter and the log line of a chunk without a payload
-- are left out.
pub mod Labels
use Prim.Native.String.{◌++◌ as ◌+++◌}
use ai_financial_copilot.Common.{
  ℕ, suc, ◌+◌, ◌≡◌, Bool, true, false, List, [], ◌∷◌, Option, none, some, length, elem, String,
  if◌then◌else◌, nat_beq, nat_eq, string_eq,
}
use ai_financial_copilot.Common.Text.{TextOps, join, partition_line, chars}
use ai_financial_copilot.Common.Decimal.{label}
use ai_financial_copilot.Common.Dict.{Dict, get}
use ai_financial_copilot.Schemas.Retrieval.{
  RetrievedChunk, ChunkPromptPayload, Citation, ContextItem, RagContext, ScreenedChunk,
  ref_placeholder,
}

-- of src/services/security/injection_detector.py
pub data Severity : Type 0 where
  clean flag block : Severity

pub record InjectionSignal : Type 0 where
  pub score : ℕ
  pub severity : Severity
  pub sanitized_text : String
  pub matched_rules : List String

abbrev pub is_block : Severity → Bool
is_block block = true
is_block _ = false

abbrev pub is_flag : Severity → Bool
is_flag flag = true
is_flag _ = false

-- what the assembler is configured with
pub record Assembly : Type 0 where
  pub text_ops : TextOps
  pub scan_retrieved_chunk : String → InjectionSignal
  -- `_RUN_STATUS_TAG_RE.sub(r"&lt;\1", text)`
  pub escape_run_status : String → String
  -- INJECTION_SCAN_CHUNKS
  pub scan_chunks : Bool

pub record AssemblyGuardrails : Type 0 where
  pub dropped : List ScreenedChunk
  pub flagged : List ScreenedChunk

-- `_dedup_chunks`, with the ids seen so far
abbrev pub dedup_chunks_after : List ℕ → List RetrievedChunk → List RetrievedChunk
dedup_chunks_after seen [] = []
dedup_chunks_after seen (c ∷ chunks) =
    let skip = dedup_chunks_after seen chunks in
    let keep = c ∷ dedup_chunks_after (c.chunk_id ∷ seen) chunks in
    if elem c.chunk_id seen then skip else keep

abbrev pub dedup_chunks : List RetrievedChunk → List RetrievedChunk
dedup_chunks chunks = dedup_chunks_after [] chunks

-- the lists that the loop fills
pub record Rendered : Type 0 where
  pub items : List ContextItem
  pub blocks : List String
  pub guardrails : AssemblyGuardrails

abbrev nothing_rendered : Rendered
nothing_rendered = record {
  items = [];
  blocks = [];
  guardrails = record { dropped = []; flagged = [] };
}

module _ (env : Assembly) where
  open env use {text_ops, scan_retrieved_chunk, escape_run_status, scan_chunks}

  unfoldable pub wrap_excerpt : String → String → Bool → String → String
  wrap_excerpt ref_id source_doc flagged text =
      "<retrieved_excerpt id=\""
      +++ ref_id
      +++ "\" source_doc=\""
      +++ source_doc
      +++ "\" flagged=\""
      +++ (if flagged then "true" else "false")
      +++ "\">\n"
      +++ escape_run_status text
      +++ "\n</retrieved_excerpt>"

  -- The signal and the text behind the header: only the body is scanned.
  unfoldable pub scanned : ChunkPromptPayload → InjectionSignal × String
  scanned payload =
      let text = payload.prompt_text in
      let (head, sep, rest) = partition_line text in
      let header = if nat_beq (chars sep) 0 then "" else head in
      let body = if nat_beq (chars sep) 0 then text else rest in
      let signal = scan_retrieved_chunk body in
      if scan_chunks
      then (signal, header +++ sep +++ signal.sanitized_text)
      else (record { score = 0; severity = clean; sanitized_text = text; matched_rules = [] }, text)

  unfoldable pub screened : RetrievedChunk → InjectionSignal → ScreenedChunk
  screened chunk signal = record {
    chunk_id = text_ops.show_uuid chunk.chunk_id;
    matched_rules = signal.matched_rules;
    score = signal.score;
  }

  -- the item that a chunk becomes under the number `n`
  unfoldable pub context_item : ℕ → RetrievedChunk → ChunkPromptPayload → ContextItem
  context_item n chunk payload =
      let ref_id = label "S" n in
      record {
        ref_id = ref_id;
        chunk_id = chunk.chunk_id;
        score = chunk.score;
        prompt_text = text_ops.replace ref_placeholder ref_id (scanned payload).1;
        citation = record {
          ref_id = ref_id;
          ref_index = n;
          chunk_id = chunk.chunk_id;
          document_id = chunk.document_id;
          document_name = payload.document_name;
          filename = none;
          page_numbers = payload.page_numbers;
          heading_path = payload.heading_trail;
          snippet = payload.snippet;
        };
        provenance = payload.provenance;
      }

  -- a chunk that gets in goes before what the rest of the loop gives
  unfoldable pub render_item : ℕ → RetrievedChunk → ChunkPromptPayload → Rendered → Rendered
  render_item n chunk payload rest =
      let signal = (scanned payload).0 in
      let flagged = is_flag signal.severity in
      let item = context_item n chunk payload in
      record {
        items = item ∷ rest.items;
        blocks =
            wrap_excerpt item.ref_id payload.document_name flagged item.prompt_text ∷ rest.blocks;
        guardrails =
            if flagged
            then record rest.guardrails {
              flagged = screened chunk signal ∷ rest.guardrails.flagged;
            }
            else rest.guardrails;
      }

  unfoldable pub drop_chunk : RetrievedChunk → InjectionSignal → Rendered → Rendered
  drop_chunk chunk signal rest = record rest {
    guardrails = record rest.guardrails {
      dropped = screened chunk signal ∷ rest.guardrails.dropped;
    };
  }

  module _ (payloads : Dict ℕ ChunkPromptPayload) where
    -- the chunk has a payload, and the scan does not block it
    unfoldable pub is_admitted : RetrievedChunk → Bool
    is_admitted chunk = elim (get chunk.chunk_id payloads) [
      | none ↦ false
      | some payload ↦ if is_block (scanned payload).0.severity then false else true
    ]

    -- the loop, from the number `n` on
    unfoldable pub render : ℕ → List RetrievedChunk → Rendered
    render n [] = nothing_rendered
    render n (chunk ∷ chunks) = elim (get chunk.chunk_id payloads) [
      | none ↦ render n chunks
      | some payload ↦ elim (is_block (scanned payload).0.severity) [
        | true ↦ drop_chunk chunk (scanned payload).0 (render n chunks)
        | false ↦ render_item n chunk payload (render (n + 1) chunks)
      ]
    ]

    unfoldable pub assemble_rag_context :
        Bool → ℕ → List RetrievedChunk → RagContext × AssemblyGuardrails
    assemble_rag_context assume_unique ref_start chunks =
        let selected = if assume_unique then chunks else dedup_chunks chunks in
        let out = render ref_start selected in
        (
          record {
            formatted_context = join "\n\n" out.blocks;
            items = out.items;
            chunk_count = length out.items;
          },
          out.guardrails,
        )
