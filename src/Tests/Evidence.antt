-- ===== src/Tests/Evidence.antt =====
-- The context assembler and the evidence ledger, on two chunks.
use ai_financial_copilot.Common.{false, ◌≡◌, refl, [], ◌∷◌, ◌++◌, nat_eq, All}
use ai_financial_copilot.Common.{map, filter_by}
use ai_financial_copilot.Common.Decimal.{label}
use ai_financial_copilot.Retrieval.Assembler.Labels.{
  is_blocked, item_refs, item_ids, chunk_ids, labels_from, assemble_numbers,
}
use ai_financial_copilot.Retrieval.Assembler.{assemble_rag_context, is_admitted, dedup_chunks}
use ai_financial_copilot.Samples.{
  plain_assembly, plain_texts, sample_chunk, two_chunks, two_payloads,
}
use ai_financial_copilot.Agent.Evidence.{EvidenceLedger, empty_ledger, admit, assign_labels}
use ai_financial_copilot.Agent.Evidence.Sound.{IsAssigned, new_items, assign_labels-IsAssigned}
use ai_financial_copilot.Agent.Evidence.History.{
  Run, start, admitted, labelled, IsShown, Run-IsShown, IsLabelText, Resolves, labels_resolve,
  empty-IsShown,
}

-- one search that brings two chunks
abbrev ledger : EvidenceLedger
ledger = (assign_labels plain_assembly two_chunks two_payloads (admit two_chunks empty_ledger).0).0

abbrev first_run : Run plain_assembly ledger (
    []
    ++ (assign_labels plain_assembly two_chunks two_payloads
        (admit two_chunks empty_ledger).0).1.items)
first_run = labelled two_chunks two_payloads (admitted two_chunks start)

Run-IsShown_example : IsShown ledger (
    []
    ++ (assign_labels plain_assembly two_chunks two_payloads
        (admit two_chunks empty_ledger).0).1.items)
Run-IsShown_example = Run-IsShown first_run

plain_texts-IsLabelText : IsLabelText plain_texts
unfolding label
plain_texts-IsLabelText = record {
  strip_label = λ n. refl;
  upper_label = λ n. refl;
  not_uuid = λ n. refl;
}

labels_resolve_example : All (Resolves plain_assembly plain_texts-IsLabelText ledger) (
    []
    ++ (assign_labels plain_assembly two_chunks two_payloads
        (admit two_chunks empty_ledger).0).1.items)
labels_resolve_example = labels_resolve plain_assembly plain_texts-IsLabelText first_run

assign_labels-IsAssigned_example :
    IsAssigned
      (new_items plain_assembly two_chunks two_payloads empty_ledger)
      empty_ledger
      (assign_labels plain_assembly two_chunks two_payloads empty_ledger).0
assign_labels-IsAssigned_example =
    assign_labels-IsAssigned plain_assembly two_chunks two_payloads empty_ledger empty-IsShown.sound

assemble_numbers_example :
    (item_refs
        (assemble_rag_context plain_assembly two_payloads false 3
          (sample_chunk 9 ∷ two_chunks)).0.items
      ≡ labels_from 3
          (assemble_rag_context plain_assembly two_payloads false 3
            (sample_chunk 9 ∷ two_chunks)).0.chunk_count)
    × (item_ids
          (assemble_rag_context plain_assembly two_payloads false 3
            (sample_chunk 9 ∷ two_chunks)).0.items
        ≡ chunk_ids (
            filter_by
              (is_admitted plain_assembly two_payloads)
              (dedup_chunks (sample_chunk 9 ∷ two_chunks))))
    × (map
          (λ d. d.chunk_id)
          (assemble_rag_context plain_assembly two_payloads false 3
            (sample_chunk 9 ∷ two_chunks)).1.dropped
        ≡ map
            (λ chunk. plain_texts.show_uuid chunk.chunk_id)
            (filter_by
              (is_blocked plain_assembly two_payloads)
              (dedup_chunks (sample_chunk 9 ∷ two_chunks))))
assemble_numbers_example =
    assemble_numbers plain_assembly two_payloads false 3 (sample_chunk 9 ∷ two_chunks)
