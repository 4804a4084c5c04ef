-- ===== src/Samples.antt =====
-- Concrete values for the tests: texts whose operations do nothing but read "7" as the UUID 7, two
-- chunks with their payloads, and a model that searches, then reports.
use Prim.Native.Char.{code}
use ai_financial_copilot.Common.{
  ℕ, zero, suc, Bool, true, false, List, [], ◌∷◌, Option, none, some, String, if◌then◌else◌, ltb,
  string_eq, ◌==◌,
}
use ai_financial_copilot.Common.Text.{TextOps}
use ai_financial_copilot.Common.Decimal.{show, read}
use ai_financial_copilot.Common.Dict.{Dict}
use ai_financial_copilot.Schemas.Retrieval.{RetrievedChunk, ChunkPromptPayload, hybrid}
use ai_financial_copilot.Schemas.Findings.{Finding, FindingsReport, high}
use ai_financial_copilot.Retrieval.Assembler.{Assembly, clean}
use ai_financial_copilot.Llm.Messages.{ToolCallRef, AssistantTurnResult, LlmResponseStats}
use ai_financial_copilot.Agent.State.{AgentSettings}
use ai_financial_copilot.Agent.Loop.{RunDeps, returned, Attempt, answered, call_error}

-- a text of digits is the UUID of that number
abbrev pub parse_number : String → Option ℕ
parse_number String.[] = none
parse_number (String.◌∷◌ c s) = if ltb (code c) 58 then some (read 0 (String.◌∷◌ c s)) else none

abbrev pub plain_texts : TextOps
plain_texts = record {
  strip = λ s. s;
  rstrip = λ s. s;
  upper = λ s. s;
  lower = λ s. s;
  casefold = λ s. s;
  split = λ s. s ∷ [];
  replace = λ old new s. s;
  replace_once = λ old new s. s;
  parse_uuid = parse_number;
  show_uuid = show;
}

abbrev pub plain_assembly : Assembly
plain_assembly = record {
  text_ops = plain_texts;
  scan_retrieved_chunk =
      λ text. record { score = 0; severity = clean; sanitized_text = text; matched_rules = [] };
  escape_run_status = λ text. text;
  scan_chunks = true;
}

abbrev pub sample_chunk : ℕ → RetrievedChunk
sample_chunk id = record {
  chunk_id = id;
  document_id = 1;
  score = 10;
  chunk_index = 0;
  page_start = some 1;
  page_end = some 2;
  heading_trail = "Revenue" ∷ [];
  source = hybrid;
  chunk_type = none;
  vector_rank = none;
  vector_score = none;
  keyword_rank = none;
  keyword_score = none;
  turn_index = 0;
}

abbrev pub sample_payload : ℕ → ChunkPromptPayload
sample_payload id = record {
  chunk_id = id;
  document_id = 1;
  document_name = "report.pdf";
  page_numbers = 1 ∷ [];
  heading_trail = "Revenue" ∷ [];
  prompt_text = "__REF__\nrevenue grew";
  snippet = none;
  provenance = none;
}

abbrev pub two_chunks : List RetrievedChunk
two_chunks = sample_chunk 7 ∷ sample_chunk 8 ∷ []

abbrev pub two_payloads : Dict ℕ ChunkPromptPayload
two_payloads = (7, sample_payload 7) ∷ (8, sample_payload 8) ∷ []

abbrev pub sample_finding : String → Bool → Finding
sample_finding key supported = record {
  key = key;
  claim = "Revenue grew.";
  supported = supported;
  evidence = "7" ∷ [];
  confidence = high;
  figures = [];
}

abbrev pub sample_report : FindingsReport
sample_report = record {
  findings =
      sample_finding "Acme" true ∷ sample_finding "Other" true ∷ sample_finding "Beta" false ∷ [];
  comparison_op = none;
  conclusion = some "It grew.";
}

abbrev pub sample_settings : AgentSettings
sample_settings = record {
  tool_model = "gpt-5-mini";
  max_iterations = 5;
  cost_budget_usd = 100;
  max_concurrent_searches = 3;
  max_chunks_per_entity = 5;
  max_empty_rounds = 1;
  deadline_seconds = 180;
  turn_timeout_cap_seconds = 120;
  deadline_reserve_seconds = 15;
  search_timeout_seconds = 60;
  max_iterations_analytical = 7;
  max_plan_items = 2;
}

abbrev pub sample_stats : LlmResponseStats
sample_stats = record {
  input_tokens = some 100;
  cached_input_tokens = none;
  cache_write_tokens = none;
  output_tokens = some 20;
  cost_usd = some 3;
}

abbrev pub search_call : ToolCallRef
search_call = record { id = "call_1"; name = "search_documents"; arguments = "Acme" }

abbrev pub report_call : ToolCallRef
report_call = record { id = "call_2"; name = "report_findings"; arguments = "report" }

abbrev pub turn_of : List ToolCallRef → AssistantTurnResult
turn_of calls = record {
  text = "";
  tool_calls = calls;
  stats = some sample_stats;
  finish_reason = none;
  opaque = [];
}

-- Acme is searched first; the next turn searches and reports at once.
abbrev pub sample_answer : ℕ → Attempt
sample_answer zero = answered (turn_of (search_call ∷ []))
sample_answer (suc iteration) = answered (turn_of (report_call ∷ search_call ∷ []))

abbrev pub sample_deps : RunDeps
sample_deps = record {
  assembly = plain_assembly;
  parse_search = λ text.
      some (record { entity = text; query = "revenue"; keywords = none; sub_question = some text });
  parse_report = λ text. some sample_report;
  repr = λ text. text;
  shown_heading_chars = 40;
  scope = some (record { doc_ids = none; per_entity_doc_ids = ("Acme", 1 ∷ []) ∷ [] });
  run_pipeline = λ query keywords docs iteration.
      returned
        (record {
          all_backends_failed = false;
          embed_ok = true;
          vector_ok = true;
          keyword_ok = true;
          rerank_ok = true;
          scores_are_rerank = true;
        })
        two_chunks;
  hydrate = λ ids. two_payloads;
  search_times_out = λ tc iteration. false;
  llm = "gpt-5-mini";
  fallbacks = "fallback" ∷ [];
  complete = λ model messages allowed iteration.
      if model == "gpt-5-mini" then call_error else sample_answer iteration;
  now = λ iteration. iteration;
}
