-- ===== src/Agent/Loop.antt =====
-- src/services/chat/agent/loop.py and tools.py: what a turn works with. The retrieval pipeline, the
-- hydration of payloads, the JSON validation of tool arguments, Python's `repr`, the clock and the
-- models are parameters. Events, metrics, traces and database rows are left out.
pub mod Search
pub mod Report
pub mod Turn
pub mod Run
pub mod Minting
pub mod Invariant
pub mod Decision
pub mod Results
pub mod Final
pub mod Refused
use ai_financial_copilot.Common.{ℕ, Bool, List, Option, String}
use ai_financial_copilot.Common.Dict.{Dict}
use ai_financial_copilot.Schemas.Retrieval.{RetrievedChunk, ChunkPromptPayload, TraceHealth}
use ai_financial_copilot.Schemas.Findings.{FindingsReport}
use ai_financial_copilot.Retrieval.Assembler.{Assembly}
use ai_financial_copilot.Llm.Messages.{ToolCallRef, ChatMessage, AssistantTurnResult}
use ai_financial_copilot.Agent.State.{ConvergenceReason}

-- of tools.py
pub record SearchDocumentsArgs : Type 0 where
  pub entity : String
  pub query : String
  pub keywords : Option String
  pub sub_question : Option String

pub data PipelineOutcome : Type 0 where
  returned : TraceHealth → List RetrievedChunk → PipelineOutcome
  raised : PipelineOutcome

-- the fields of the scope that a search reads
pub record SearchScope : Type 0 where
  pub doc_ids : Option (List ℕ)
  pub per_entity_doc_ids : Dict String (List ℕ)

-- `_SearchResult`, without the id of its timeline row
pub record SearchResult : Type 0 where
  pub entity : String
  pub chunks : List RetrievedChunk
  pub payloads : Dict ℕ ChunkPromptPayload
  pub error_str : Option String
  pub backend_failed : Bool
  pub timed_out : Bool
  pub args_invalid : Bool
  pub not_found : Bool
  pub degraded : List String
  pub scores_are_rerank : Bool

-- How one call of one model ends: it answers, it times out, or it raises a provider error.
pub data Attempt : Type 0 where
  answered : AssistantTurnResult → Attempt
  call_timeout call_error : Attempt

-- What a run depends on and the loop does not write.
pub record RunDeps : Type 0 where
  pub assembly : Assembly
  -- `model_validate_json`, `none` on a ValidationError
  pub parse_search : String → Option SearchDocumentsArgs
  pub parse_report : String → Option FindingsReport
  pub repr : String → String
  -- `get_agent_shown_heading_chars()`
  pub shown_heading_chars : ℕ
  pub scope : Option SearchScope
  -- `run_chat_rag_pipeline`: the query, the keywords, the documents, at an iteration
  pub run_pipeline : String → String → Option (List ℕ) → ℕ → PipelineOutcome
  pub hydrate : List ℕ → Dict ℕ ChunkPromptPayload
  -- whether a search is cut off by its timeout, at an iteration
  pub search_times_out : ToolCallRef → ℕ → Bool
  -- the tool model, then its fallbacks
  pub llm : String
  pub fallbacks : List String
  -- the answer of a model to a prompt and the allowed tools, at an iteration
  pub complete : String → List ChatMessage → Option (List String) → ℕ → Attempt
  -- the time before a call, at an iteration
  pub now : ℕ → ℕ

pub data TurnOutcome : Type 0 where
  continue : TurnOutcome
  stop : ConvergenceReason → TurnOutcome

pub record TurnFacts : Type 0 where
  pub searches : ℕ
  pub backend_failures : ℕ
  pub new_labels : ℕ
  pub closed : List String
