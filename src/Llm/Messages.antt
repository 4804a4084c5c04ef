-- ===== src/Llm/Messages.antt =====
-- src/services/llm_adapters/base_adapter.py: the data that the agent loop exchanges with a model. A
-- cost (a float) stands as a fixed-point number of micro-dollars; the payload of an opaque item
-- and images are left out: the loop only passes them on.
use ai_financial_copilot.Common.{ℕ, String, List, Option}

pub data Role : Type 0 where
  system developer user assistant tool : Role

pub record ToolCallRef : Type 0 where
  pub id : String
  pub name : String
  pub arguments : String

pub record OpaqueItem : Type 0 where
  pub provider : String
  pub model : String

pub record LlmResponseStats : Type 0 where
  pub input_tokens : Option ℕ
  pub cached_input_tokens : Option ℕ
  pub cache_write_tokens : Option ℕ
  pub output_tokens : Option ℕ
  pub cost_usd : Option ℕ

pub record AssistantTurnResult : Type 0 where
  pub text : String
  pub tool_calls : List ToolCallRef
  pub stats : Option LlmResponseStats
  pub finish_reason : Option String
  pub opaque : List OpaqueItem

pub record ChatMessage : Type 0 where
  pub role : Role
  pub content : Option String
  pub tool_call_id : Option String
  pub tool_calls : List ToolCallRef
  pub opaque : List OpaqueItem
