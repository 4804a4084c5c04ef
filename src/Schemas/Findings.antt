-- ===== src/Schemas/Findings.antt =====
-- src/schemas/agent_findings.py. An amount (a float) stands as a fixed-point integer: it is copied.
use ai_financial_copilot.Common.{String, Bool, List, Option}
use ai_financial_copilot.Common.Int.{ℤ}

-- the literals "", "K", "M" and "B"
pub data Scale : Type 0 where
  units thousands millions billions : Scale

pub record Figure : Type 0 where
  pub metric : String
  pub amount : ℤ
  pub scale : Option Scale
  pub currency : Option String
  pub period_end : Option String
  pub fiscal_label : Option String

pub data Confidence : Type 0 where
  high medium low : Confidence

pub record Finding : Type 0 where
  pub key : String
  pub claim : String
  pub supported : Bool
  pub evidence : List String
  pub confidence : Confidence
  pub figures : List Figure

pub data ComparisonOp : Type 0 where
  argmin argmax list no_comparison : ComparisonOp

pub record FindingsReport : Type 0 where
  pub findings : List Finding
  pub comparison_op : Option ComparisonOp
  pub conclusion : Option String

pub record AgentFindings : Type 0 where
  pub report : FindingsReport
  pub unresolved : List String
