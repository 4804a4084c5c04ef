-- ===== src/Agent/State.antt =====
-- src/services/chat/agent/state.py: the settings and the state of a run. Costs and times (floats)
-- are fixed-point numbers. `snapshot`, a view for traces, is left out.
pub mod Coverage
use Prim.Native.String.{◌++◌ as ◌+++◌}
use ai_financial_copilot.Common.{
  ℕ, ◌+◌, ◌-◌, Bool, true, false, ◌&&◌, ◌||◌, not, List, [], ◌∷◌, ◌++◌, Option, none, some, String,
  length, elem, if◌then◌else◌, nat_beq, leb, ltb, string_eq, is_empty, filter_by, map, ◌==◌,
}
use ai_financial_copilot.Common.Text.{join}
use ai_financial_copilot.Common.Dict.{Dict, get, put, keys, values}
use ai_financial_copilot.Common.Int.{ℤ, ltb_ℤ}
use ai_financial_copilot.Llm.Messages.{LlmResponseStats}
use ai_financial_copilot.Agent.Evidence.{EvidenceLedger, empty_ledger}
use ai_financial_copilot.Agent.Findings.{FindingsLedger, no_findings, uncited_claim_rate}
use ai_financial_copilot.Agent.Transcript.{Transcript}

pub data ConvergenceReason : Type 0 where
  natural convergence iteration_cap budget_cap timeout covered search_unavailable :
      ConvergenceReason
  deadline llm_error truncated : ConvergenceReason

pub record AgentSettings : Type 0 where
  pub tool_model : String
  pub max_iterations : ℕ
  pub cost_budget_usd : ℕ
  pub max_concurrent_searches : ℕ
  pub max_chunks_per_entity : ℕ
  pub max_empty_rounds : ℕ
  pub deadline_seconds : ℕ
  pub turn_timeout_cap_seconds : ℕ
  pub deadline_reserve_seconds : ℕ
  pub search_timeout_seconds : ℕ
  pub max_iterations_analytical : ℕ
  pub max_plan_items : ℕ

-- the bounds of the fields and `_reserve_leaves_run_time`: what the validation lets through
unfoldable pub is_valid : AgentSettings → Bool
is_valid s =
    leb 1 s.max_iterations
    && leb s.max_iterations 20
    && ltb 0 s.cost_budget_usd
    && leb 1 s.max_concurrent_searches
    && leb s.max_concurrent_searches 16
    && leb 1 s.max_chunks_per_entity
    && ltb 0 s.deadline_seconds
    && ltb 0 s.turn_timeout_cap_seconds
    && ltb 0 s.search_timeout_seconds
    && leb 1 s.max_iterations_analytical
    && leb s.max_iterations_analytical 20
    && leb 1 s.max_plan_items
    && ltb s.deadline_reserve_seconds s.deadline_seconds

pub record ShapeConfig : Type 0 where
  pub prompt : String
  pub search_takes_sub_question : Bool
  pub report_takes_figures : Bool
  pub seed_plan_from_entities : Bool
  pub max_iterations : ℕ

abbrev shape_for : Bool → AgentSettings → ShapeConfig
shape_for true settings = record {
  prompt = "v6_agent_analytical";
  search_takes_sub_question = true;
  report_takes_figures = false;
  seed_plan_from_entities = false;
  max_iterations = settings.max_iterations_analytical;
}
shape_for false settings = record {
  prompt = "v4_agent";
  search_takes_sub_question = false;
  report_takes_figures = true;
  seed_plan_from_entities = true;
  max_iterations = settings.max_iterations;
}

-- `shape_config`
unfoldable pub shape_config : Option String → AgentSettings → ShapeConfig
shape_config none settings = shape_for false settings
shape_config (some query_shape) settings = shape_for (query_shape == "analytical") settings

pub record TokenSpend : Type 0 where
  pub input_tokens : ℕ
  pub cached_input_tokens : ℕ
  pub cache_write_tokens : ℕ
  pub output_tokens : ℕ
  pub cost_usd : ℕ

abbrev pub no_spend : TokenSpend
no_spend = record {
  input_tokens = 0;
  cached_input_tokens = 0;
  cache_write_tokens = 0;
  output_tokens = 0;
  cost_usd = 0;
}

pub record AspectStats : Type 0 where
  pub searches : ℕ
  pub errored : ℕ
  pub new_chunks : ℕ

abbrev pub no_stats : AspectStats
no_stats = record { searches = 0; errored = 0; new_chunks = 0 }

pub record AgentRunState : Type 0 where
  pub settings : AgentSettings
  pub max_iterations : ℕ
  pub transcript : Transcript
  pub evidence : EvidenceLedger
  pub findings : FindingsLedger
  pub sealed_by_coverage : Bool
  pub degraded_capabilities : List String
  pub scores_are_rerank : Bool
  pub spend : Dict String TokenSpend
  pub plan : Dict String String
  pub aspect_stats : Dict String AspectStats
  pub iteration : ℕ
  pub empty_rounds : ℕ
  pub tool_calls_total : ℕ
  pub convergence_reason : ConvergenceReason
  pub deadline_at : Option ℕ
  pub report_calls_total : ℕ
  pub turns_to_first_report : Option ℕ
  pub unknown_aspect_keys : ℕ
  pub unsearched_negatives : ℕ
  pub search_arg_errors : ℕ
  pub report_parse_failures : ℕ
  pub last_turn_input_tokens : ℕ

-- `AgentRunState(settings=…, max_iterations=…, transcript=…)`: all else starts from its default
unfoldable pub new_state : AgentSettings → ℕ → Transcript → AgentRunState
new_state settings max_iterations transcript = record {
  settings = settings;
  max_iterations = max_iterations;
  transcript = transcript;
  evidence = empty_ledger;
  findings = no_findings;
  sealed_by_coverage = false;
  degraded_capabilities = [];
  scores_are_rerank = true;
  spend = [];
  plan = [];
  aspect_stats = [];
  iteration = 0;
  empty_rounds = 0;
  tool_calls_total = 0;
  convergence_reason = iteration_cap;
  deadline_at = none;
  report_calls_total = 0;
  turns_to_first_report = none;
  unknown_aspect_keys = 0;
  unsearched_negatives = 0;
  search_arg_errors = 0;
  report_parse_failures = 0;
  last_turn_input_tokens = 0;
}

-- `addressed`
abbrev pub addressed : AgentRunState → List String
addressed s = keys s.findings.entries

-- `sealed`
unfoldable pub sealed : AgentRunState → Bool
sealed s = is_empty s.plan || s.sealed_by_coverage

-- `n or 0`
abbrev pub or_zero : Option ℕ → ℕ
or_zero none = 0
or_zero (some n) = n

abbrev pub spend_or_new : Option TokenSpend → TokenSpend
spend_or_new none = no_spend
spend_or_new (some t) = t

abbrev pub add_spend : LlmResponseStats → TokenSpend → TokenSpend
add_spend stats t = record {
  input_tokens = t.input_tokens + or_zero stats.input_tokens;
  cached_input_tokens = t.cached_input_tokens + or_zero stats.cached_input_tokens;
  cache_write_tokens = t.cache_write_tokens + or_zero stats.cache_write_tokens;
  output_tokens = t.output_tokens + or_zero stats.output_tokens;
  cost_usd = t.cost_usd + or_zero stats.cost_usd;
}

-- `record_spend`
unfoldable pub record_spend : String → Option LlmResponseStats → AgentRunState → AgentRunState
record_spend model_id none s = s
record_spend model_id (some stats) s = record s {
  spend = put model_id (add_spend stats (spend_or_new (get model_id s.spend))) s.spend;
}

abbrev pub total_by : (TokenSpend → ℕ) → Dict String TokenSpend → ℕ
total_by f [] = 0
total_by f ((model_id, t) ∷ spend) = f t + total_by f spend

-- `input_tokens_total` and `cost_usd_total`
unfoldable pub input_tokens_total : AgentRunState → ℕ
input_tokens_total s = total_by (λ t. t.input_tokens) s.spend

unfoldable pub cost_usd_total : AgentRunState → ℕ
cost_usd_total s = total_by (λ t. t.cost_usd) s.spend

-- `spend_within_budget`
unfoldable pub spend_within_budget : AgentRunState → Bool
spend_within_budget s = leb (cost_usd_total s) s.settings.cost_budget_usd

-- the keys of a plan that are not among those
abbrev pub open_keys : List String → Dict String String → List String
open_keys done [] = []
open_keys done ((key, label) ∷ plan) =
    let rest = open_keys done plan in if elem key done then rest else key ∷ rest

-- `open_aspects`
unfoldable pub open_aspects : AgentRunState → List String
open_aspects s = open_keys (addressed s) s.plan

abbrev limitation : Option AspectStats → String → String
limitation none label = "Not searched: " +++ label
limitation (some stats) label =
    if nat_beq stats.searches 0
    then "Not searched: " +++ label
    else if nat_beq stats.errored stats.searches
    then "Could not be checked — document search was unavailable: " +++ label
    else "Not resolved: " +++ label

abbrev unresolved_of : Dict String AspectStats → List String → Dict String String → List String
unresolved_of stats done [] = []
unresolved_of stats done ((key, label) ∷ plan) =
    let rest = unresolved_of stats done plan in
    if elem key done then rest else limitation (get key stats) label ∷ rest

-- `unresolved_lines`
unfoldable pub unresolved_lines : AgentRunState → List String
unresolved_lines s = unresolved_of s.aspect_stats (addressed s) s.plan

abbrev recorded_keys : List String → Dict String String → List String
recorded_keys done plan = filter_by (λ k. elem k done) (keys plan)

abbrev open_lines : List String → Dict String String → List String
open_lines done [] = []
open_lines done ((key, label) ∷ plan) =
    let rest = open_lines done plan in
    if elem key done then rest else (key +++ " (" +++ label +++ ")") ∷ rest

abbrev part_if : Bool → String → List String
part_if true text = text ∷ []
part_if false text = []

abbrev pub stall_nudge : String
stall_nudge =
    "The last search returned no new evidence. The drivers you need are likely in a different section (a footnote, reconciliation, or segment table) — reformulate with terms targeting where the magnitudes are disclosed."

abbrev pub final_notice : String
final_notice =
    "Final turn — no further searches will run. Report every open key from the evidence you have already retrieved. If a key is not supported by what you have, report it with `supported: false` and state the absence in `claim`. Anything left unreported is recorded as unresolved."

abbrev joined_parts : List String → Option String
joined_parts [] = none
joined_parts (p ∷ parts) = some (join " · " (p ∷ parts))

abbrev status_parts : AgentRunState → List String
status_parts s =
    let recorded = recorded_keys (addressed s) s.plan in
    let still_open = open_lines (addressed s) s.plan in
    part_if (not (is_empty recorded)) ("Recorded: " +++ join ", " recorded)
    ++ part_if (not (is_empty still_open)) ("Open: " +++ join ", " still_open)
    ++ part_if (not (nat_beq s.empty_rounds 0)) stall_nudge
    ++ part_if (nat_beq (s.iteration + 1) s.max_iterations) final_notice

-- `render_status`
unfoldable pub render_status : AgentRunState → Option String
render_status s = if is_empty s.plan then none else joined_parts (status_parts s)

pub record AgentLoopMeta : Type 0 where
  pub iterations : ℕ
  pub tool_calls_total : ℕ
  pub convergence_reason : ConvergenceReason
  pub sealed : Bool
  pub input_tokens_total : ℕ
  pub output_tokens_total : ℕ
  pub cost_usd_total : ℕ
  pub last_turn_input_tokens : ℕ
  pub degraded_capabilities : List String
  pub scores_are_rerank : Bool
  pub plan_seeded : ℕ
  pub plan_covered : ℕ
  pub report_calls_total : ℕ
  pub turns_to_first_report : Option ℕ
  pub unknown_aspect_keys : ℕ
  pub unsearched_negatives : ℕ
  -- as a numerator and a denominator
  pub uncited_claim_rate : ℕ × ℕ
  pub search_arg_errors : ℕ
  pub report_parse_failures : ℕ
  pub prompt_version : Option String

-- `build_meta`
unfoldable pub build_meta : AgentRunState → ℕ → Option String → AgentLoopMeta
build_meta s iterations prompt_version = record {
  iterations = iterations;
  tool_calls_total = s.tool_calls_total;
  convergence_reason = s.convergence_reason;
  sealed = sealed s;
  input_tokens_total = input_tokens_total s;
  output_tokens_total = total_by (λ t. t.output_tokens) s.spend;
  cost_usd_total = cost_usd_total s;
  last_turn_input_tokens = s.last_turn_input_tokens;
  degraded_capabilities = s.degraded_capabilities;
  scores_are_rerank = s.scores_are_rerank;
  plan_seeded = length s.plan;
  plan_covered = length (recorded_keys (addressed s) s.plan);
  report_calls_total = s.report_calls_total;
  turns_to_first_report = s.turns_to_first_report;
  unknown_aspect_keys = s.unknown_aspect_keys;
  unsearched_negatives = s.unsearched_negatives;
  uncited_claim_rate = uncited_claim_rate s.findings;
  search_arg_errors = s.search_arg_errors;
  report_parse_failures = s.report_parse_failures;
  prompt_version = prompt_version;
}
