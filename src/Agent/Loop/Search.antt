-- ===== src/Agent/Loop/Search.antt =====
-- The searches of src/services/chat/agent/loop.py: the keys of the plan, one search, and the fold of
-- a turn's results into the state.
use Prim.Native.String.{◌++◌ as ◌+++◌}
use ai_financial_copilot.Common.{
  ℕ, ◌+◌, Bool, true, false, ◌&&◌, not, List, [], ◌∷◌, ◌++◌, Option, none, some, String, length,
  if◌then◌else◌, nat_beq, leb, string_eq, nat_eq, option_eq, is_empty, map, take, ◌==◌, dedup,
}
use ai_financial_copilot.Common.Text.{TextOps, chars, join}
use ai_financial_copilot.Common.Decimal.{label}
use ai_financial_copilot.Common.Dict.{Dict, get, put, has}
use ai_financial_copilot.Schemas.Retrieval.{RetrievedChunk, RagContext, TraceHealth}
use ai_financial_copilot.Schemas.Findings.{Finding, high}
use ai_financial_copilot.Llm.Messages.{ToolCallRef}
use ai_financial_copilot.Agent.Evidence.{admit, shown_before, assign_labels}
use ai_financial_copilot.Agent.Findings.{is_falsy, record_finding}
use ai_financial_copilot.Agent.State.{AgentRunState, ShapeConfig, AspectStats, no_stats}
use ai_financial_copilot.Agent.Loop.{
  RunDeps, SearchDocumentsArgs, SearchScope, SearchResult, PipelineOutcome, returned, raised,
}

-- `s or ""`
abbrev pub or_empty : Option String → String
or_empty none = ""
or_empty (some s) = s

module _ (ops : TextOps) where
  -- `" ".join(s.split())`
  abbrev pub squeezed : String → String
  squeezed s = join " " (ops.split s)

  -- the first id of the plan whose question is the same but for case and white space
  unfoldable pub find_aspect : String → Dict String String → Option String
  find_aspect norm [] = none
  find_aspect norm ((aid, existing) ∷ plan) =
      let rest = find_aspect norm plan in
      if squeezed (ops.lower existing) == norm then some aid else rest

  abbrev pub fresh_aspect : String → ℕ → Dict String String → Option String × Dict String String
  fresh_aspect q max_plan_items plan =
      let aid = label "A" (length plan + 1) in
      if leb max_plan_items (length plan) then (none, plan) else (some aid, put aid q plan)

  abbrev pub mint_new :
      Option String → String → ℕ → Dict String String → Option String × Dict String String
  mint_new (some aid) q max_plan_items plan = (some aid, plan)
  mint_new none q max_plan_items plan = fresh_aspect q max_plan_items plan

  -- behind the test of a blank question
  abbrev pub mint_text : Bool → String → ℕ → Dict String String → Option String × Dict String String
  mint_text true q max_plan_items plan = (none, plan)
  mint_text false q max_plan_items plan =
      mint_new (find_aspect (ops.lower q) plan) q max_plan_items plan

  -- `_mint`
  unfoldable pub mint : Dict String String → Option String → ℕ → Option String × Dict String String
  mint plan sub_question max_plan_items =
      let q = squeezed (or_empty sub_question) in
      mint_text (nat_beq (chars q) 0) q max_plan_items plan

abbrev failed_result : String → String → SearchResult
failed_result entity error = record {
  entity = entity;
  chunks = [];
  payloads = [];
  error_str = some error;
  backend_failed = false;
  timed_out = false;
  args_invalid = false;
  not_found = false;
  degraded = [];
  scores_are_rerank = true;
}

-- the names of the capabilities that were not there
abbrev degraded_names : TraceHealth → List String
degraded_names t =
    (if t.embed_ok && t.vector_ok then [] else "dense" ∷ [])
    ++ (if t.keyword_ok then [] else "keyword" ∷ [])
    ++ (if t.rerank_ok then [] else "rerank" ∷ [])

abbrev entities_of : Option SearchScope → Dict String (List ℕ)
entities_of none = []
entities_of (some scope) = scope.per_entity_doc_ids

abbrev docs_of : Option SearchScope → Option (List ℕ)
docs_of none = none
docs_of (some scope) = scope.doc_ids

-- the name for a search that names no entity: the only entity of the scope
abbrev only_entity : String → Dict String (List ℕ) → String
only_entity entity ((name, ids) ∷ []) = if nat_beq (chars entity) 0 then name else entity
only_entity entity _ = entity

abbrev keywords_or : Option String → String → String
keywords_or none query = query
keywords_or (some k) query = if nat_beq (chars k) 0 then query else k

abbrev at_turn : ℕ → RetrievedChunk → RetrievedChunk
at_turn iteration c = record c { turn_index = iteration }

abbrev stats_or_new : Option AspectStats → AspectStats
stats_or_new none = no_stats
stats_or_new (some stats) = stats

abbrev add_search : SearchResult → ℕ → AspectStats → AspectStats
add_search result entity_new stats = record {
  searches = stats.searches + 1;
  errored = if result.backend_failed then stats.errored + 1 else stats.errored;
  new_chunks = stats.new_chunks + entity_new;
}

-- the log of one search under its key
abbrev count_search :
    Option String → SearchResult → ℕ → Dict String AspectStats → Dict String AspectStats
count_search none result entity_new d = d
count_search (some aspect) result entity_new d =
    put aspect (add_search result entity_new (stats_or_new (get aspect d))) d

abbrev pub missing_document : String → Finding
missing_document aspect = record {
  key = aspect;
  claim = "No document for " +++ aspect +++ " was found in the user's library.";
  supported = false;
  evidence = [];
  confidence = high;
  figures = [];
}

abbrev body_or_none : List String → String
body_or_none [] = "(no results)"
body_or_none (p ∷ parts) = join "\n\n" (p ∷ parts)

abbrev tagged : Option String → String → String
tagged aspect body = if is_falsy aspect then body else "[" +++ or_empty aspect +++ "] " +++ body

abbrev result_text : Option String → RagContext → List String → String
result_text aspect ctx shown = tagged aspect (
    body_or_none (
      (if nat_beq (chars ctx.formatted_context) 0 then [] else ctx.formatted_context ∷ [])
      ++ (if is_empty shown then [] else ("Already shown above: " +++ join " · " shown) ∷ [])))

abbrev pub flat_key : Option (Option String) → Option String
flat_key none = none
flat_key (some key) = key

module _ (deps : RunDeps) where
  open deps use {assembly}

  abbrev pub key_of_args :
      Option SearchDocumentsArgs → ShapeConfig → AgentRunState → Option String × AgentRunState
  key_of_args none shape s = (none, s)
  key_of_args (some args) shape s =
      let (key, plan) = mint assembly.text_ops s.plan args.sub_question s.settings.max_plan_items in
      if shape.search_takes_sub_question
      then (key, record s { plan = plan })
      else (if has args.entity s.plan then some args.entity else none, s)

  -- `_search_key`
  unfoldable pub search_key :
      ToolCallRef → ShapeConfig → AgentRunState → Option String × AgentRunState
  search_key tc shape s = key_of_args (deps.parse_search tc.arguments) shape s

  -- `keys`: the key of each search's call id, minted in call order
  unfoldable pub search_keys :
      List ToolCallRef
      → ShapeConfig
      → AgentRunState
      → Dict String (Option String)
      → Dict String (Option String) × AgentRunState
  search_keys [] shape s d = (d, s)
  search_keys (tc ∷ tcs) shape s d =
      let (key, s1) = search_key tc shape s in search_keys tcs shape s1 (put tc.id key d)

  -- the result that a pipeline's outcome gives
  abbrev result_of : String → ℕ → PipelineOutcome → SearchResult
  result_of entity iteration raised =
      record (failed_result entity ("Search failed for entity: " +++ entity)) {
        backend_failed = true;
      }
  result_of entity iteration (returned trace raw_chunks) =
      let chunks = map (at_turn iteration) raw_chunks in
      if trace.all_backends_failed
      then record (failed_result entity ("Search failed for entity: " +++ entity)) {
        backend_failed = true;
      }
      else record {
        entity = entity;
        chunks = chunks;
        payloads = deps.hydrate (map (λ c. c.chunk_id) chunks);
        error_str = none;
        backend_failed = false;
        timed_out = false;
        args_invalid = false;
        not_found = false;
        degraded = degraded_names trace;
        scores_are_rerank = trace.scores_are_rerank;
      }

  abbrev search_for : Option (List ℕ) → String → SearchDocumentsArgs → ℕ → SearchResult
  search_for doc_ids entity args iteration =
      result_of entity iteration
        (deps.run_pipeline args.query (keywords_or args.keywords args.query) doc_ids iteration)

  -- behind the lookup of the entity among the scope's
  abbrev search_scoped : Option (List ℕ) → SearchDocumentsArgs → ℕ → SearchResult
  search_scoped (some []) args iteration =
      record (failed_result args.entity
        (deps.repr args.entity +++ " did not match any document in your library.")) {
          not_found = true;
        }
  search_scoped (some (d ∷ ds)) args iteration =
      if nat_beq (chars args.entity) 0
      then search_for (docs_of deps.scope) (only_entity args.entity (entities_of deps.scope)) args
          iteration
      else search_for (some (d ∷ ds)) args.entity args iteration
  search_scoped none args iteration =
      search_for (docs_of deps.scope) (only_entity args.entity (entities_of deps.scope)) args
        iteration

  abbrev search_parsed : Option SearchDocumentsArgs → ℕ → SearchResult
  search_parsed none iteration =
      record (failed_result ""
        "search_documents call had invalid arguments — entity and query are required strings.") {
          args_invalid = true;
        }
  search_parsed (some args) iteration =
      search_scoped (get args.entity (entities_of deps.scope)) args iteration

  -- `_execute_search`
  unfoldable pub execute_search : ToolCallRef → ℕ → SearchResult
  execute_search tc iteration = search_parsed (deps.parse_search tc.arguments) iteration

  -- `_guarded_search`
  unfoldable pub guarded_search : ToolCallRef → ℕ → SearchResult
  guarded_search tc iteration =
      if deps.search_times_out tc iteration
      then record (failed_result ""
          "search timed out — the search backend did not respond in time.") {
            backend_failed = true;
            timed_out = true;
          }
      else execute_search tc iteration

  -- A seeded entity without documents settles its key as a stated negative.
  abbrev pub settle_missing : Option String → SearchResult → AgentRunState → AgentRunState
  settle_missing none result s = s
  settle_missing (some aspect) result s =
      if result.not_found && aspect == result.entity
      then record s {
        findings =
            (record_finding assembly aspect (missing_document aspect) s.evidence s.findings).0;
      }
      else s

  -- one search's provenance: the chunks admitted, the capabilities, the counters, the log of its key
  unfoldable pub admit_result : SearchResult → Option String → AgentRunState → AgentRunState
  admit_result result aspect s =
      let (evidence, entity_new) = admit result.chunks s.evidence in
      settle_missing aspect result (record s {
        evidence = evidence;
        degraded_capabilities = dedup (s.degraded_capabilities ++ result.degraded);
        scores_are_rerank =
            if not (is_empty result.chunks) && not result.scores_are_rerank
            then false
            else s.scores_are_rerank;
        search_arg_errors =
            if result.args_invalid then s.search_arg_errors + 1 else s.search_arg_errors;
        aspect_stats = count_search aspect result entity_new s.aspect_stats;
      })

  -- the text of one search's result, the number of the labels new on screen, and the state
  unfoldable pub show_result :
      SearchResult → Option String → AgentRunState → Option String → String × ℕ × AgentRunState
  show_result result aspect s (some error) = (error, 0, s)
  show_result result aspect s none =
      let top = take s.settings.max_chunks_per_entity result.chunks in
      let shown = shown_before assembly deps.shown_heading_chars top s.evidence in
      let (evidence, ctx) = assign_labels assembly top result.payloads s.evidence in
      (result_text aspect ctx shown, length ctx.items, record s { evidence = evidence })

  -- one round of `fold_searches`
  unfoldable pub fold_search :
      SearchResult → Option String → AgentRunState → String × ℕ × AgentRunState
  fold_search result aspect s =
      show_result result aspect (admit_result result aspect s) result.error_str

  -- `fold_searches`: the texts by call id, the new labels of each search, and the state
  unfoldable pub fold_searches :
      List (ToolCallRef × SearchResult)
      → Dict String (Option String)
      → AgentRunState
      → Dict String String
      → Dict String String × List ℕ × AgentRunState
  fold_searches [] ks s texts = (texts, [], s)
  fold_searches ((tc, result) ∷ rest) ks s texts =
      let (text, new, s1) = fold_search result (flat_key (get tc.id ks)) s in
      let (texts', news, s2) = fold_searches rest ks s1 (put tc.id text texts) in
      (texts', new ∷ news, s2)
