-- ===== src/Lib.antt =====
-- The agent of ai_financial_copilot: the routing of a question over financial documents to the
-- companies and documents it is about, the retrieval of chunks, the tool-calling loop that answers
-- it, the stores that the loop writes, the context that it shows to a model, the parsers of the
-- streamed answer, and what Redis keeps around it.
--
-- Parts and files:
--
-- - Common: Python's dict, str and sort operations as far as the program uses them (Dict is an
--   association list in insertion order), tests on numbers, and the shared lemmas.
-- - Schemas/Retrieval (src/schemas/retrieval.py) and Schemas/Findings (src/schemas/agent_findings.py):
--   the records that the parts exchange. Llm/Messages: the messages and the results of
--   src/services/llm_adapters/base_adapter.py.
-- - Retrieval/Assembler (src/services/retrieval/context_assembler.py): `assemble_rag_context` turns
--   chunks and payloads into numbered excerpts. Retrieval/Assembler/Labels has its laws.
-- - Retrieval/Fusion (src/services/retrieval/hybrid_retriever.py): `fuse_rrf`; law in Retrieval/Fusion/
--   Ranking.
-- - Agent/Evidence (src/services/chat/agent/evidence.py): the ledger of chunks and labels. An operation
--   of the class is a function that takes the ledger last and returns it first. Its laws stand in
--   Agent/Evidence/Labels (one label), Sound (one call), History (a run of calls) and Grow.
-- - Agent/Findings (src/services/chat/agent/findings.py): the keyed store of findings; laws in
--   Agent/Findings/Frame, Grounded and Counts.
-- - Agent/Transcript (src/services/chat/agent/transcript.py) and Agent/State
--   (src/services/chat/agent/state.py): the model's view, the state of a run and the views of what is
--   covered and spent; laws in Agent/State/Coverage.
-- - Agent/Loop (src/services/chat/agent/loop.py, tools.py): Loop/Search (`_mint`, `_search_key`,
--   `_execute_search`, `_guarded_search`, `fold_searches`), Loop/Report (`_resolve_refs`,
--   `_render_report_result`, `_apply_report`, `fold_reports`), Loop/Turn (`decide`, `_call_budget`,
--   `_call_tool_model`, `_turn_kind`, the body of `_run_turn`) and Loop/Run (`_iterate`, `run_loop`).
--   Laws: Loop/Minting, Decision, Results, Final, Refused and Invariant with its children.
-- - Agent/History: `agent_history` of the same file, over Context/Turns
--   (src/services/context/turns.py): prior turns paired, screened, capped and formatted; laws in
--   Context/Turns/Capping and Screening.
-- - Llm/Fallback (src/services/llm_router.py): `FallbackStream` and `_merge_params`.
-- - Chat/Citation (src/services/chat/citation_parser.py): the streaming parser, by characters; laws in
--   Chat/Citation/Chunks and Spans.
-- - Chat/Thinking (src/services/chat/events.py): `ThinkingStripper`; laws in Chat/Thinking/Ends and Lost.
-- - Chat/Confidence (src/services/chat/confidence.py) and Chat/Activity (src/services/chat/activity.py):
--   the badge of an answer; the rows of the timeline (Activity/Rows) and its outcome (Activity/Pill).
-- - Schemas/Routing (src/schemas/query_router.py) and Router: Router/Names (src/services/router/
--   company_name.py), Router/Disambiguator (disambiguator.py), Router/Entities (entity_resolver.py; laws
--   in Entities/Candidates, Answers and Complete) and Router/Scope (scope_resolver.py; laws in
--   Scope/Covered and Sound).
-- - Retrieval/Reranker (src/services/retrieval/reranker.py; laws in Reranker/Outcome) and
--   Retrieval/Pipeline (src/services/retrieval/chat_rag.py; laws in Pipeline/Health, Stages and Sources).
-- - Llm/Errors (src/services/llm_runtime/exceptions.py) and Llm/Errors/Mapper (exception_mapper.py); law in
--   Llm/Errors/Retryable.
-- - Redis/RateLimit (src/redis_client.py; laws in RateLimit/Reference and Bounds) and Redis/ChatTail
--   (src/redis_client.py, src/services/context/conversation_history.py; laws in ChatTail/History,
--   Tails and Coherent).
-- - Ingestion/Recovery (src/services/ingestion/recovery.py): `reap_abandoned`; laws in Recovery/Attempts and Once.
-- - Samples and Tests: concrete values, and the theorems applied at them.
--
-- How the parts interact: a turn of the loop calls a model on the transcript, mints plan keys for the
-- searches, folds the reports into the findings ledger, which reads the evidence ledger, then folds
-- the search results into the evidence ledger, which calls the assembler, and appends one tool
-- result for each call. `decide` reads the counts of the turn and the coverage of the plan. The scope
-- resolver calls the entity resolver, which calls the disambiguator; the pipeline calls the fusion,
-- the reranker and the assembler.
--
-- Conventions. State is passed explicitly; a method that mutates its object returns it. A Python
-- exception that the code catches is a value (`none` of a parser, an `Attempt` of a model). UUIDs
-- are natural numbers; scores, costs and times, floats in the source, are fixed-point numbers;
-- a set is a list without repetition. Loops are structural recursion: `iterate_from` recurs on the
-- iterations that are left, `max_iterations` at the start, which is the bound of the source's `range`.
-- Only the `while` of `ThinkingStripper.feed` runs on fuel: one more than the characters of its
-- buffer, of which each round but the last takes a tag.
--
-- Parameters: the operations of `str` and `UUID` whose tables no statement reads, the injection
-- scan, the JSON validation of tool arguments, the retrieval pipeline and the hydration of payloads,
-- the models' answers, the clock and the search timeouts; the embedder, the two indexes, the reranking
-- service and the reads of PostgreSQL; the errors of a provider's library; which calls of Redis or
-- of the broker raise. What is assumed of them is a named hypothesis: `IsLabelText` (a label such as
-- "S12" is unchanged by `strip` and `upper` and is not a UUID), `IsStatusError` (the classes of an
-- openai error with a status), `IsReadable` (the JSON of a message is read as that message or refused,
-- also after cjson has recoded it), that the limiter's requests come in time order with distinct
-- members, and that the deletion of a reap key does not raise. A run of the cached tail (`Run`) has
-- rows whose appends fail or are outstanding, repeated appends and late fills, but no append to a
-- tail that has missed an earlier message: `append_user` swallows a failed append, and the next one
-- would then go in after the gap. Scores of the reranking service are not negative and not NaN; a
-- number that overflows is the one exception the reranker raises.
--
-- Not modelled: database rows, events, metrics, traces and logs; the scope block of the prompt that
-- `run_loop` builds (a run starts from given messages); a cancellation in the middle of a turn by
-- the run's deadline; the concurrency of searches, whose results the source folds in call order;
-- the call that routes a question (src/services/router/router.py, parser.py), the synthesis of an
-- answer; and the other services (the rest of ingestion, adapters, HTTP API, evaluation), which are
-- mostly calls of databases, search engines, parsers and providers.
pub mod Common
pub mod Schemas
pub mod Retrieval
pub mod Agent
pub mod Chat
pub mod Llm
pub mod Samples
pub mod Tests
pub mod Context
pub mod Router
pub mod Redis
pub mod Ingestion
