-- ===== src/Lib.antt =====
-- A verification of the stock analyst: the parts that decide what research reaches the user.
--
-- An agent (packages/agents) writes research from passages that the retriever finds, and streams
-- what it writes; the citation enforcer checks it; the task runner runs one agent on one queued
-- task, stores what the agent returns as approved (some agents also store it themselves) and ends
-- the task; the workflow graph retries what the enforcer rejected. Documents enter through the
-- ingestion task (apps/api), which calls the extractor of tables, the chunker and the index
-- (packages/rag), and the passages of the index are found by the hybrid retriever.
--
-- - Shared: native numbers, lists, Python strings as lists of code points, exceptions (`Raises`),
--   and a backtracking matcher for the regular expressions of `re` (Shared.Regex).
-- - Message: packages/agents/src/agents/shared/message.py.
-- - Enforcer: packages/agents/src/agents/shared/citation_enforcer.py. Patterns holds the regular
--   expressions; Checks the five checks that read the content alone; Quotes
--   `_check_quotes_exist_in_rag`; Validate the verdict, the retry prompt and the audit rows.
-- - Streaming: `_call_llm_streaming` and `_flush_chunk` of
--   packages/agents/src/agents/shared/base_agent.py.
-- - Chunker: packages/rag/src/rag/ingestion/chunkers/hierarchical.py. Defs holds the data and the
--   helpers, Parents `_split_into_parent_chunks`, Children `_split_into_child_chunks`,
--   Pages `_section_first_pages` with the section patterns of
--   packages/rag/src/rag/ingestion/parsers/pdf_parser.py, Document `chunk_document`.
-- - Retriever: packages/rag/src/rag/retrieval/hybrid_retriever.py and reranker.py. Fusion is about
--   `_reciprocal_rank_fusion`, Scope about `retrieve`, Quotes about the enforcer's two searches.
-- - Ingestion: apps/api/tasks/ingestion.py, with the rows of packages/shared/src/shared/models.py.
--   Rows holds the rows and the single transactions, Run `_run_ingestion`, `_execute` and the
--   attempts that Celery makes; Assembled is the pipeline with the modelled extractor of tables,
--   chunker and index, and Points is about what it sends to the store.
-- - Kpi: `upsert_kpi_timeseries` of packages/agents/src/agents/kpi_tracker/tools.py.
-- - Orchestrator.Graph: packages/agents/src/agents/orchestrator/graph.py. The nodes that the agents
--   implement are a parameter.
-- - Orchestrator.Tasks: packages/agents/src/agents/orchestrator/tasks.py. Saves has the ends of the
--   agents that insert their output themselves (lynch_pitch, munger_invert and earnings_monitor beside
--   it); Lifecycle and Storage are about the task, and about the rows of outputs.
-- - Http: how a handler of apps/api ends (`Reply`).
-- - Auth: apps/api/middleware/auth.py and tenant.py, with the scope of a session of apps/api/db.py.
--   Keys is about the cache of keys, Users and Sessions about `get_current_user` and the table of
--   users, Claims about the user of a token, Guard and Served about `role_required` and the
--   middleware.
-- - Socket: `task_websocket` of apps/api/routers/tasks.py and the channel of
--   packages/shared/src/shared/streaming.py, beside the task runner: a step relation. Delivery is
--   about a subscription in time, Late about one that is late, Acts about the acts of the runner in
--   their order.
-- - Storage: apps/api/services/storage.py.
-- - Documents: apps/api/routers/documents.py. Create holds the two ways to a new document, Handlers
--   the handlers, Tenants, Calls, Owned and Isolation what they leave alone, Deleted the deletion.
-- - Normalizer: packages/rag/src/rag/ingestion/parsers/financial_normalizer.py. Patterns holds the
--   regular expressions, Values `normalize_value`, Spans `extract_values_from_text`; Consistent and
--   Kept are about the two.
-- - Tables: packages/rag/src/rag/ingestion/parsers/table_extractor.py, with the JSON, the captions and
--   the loop over the tables in Extract; Grid, Lines and Numbers are about the grid, its lines and the
--   numbering.
-- - Evaluation: eval/runners/run_eval.py. Checks holds `_run_checks`, Polling `_poll_task`, Cases
--   `_execute_case`, `_score_hallucinations`, `run_case` and `run_all`, Report the rates and the exit
--   code; Good, Accepts and Passes are about when a case passes.
-- - Coverages: apps/api/routers/coverages.py, on the rows of Kpi: in Coverages the dashboard of one
--   KPI, `get_kpi`; in Create the creation, the list and the view of coverages; in Listing
--   `list_kpis`. Unique is about the creation, Points and Changes about what the dashboard shows,
--   Groups about the list of KPIs.
-- - Index: packages/rag/src/rag/ingestion/pipeline.py, with `index_chunks`. Sparse holds
--   `compute_bm25_sparse`, Embed and Batches the batches in which chunks are embedded; Calls and
--   Sent are about what the store is sent; Retries `_with_retry` of
--   packages/rag/src/rag/connectors/qdrant_client.py.
--
-- Modelling. A coroutine runs to its end before another step of its caller. A call that may raise
-- returns `Raises`, with the exceptions that the code tells apart. The UUID parser, the searches of
-- the vector store, the embedder, the cross encoder, the agents (what they publish, insert and
-- return), the graph's node functions, and the storage and the parser of the ingestion are
-- parameters (outside Assembled also its table extractor, chunker and index), as are the hash of the
-- sparse vectors and the constant of their weights, as are jwt.decode and the keys of the identity
-- provider, the clients of MinIO, Qdrant and Celery, the client and the clock of the evaluation
-- runner, and the search and the download of filings. Calls of the database and of Redis succeed,
-- but for the constraints of the table of users; row-level security, which only hides rows, is left
-- out. Identifiers that the code draws at random are numbered by the draw.
--
-- Bounds. Texts are ASCII where the code asks for a character class (`\d`, `\w`, `\s`, `isdigit`,
-- `lower`). The matcher of Shared.Regex recurses on the text that is left. `run` of
-- Orchestrator.Graph is on fuel, and six steps are enough from a research node; `windows_from` of
-- Chunker.Children is on fuel, and a round for every sentence is enough; `attempts` of Ingestion.Run
-- is on fuel, and four attempts are enough; `poll_from` of Evaluation.Polling is on fuel, and 152
-- reads are enough for a clock that moves by the pause; `batches_on` of Index.Embed is on fuel, and
-- a round for every element is enough. A quotient of two lengths is a pair of numbers (`Coverage`),
-- compared by cross multiplication; so is the score of a fused candidate. A value of a filing is a
-- decimal, exactly. The scores of the vector store and the values of KPIs are parameters with their
-- comparisons.
--
-- Not modelled: the web front end, the rest of the HTTP routers and the services they call (of the
-- router of coverages, the deletion, which answers 501, and the start of the orchestrator), the
-- parser of PDF files, the methods of the connector of Qdrant, which pass their arguments on,
-- `normalize_period`, the reports and credentials of the evaluation runner, the prompts and schemas
-- of the single agents, and the calls of litellm, Qdrant, SQLAlchemy and Celery.
pub mod Shared
pub mod Message
pub mod Enforcer
pub mod Streaming
pub mod Chunker
pub mod Retriever
pub mod Ingestion
pub mod Kpi
pub mod Orchestrator
pub mod Http
pub mod Auth
pub mod Socket
pub mod Storage
pub mod Documents
pub mod Normalizer
pub mod Tables
pub mod Evaluation
pub mod Coverages
pub mod Index
