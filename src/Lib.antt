-- ===== src/Lib.antt =====
-- A model of the backend of a knowledge base with search and answers by a local language model
-- (backend/app), with what makes its core correct.
--
-- The backend keeps documents in tables, does long work in a queue of jobs that worker processes
-- share, and answers questions from the documents. The queue lives in tables: a worker claims a
-- job, holds it by a lease that its heartbeat renews, reports progress, and completes, fails or
-- requeues it; jobs whose lease ran out are recovered by any worker.
--
-- The parts and their files:
--   Prelude: names of the library, lists, integers and results over the native numbers.
--   Text: strings as lists of code points, with the methods of `str` and of `re` that the code
--   calls. What depends on Unicode tables is a parameter, `Unicode`.
--   Sanitize: what backend/app/db/repositories/jobs.py does to messages, codes and metrics before
--   it stores them (`sanitize_job_event_message`, `sanitize_job_event_metrics`). The patterns are
--   matchers that read a text from the left the way the regular expressions do.
--   Table: rows in a list, found and replaced by their key; `ORDER BY` with `LIMIT`.
--   Jobs: the queue of backend/app/db/repositories/jobs.py over the tables of
--   backend/app/db/models/operations.py. A `Store` holds the rows of `jobs`, `workers` and
--   `job_events`; each function of the file is a function from a store to a result with the
--   new store, and an exception is an error that leaves the store to the rollback of the
--   transaction. `Jobs.Transitions` has the blocks of assignments, `Jobs.Conditions` the
--   conditions of queries and branches, `Jobs.Queue`, `Jobs.Recovery` and `Jobs.Workers` the
--   functions, `Jobs.Commands` the transactions and their histories. `Jobs.Moves` says what a job
--   may do at all, and each function is shown to do no more than that; `Jobs.Lifecycle`,
--   `Jobs.Claim`, `Jobs.Ownership` and `Jobs.Settled` hold the theorems.
--   Runner: the worker processes of backend/app/workers/runner.py and
--   backend/app/workers/indexer.py over the queue, with the sources that they keep in step with
--   it. Each transaction is a function from the tables to a result with the new tables, and
--   `process_once` puts them together; what the handler of a job does is a parameter.
--   `Runner.Ends` and `Runner.Raised` hold the theorems.
--   Gate: the queue of requests before the local model, `InferenceGate` of
--   backend/app/integrations/llm/gate.py, with the futures of the semaphore that it waits on. A
--   step of the model is what a request does from one await to the next; `Gate.Reach` has the
--   histories, `Gate.Invariant` and `Gate.Service` what holds in them.
--   RateLimit: the sliding window of backend/app/core/rate_limit.py, `InMemoryRateLimiter`.
--   Fusion: the fusion of the results of both searches, `weighted_rrf` of
--   backend/app/search/fusion.py. Floats are a parameter, `FloatOps`.
--   Selection: which answers of a question enter the corpus, `select_corpus_answers` of
--   backend/app/processing/selection.py.
--   Chunking: how a document is cut into chunks, backend/app/processing/chunking.py.
--   `Chunking.Counter` is `ApproximateTokenCounter`, `Chunking.Blocks` the blocks of a section,
--   `Chunking.Packing` and `Chunking.Chunks` the methods of `DocumentChunker`. The chunker is
--   proved over any counter with the laws of `Chunking.Tokens`, which the approximate one keeps.
--   Indexes: the versions of the search index, backend/app/services/search_index.py. `Indexes` has
--   the rows, the end of `_full_reindex` and `_mark_failure`; `Indexes.Cleanup` is `_cleanup`;
--   `Indexes.Steps` puts the transactions of builds in a row; `Indexes.OneActive`,
--   `Indexes.Activation` and `Indexes.Protects` hold the theorems. The vector store is a parameter,
--   whose calls may raise and have taken effect all the same, with what they do to aliases and
--   collections as named hypotheses.
--   Admin: what administrators and editors do to jobs and sources, backend/app/services/admin_jobs.py
--   and backend/app/services/index_jobs.py, and in `Admin.Sources`
--   backend/app/services/admin_sources.py. `Admin.Requests` mixes these requests with the calls of
--   the workers to the queue; `Admin.Unique`, `Admin.Kept`, `Admin.Orderly` and `Admin.Waits` hold
--   the theorems.
--   Editor: what editors do to documents, backend/app/services/editor.py; `Editor.Bulk` is
--   `bulk_documents`, `Editor.Requests` a history of edits. The jobs that it queues go through
--   `Admin`. `Editor.Current` and `Editor.Counted` hold the theorems.
--   Context: the sources and the text that a question is answered from, `ContextBuilder` of
--   backend/app/rag/context.py.
--   Citations: the citations of an answer, `validate_citations` of
--   backend/app/rag/citations.py.
--   Permissions: the roles and the matrix of backend/app/core/permissions.py.
--   Accounts: users and their sessions, backend/app/services/auth.py,
--   backend/app/services/admin_users.py, backend/app/api/dependencies.py and
--   backend/app/core/csrf.py with the queries that they use. `Accounts.Commands` puts them
--   together as the routes do, one request after another; `Accounts.LastAdmin`,
--   `Accounts.Revoked` and `Accounts.SignIn` hold the theorems. SHA-256, the password hasher and
--   what a call draws at random are parameters.
--
-- Instants are microseconds as natural numbers, in UTC, and a datetime without a timezone is kept
-- apart, since the code refuses it; UUIDs are natural numbers. The clock of a call is a parameter.
-- Transactions run one after another, as the row locks of the code arrange: rows that another
-- transaction holds are a parameter of the two queries with SKIP LOCKED. Recursion is structural
-- everywhere; where it counts down, the count is enough: `decimal` has the number itself, which
-- is more than its digits, `wake_free` the free permits, each of which wakes one request, and
-- `split_from` the tokens of the text, of which each round takes one at least.
--
-- Not modelled: the HTTP layer, the database and its migrations, the clients of the vector store,
-- of the model server and of the question site, logging, configuration and the scripts; what is
-- left of the services and of the processing of documents. Of the modelled services, lists and
-- dashboards are left out, and in `Indexes` the batches of a build and a commit that took effect and
-- was reported as failed, in `Admin` the test of a connection and the payloads, in `Editor` the tags,
-- and in `Admin` and `Editor` the audit events.
pub mod Prelude
pub mod Text
pub mod Sanitize
pub mod Table
pub mod Jobs
pub mod Gate
pub mod RateLimit
pub mod Fusion
pub mod Selection
pub mod Context
pub mod Citations
pub mod Permissions
pub mod Accounts
pub mod Runner
pub mod Chunking
pub mod Indexes
pub mod Admin
pub mod Editor
