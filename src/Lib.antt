-- ===== src/Lib.antt =====
-- AskRepo answers questions about a repository: a worker clones and indexes it, and an API answers from
-- the index. This library models the backend, backend/app, in Python.
--
-- Jobs (Jobs.antt) are Kafka messages that a worker claims by a lease on a database row.
-- - Table.antt: a table with a primary key as a list of rows, and UPDATE .. WHERE .. RETURNING.
-- - Jobs/Ladder.antt: queue/topics.py, the retry ladders.
-- - Jobs/Lease.antt: repositories/lease.py, the lease statements; Jobs/Exclusion.antt: several workers
--   that run them in any order.
-- - Jobs/Retry.antt: queue/retry.py, the consumer that hands retries back; a wait polls once for each
--   millisecond at most, which is its fuel.
-- - Jobs/Polling.antt: queue/consumer.py, the polling loop with its pauses and rebalances.
-- - Jobs/Session.antt: a session with its open transaction, live/staging.py and the broker.
-- - Jobs/Projects.antt: repositories/project.py, the lease statements of projects.
-- - Jobs/Ingestion.antt: queue/consumer.py, the handling of an ingestion message.
-- - Jobs/Generation.antt: queue/job_failure.py, and the handlers of queue/checklist.py and
--   queue/mock_data.py.
--
-- Requests pass the access rules before they reach a service.
-- - Access/Permissions.antt: core/permissions.py; Access.antt: core/access.py and core/indexed.py.
-- - Members.antt: services/membership.py and the account operations of services/user.py.
-- - Tokens.antt: services/auth.py and repositories/refresh_token.py, the tokens of a sign-in.
-- - PasswordReset.antt: services/password_reset.py and repositories/password_reset_token.py.
--
-- A question is answered by a graph of calls to a model and a search.
-- - Turn.antt: rag/graph/build.py, rag/graph/nodes.py and rag/graph/state.py. The run of the graph takes
--   fuel, a step for each node; two steps for each search of the budget and three more are enough.
-- - Turn/Answerer.antt: rag/answerer.py, the stream of an answer around the graph.
-- - Chunker.antt: ingestion/chunker.py, the line ranges of the chunks of a file.
-- - VectorStore.antt: ingestion/vector_store.py, the points of a collection; Pipeline.antt:
--   ingestion/pipeline.py, one indexing run. Its batches take fuel, one for each chunk at hand, which is
--   enough as a batch takes one chunk at least.
-- - Projects.antt: services/project.py, reindex and deletion, and the sweep of worker.py for projects.
-- - Retrieval.antt: the merging of chunks in rag/retriever.py; Budget.antt: its prompt budget.
--
-- A model proposes operations on a checklist; a person applies or discards them.
-- - ChangeSets.antt: what both services of change sets share; ChangeSets/Operations.antt:
--   checklist/operations.py; ChangeSets/Checklist.antt: services/checklist_change_set.py;
--   ChangeSets/MockData.antt: services/mock_data_change_set.py. Both services edit rows of a table
--   through the interface of ChangeSets/Rows.antt.
--
-- Redis holds counters and copies; the server is a parameter, with its laws as hypotheses.
-- - GrantCache.antt: core/grant_cache.py; RateLimit.antt: core/rate_limit.py.
--
-- Ids and worker names are numbers, compared for equality only. Time is in microseconds, the resolution
-- of the database's timestamps, and one clock is read by all. The pipeline, the generators, the
-- broker, the chat model, the retriever and the source of fresh ids are arguments of the definitions that
-- use them. Logging, mail, audit entries and the screens of the frontend are not modelled. Nor
-- are the eval jobs, the delivery of live events, the services and routes that only load, check and
-- write rows, and the prompts.
mod Prelude
pub mod Table
pub mod Jobs
pub mod Access
pub mod Members
pub mod Turn
pub mod Budget
pub mod Retrieval
pub mod PasswordReset
pub mod ChangeSets
pub mod Chunker
pub mod VectorStore
pub mod Pipeline
pub mod Projects
pub mod GrantCache
pub mod RateLimit
pub mod Tokens
