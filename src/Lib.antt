-- ===== src/Lib.antt =====
-- Verification library of log-stream, the log ingestion and query service.
--
-- A request to store logs goes through the ingestion service, which validates each log of the
-- body (the timestamps first of all), adds search attributes and an identifier, and inserts the
-- accepted ones; the batching repository gathers such inserts and writes them in batches;
-- retention keeps the partitions of the table and deletes what is too old, run after run. A query
-- is parsed into filters, a limit and a cursor; the repository reads the rows behind the cursor's
-- position, and the service answers a page with the cursor of the next one. An aggregation counts
-- the logs of a time range by bucket and group.
--
-- The parts and their files:
--   src/domain/timestamp.ts: Domain/Timestamp (`parseCanonicalTimestamp` is
--     parse_canonical_timestamp, its part behind the fast path parse_general), with the patterns
--     in Timestamp/Scan, `toISOString` in Timestamp/Print and the calendar in Domain/Calendar.
--     Years are counted from -400 and times from the start of that year, so that every time of a
--     text with a zone is a natural number; 400 years are a whole number of days.
--   src/domain/log-entry.ts, attributes.ts, ingestion.ts: Domain/LogEntry, Domain/Checked.
--   src/domain/log-entry-validator.ts: Domain/Validator, one function for each group of checks,
--     in the order of the source. Untrusted values are those of JSON (Domain/Json).
--   src/domain/attribute-normalizer.ts: Domain/Normalizer.
--   src/modules/ingestion/ingestion-service.ts: Ingestion/Service (`ingest`).
--   src/modules/ingestion/batched-ingestion-repository.ts: Ingestion/Batch. Its closure variables
--     are the record State, its calls and callbacks are the events of `step`, and a run of the
--     event loop is a list of events. The loop that starts writes has one round for each pending
--     write as its fuel, which is enough since each round takes at least one.
--   src/modules/ingestion/ingestion-repository.ts: Ingestion/Repository, the arrays of the insert
--     and the groups for the aggregates.
--   src/modules/retention/retention-repository.ts: Retention/Repository, `run` for a validated
--     request.
--   src/modules/retention/retention-service.ts: Retention/Service, a state machine of the calls
--     of the service, its timer and its promises.
--   src/modules/query: Query, a file for each of query-parameter-parser.ts (Query/Parameters,
--     with the errors in Query/Result), cursor-codec.ts (Query/Cursor and Query/Patterns),
--     log-predicate-builder.ts (Query/Predicate), log-query-repository.ts (Query/Repository) and
--     log-query-service.ts (Query/Service). Query/Paging is a client of the service that reads
--     page after page. `JSON.parse` and `JSON.stringify` are Domain/Json/Parse and Stringify,
--     UTF-8 and base64url Base/Bytes. The parser of JSON takes one round for each unit of the
--     text as its fuel, and each value and each member takes at least one unit.
--   src/modules/aggregation: Aggregation/Parameters, Aggregation/Repository with the counts in
--     Aggregation/Count, and Aggregation/Service.
--   src/config/app-config.ts, src/shared/readiness.ts, src/shared/app-error.ts, error-handler.ts:
--     Server/Config, Server/Readiness and Server/Errors.
--   src/database/migrations: Database/Migrations, the history and its checks, with the runner in
--     Migrations/Runner and the owner's connection and retries in Migrations/Owner. Code that awaits is
--     a function of the events so far (Database/Session): it ends with a value or an error after more
--     events, and the database and the clock answer by the events before. Database/Lock is the loop
--     that acquires the advisory lock, which the migrations and the partitions share.
--   src/database/partitions: Database/Partitions, the plan, and Partitions/Preparer.
--   src/database/wait-for-database.ts, database-config.ts, database-errors.ts, database-pool.ts:
--     Database/Wait, Database/Config, Database/Errors and, of the last, the check of the role in
--     Database/Runtime.
--   src/server.ts: Database/Startup, `main` up to the start of the runtime, which is a parameter.
--     The loops over attempts have one round for each unit of fuel; a fuel above the milliseconds to
--     the deadline is enough where the clock never runs back and a sleep takes time.
--   src/server-lifecycle.ts: Lifecycle, a state machine whose events are the signals, the calls,
--     the settling of what it closes and the deadline. The functions of its options are taken not to
--     call `shutdown` before they return; the source assigns its promise only after their calls.
--   Base holds the names, tests, lists, integers, JavaScript numbers and texts that they share.
--
-- Strings are lists of UTF-16 code units. Parameters stand for the database, `localeCompare`,
-- `repository.insert`, the timer, the abort signal, the generator of identifiers, SHA-256, and
-- how JSON writes and reads numbers that are not small naturals.
--
-- What the statements of a session commit is read by Database/Ledger, an account of transactions that
-- counts what the database has acknowledged: the setting up of the history, scripts, rows of the history,
-- and the statements that make, fill and attach a partition. Who holds the lock is read by
-- Database/Lock/Guard, and which connections have been given to `end`, fulfilled or not, by
-- Database/Migrations/Owner/Closed.
--
-- Not modelled: the loader of the migration files, the making of the pool and of the connections, the
-- HTTP server with its routes, the tools, the validation of a retention request and of the options
-- of the retention service. SQL, HTTP and the test suite lie outside the library.
pub mod Aggregation
pub mod Base
pub mod Database
pub mod Domain
pub mod Ingestion
pub mod Lifecycle
pub mod Query
pub mod Retention
pub mod Server
