-- ===== src/Lib.antt =====
-- A verification library for Chronos, a distributed scheduler of jobs: the job API, the stores and
-- the work queues (in memory, on Postgres and on Kafka), the scheduler's control plane, the worker
-- and its executors, the outbox publisher, and the consumer, the replay and the queries of events.
--
-- The API (internal/api/server.go) writes a job to the store and puts a job that is due on the
-- queue. The scheduler (internal/scheduler/scheduler.go) promotes jobs that become due, takes
-- messages off the queue and pushes them to the least busy worker, receives results, retries or
-- ends jobs, and looks for jobs that run too long and for workers that are lost. Every change
-- emits an event, which the store's outbox keeps until the outbox publisher
-- (internal/outbox/publisher.go) has given it to Kafka. All of them share the store
-- (internal/store/memory/store.go) and the queue (internal/queue/memory/memory.go), in whose place
-- Postgres (internal/store/postgres/store.go) and Kafka (internal/queue/kafka/kafka.go) may stand.
-- A worker (internal/worker/worker.go) runs the job that it is pushed by an executor
-- (internal/execution) and reports the result; it learns of cancellations from the answers to its
-- heartbeats. A consumer (internal/analytics/consumer.go) takes the events from Kafka to
-- ClickHouse.
--
-- Common: the integers of Go's int, instants and durations, lists, maps and results.
-- Domain: internal/domain. Names are the source's (NextRunAt is next_run_at). Domain/Samples has
--   data for the examples.
-- Queue: the queue; Enqueue is enqueue, insertLocked is insert_locked, and a round of
--   StartConsumer is take_next followed by settle. Order, Calls and Delivery prove what it promises.
-- Store: State, Jobs, Listing, Fleet and Outbox model the methods; Update, Idempotency, Limits,
--   Staleness and Publication are about them.
-- Scheduler: State has the service and the small writes on it; Assign (promoteDueJobs, pickWorker,
--   handleQueuedJob), Report (HandleResult, maybeRescheduleRecurring), Backoff (computeBackoff),
--   Fleet (RegisterWorker, Heartbeat, Deregister), Cancel (RequestCancel, pushPendingCancels),
--   Recovery (watchdogTimeouts, checkWorkers, recoverWorkerJobs) and Tick (NewService and the body
--   of Run) model the methods; Writes, Ending, Verdict, Handout, Delivery,
--   Choice, Requests, Finality, Survival and Permanence are about them. Grpc
--   models the calls of workers (internal/scheduler/grpc_server.go), which Gate is about.
-- Auth: the keys, tokens and middleware of internal/auth/apikey.go; Tokens is about them.
-- Api: createJob, getJob, listJobs and cancelJob; Submission and Cancellation are about them. Status has
--   the handlers that report on the program.
-- Outbox: flush and topicFor; Draining is about them.
-- Execution: Results and Builtin (internal/execution/builtin.go), Webhook
--   (internal/execution/webhook.go) and the choice between them (internal/execution/executor.go);
--   Outcome is about them. A run is given what JSON, HTTP, the clock and its context do.
-- Worker: the node and its operations; Threads has ExecuteJob and the goroutine that it starts as
--   threads whose steps interleave. Load, Overrun and Cancels are about them, Journey about a job's
--   way through workerclient, worker and scheduler. Session is the node's session with the modelled
--   scheduler, which Forgotten, Lost and Known are about.
-- Postgres: CreateJob, GetJob, GetJobByIdempotencyKey, UpdateJobStateIf and MarkStaleWorkers, and
--   in Queries the listings and UpsertWorker, each SQL statement as the function on tables that it
--   states; the columns of a job have the types and the CHECK of
--   migrations/001_init.sql: what the database reads in a text for a UUID or for a payload is a parameter,
--   integers must fit in 32 bits, and times are cut to whole microseconds. The other JSON columns
--   read back what was written, and outside the table of jobs an instant keeps its precision. Simulation
--   relates the tables to the store in memory; Creation, Races, Sweep and Due compare the
--   operations; Ranking and Listings are about the orders of the listings. Journal has the executions and
--   the outbox, which Pending is about.
-- Kafka: the queue on Kafka; a round of StartConsumer is consume_one, a number of them consume.
--   Redelivery is about it.
-- Sql: ORDER BY, LIMIT and GROUP BY as functions on rows, which the statements for Postgres and for
--   ClickHouse use; Ordering and Groups are about them.
-- Analytics: Ingest is the loop of consumeTopic, which Ingest/Acknowledged and
--   Ingest/Restart are about; it keeps the calls of CommitMessages that succeeded, and what position Kafka
--   makes of them is a parameter. Range is
--   ParseRange (internal/analytics/query.go). Table is the table of events, with InsertEvents,
--   CountEvents and CountByType (internal/analytics/clickhouse.go); Table/Keys and Table/Again are
--   about rows that are replaced. Schema has the statements that make the tables
--   (internal/analytics/schema.go), which Schema/Cleared is about. Queries has Throughput, Queries/Outcomes has Failures and
--   Scheduler, Queries/Statistics has Latency, Workers, Queue and Capacity, and Queries/Anomalies has
--   Anomalies (internal/analytics/query.go); Buckets, Counts, Rates, Capacity, Clean, Alarms and
--   Findings are about them. Api/Analytics has the handlers (internal/api/analytics.go), which
--   Api/Ranges is about.
-- Replay: the loop of cmd/event-replay/main.go; Completeness and Repeats are about it.
-- Wiring: the registry of queues (internal/queue/registry.go) and newActiveQueue
--   (internal/app/wire.go), which Backends is about, and the publisher of events and the level of logging. Config: Load (internal/config/config.go);
--   Settings is about it.
-- The Examples of each part apply the theorems to concrete data.
--
-- An operation is a function from a state to a state, run to its end; what a lock makes atomic is
-- one function. The clock, fresh identifiers, random draws, the answers of workers, the errors of
-- Kafka and of connections, and the order in which a `range` loop visits a map are arguments. The
-- clock is read once in an operation. The cron library, the zone database and the arithmetic of
-- float64 are parameters, and so are the functions of Go's library that parse or split a text. A
-- Go map is an association list, and an instant the nanoseconds since the zero time; int64 does
-- not overflow in the model, while the worker's atomic counter of 32 bits wraps. Loops are structural
-- recursion on the lists that they visit, so no fuel is needed; the endless loop of StartConsumer is
-- taken for a number of rounds.
--
-- Not modelled: the columns and engines of ClickHouse's tables of statistics and the views that fill
-- them (internal/analytics/schema.go), the estimates of quantiles, which are parameters, HTTP routing
-- and JSON, generated code (proto), the other entry points (cmd), logging, the constructors of
-- internal/app/wire.go that only pass settings on, and the serving of a worker's calls.
mod Common
pub mod Domain
pub mod Queue
pub mod Store
pub mod Scheduler
pub mod Auth
pub mod Execution
pub mod Worker
pub mod Sql
pub mod Postgres
pub mod Kafka
pub mod Wiring
pub mod Config
pub mod Analytics
pub mod Replay
pub mod Api
pub mod Outbox
