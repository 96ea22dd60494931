-- ===== src/Lib.antt =====
-- Verification of ody, a Go library for durable tasks, pipelines and schedules.
--
-- Execution and Memory are about the queue. Execution (execution/model.go) holds the records, the
-- statuses and the errors. Memory (execution/memory.go) holds `MemoryStore`, the reference
-- implementation of the stores: its maps and indexes are the fields of one record, each method is a
-- function of that record, with the result and the store after it. Memory/Create models
-- CreateExecution and GetExecution; Memory/Claim models Claim; Memory/Lease models ReapExpired,
-- Heartbeat, Succeed, Retry and Fail; Memory/Control models CancelExecution, RestartExecution,
-- RestartPipelineSubgraph and ReleaseExecution; Memory/Runs models the methods on pipeline runs;
-- Memory/Query models the lists and the counts; Memory/Purge models Purge. Memory/Valid is the
-- well-formedness of a store, Memory/Transition is the state machine of an execution, and
-- Memory/Delivery is what Claim delivers.
-- Pipeline (pipeline/definition.go, and descendantKeys of pipeline/engine.go) holds the nodes of a
-- pipeline, their constructors, validation, and the registry. Engine (pipeline/engine.go) holds the
-- interface `Persistence` of the store that the engine uses and the rest of the engine: its two
-- loops over a run in Engine/Scheduling, which Engine/Ready and Engine/Progress are about, and
-- Advance, Run, RestartExecution, Reconcile, Inspect, Cancel and Output in Engine/Advance.
-- `MemoryStore` fills the interface in Engine/Local, and any store can be given a log of the calls
-- that move a run in Engine/Log.
-- Task (task/task.go) holds the specification of a task and the retry policy, whose delays a worker
-- passes to Retry; Task/Enqueue models New and Enqueue, which creates an execution in a store.
-- Task/Registry (task/registry.go) holds the bindings of handlers, modules and the registry of
-- tasks, and Execution/Errors what is asked of an error and the errors that it wraps.
-- Worker (worker/worker.go) holds one polling loop of a worker, over an interface of the store and
-- the engine that MemoryStore and Engine fill in Worker/Local: Worker/Resolve models execute,
-- resolve and advance, Worker/Loop the loop; Worker/Failures and Worker/Policies are about its ends.
-- The context of the worker is a sequence of readings, and what ends each wait of a select is given,
-- as is the handler's result by the registry.
-- Schedule (schedule/schedule.go) holds the scheduler: initialize, tick, fire and occurrences, over
-- any store that its triggers write to; Schedule/Triggers models the triggers that Task and Pipeline
-- make, which enqueue a task or run a pipeline; Schedule/Configure models the options,
-- newDefinition, New and Run, Schedule/Bind models Task and Pipeline, and Schedule/Lifetime is about
-- a whole run, with Schedule/Observed on what a tick reports and Schedule/Distinct on the names of the
-- definitions.
-- Redis (execution/redis) holds the Redis store: the keys of keys.go, whose text `key_text` builds,
-- and in Redis/Encoding the hash of a run. Redis/Transition (saveTransition, transition, Heartbeat)
-- and Redis/Operations (Succeed, Retry, Fail, CancelExecution, RestartExecution, ReleaseExecution,
-- and Claim and ReapExpired on one candidate) give, for the record that was read under WATCH, the
-- record and the commands that are sent; Redis/Watch is the loop that reads, sends and tries again.
-- Redis/Create has the transactions of CreateExecution and purgeExecution, Redis/Runs those on
-- pipeline runs, and Redis/Filter the filters. The whole calls are in Redis/Creation
-- (CreateExecution, CreatePipelineRun), Redis/Claim (Claim, loadDueCandidates, claimCandidate),
-- Redis/Reap (ReapExpired, reapCandidate), Redis/RunUpdate (SetPipelineRunStatus), Redis/Subgraph
-- (RestartPipelineSubgraph), Redis/Purge (Purge), Redis/Read (the methods that read one record or a
-- list) and Redis/Counts (the counters).
-- Redis/Refines and Redis/Candidates compare the operations with Memory; Redis/Indexes says in which
-- sorted sets an execution stands, with Redis/Steps, Redis/Shape and Redis/Shaped the form of the
-- transactions, Redis/Kept is about the sets and Redis/Counted about the counters after them;
-- Redis/Tries and Redis/Atomic are about watch, and Redis/Unique, Redis/Claimed, Redis/Reaped,
-- Redis/RunUpdated and Redis/Listed about the calls, with what they share in Redis/References and
-- Redis/Found (the references of a request), Redis/Loaded (the candidates of Claim) and
-- Redis/Assigned (a transaction that assigns to its caller's variable).
-- Monitoring (monitoring/service.go) holds the service over a store, which MemoryStore fills in
-- Monitoring/Restart.
-- App (app.go) holds the options of the application and New, which puts these together.
-- Base holds the tests, lists, maps, sorting and integers that these share, and Tests holds concrete
-- stores, pipelines and schedules.
--
-- How the code corresponds to the model. The mutex of the store serialises its methods, so a history
-- is a sequence of calls. The clock and `uuid.New` are sequences of results, read at a counter; only
-- that identifiers are not nil and never repeat is assumed. A Go map is an association list without
-- repeated keys; Go ranges over a map in any order, and the theorems on one call hold of any
-- well-formed store, so of any order of the entries. Where the sort of Go may order equal elements
-- in any way, the model keeps their order. An execution is stored under its own identifier, so a
-- record that was read has that of its key. An instant counts nanoseconds since Go's zero time, and
-- a JSON text is a string. The revision of a run wraps at 2 ^ 64. Durations that are counted in Go's
-- int64 are integers without a bound, but for the doubling of the backoff, and times before the zero time are cut off at it.
-- The Redis server is a parameter: what it answers to reads, to TIME, to EXEC and to single
-- commands, where the state after an answer has what other clients did meanwhile. A read leaves the
-- state as it is, so that a call which only reads sees one state. A command is a value; what is said
-- of sorted sets uses that ZADD sets a member's score and ZREM removes the member, and what is said
-- of counters that HINCRBY adds to a field. A score is an integer of milliseconds, where Go holds a
-- float64. The texts of identifiers, instants, numbers and JSON records are parameters, of which
-- only the round trip assumes that they are read back. That a record can be encoded as JSON is assumed,
-- where it is, of the record that is written.
-- No definition runs on fuel: the loops of Go that are not over a list or a map, the four tries of
-- Advance, the doubling of the backoff and the loop of occurrences, recurse on the rounds that their
-- counters leave; watch recurses on its sixteen tries, and a worker's loop on the list of its
-- rounds. The polling loops of a worker share its health under a mutex; one loop is modelled, as its
-- only owner, which is the worker with Concurrency 1.
--
-- Not modelled: the PostgreSQL store (statements that a database runs); of the Redis store the
-- checks of its constructor; the transports of the monitoring service; the goroutines of a worker's
-- Run and its wait for late handlers, the goroutines of the application's Run, and the wiring and
-- printing of fx.go and of cmd/ody-admin. A node's JSON decoding, mapper and encoding, the encoding
-- of an input, and the instants of a cron expression are parameters. The ticker of the scheduler's
-- Run is the list of the instants that it sends.
pub mod Base
pub mod Execution
pub mod Memory
pub mod Pipeline
pub mod Engine
pub mod Task
pub mod Schedule
pub mod Worker
pub mod Monitoring
pub mod Redis
pub mod App
pub mod Tests
