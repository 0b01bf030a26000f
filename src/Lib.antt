-- ===== src/Lib.antt =====
-- A model of simiclaw, an agent runtime that takes events in, runs them one session at a time and
-- delivers replies, with the theorems that make its core correct.
--
-- How the parts work together. A request comes to the gateway (`Gateway.Accept`), which validates it,
-- chooses a scope and a session key (`Gateway.Bindings`), a route (`Gateway.Routing`) and stores it
-- as an event (`Store.Ingest`). The kernel (`Runtime.Kernel`) claims the event for a run
-- (`Store.Claim`) under its lane's lease (`Lanes`), executes it and finalizes it
-- (`Store.Finalize`), and publishes each stage to the hub (`Events`), from which clients read their
-- stream. A reply goes to the outbox, from which the delivery worker (`Outbound.Delivery`) takes it
-- (`Store.Outbox`) and tries again by the retry policy (`Outbound.Retry`). An event whose run was
-- lost goes back to the queue (`Store.Recover`). The kernel executes an event by the runner (`Runner`),
-- and clients list what is stored in pages (`Query`). Accepted events wait in the queue of the event
-- loop (`Runtime.EventLoop`), which also repumps stored events that can be run. The workers
-- (`Runtime.Workers`) beat, recover lost runs and put scheduled jobs in as events. A tool changes the
-- files of the workspace by patches (`Workspace`).
--
-- Files and code:
--   Base             helpers: tests, lists, 64-bit words, maps, texts as code points, `path.Clean`,
--                    ParseInt and FormatInt in Base/Integer, and in Base/Time the text order of times
--                    (internal/store/tx/record_codec.go)
--   Model, Model/Run pkg/model/types.go and internal/runtime/model/types.go
--   Gateway          internal/gateway: Accept (service.go), Validate (validateIngress), Limiter (the
--                    token buckets), Bindings (bindings/*.go), Routing (routing/*.go)
--   Store            internal/store: Tables (schema.sql), Sql (statements, WithWriterTx), Ingest
--                    (tx/ingest_event.go), Claim (tx/claim_work.go), Finalize (tx/finalize_run.go),
--                    Recover (tx/recover_processing.go), Outbox (tx/outbox.go), Sessions
--                    (projections/sessions.go), Heartbeat and Jobs (jobs.go); OneRun states an
--                    invariant of all of the writes to runs
--   Runtime          internal/runtime: Kernel (kernel/*.go), Payload (payload/*.go), Adapter
--                    (kernel_adapter.go, delivery_intent.go), EventLoop (eventloop.go), Workers
--                    (workers/*.go)
--   Runner           internal/runner: Tools (tool_executor.go), Loop and Output (agent_executor.go),
--                    Policy (policy.go), History (history_transform.go), Run (runner.go,
--                    memory_executor.go), Display (display.go)
--   Workspace        internal/workspacefile/workspacefile.go: Text (bytes, line ends, UTF-8), Paths
--                    (ResolvePath), Files (Patch, Delete)
--   Query            internal/query and the listings of internal/store/queries, History (history.go)
--   Lanes            internal/runtime/lanes: scheduler.go as a step relation, key.go
--   Events           internal/runtime/events: the hub and a subscriber's queue (hub.go), Observer
--                    (observe.go)
--   Outbound         internal/outbound: Retry (retry/policy.go), Delivery (delivery/worker.go),
--                    Sender (sender/router.go)
-- A child module of a component has the lemmas on it, and `Tests` modules run it on small inputs. A
-- definition has the name of the function that it models, in snake case.
--
-- State. The database is a record of tables, each a list of rows with the newest first where rows are
-- inserted; a transaction is a function on it that either gives the next database or an error, in
-- which case the caller keeps the database from before. A statement fails on a primary key or a
-- unique column only: failures of SQLite itself are not modelled. A column of JSON holds the value
-- that was encoded, so that the meta column of a message is kept as its map and its tool calls. The
-- hub's methods run under a mutex and are single steps; a pointer to a subscription is its index.
-- Goroutines in the lane scheduler interleave in any order, one step for each locked section or
-- channel operation.
-- The files of a workspace are a map from resolved paths, each a list of names, to bytes; of the
-- failures of the file system only a missing file is modelled, and a write puts the whole file in place.
--
-- Bounds. Times are nanoseconds since the zero time of Go, from 1970 to the year 9999, where their
-- texts have a fixed width up to the second. Durations and attempt counts of the retry policy are
-- 64-bit words with their wrap-around; sequence numbers, counters and token counts are natural
-- numbers that do not wrap. Decimal texts are computed with fuel for 20 digits, which every 64-bit
-- number fits. All loops are structural.
--
-- Parameters. SHA-256, JSON encoding, the arithmetic of float64, the channels' senders, the model and
-- the tools of a run, the links of a workspace and the readings of clocks are arguments. The executor
-- is an interface of the kernel, which the runner fills (`Runtime.Adapter`), and the source of stored
-- terminal events is one of the observer; what other parts do to the tables or the hub while these run
-- is an argument too.
-- The loop between the model and the tools is structural on the rounds that are left. A worker is
-- modelled by one tick, which no other writer interrupts.
--
-- Not modelled: prompts, model providers, the tools themselves, memory files, the HTTP and Telegram
-- front ends, configuration, the command line, logging, the callbacks of a run's stream, and opening or
-- migrating the database. A run's latency, diagnostics and action ids are left out. A record that a
-- query reads is kept as the row, without the copy of its columns.
pub mod Base
pub mod Model
pub mod Outbound
pub mod Events
pub mod Lanes
pub mod Gateway
pub mod Store
pub mod Runtime
pub mod Query
pub mod Runner
pub mod Workspace
