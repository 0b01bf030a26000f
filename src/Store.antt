-- ===== src/Store.antt =====
-- internal/store: the SQLite tables and the transactions that change them. The tables' definitions
-- are in internal/store/schema.sql. A column of JSON holds the value that was encoded. SQLite's own
-- failures (I/O, a busy database) are not modelled: a statement fails on a constraint only.
pub mod Tables
pub mod Sql
pub mod Sessions
pub mod Ingest
pub mod Claim
pub mod Finalize
pub mod Recover
pub mod Outbox
pub mod OneRun
mod Tests
pub mod Heartbeat
pub mod Jobs
