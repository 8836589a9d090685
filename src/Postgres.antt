-- ===== src/Postgres.antt =====
-- postgres-connector/src: the sink that writes the events to a PostgreSQL database.
mod Tests
mod MainTests
pub mod Database
pub mod Replica
pub mod Statements
pub mod Upsert
pub mod Relations
pub mod Refresh
pub mod Sink
pub mod Writable
pub mod Rows
pub mod Stale
pub mod Main
pub mod Keys
