-- ===== src/Decoder.antt =====
-- cdc-wal-reader/src/decoder: logical replication messages decoded into change events.
pub mod Errors
pub mod NullWord
pub mod RelationData
pub mod TupleData
pub mod Messages
pub mod DecodeTool
mod Examples
mod RelationExamples
pub mod Fixtures
mod RelationTests
mod TupleTests
mod ChangeTests
mod TupleDataTests
