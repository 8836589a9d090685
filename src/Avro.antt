-- ===== src/Avro.antt =====
-- cdc-avro/src/lib.rs: the data that producer and sinks share.
mod Tests
pub mod Kind
pub mod Value
pub mod Equal
pub mod Relation
pub mod Event
pub mod Merge
pub mod Serde
pub mod Json
pub mod Codec
