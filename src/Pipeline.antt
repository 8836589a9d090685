-- ===== src/Pipeline.antt =====
-- The producer (cdc-wal-reader/src/lib.rs with cdc-producer/src/main.rs) and a sink
-- (cdc-sink/src/lib.rs) put together over a broker.
pub mod Broker
pub mod Transaction
pub mod Stream
pub mod Delivered
pub mod Replicated
pub mod Feeding
pub mod Restart
pub mod Order
pub mod Invisible
pub mod Fixtures
mod Tests
mod FeedingTests
