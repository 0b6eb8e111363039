-- ===== src/Broker.antt =====
-- The package broker: the event envelope, publishing, idempotent consumption.
pub mod Store
pub mod Envelope
pub mod Tokens
pub mod Publish
pub mod Dispatch
pub mod Memory
pub mod Concurrent
pub mod Counters
pub mod Samples
mod Tests
