-- ===== src/EventStore.antt =====
-- internal/eventstore.
pub mod Codec
pub mod Replayer
pub mod Reader
pub mod Writer
pub mod History
pub mod Marking
pub mod Loading
pub mod Writing
pub mod RoundTrip
pub mod Refusals
