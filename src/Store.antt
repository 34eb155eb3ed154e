-- ===== src/Store.antt =====
-- The package store: the in-memory event store and the in-memory snapshot store.
pub mod Memory
pub mod Snapshots
