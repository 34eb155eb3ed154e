-- ===== src/Dispatcher.antt =====
-- The package internal/bus/dispatcher and its subsystems.
pub mod Job
pub mod Aggregates
pub mod Delivery
pub mod Workers
pub mod Facade
