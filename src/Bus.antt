-- ===== src/Bus.antt =====
-- internal/bus: the in-process event bus.
pub mod Handlers
pub mod Index
pub mod Channel
