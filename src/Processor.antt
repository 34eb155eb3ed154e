-- ===== src/Processor.antt =====
-- internal/processor.
pub mod Hooks
pub mod Executor
pub mod Shard
pub mod KeyedLock
pub mod Forget
pub mod Recovery
pub mod Lifecycle
pub mod Config
