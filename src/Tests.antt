-- ===== src/Tests.antt =====
-- Runs of the components on concrete inputs.
mod Codecs
mod Stores
mod EventStores
mod Dispatching
mod Executing
mod Sharding
mod Locking
mod Delivering
mod Forgetting
mod Recovery
mod Publishing
mod Closing
