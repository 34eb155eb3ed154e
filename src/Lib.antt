-- ===== src/Lib.antt =====
-- Asynx keeps aggregates as streams of events. A command is validated against the current state of
-- its aggregate, its event is appended to a store as a JSON patch, in one transaction with the
-- receipt of the command and the delivery that durable subscribers are owed, and the dispatcher
-- delivers the events of an aggregate in order. When a durable subscriber fails for good, the
-- aggregate is parked: its durable events wait until the park is lifted.
--
-- Models: models/errors.go, models/event.go and the records of models/store.go. An error is a tree
-- of sentinels and wrappings, of which only what errors.Is sees counts.
-- Store.Memory: store/memory.go. `Memory` is the struct, `MemoryTx` the transaction with its undo
-- log; each method has the name of the Go method. `Store.Memory.Transaction.atomically` runs any
-- function that a caller may pass, given as a `Program`: it calls the methods of the transaction,
-- looks at the store, returns or panics, and another goroutine's SetError may come in between.
-- Store.Snapshots: store/snapshot_memory.go.
-- EventStore: internal/eventstore, on the two in-memory stores. `Replayer` and `Reader` are
-- replayer/replayer.go and reader/reader.go, `Writer` is writer/writer.go with the operations of
-- eventstore.go that write. encoding/json, jsondiff and json-patch are the fields of a `Codec`, and
-- what the code relies on of them is `Laws`: a document reads back as its state, and the diff of two
-- states takes a document of the first to one of the second. `History` says that a stream records
-- the states of an aggregate, `Marking` that a snapshot is one of them.
-- Bus.Channel: internal/bus/channel_bus.go, with one call after another: the index that a call loads
-- is a value. Bus.Index: internal/bus/utils/index.go and the records of internal/bus/models.
-- Bus.Handlers: internal/bus/exec/exec.go, the run of one handler as the list of what happens before
-- its end and after it. regexp.Compile and IsExactPattern are given by their results (`Regexps`).
-- Dispatcher.Job: internal/bus/dispatcher/internal/jobs. Dispatcher.Aggregates:
-- internal/bus/dispatcher/internal/aggregates, whose registry holds one mutex in each method, so
-- that a run of concurrent callers is a sequence of calls (`Parking.Actions`). Channels are numbers.
-- Dispatcher.Delivery: internal/bus/dispatcher/internal/delivery, one delivery of an event to its
-- durable subscribers. What a handler does in an attempt, how long an attempt takes and what others
-- do to the registry meanwhile are given from outside; a duration is an int64 as its bit pattern.
-- The fuel of the retry loop is the number of attempts that the policy allows, since each turn of the
-- loop takes one. Dispatcher.Workers: what internal/bus/dispatcher/internal/workers/aggregate_pool.go
-- does with one job. Dispatcher.Facade: internal/bus/dispatcher/dispatcher.go over the registry.
-- Processor.Hooks and Processor.Executor: internal/processor/exec/exec.go and exec_idempotency.go,
-- what a command does while it holds the lock of its aggregate. Processor.KeyedLock: that lock,
-- internal/processor/exec/keyedlock.go, with the calls under way as a list and each atomic action of
-- a call as a `Step`; the once of an unlock is that a call unlocks in one phase. Processor.Forget:
-- internal/processor/exec/exec_forget.go, internal/commands/forget.go and ExecuteAsync, with a call
-- of Forget in the two parts before and after its wait for the tombstone, between which others run.
-- Processor.Recovery: internal/processor/processor_recovery.go and backlog_enqueuer.go over a
-- `DeliveryPort`, which is what they use of a dispatcher; `facade_port` is that of Dispatcher.Facade,
-- where others, such as the workers that an Enqueue spawns, call the registry before each call.
-- Each read of the delivery log may meet another store; the scan is given fuel for the length of the
-- log and two more reads, since its limit doubles.
-- Processor.Lifecycle: the calls in flight and the shutdown of internal/processor/processor.go as a
-- step relation. Processor.Config: its options that set a number, and
-- internal/processor/queue/router.go over the bytes of an id. Processor.Shard: the mailboxes of
-- internal/processor/pool/shard.go, with the workers of a shard as a sequence of steps. Tests: runs
-- on concrete inputs.
--
-- A context is what its Err returns, given anew at each call that looks at it. Versions are numbers
-- from 1 without an upper bound, where the source has int64: they grow by one with each event. The
-- park generation wraps at 2 ^ 64. A Go map is a sealed dictionary whose laws are the only thing
-- that is known of it. slices.BinarySearchFunc is given by its documented result on a stream in
-- ascending order, and every transaction keeps streams so. The retry loop and the scan of the
-- delivery log run on fuel; all other loops run over a list, and the one over schema versions over
-- the number of steps that are left.
--
-- Not modelled: the channels of a shard and the drain of the pool, the queue loop and the idle timer
-- of the dispatcher's workers, its tracker and reporter, how Send waits for a result, the builder and
-- the facade, and the example, the mocks and the conformance suite of stores, which are no part of
-- the library's logic.
pub mod Base
pub mod Models
pub mod Store
pub mod EventStore
pub mod Bus
pub mod Dispatcher
pub mod Processor
pub mod Tests
