-- ===== src/Store/Memory/Transaction.antt =====
-- `Atomically` of store/memory.go, over every function that a caller may pass to it: a program
-- that calls the methods of the transaction, looks at the store, and returns or panics.
use asynx.Base.{ℕ, String, Option, none, some, []}
use asynx.Models.Errors.{Error}
use asynx.Models.Records.{Receipt}
use asynx.Store.Memory.{
  Memory, MemoryTx, Ctx, Reply, append, delete_stream, drop_deliveries, put_receipt,
  enqueue_delivery, rollback, set_error,
}

pub data Call {ℓ} (B : Type ℓ) : Type ℓ where
  appends : Ctx → String → ℕ → B → Call B
  deletes_stream : Ctx → String → Call B
  drops_deliveries : Ctx → String → Call B
  puts_receipt : Ctx → String → Receipt → Call B
  enqueues_delivery : Ctx → String → ℕ → Call B

-- `interrupted` is a SetError of another goroutine between two steps: it takes no lock that a
-- transaction holds. Nothing else can write while the transaction runs.
pub data Program {ℓ} (B : Type ℓ) : Type ℓ where
  returns : Option Error → Program B
  panics : Program B
  calls : Call B → (Option Error → Program B) → Program B
  observes : (Memory B → Program B) → Program B
  interrupted : String → Error → Program B → Program B

pub data Outcome : Type 0 where
  committed : Outcome
  failed : Error → Outcome
  panicked : Outcome

abbrev ended : Option Error → Outcome
ended none = committed
ended (some e) = failed e

module _ {ℓ} {B : Type ℓ} where
  unfoldable pub run_call : Call B → MemoryTx B → Reply B
  unfolding append delete_stream drop_deliveries put_receipt enqueue_delivery
  run_call (appends ctx id version blob) t = append ctx t id version blob
  run_call (deletes_stream ctx id) t = delete_stream ctx t id
  run_call (drops_deliveries ctx aggregate_id) t = drop_deliveries ctx t aggregate_id
  run_call (puts_receipt ctx command_id r) t = put_receipt ctx t command_id r
  run_call (enqueues_delivery ctx aggregate_id version) t =
      enqueue_delivery ctx t aggregate_id version

  -- fn(tx)
  unfoldable pub run_program : Program B → MemoryTx B → Outcome × MemoryTx B
  unfolding run_call set_error
  run_program (returns r) t = (ended r, t)
  run_program panics t = (panicked, t)
  run_program (calls c k) t = let (r, t') = run_call c t in run_program (k r) t'
  run_program (observes k) t = run_program (k t.store) t
  run_program (interrupted id e p) t = run_program p (record t { store = set_error t.store id e })

  -- The deferred rollback runs unless the transaction committed.
  unfoldable pub close_tx : Outcome → MemoryTx B → Memory B
  unfolding rollback
  close_tx committed t = t.store
  close_tx (failed e) t = (rollback t).store
  close_tx panicked t = (rollback t).store

  unfoldable pub atomically : Ctx → Program B → Memory B → Outcome × Memory B
  unfolding run_program close_tx
  atomically (some e) p s = (failed e, s)
  atomically none p s =
      let (o, t) = run_program p (record { store = s; undo = [] }) in (o, close_tx o t)

  -- memory.Append and memory.Delete
  unfoldable pub append_one : Ctx → Memory B → String → ℕ → B → Outcome × Memory B
  unfolding atomically
  append_one ctx s id version blob = atomically ctx (calls (appends ctx id version blob) returns) s

  delete_one : Ctx → Memory B → String → Outcome × Memory B
  unfolding atomically
  delete_one ctx s id = atomically ctx (calls (deletes_stream ctx id) returns) s
