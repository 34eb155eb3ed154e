-- ===== src/Store/Memory.antt =====
-- store/memory.go: the in-memory Store with its undo log. Each method runs under the mutexes of
-- the source, so it is one function of the state; the proofs are in the modules below.
pub mod Slices
pub mod Views
pub mod Transaction
pub mod Rollback
pub mod Order
pub mod Reads
pub mod Appends
pub mod Receipts
use asynx.Base.{
  ℕ, String, Bool, true, false, List, [], ◌∷◌, ◌++◌, map, Option, none, some, ltb, min, length,
  is_empty, take, drop, keep_if, not, if◌then◌else◌, ◌==◌, string_eq,
}
use asynx.Base.Dict
use asynx.Base.Dict.{Dict}
use asynx.Models.Errors.{
  Error, Result, ok, fail, sentinel, note, err_pipeline_failed, err_duplicate_receipt,
}
use asynx.Models.Records.{Receipt, Delivery, delivery_eqb}
use Slices.{Entry, binary_search, insert_at, delete_at}

pub record Memory {ℓ} (B : Type ℓ) : Type ℓ where
  pub streams : Dict String (List (Entry B))
  pub receipts : Dict String Receipt
  pub deliveries : List Delivery
  pub err_on : Dict String Error

-- What `ctx.Err()` returns at the call.
abbrev pub Ctx : Type 0
Ctx = Option Error

abbrev pub or_nil {ℓ} : {A : Type ℓ} → Option (List A) → List A
or_nil none = []
or_nil (some xs) = xs

module _ {ℓ} {B : Type ℓ} where
  unfoldable pub new : Memory B
  new = record { streams = Dict.empty; receipts = Dict.empty; deliveries = []; err_on = Dict.empty }

  pub set_error : Memory B → String → Error → Memory B
  set_error s id e = record s { err_on = Dict.put s.err_on id e }

  -- s.streams[streamID], nil for a stream that is not there
  unfoldable pub entries_of : Memory B → String → List (Entry B)
  entries_of s id = or_nil (Dict.get s.streams id)

  unfoldable pub entries_from : Memory B → String → ℕ → List (Entry B)
  unfolding entries_of
  entries_from s id from_version =
      let entries = entries_of s id in
      if is_empty entries then [] else drop (binary_search entries from_version).0 entries

  unfoldable pub to_blobs : List (Entry B) → List B
  to_blobs = map (λ e. e.blob)

  pub read_from : Ctx → Memory B → String → ℕ → Result (List B)
  unfolding entries_from to_blobs
  read_from (some e) s id from_version = fail e
  read_from none s id from_version = ok (to_blobs (entries_from s id from_version))

  unfoldable pub read_range : Ctx → Memory B → String → ℕ → ℕ → Result (List B)
  unfolding entries_from to_blobs
  read_range (some e) s id from_version count = fail e
  read_range none s id from_version count =
      let entries = entries_from s id from_version in
      ok (to_blobs (if ltb count (length entries) then take count entries else entries))

  unfoldable pub get_receipt : Ctx → Memory B → String → Result (Option Receipt)
  get_receipt (some e) s command_id = fail e
  get_receipt none s command_id = ok (Dict.get s.receipts command_id)

  unfoldable pub pending_deliveries : Ctx → Memory B → ℕ → Result (List Delivery)
  pending_deliveries (some e) s limit = fail e
  pending_deliveries none s limit = ok (take (min limit (length s.deliveries)) s.deliveries)

-- slices.Index and slices.Delete of one place
pub delete_first : Delivery → List Delivery → List Delivery
delete_first d [] = []
delete_first d (x ∷ xs) = if delivery_eqb x d then xs else x ∷ delete_first d xs

module _ {ℓ} {B : Type ℓ} where
  unfoldable pub ack_delivery : Ctx → Memory B → String → ℕ → Result (Memory B)
  unfolding delete_first
  ack_delivery (some e) s aggregate_id version = fail e
  ack_delivery none s aggregate_id version =
      let target : Delivery = record { aggregate_id = aggregate_id; version = version } in
      ok (record s { deliveries = delete_first target s.deliveries })

  pub remove_entry : Memory B → String → ℕ → Memory B
  unfolding entries_of
  remove_entry s id version =
      let cur = entries_of s id in
      let (i, found) = binary_search cur version in
      if found then record s { streams = Dict.put s.streams id (delete_at cur i) } else s

-- The closures that a transaction records to undo its writes.
pub data Undo {ℓ} (B : Type ℓ) : Type ℓ where
  removes_entry : String → ℕ → Undo B
  restores_stream : String → List (Entry B) → Undo B
  restores_deliveries : List Delivery → Undo B
  deletes_receipt : String → Undo B

-- memoryTx: the store that it writes to, and its undo log, oldest first.
pub record MemoryTx {ℓ} (B : Type ℓ) : Type ℓ where
  pub store : Memory B
  pub undo : List (Undo B)

-- A method of the transaction: its error, if any, and what it leaves.
abbrev pub Reply {ℓ} : Type ℓ → Type ℓ
Reply B = Option Error × MemoryTx B

module _ {ℓ} {B : Type ℓ} where
  pub run_undo : Undo B → Memory B → Memory B
  unfolding remove_entry
  run_undo (removes_entry id version) s = remove_entry s id version
  run_undo (restores_stream id old) s = record s { streams = Dict.put s.streams id old }
  run_undo (restores_deliveries old) s = record s { deliveries = old }
  run_undo (deletes_receipt command_id) s = record s {
    receipts = Dict.remove s.receipts command_id;
  }

  -- The loop of `rollback`: from the last closure to the first.
  pub run_undos : List (Undo B) → Memory B → Memory B
  unfolding run_undo
  run_undos [] s = s
  run_undos (u ∷ us) s = run_undo u (run_undos us s)

  pub rollback : MemoryTx B → MemoryTx B
  unfolding run_undos
  rollback t = record { store = run_undos t.undo t.store; undo = [] }

  unfoldable pub append_fresh : MemoryTx B → String → ℕ → B → Reply B
  unfolding entries_of
  append_fresh t id version blob =
      let s = t.store in
      let entries = entries_of s id in
      let (idx, found) = binary_search entries version in
      let entry : Entry B = record { version = version; blob = blob } in
      if found then (some (note (sentinel err_pipeline_failed) "version conflict"), t) else (
        none,
        record {
          store = record s { streams = Dict.put s.streams id (insert_at entries idx entry) };
          undo = t.undo ++ removes_entry id version ∷ [];
        },
      )

  -- memoryTx.Append: an error that SetError scheduled is consumed.
  unfoldable pub append : Ctx → MemoryTx B → String → ℕ → B → Reply B
  unfolding append_fresh
  append (some e) t id version blob = (some e, t)
  append none t id version blob = elim (Dict.get t.store.err_on id) [
    | some e ↦
        (some e, record t { store = record (t.store) { err_on = Dict.remove t.store.err_on id } })
    | none ↦ append_fresh t id version blob
  ]

  pub delete_stream : Ctx → MemoryTx B → String → Reply B
  delete_stream (some e) t id = (some e, t)
  delete_stream none t id =
      let s = t.store in
      let s' = record s { streams = Dict.remove s.streams id } in
      elim (Dict.get s.streams id) [
        | none ↦ (none, record t { store = s' })
        | some old ↦ (none, record { store = s'; undo = t.undo ++ restores_stream id old ∷ [] })
      ]

  pub drop_deliveries : Ctx → MemoryTx B → String → Reply B
  drop_deliveries (some e) t aggregate_id = (some e, t)
  drop_deliveries none t aggregate_id =
      let s = t.store in
      let kept = keep_if (λ d. not (d.aggregate_id == aggregate_id)) s.deliveries in
      (
        none,
        record {
          store = record s { deliveries = kept };
          undo = t.undo ++ restores_deliveries s.deliveries ∷ [];
        },
      )

  unfoldable pub put_receipt : Ctx → MemoryTx B → String → Receipt → Reply B
  put_receipt (some e) t command_id r = (some e, t)
  put_receipt none t command_id r =
      let s = t.store in
      elim (Dict.get s.receipts command_id) [
        | some _ ↦ (some (note (sentinel err_duplicate_receipt) command_id), t)
        | none ↦ (
          none,
          record {
            store = record s { receipts = Dict.put s.receipts command_id r };
            undo = t.undo ++ deletes_receipt command_id ∷ [];
          },
        )
      ]

  pub enqueue_delivery : Ctx → MemoryTx B → String → ℕ → Reply B
  enqueue_delivery (some e) t aggregate_id version = (some e, t)
  enqueue_delivery none t aggregate_id version =
      let s = t.store in
      let d : Delivery = record { aggregate_id = aggregate_id; version = version } in
      (
        none,
        record {
          store = record s { deliveries = s.deliveries ++ d ∷ [] };
          undo = t.undo ++ restores_deliveries s.deliveries ∷ [];
        },
      )
