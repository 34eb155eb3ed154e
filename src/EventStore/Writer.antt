-- ===== src/EventStore/Writer.antt =====
-- internal/eventstore/writer/writer.go, and the operations of eventstore.go that write.
use asynx.Base.{ℕ, String, Option, Bool, some, if◌then◌else◌, none, ◌+◌}
use asynx.Store.Snapshots
use asynx.Store.Snapshots.{Snapshots}
use asynx.Store.Memory.Transaction.{
  Program, Outcome, calls, appends, returns, atomically, committed, failed, panicked,
  deletes_stream,
}
use asynx.Store.Memory.{Memory, Ctx}
use asynx.EventStore.Reader.{Ctxs, load, write_auto_snapshot, holds_lock}
use asynx.Models.Records.{Event}
use asynx.EventStore.Codec.{Codec, events_of}
use asynx.Models.Errors.{err_not_found, Error, Result, fail, ok, ◌>>=◌, sentinel}
use asynx.EventStore.Replayer.{Replayer}

-- models.Command
pub record Command (T : Type 0) : Type 0 where
  pub aggregate_id : String
  pub event_name : String
  pub should_snapshot : Bool
  pub validate : Option T → Option Error
  pub emit_event : Option T → T

-- What NewID and time.Now give.
pub record Stamp : Type 0 where
  pub id : String
  pub now : ℕ

-- Both backing stores.
pub record World (D : Type 0) : Type 0 where
  pub store : Memory D
  pub snaps : Snapshots D

-- The work that commits with the event; `none` is a nil hook.
abbrev pub TxHook : Type 0 → Type 0 → Type 0
TxHook T D = Option (Event T → Program D)

-- The context at the transaction, and at Append.
pub record WriteCtxs : Type 0 where
  pub loading : Ctxs
  pub at_begin : Ctx
  pub at_append : Ctx

-- What is reported of a transaction; a panic of the hook goes on to the caller.
pub data Written (T : Type 0) : Type 0 where
  wrote : Event T → Written T
  refused : Error → Written T
  panicking : Written T

module _ {T J P D : Type 0} (c : Codec T J P D) (r : Replayer T) where
  -- The event of AppendTx, and its bytes.
  unfoldable pub build_event :
      Stamp
      → String
      → String
      → (expected_version : ℕ) → (previous_state new_state : T) → Result (D × Event T)
  build_event stamp aggregate_id event_name expected_version previous_state new_state =
      let version = expected_version + 1 in
      c.compare previous_state new_state >>= λ patch. c.marshal_patch patch >>= λ patches.
      c.encode_event (record {
        id = stamp.id;
        event_name = event_name;
        version = version;
        schema_version = r.current_schema_version;
        occurred_at = stamp.now;
        patches = patches;
      })
      >>= λ blob. ok (
        blob,
        record {
          id = stamp.id;
          aggregate_id = aggregate_id;
          event_name = event_name;
          version = version;
          schema_version = r.current_schema_version;
          occurred_at = stamp.now;
          aggregate = new_state;
          previous_aggregate = previous_state;
        },
      )

  abbrev pub run_hook : TxHook T D → Event T → Option Error → Program D
  run_hook hook evt (some e) = returns (some e)
  run_hook none evt none = returns none
  run_hook (some h) evt none = h evt

  -- AppendTx and then the hook, in one transaction.
  unfoldable pub append_tx : Ctx → TxHook T D → Result (D × Event T) → Program D
  append_tx ctx hook (fail e) = returns (some e)
  append_tx ctx hook (ok (blob, evt)) =
      calls (appends ctx (events_of evt.aggregate_id) evt.version blob) (run_hook hook evt)

  abbrev pub written : Outcome → Result (D × Event T) → Written T
  written committed (ok (blob, evt)) = wrote evt
  written committed (fail e) = refused e
  written (failed e) built = refused e
  written panicked built = panicking

  -- The version that a load found and the state, if any; `err != ErrNotFound` compares values.
  abbrev pub current_of : Result (T × ℕ) → Result (Option T × ℕ)
  current_of (ok (state, version)) = ok (some state, version)
  current_of (fail (sentinel err_not_found)) = ok (none, 0)
  current_of (fail e) = fail e

  abbrev pub or_zero : Option T → T
  or_zero none = r.zero_value
  or_zero (some a) = a

  unfoldable pub commit :
      WriteCtxs → Stamp → World D → Command T → TxHook T D → Option T → ℕ → Written T × World D
  unfolding build_event append_tx
  commit ctxs stamp w cmd hook current version =
      let built =
        build_event stamp cmd.aggregate_id cmd.event_name version (or_zero current)
          (cmd.emit_event current) in
      let done = atomically ctxs.at_begin (append_tx ctxs.at_append hook built) w.store in
      (written done.0 built, record w { store = done.1 })

  unfoldable pub write_tx :
      WriteCtxs → Stamp → World D → Command T → TxHook T D → Written T × World D
  unfolding commit
  write_tx ctxs stamp w cmd hook =
      let l = load c r holds_lock ctxs.loading w.store w.store w.snaps cmd.aggregate_id in
      let w' = record w { snaps = l.snaps } in
      elim (current_of l.result) [
        | fail e ↦ (refused e, w')
        | ok (current, version) ↦ elim (cmd.validate current) [
          | some e ↦ (refused e, w')
          | none ↦ commit ctxs stamp w' cmd hook current version
        ]
      ]

  -- Writer.Snapshot
  unfoldable pub snapshot : Ctx → World D → Event T → Option Error × World D
  snapshot ctx w evt =
      let done = write_auto_snapshot c r ctx w.snaps evt.aggregate_id evt.version evt.aggregate in
      (done.0, record w { snaps = done.1 })

  abbrev and_snapshot : Ctx → Command T → Written T × World D → Written T × World D
  and_snapshot ctx cmd (wrote evt, w) =
      let done = snapshot ctx w evt in
      if cmd.should_snapshot
      then (elim done.0 [ none ↦ wrote evt | some e ↦ refused e ], done.1)
      else (wrote evt, w)
  and_snapshot ctx cmd (outcome, w) = (outcome, w)

  -- EventStore.Write
  write : WriteCtxs → Ctx → Stamp → World D → Command T → Written T × World D
  unfolding write_tx snapshot
  write ctxs at_snapshot stamp w cmd = and_snapshot at_snapshot cmd (write_tx ctxs stamp w cmd none)

  delete_snapshot : Ctx → World D → String → Option Error × World D
  delete_snapshot ctx w aggregate_id =
      let done = Snapshots.delete ctx w.snaps aggregate_id in (done.0, record w { snaps = done.1 })

  -- EventStore.Delete, with the contexts of its three calls
  pub delete : Ctx → Ctx → Ctx → World D → String → Outcome × World D
  unfolding delete_snapshot
  delete at_begin at_stream at_snapshot w aggregate_id =
      let erased =
        atomically at_begin (calls (deletes_stream at_stream (events_of aggregate_id)) returns)
          w.store in
      let w' = record w { store = erased.1 } in
      elim erased.0 [
        | committed ↦
            let done = delete_snapshot at_snapshot w' aggregate_id in
            (elim done.0 [ none ↦ committed | some e ↦ failed e ], done.1)
        | outcome ↦ (outcome, w')
      ]
