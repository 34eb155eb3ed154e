-- ===== src/EventStore/RoundTrip.antt =====
-- WriteTx and the loads that follow it.
use asynx.Base.Dict
use asynx.Base.{
  ℕ, String, Option, ◌≡◌, none, some, [], suc, string_eq, refl, inr, inl, Option-cases,
}
use asynx.EventStore.Codec.{Codec, Laws, events_of}
use asynx.EventStore.Replayer.{Replayer}
use asynx.EventStore.Writer.{
  World, write_tx, WriteCtxs, Stamp, Command, or_zero, TxHook, current_of, wrote, commit,
}
use asynx.Store.Memory.{to_blobs, Ctx, Memory, entries_of, read_from}
use asynx.EventStore.Reader.{load, Ctxs, cold_path, Saver, holds_lock}
use asynx.EventStore.Marking.{Holds}
use asynx.EventStore.Loading.{Clear, load_lem, get-clear}
use asynx.Store.Memory.Order.{IsOrdered, atomically-IsOrdered}
use asynx.Models.Errors.{ok, fail, sentinel, err_not_found, Result-cases}
use asynx.EventStore.Writing.{Encoded, Quiet, event_for, commit_lem}
use asynx.Store.Memory.Reads.{reads_lem}
use mathlib.Core.Path.{subst}
use asynx.EventStore.History.{Chain}
use asynx.Models.Records.{Event}

module _ {T J P D : Type 0} {c : Codec T J P D} (l : Laws c) (r : Replayer T) where
  -- What stands in the stores before a write: nothing of the aggregate, or its state and version.
  abbrev Stands : World D → String → Option T → ℕ → Type 0
  Stands w agg none n =
      (n ≡ 0) × (entries_of w.store (events_of agg) ≡ []) × (Dict.get w.snaps.snaps agg ≡ none)
  Stands w agg (some b) n = (m : ℕ) × (n ≡ suc m) × Holds l r w agg b n

  Stands-Holds :
      (w : World D) (agg : String) (current : Option T) (n : ℕ)
      → Stands w agg current n
      → Holds l r w agg (or_zero c r current) n
  Stands-Holds w agg none n (z, nothing, missing) = record {
    chain = rw (nothing, z) (refl, refl);
    marked = λ blob snap there read. cc (missing, there);
  }
  Stands-Holds w agg (some b) n (m, e, h) = h

  read-nothing :
      (ctx : Ctx) (s : Memory D) (id : String)
      → ctx ≡ none
      → entries_of s id ≡ []
      → IsOrdered s
      → read_from ctx s id 1 ≡ ok []
  unfolding to_blobs
  read-nothing ctx s id clear nothing v = rw (clear, (reads_lem s id 1 0 v).0, nothing) refl

  load-nothing :
      (saver : Saver) (ctxs : Ctxs) (later : Memory D) (w : World D) (agg : String)
      → Clear l r ctxs
      → IsOrdered w.store
      → Stands w agg none 0
      → load c r saver ctxs w.store later w.snaps agg
        ≡ record { result = fail (sentinel err_not_found); snaps = w.snaps; corruptions = [] }
  unfolding load cold_path
  load-nothing saver ctxs later w agg (get_clear, read_clear) v (_, nothing, missing) =
      rw
        (
          load,
          get-clear l r ctxs.at_get w.snaps agg get_clear,
          missing,
          read-nothing ctxs.at_read w.store (events_of agg) read_clear nothing v,
        )
        refl

  -- The load of WriteTx finds what stands, and what it saves keeps that so.
  load-Stands :
      (ctxs : Ctxs) (w : World D) (agg : String) (current : Option T) (n : ℕ)
      → ((a : T) → (j : J) × (c.marshal a ≡ ok j))
      → Clear l r ctxs
      → IsOrdered w.store
      → Stands w agg current n
      → let q = load c r holds_lock ctxs w.store w.store w.snaps agg in
        (current_of c r q.result ≡ ok (current, n))
        × Holds l r (record w { snaps = q.snaps }) agg (or_zero c r current) n
  load-Stands ctxs w agg none n marshals clear v (z, nothing, missing) =
      let e = load-nothing holds_lock ctxs w.store w agg clear v (refl, nothing, missing) in
      rw (e, z) (refl, Stands-Holds w agg none 0 (refl, nothing, missing))
  load-Stands ctxs w agg (some b) n marshals clear v (m, z, h) =
      let q =
        load_lem l r holds_lock ctxs w.store w agg b m marshals clear v
          (subst (Holds l r w agg b) z h) in
      rw (q.0, z)
        (
          refl,
          record {
            chain =
                subst (Chain l r 1 r.zero_value (entries_of w.store (events_of agg)) b) z h.chain;
            marked = q.1;
          },
        )

  pub write_tx_lem :
      (ctxs : WriteCtxs) (stamp : Stamp) (w : World D) (cmd : Command T) (hook : TxHook T D)
      (current : Option T) (n : ℕ)
      → ((a : T) → (j : J) × (c.marshal a ≡ ok j))
      → Clear l r ctxs.loading
      → (ctxs.at_begin ≡ none) × (ctxs.at_append ≡ none)
      → IsOrdered w.store
      → Dict.get w.store.err_on (events_of cmd.aggregate_id) ≡ none
      → Stands w cmd.aggregate_id current n
      → cmd.validate current ≡ none
      → (x : Encoded l r stamp cmd.event_name n (or_zero c r current) (cmd.emit_event current))
      → Quiet l r w.store x.blob hook (
          event_for l r stamp cmd.aggregate_id cmd.event_name n
            (or_zero c r current)
            (cmd.emit_event current))
      → let done = write_tx c r ctxs stamp w cmd hook in
        (done.0
          ≡ wrote (
              event_for l r stamp cmd.aggregate_id cmd.event_name n
                (or_zero c r current)
                (cmd.emit_event current)))
        × Holds l r done.1 cmd.aggregate_id (cmd.emit_event current) (suc n)
  unfolding write_tx
  write_tx_lem ctxs stamp w cmd hook current n marshals loads begins v clear stands valid x quiet =
      let q = load-Stands ctxs.loading w cmd.aggregate_id current n marshals loads v stands in
      let w' = record w {
        snaps = (load c r holds_lock ctxs.loading w.store w.store w.snaps cmd.aggregate_id).snaps;
      } in
      let done = commit_lem l r ctxs stamp w' cmd hook current n begins clear x quiet q.1 in
      rw (write_tx, q.0, valid) done

  commit-IsOrdered :
      (ctxs : WriteCtxs) (stamp : Stamp) (w : World D) (cmd : Command T) (hook : TxHook T D)
      (current : Option T) (n : ℕ)
      → IsOrdered w.store
      → IsOrdered (commit c r ctxs stamp w cmd hook current n).1.store
  unfolding commit
  commit-IsOrdered ctxs stamp w cmd hook current n v =
      atomically-IsOrdered ctxs.at_begin _ w.store v

  write_tx-IsOrdered :
      (ctxs : WriteCtxs) (stamp : Stamp) (w : World D) (cmd : Command T) (hook : TxHook T D)
      → IsOrdered w.store
      → IsOrdered (write_tx c r ctxs stamp w cmd hook).1.store
  unfolding write_tx
  write_tx-IsOrdered ctxs stamp w cmd hook v =
      let q = load c r holds_lock ctxs.loading w.store w.store w.snaps cmd.aggregate_id in
      elim (Result-cases (current_of c r q.result)) [
        | inr (e, bad) ↦ rw (write_tx, bad) v
        | inl ((current, n), good) ↦ elim (Option-cases (cmd.validate current)) [
          | inr (e, refuses) ↦ rw (write_tx, good, refuses) v
          | inl valid ↦
              rw (write_tx, good, valid)
                (commit-IsOrdered ctxs stamp (record w { snaps = q.snaps }) cmd hook current n v)
        ]
      ]

  -- The event of WriteTx on what stands in the stores.
  abbrev pub event_of : Stamp → Command T → Option T → ℕ → Event T
  event_of stamp cmd current n =
      event_for l r stamp cmd.aggregate_id cmd.event_name n (or_zero c r current)
        (cmd.emit_event current)

  -- A command that validates against what stands in the stores, written without a scheduled error,
  -- an error of the encoding or of the contexts, or a hook that fails or writes to the stream
  -- WriteTx returns its event at the next version, and every later load, by a reader or a command,
  -- warm or cold, returns the state that the command emitted, at that version.
  pub write_then_load :
      (ctxs : WriteCtxs) (stamp : Stamp) (w : World D) (cmd : Command T) (hook : TxHook T D)
      (current : Option T) (n : ℕ) (saver : Saver) (next : Ctxs) (later : Memory D)
      → ((a : T) → (j : J) × (c.marshal a ≡ ok j))
      → Clear l r ctxs.loading × (ctxs.at_begin ≡ none) × (ctxs.at_append ≡ none) × Clear l r next
      → IsOrdered w.store
      → Dict.get w.store.err_on (events_of cmd.aggregate_id) ≡ none
      → Stands w cmd.aggregate_id current n
      → cmd.validate current ≡ none
      → (x : Encoded l r stamp cmd.event_name n (or_zero c r current) (cmd.emit_event current))
      → Quiet l r w.store x.blob hook (event_of stamp cmd current n)
      → let done = write_tx c r ctxs stamp w cmd hook in
        (done.0 ≡ wrote (event_of stamp cmd current n))
        × ((load c r saver next done.1.store later done.1.snaps cmd.aggregate_id).result
            ≡ ok (cmd.emit_event current, suc n))
  write_then_load ctxs stamp w cmd hook current n saver next later marshals
        (loads, begins, appends', reads) v clear stands valid x quiet =
      let done =
        write_tx_lem ctxs stamp w cmd hook current n marshals loads (begins, appends') v clear
          stands valid x quiet in
      let w' = (write_tx c r ctxs stamp w cmd hook).1 in
      (
        done.0,
        (load_lem l r saver next later w' cmd.aggregate_id (cmd.emit_event current) n marshals reads
            (write_tx-IsOrdered ctxs stamp w cmd hook v) done.1).0,
      )
