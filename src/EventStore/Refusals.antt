-- ===== src/EventStore/Refusals.antt =====
-- Writes that fail, and reads that a Forget overtakes.
use asynx.Base.{
  ℕ, String, List, ◌≢◌, Option, ◌≡◌, some, inr, [], none, false, ◌∷◌, sym, inl, if_cases, refl,
  Option-cases, true, ◌+◌,
}
use asynx.Store.Snapshots
use asynx.Store.Snapshots.{Snapshots}
use asynx.EventStore.Codec.{Codec, InternalEvent, events_of}
use asynx.EventStore.Replayer.{Replayer, HydrateResult, hydrate}
use asynx.EventStore.Writer.{
  Written, World, commit, write_tx, wrote, append_tx, WriteCtxs, refused, Stamp, Command, TxHook,
  panicking, build_event, or_zero, current_of, written,
}
use asynx.Store.Memory.Transaction.{atomically, Outcome, run_program, committed, failed, panicked}
use asynx.EventStore.Reader.{
  stream_holds, save_upcasted, finish_load, Saver, Ctxs, deserialize_events, hydrate_from,
  cold_path, load, holds_lock, warm_path, guarded, loaded, unguarded, last_event,
}
use asynx.Store.Memory.{read_range, Memory, entries_from, Ctx, to_blobs, entries_of, read_from}
use asynx.Store.Memory.Rollback.{SameContents, atomically_rolls_back, SameContents-refl}
use asynx.Models.Errors.{Result, Error, fail, Result-cases, ok}
use asynx.Models.Records.{Event}
use mathlib.Core.Path.{subst}

module _ {T J P D : Type 0} (c : Codec T J P D) (r : Replayer T) where
  abbrev pub Unwritten : Written T × World D → Memory D → Type 0
  Unwritten (wrote evt, w') s = Unit
  Unwritten (refused e, w') s = SameContents w'.store s
  Unwritten (panicking, w') s = SameContents w'.store s

  commit_ends :
      (w : World D) (o : Outcome) (s : Memory D) (built : Result (D × Event T))
      → (o ≢ committed → SameContents s w.store)
      → ((e : Error) → built ≡ fail e → o ≢ committed)
      → Unwritten (written c r o built, record w { store = s }) w.store
  commit_ends w committed s (ok (blob, evt)) h k = tt
  commit_ends w committed s (fail e) h k = absurd (k e refl refl)
  commit_ends w (failed e) s built h k = h (λ p. cc p)
  commit_ends w panicked s built h k = h (λ p. cc p)

  -- An event that could not be built is not committed.
  unbuilt :
      (begin at_append : Ctx) (hook : TxHook T D) (e : Error) (s : Memory D)
      → (atomically begin (append_tx c r at_append hook (fail e)) s).0 ≢ committed
  unfolding atomically append_tx run_program
  unbuilt (some x) at_append hook e s p = cc p
  unbuilt none at_append hook e s p = cc p

  commit-Unwritten :
      (ctxs : WriteCtxs) (stamp : Stamp) (w : World D) (cmd : Command T) (hook : TxHook T D)
      (current : Option T) (n : ℕ)
      → Unwritten (commit c r ctxs stamp w cmd hook current n) w.store
  unfolding commit
  commit-Unwritten ctxs stamp w cmd hook current n =
      let built =
        build_event c r stamp cmd.aggregate_id cmd.event_name n (or_zero c r current)
          (cmd.emit_event current) in
      let p = append_tx c r ctxs.at_append hook built in
      commit_ends w _ _ built (atomically_rolls_back ctxs.at_begin p w.store) (λ e b.
        subst
          (λ x.
            (atomically ctxs.at_begin (append_tx c r ctxs.at_append hook x) w.store).0 ≢ committed)
          (sym b) (unbuilt ctxs.at_begin ctxs.at_append hook e w.store))

  -- When WriteTx returns no event, because the load failed, the command did not validate, the event
  -- could not be encoded, the store refused it, or the hook failed or panicked, then the streams,
  -- the receipts and the pending deliveries are as they were.
  pub write_tx_refuses :
      (ctxs : WriteCtxs) (stamp : Stamp) (w : World D) (cmd : Command T) (hook : TxHook T D)
      → Unwritten (write_tx c r ctxs stamp w cmd hook) w.store
  unfolding write_tx
  write_tx_refuses ctxs stamp w cmd hook =
      let q = load c r holds_lock ctxs.loading w.store w.store w.snaps cmd.aggregate_id in
      elim (Result-cases (current_of c r q.result)) [
        | inr (e, bad) ↦ rw (write_tx, bad) (SameContents-refl w.store)
        | inl ((current, n), good) ↦ elim (Option-cases (cmd.validate current)) [
          | inr (e, refuses) ↦ rw (write_tx, good, refuses) (SameContents-refl w.store)
          | inl valid ↦
              rw (write_tx, good, valid)
                (commit-Unwritten ctxs stamp (record w { snaps = q.snaps }) cmd hook current n)
        ]
      ]

  not_held :
      (ctx : Ctx) (later : Memory D) (agg : String) (version : ℕ) (id : String)
      → entries_of later (events_of agg) ≡ []
      → stream_holds c r ctx later agg version id ≡ false
  unfolding stream_holds read_range entries_from deserialize_events to_blobs
  not_held (some e) later agg version id nothing = refl
  not_held none later agg version id nothing = rw nothing refl

  saves_nothing :
      (saver : Saver) (ctxs : Ctxs) (later : Memory D) (snaps : Snapshots D) (agg : String)
      (h : HydrateResult T) (id : String)
      → saver ≢ holds_lock
      → entries_of later (events_of agg) ≡ []
      → save_upcasted c r saver ctxs later snaps agg h id ≡ snaps
  unfolding save_upcasted
  saves_nothing holds_lock ctxs later snaps agg h id free nothing = absurd (free refl)
  saves_nothing unguarded ctxs later snaps agg h id free nothing =
      rw (not_held ctxs.at_check later agg h.last_version id nothing) refl
  saves_nothing (guarded true) ctxs later snaps agg h id free nothing =
      rw (not_held ctxs.at_check later agg h.last_version id nothing) refl
  saves_nothing (guarded false) ctxs later snaps agg h id free nothing = refl

  finish-saves_nothing :
      (saver : Saver) (ctxs : Ctxs) (later : Memory D) (snaps : Snapshots D) (agg : String)
      (start : ℕ) (events : List InternalEvent) (h : HydrateResult T)
      → saver ≢ holds_lock
      → entries_of later (events_of agg) ≡ []
      → (finish_load c r saver ctxs later snaps agg start events h).1 ≡ snaps
  unfolding finish_load
  finish-saves_nothing saver ctxs later snaps agg start [] h free nothing = refl
  finish-saves_nothing saver ctxs later snaps agg start (evt ∷ events) h free nothing =
      if_cases (λ s. s ≡ snaps) h.did_upcast
        (λ _. saves_nothing saver ctxs later snaps agg h (last_event evt events).id free nothing)
        (λ _. refl)

  hydrate_from-saves_nothing :
      (saver : Saver) (ctxs : Ctxs) (later : Memory D) (snaps : Snapshots D) (agg : String)
      (start : ℕ) (seed : T) (blobs : List D)
      → saver ≢ holds_lock
      → entries_of later (events_of agg) ≡ []
      → (loaded c r snaps (hydrate_from c r saver ctxs later snaps agg start seed blobs)).snaps
        ≡ snaps
  unfolding hydrate_from
  hydrate_from-saves_nothing saver ctxs later snaps agg start seed blobs free nothing =
      elim (Result-cases (deserialize_events c r blobs)) [
        | inr (e, bad) ↦ rw bad refl
        | inl (events, good) ↦ elim (Result-cases (hydrate c r seed events)) [
          | inr (e, bad) ↦ rw (good, bad) refl
          | inl (h, runs) ↦
              rw (good, runs)
                (finish-saves_nothing saver ctxs later snaps agg start events h free nothing)
        ]
      ]

  cold-saves_nothing :
      (saver : Saver) (ctxs : Ctxs) (store later : Memory D) (snaps : Snapshots D) (agg : String)
      → saver ≢ holds_lock
      → entries_of later (events_of agg) ≡ []
      → (cold_path c r saver ctxs store later snaps agg).snaps ≡ snaps
  unfolding cold_path
  cold-saves_nothing saver ctxs store later snaps agg free nothing =
      elim (Result-cases (read_from ctxs.at_read store (events_of agg) 1)) [
        | inr (e, bad) ↦ rw bad refl
        | inl ([], good) ↦ rw good refl
        | inl (blob ∷ blobs, good) ↦ rw good (
            hydrate_from-saves_nothing saver ctxs later snaps agg 0 r.zero_value (blob ∷ blobs) free
              nothing)
      ]

  -- A read that does not hold the aggregate's lock, and that finds the stream erased when it checks
  -- it before saving, leaves the snapshots as they are, whatever it has read before.
  pub erased_read_saves_nothing :
      (saver : Saver) (ctxs : Ctxs) (store later : Memory D) (snaps : Snapshots D) (agg : String)
      → saver ≢ holds_lock
      → entries_of later (events_of agg) ≡ []
      → (load c r saver ctxs store later snaps agg).snaps ≡ snaps
  unfolding load warm_path
  erased_read_saves_nothing saver ctxs store later snaps agg free nothing =
      elim (Result-cases (Snapshots.get ctxs.at_get snaps agg)) [
        | inr (e, bad) ↦ rw (load, bad) refl
        | inl (none, good) ↦
            rw (load, good) (cold-saves_nothing saver ctxs store later snaps agg free nothing)
        | inl (some blob, good) ↦ elim (Result-cases (c.decode_snapshot blob)) [
          | inr (e, bad) ↦
              rw (load, good, bad)
                (cold-saves_nothing saver ctxs store later snaps agg free nothing)
          | inl (snap, read) ↦
              rw (load, good, read)
                (elim (Result-cases
                  (read_from ctxs.at_read store (events_of agg) (snap.version + 1))) [
                    | inr (e, bad) ↦ rw (warm_path, bad) refl
                    | inl (blobs, found) ↦
                        rw (warm_path, found)
                          (hydrate_from-saves_nothing saver ctxs later snaps agg snap.version
                            snap.state blobs free nothing)
                  ])
        ]
      ]
