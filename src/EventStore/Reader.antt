-- ===== src/EventStore/Reader.antt =====
-- internal/eventstore/reader/reader.go. Each call of a store takes the context as it is then.
use asynx.Base.{
  ℕ, Bool, List, ◌∷◌, String, Option, [], some, ◌==◌, if◌then◌else◌, none, ◌&&◌, is_empty, ◌+◌, not,
  false, nat_eq, string_eq,
}
use asynx.Store.Snapshots
use asynx.Store.Snapshots.{Snapshots}
use asynx.Store.Memory.{Ctx, Memory, read_range, read_from}
use asynx.EventStore.Codec.{InternalEvent, Codec, SnapshotBlob, events_of}
use asynx.EventStore.Replayer.{Replayer, HydrateResult, hydrate}
use asynx.Models.Errors.{Result, ok, Error, fail, ◌>>=◌, is, sentinel, err_not_found}

-- The context at the calls of one load: of the snapshot store's Get, of ReadFrom, of the check of
-- the stream, and of Put.
pub record Ctxs : Type 0 where
  pub at_get : Ctx
  pub at_read : Ctx
  pub at_check : Ctx
  pub at_put : Ctx

-- Who saves the snapshot of an upcast state: a command, which holds the aggregate's lock; a read
-- without a guard; or a read with one, which says whether it ran the function.
pub data Saver : Type 0 where
  holds_lock : Saver
  unguarded : Saver
  guarded : Bool → Saver

abbrev pub last_event : InternalEvent → List InternalEvent → InternalEvent
last_event evt [] = evt
last_event evt (next ∷ events) = last_event next events

-- What `load` gives, with the snapshots that it leaves and the errors given to onCorruption.
pub record Loaded (T D : Type 0) : Type 0 where
  pub result : Result (T × ℕ)
  pub snaps : Snapshots D
  pub corruptions : List Error

module _ {T J P D : Type 0} (c : Codec T J P D) (r : Replayer T) where
  unfoldable pub deserialize_events : List D → Result (List InternalEvent)
  deserialize_events [] = ok []
  deserialize_events (blob ∷ blobs) =
      c.decode_event blob >>= λ evt. deserialize_events blobs >>= λ events. ok (evt ∷ events)

  unfoldable pub write_auto_snapshot :
      Ctx → Snapshots D → String → ℕ → T → Option Error × Snapshots D
  write_auto_snapshot ctx snaps aggregate_id version state =
      elim (c.encode_snapshot
        (record { version = version; schema_version = r.current_schema_version; state = state })) [
          | fail e ↦ (some e, snaps)
          | ok blob ↦ Snapshots.put ctx snaps aggregate_id blob
        ]

  abbrev is_event : ℕ → String → Result (List InternalEvent) → Bool
  is_event version event_id (ok (evt ∷ [])) = evt.version == version && evt.id == event_id
  is_event version event_id _ = false

  unfoldable pub stream_holds : Ctx → Memory D → String → ℕ → String → Bool
  unfolding deserialize_events
  stream_holds ctx store aggregate_id version event_id =
      is_event version event_id
        (read_range ctx store (events_of aggregate_id) version 1 >>= deserialize_events)

  -- `later` is the event store when the check reads it.
  unfoldable pub save_upcasted :
      Saver → Ctxs → Memory D → Snapshots D → String → HydrateResult T → String → Snapshots D
  unfolding write_auto_snapshot stream_holds
  save_upcasted saver ctxs later snaps aggregate_id result last_event_id =
      let saved =
        (write_auto_snapshot ctxs.at_put snaps aggregate_id result.last_version result.state).1 in
      let unchanged =
        stream_holds ctxs.at_check later aggregate_id result.last_version last_event_id in
      let if_unchanged = if unchanged then saved else snaps in
      elim saver [
        | holds_lock ↦ saved
        | unguarded ↦ if_unchanged
        | guarded ran ↦ if ran then if_unchanged else snaps
      ]

  -- The end of both paths: `start` is the version of an empty list of events.
  unfoldable pub finish_load :
      Saver
      → Ctxs
      → Memory D
      → Snapshots D
      → String
      → (start : ℕ) → List InternalEvent
      → HydrateResult T
      → (T × ℕ) × Snapshots D
  unfolding save_upcasted
  finish_load saver ctxs later snaps aggregate_id start [] h = ((h.state, start), snaps)
  finish_load saver ctxs later snaps aggregate_id start (evt ∷ events) h =
      let final = last_event evt events in
      (
        (h.state, final.version),
        if h.did_upcast
            then save_upcasted saver ctxs later snaps aggregate_id h final.id
            else snaps,
      )

  abbrev pub loaded : Snapshots D → Result ((T × ℕ) × Snapshots D) → Loaded T D
  loaded snaps (fail e) = record { result = fail e; snaps = snaps; corruptions = [] }
  loaded snaps (ok (state, snaps')) = record { result = ok state; snaps = snaps'; corruptions = [] }

  unfoldable pub hydrate_from :
      Saver
      → Ctxs
      → Memory D
      → Snapshots D
      → String
      → (start : ℕ) → T
      → List D
      → Result ((T × ℕ) × Snapshots D)
  unfolding finish_load
  hydrate_from saver ctxs later snaps aggregate_id start seed blobs =
      deserialize_events blobs >>= λ events. hydrate c r seed events >>= λ h.
      ok (finish_load saver ctxs later snaps aggregate_id start events h)

  unfoldable pub cold_path : Saver → Ctxs → Memory D → Memory D → Snapshots D → String → Loaded T D
  unfolding hydrate_from
  cold_path saver ctxs store later snaps aggregate_id = loaded snaps (
      read_from ctxs.at_read store (events_of aggregate_id) 1 >>= λ blobs.
      if is_empty blobs
      then fail (sentinel err_not_found)
      else hydrate_from saver ctxs later snaps aggregate_id 0 r.zero_value blobs)

  unfoldable pub warm_path :
      Saver → Ctxs → Memory D → Memory D → Snapshots D → String → SnapshotBlob T → Loaded T D
  unfolding hydrate_from
  warm_path saver ctxs store later snaps aggregate_id snap = loaded snaps (
      read_from ctxs.at_read store (events_of aggregate_id) (snap.version + 1) >>= λ blobs.
      hydrate_from saver ctxs later snaps aggregate_id snap.version snap.state blobs)

  -- Both paths report to onCorruption only that the snapshot could not be read.
  unfoldable pub load : Saver → Ctxs → Memory D → Memory D → Snapshots D → String → Loaded T D
  unfolding cold_path warm_path
  load saver ctxs store later snaps aggregate_id =
      elim (Snapshots.get ctxs.at_get snaps aggregate_id) [
        | fail e ↦ record { result = fail e; snaps = snaps; corruptions = [] }
        | ok none ↦ cold_path saver ctxs store later snaps aggregate_id
        | ok (some blob) ↦ elim (c.decode_snapshot blob) [
          | fail e ↦ record (cold_path saver ctxs store later snaps aggregate_id) {
            corruptions = e ∷ [];
          }
          | ok snap ↦ warm_path saver ctxs store later snaps aggregate_id snap
        ]
      ]

  exists : Ctx → Memory D → String → Result Bool
  exists ctx store aggregate_id =
      read_range ctx store (events_of aggregate_id) 1 1 >>= λ blobs. ok (not (is_empty blobs))

  abbrev not_missing : Result (T × ℕ) → Option Error
  not_missing (ok _) = none
  not_missing (fail e) = if is e err_not_found then none else some e

  preload : Saver → Ctxs → Memory D → Memory D → Snapshots D → String → Option Error × Snapshots D
  unfolding load
  preload saver ctxs store later snaps aggregate_id =
      let l = load saver ctxs store later snaps aggregate_id in (not_missing l.result, l.snaps)
