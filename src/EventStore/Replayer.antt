-- ===== src/EventStore/Replayer.antt =====
-- internal/eventstore/replayer/replayer.go.
use asynx.Base.Dict
use asynx.Base.{
  ℕ, String, if◌then◌else◌, Bool, List, suc, ◌-◌, ◌∷◌, false, Option, ◌||◌, [], ltb, none, some,
  ◌&&◌, zero, leb, nat_eq, ◌==◌, is_empty,
}
use asynx.Base.Dict.{Dict}
use asynx.Models.Errors.{Result, ok, fail, ◌>>=◌, note, Error}
use asynx.EventStore.Codec.{Codec, InternalEvent, is_no_op, events_of}
use asynx.Models.Records.{Event}
use asynx.Store.Memory.{Ctx, Memory, read_from}

-- The event's name and its patches; nothing but the error of a context reaches it.
abbrev Upcaster : Type 0
Upcaster = String → String → Result String

pub record Replayer (T : Type 0) : Type 0 where
  pub upcasters : Dict ℕ Upcaster
  pub current_schema_version : ℕ
  pub zero_value : T

-- `fmt.Errorf("eventstore: upcaster %d failed: %w", v, err)`
abbrev upcaster_failed : Result String → Result String
upcaster_failed (ok s) = ok s
upcaster_failed (fail e) = fail (note e "eventstore: upcaster failed")

-- The loop of upcastInternalEvent from the version `v`, `steps` below the current one.
unfoldable pub upcast_from : Dict ℕ Upcaster → (steps v : ℕ) → InternalEvent → Result InternalEvent
upcast_from upcasters zero v evt = ok evt
upcast_from upcasters (suc steps) v evt = elim (Dict.get upcasters v) [
  | none ↦ upcast_from upcasters steps (suc v) evt
  | some upcaster ↦ upcaster_failed (upcaster evt.event_name evt.patches) >>= λ patches.
      upcast_from upcasters steps (suc v) (record evt { patches = patches; schema_version = suc v })
]

-- The variables of the loop of Hydrate.
pub record Progress (J : Type 0) : Type 0 where
  pub state_json : J
  pub upcasted : Bool
  pub last_version : ℕ

pub record HydrateResult (T : Type 0) : Type 0 where
  pub state : T
  pub did_upcast : Bool
  pub last_version : ℕ

-- The variables of the loop of Replay.
pub record Cursor (T J : Type 0) : Type 0 where
  pub current_json : J
  pub previous : T
  pub current_version : ℕ

module _ {T J P D : Type 0} (c : Codec T J P D) (r : Replayer T) where
  unfoldable pub upcast_internal_event : InternalEvent → Result InternalEvent
  unfolding upcast_from
  upcast_internal_event evt =
      upcast_from r.upcasters (r.current_schema_version - evt.schema_version) evt.schema_version evt

  unfoldable pub apply_patches_to_json : J → String → Result J
  apply_patches_to_json j patches =
      if is_no_op patches then ok j else c.decode_patch patches >>= λ p. c.apply p j

  unfoldable pub hydrate_events : List InternalEvent → Progress J → Result (Progress J)
  unfolding upcast_internal_event apply_patches_to_json
  hydrate_events [] p = ok p
  hydrate_events (evt ∷ events) p = upcast_internal_event evt >>= λ upcasted_evt.
      apply_patches_to_json p.state_json upcasted_evt.patches >>= λ j.
      hydrate_events events (record {
        state_json = j;
        upcasted = p.upcasted || ltb evt.schema_version r.current_schema_version;
        last_version = evt.version;
      })

  unfoldable pub hydrate : T → List InternalEvent → Result (HydrateResult T)
  unfolding hydrate_events
  hydrate seed [] = ok (record { state = seed; did_upcast = false; last_version = 0 })
  hydrate seed (evt ∷ events) = c.marshal seed >>= λ j.
      hydrate_events (evt ∷ events) (record { state_json = j; upcasted = false; last_version = 0 })
      >>= λ p. c.unmarshal p.state_json >>= λ current. ok (record {
        state = current;
        did_upcast = p.upcasted;
        last_version = if p.upcasted then p.last_version else 0;
      })

  abbrev public_event : String → InternalEvent → T → T → Event T
  public_event aggregate_id evt current previous = record {
    id = evt.id;
    aggregate_id = aggregate_id;
    event_name = evt.event_name;
    version = evt.version;
    schema_version = evt.schema_version;
    occurred_at = evt.occurred_at;
    aggregate = current;
    previous_aggregate = previous;
  }

  -- One turn of the loop: the event's public form and state.
  replay_event : String → D → Cursor T J → Result (Event T × J)
  unfolding upcast_internal_event apply_patches_to_json
  replay_event aggregate_id blob s = c.decode_event blob >>= λ evt.
      upcast_internal_event evt >>= λ up. apply_patches_to_json s.current_json up.patches >>= λ j.
      c.unmarshal j >>= λ current. ok (public_event aggregate_id up current s.previous, j)

  -- The events that `fn` is called with, and the error of Replay.
  replay_events :
      String → (from_version to_version : ℕ) → List D → Cursor T J → List (Event T) × Option Error
  unfolding replay_event
  replay_events aggregate_id from_version to_version [] s = ([], none)
  replay_events aggregate_id from_version to_version (blob ∷ blobs) s =
      elim (replay_event aggregate_id blob s) [
        | fail e ↦ ([], some e)
        | ok (evt, j) ↦
            let next = suc s.current_version in
            let rest =
              if ltb 0 to_version && ltb to_version next
              then ([], none)
              else replay_events aggregate_id from_version to_version blobs
                  (record { current_json = j; previous = evt.aggregate; current_version = next }) in
            if leb from_version s.current_version
              && (to_version == 0 || leb s.current_version to_version)
            then (evt ∷ rest.0, rest.1)
            else rest
      ]

  pub replay :
      Ctx → Memory D → String → (from_version to_version : ℕ) → List (Event T) × Option Error
  unfolding replay_events
  replay ctx store aggregate_id from_version to_version =
      elim (read_from ctx store (events_of aggregate_id) 1) [
        | fail e ↦ ([], some e)
        | ok blobs ↦ if is_empty blobs then ([], none) else elim (c.marshal r.zero_value) [
          | fail e ↦ ([], some e)
          | ok j ↦
              replay_events aggregate_id from_version to_version blobs
                (record { current_json = j; previous = r.zero_value; current_version = 1 })
        ]
      ]
