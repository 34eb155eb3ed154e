-- ===== src/EventStore/Codec.antt =====
-- internal/eventstore/models, and what the event store relies on of encoding/json, jsondiff and
-- json-patch: parameters, with their documented laws.
use Prim.Native.String.{◌++◌ as str_append}
use asynx.Base.{ℕ, String, ◌≡◌, Bool, ◌==◌, true, ◌||◌, false, string_eq}
use asynx.Models.Errors.{Result, ok}

pub record InternalEvent : Type 0 where
  pub id : String
  pub event_name : String
  pub version : ℕ
  pub schema_version : ℕ
  pub occurred_at : ℕ
  pub patches : String

pub record SnapshotBlob (T : Type 0) : Type 0 where
  pub version : ℕ
  pub schema_version : ℕ
  pub state : T

-- States `T`, their documents `J`, patches `P` and the stored bytes `D`.
pub record Codec (T J P D : Type 0) : Type 0 where
  pub marshal : T → Result J
  pub unmarshal : J → Result T
  pub compare : T → T → Result P
  pub marshal_patch : P → Result String
  pub decode_patch : String → Result P
  pub apply : P → J → Result J
  pub encode_event : InternalEvent → Result D
  pub decode_event : D → Result InternalEvent
  pub encode_snapshot : SnapshotBlob T → Result D
  pub decode_snapshot : D → Result (SnapshotBlob T)

-- applyPatchesToJSON: the patches that change nothing
abbrev pub is_no_op : String → Bool
is_no_op patches = patches == "" || patches == "null" || patches == "[]"

pub record Laws {T J P D : Type 0} (c : Codec T J P D) : Type 1 where
  -- The documents of a state.
  pub Encodes : J → T → Type 0
  pub marshal_encodes : (a : T) (j : J) → c.marshal a ≡ ok j → Encodes j a
  pub unmarshal_encoded : (a : T) (j : J) → Encodes j a → c.unmarshal j ≡ ok a
  -- An empty diff means that the states are equal as documents.
  pub same_document :
      (a b : T) (p : P) (s : String) (j : J)
      → c.compare a b ≡ ok p
      → c.marshal_patch p ≡ ok s
      → is_no_op s ≡ true
      → Encodes j a
      → Encodes j b
  -- RFC 6902: the diff of two states, applied to a document of the first, gives one of the second.
  pub patched :
      (a b : T) (p : P) (s : String) (j : J)
      → c.compare a b ≡ ok p
      → c.marshal_patch p ≡ ok s
      → is_no_op s ≡ false
      → Encodes j a
      → (q : P) × (j' : J) × (c.decode_patch s ≡ ok q) × (c.apply q j ≡ ok j') × Encodes j' b
  pub event_read_back :
      (e : InternalEvent) (d : D) → c.encode_event e ≡ ok d → c.decode_event d ≡ ok e
  pub snapshot_read_back :
      (s : SnapshotBlob T) (d : D) → c.encode_snapshot s ≡ ok d → c.decode_snapshot d ≡ ok s

-- "events:"+aggregateID
abbrev pub events_of : String → String
events_of aggregate_id = str_append "events:" aggregate_id
