-- ===== src/Tests/Codecs.antt =====
-- A codec for an aggregate that is one flag: every document is the state that it shows.
use asynx.Base.{Bool, ◌≡◌, String, ◌==◌, sym, true, false, ap, refl, string_eq}
use asynx.EventStore.Codec.{Codec, Laws, InternalEvent, SnapshotBlob, is_no_op}
use asynx.Models.Errors.{Error, Result, ok, external, fail}
use mathlib.Core.Path.{subst}

pub data Stored : Type 0 where
  stored_event : InternalEvent → Stored
  stored_snapshot : SnapshotBlob Bool → Stored

abbrev corrupt : Error
corrupt = external "unexpected end of JSON input"

abbrev as_event : Stored → Result InternalEvent
as_event (stored_event e) = ok e
as_event (stored_snapshot s) = fail corrupt

abbrev as_snapshot : Stored → Result (SnapshotBlob Bool)
as_snapshot (stored_event e) = fail corrupt
as_snapshot (stored_snapshot s) = ok s

abbrev pub replaces : Bool → String
replaces true = "[{\"op\":\"replace\",\"path\":\"\",\"value\":true}]"
replaces false = "[{\"op\":\"replace\",\"path\":\"\",\"value\":false}]"

abbrev pub flag_codec : Codec Bool Bool Bool Stored
flag_codec = record {
  marshal = ok;
  unmarshal = ok;
  compare = λ a b. ok b;
  marshal_patch = λ p. ok (replaces p);
  decode_patch = λ s. ok (s == replaces true);
  apply = λ p j. ok p;
  encode_event = λ e. ok (stored_event e);
  decode_event = as_event;
  encode_snapshot = λ s. ok (stored_snapshot s);
  decode_snapshot = as_snapshot;
}

replaces-busy : (p : Bool) → is_no_op (replaces p) ≡ false
replaces-busy true = refl
replaces-busy false = refl

decode-replaces : (p : Bool) → (replaces p == replaces true) ≡ p
decode-replaces true = refl
decode-replaces false = refl

same_ok {ℓ} : {A : Type ℓ} {a b : A} → ok a ≡ ok b → a ≡ b
same_ok h = cc h

pub flag_laws : Laws flag_codec
flag_laws = record {
  Encodes = λ j a. j ≡ a;
  marshal_encodes = λ a j h. sym (same_ok h);
  unmarshal_encoded = λ a j h. ap ok h;
  same_document = λ a b p s j h k idle e. cc (same_ok k, replaces-busy p, idle);
  patched = λ a b p s j h k busy e.
      (b, b, rw (sym (same_ok k), sym (same_ok h)) (ap ok (decode-replaces b)), refl, refl);
  event_read_back = λ e d h. subst (λ x. as_event x ≡ ok e) (same_ok h) refl;
  snapshot_read_back = λ s d h. subst (λ x. as_snapshot x ≡ ok s) (same_ok h) refl;
}
