-- ===== src/Tests/EventStores.antt =====
-- The event store, on an aggregate that is one flag.
use asynx.Base.Dict
use asynx.Base.{
  Bool, false, none, true, ◌≡◌, refl, some, [], ◌∷◌, String, List, string_eq, if_cases, ◌==◌, arith,
}
use asynx.Store.Snapshots
use asynx.Store.Snapshots.{Snapshots}
use asynx.Store.Memory.{new, entries_of, or_nil}
use asynx.EventStore.Replayer.{Replayer}
use asynx.EventStore.Writer.{World, WriteCtxs, Command, Stamp, write_tx, wrote}
use asynx.EventStore.Reader.{Ctxs, load, unguarded, guarded}
use asynx.Store.Memory.Order.{IsOrdered, new-IsOrdered, Above}
use asynx.EventStore.Writing.{Encoded, Quiet, Encoded-Records}
use asynx.Store.Memory.Transaction.{run_program}
use asynx.Tests.Codecs.{Stored, flag_laws, flag_codec, replaces, stored_event}
use asynx.EventStore.RoundTrip.{event_of, write_then_load}
use asynx.Models.Errors.{ok, sentinel, err_validation}
use asynx.EventStore.Codec.{events_of}
use asynx.EventStore.Marking.{Holds}
use asynx.EventStore.Loading.{Finds, load_lem}
use asynx.EventStore.Refusals.{Unwritten, erased_read_saves_nothing, write_tx_refuses}
use asynx.Store.Memory.Slices.{Entry}

abbrev pub flag_replayer : Replayer Bool
flag_replayer = record { upcasters = Dict.empty; current_schema_version = 2; zero_value = false }

abbrev pub blank : World Stored
blank = record { store = new; snaps = Snapshots.new }

abbrev calm : Ctxs
calm = record { at_get = none; at_read = none; at_check = none; at_put = none }

abbrev pub calm_write : WriteCtxs
calm_write = record { loading = calm; at_begin = none; at_append = none }

abbrev pub raise_flag : Command Bool
raise_flag = record {
  aggregate_id = "flag-1";
  event_name = "raised";
  should_snapshot = true;
  validate = λ current. none;
  emit_event = λ current. true;
}

abbrev pub stamp_1 : Stamp
stamp_1 = record { id = "event-1"; now = 1700000000 }

pub all_marshal : (a : Bool) → (j : Bool) × (flag_codec.marshal a ≡ ok j)
all_marshal a = (a, refl)

pub blank-IsOrdered : IsOrdered blank.store
blank-IsOrdered = new-IsOrdered

pub blank-nothing : entries_of blank.store (events_of "flag-1") ≡ []
unfolding entries_of new
blank-nothing = rw (Dict.get-empty {K = String} {V = List (Entry Stored)} (events_of "flag-1")) refl

pub blank-missing : Dict.get blank.snaps.snaps "flag-1" ≡ none
unfolding Snapshots.new
blank-missing = Dict.get-empty "flag-1"

pub blank-clear : Dict.get blank.store.err_on (events_of "flag-1") ≡ none
unfolding new
blank-clear = Dict.get-empty (events_of "flag-1")

pub raise_flag-Encoded : Encoded flag_laws flag_replayer stamp_1 "raised" 0 false true
raise_flag-Encoded = record {
  patch = true;
  patches = replaces true;
  blob = stored_event (record {
    id = "event-1";
    event_name = "raised";
    version = 1;
    schema_version = 2;
    occurred_at = 1700000000;
    patches = replaces true;
  });
  compared = refl;
  marshalled = refl;
  encoded = refl;
}

no_hook-Quiet :
    Quiet flag_laws flag_replayer blank.store raise_flag-Encoded.blob none
      (event_of flag_laws flag_replayer stamp_1 raise_flag none 0)
unfolding run_program
no_hook-Quiet = (refl, refl)

write_then_load_example :
    let done = write_tx flag_codec flag_replayer calm_write stamp_1 blank raise_flag none in
    (done.0 ≡ wrote (event_of flag_laws flag_replayer stamp_1 raise_flag none 0))
    × ((load flag_codec flag_replayer unguarded calm done.1.store done.1.store done.1.snaps
          "flag-1").result
        ≡ ok (true, 1))
write_then_load_example =
    write_then_load flag_laws flag_replayer calm_write stamp_1 blank raise_flag none none 0
      unguarded calm
      (write_tx flag_codec flag_replayer calm_write stamp_1 blank raise_flag none).1.store
      all_marshal ((refl, refl), refl, refl, (refl, refl)) blank-IsOrdered blank-clear
      (refl, blank-nothing, blank-missing) refl raise_flag-Encoded no_hook-Quiet

-- The stores after the write: one event, and no snapshot.
abbrev pub raised : World Stored
raised = record {
  store = record {
    streams =
        Dict.put Dict.empty (events_of "flag-1")
          (record { version = 1; blob = raise_flag-Encoded.blob } ∷ []);
    receipts = Dict.empty;
    deliveries = [];
    err_on = Dict.empty;
  };
  snaps = Snapshots.new;
}

raised-entries :
    entries_of raised.store (events_of "flag-1")
    ≡ record { version = 1; blob = raise_flag-Encoded.blob } ∷ []
unfolding entries_of
raised-entries =
    rw
      (Dict.get-put (Dict.empty {V = List (Entry Stored)}) (events_of "flag-1") (events_of "flag-1")
        _)
      refl

pub raised-IsOrdered : IsOrdered raised.store
unfolding entries_of
raised-IsOrdered = record {
  ascending = λ id.
      rw (Dict.get-put (Dict.empty {V = List (Entry Stored)}) (events_of "flag-1") id _) (
        if_cases (λ o. Above {B = Stored} 0 (or_nil o)) (events_of "flag-1" == id)
          (λ _. (omega arith, tt))
          (λ _. rw (Dict.get-empty {K = String} {V = List (Entry Stored)} id) tt));
}

pub raised-Holds : Holds flag_laws flag_replayer raised "flag-1" true 1
unfolding Snapshots.new
raised-Holds = record {
  chain = rw raised-entries (
    true,
    Encoded-Records flag_laws flag_replayer stamp_1 "raised" 0 false true raise_flag-Encoded,
    (refl, refl),
  );
  marked = λ blob snap there read. cc (there, Dict.get-empty {K = String} {V = Stored} "flag-1");
}

load_example :
    Finds flag_laws flag_replayer
      (load flag_codec flag_replayer
        (guarded true)
        calm
        raised.store
        blank.store
        raised.snaps
        "flag-1")
      "flag-1"
      (entries_of raised.store (events_of "flag-1"))
      true
      1
load_example =
    load_lem flag_laws flag_replayer (guarded true) calm blank.store raised "flag-1" true 0
      all_marshal (refl, refl) raised-IsOrdered raised-Holds

-- A command that its aggregate refuses.
abbrev refused_flag : Command Bool
refused_flag = record raise_flag { validate = λ current. some (sentinel err_validation) }

write_tx_refuses_example :
    Unwritten flag_codec flag_replayer
      (write_tx flag_codec flag_replayer calm_write stamp_1 raised refused_flag none)
      raised.store
write_tx_refuses_example =
    write_tx_refuses flag_codec flag_replayer calm_write stamp_1 raised refused_flag none

erased_read_example :
    (load flag_codec flag_replayer unguarded calm raised.store blank.store raised.snaps
      "flag-1").snaps
    ≡ raised.snaps
erased_read_example =
    erased_read_saves_nothing flag_codec flag_replayer unguarded calm raised.store blank.store
      raised.snaps "flag-1" (λ h. cc h) blank-nothing
