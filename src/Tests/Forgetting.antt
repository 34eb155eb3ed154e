-- ===== src/Tests/Forgetting.antt =====
-- Forget of the flag that one event raised, without a dispatcher.
use asynx.Store.Memory.Transaction.{run_program}
use asynx.Processor.Hooks.{run_sync_projections, project}
use asynx.EventStore.RoundTrip.{write_tx_lem}
use asynx.Base.Dict
use asynx.Processor.Forget.{
  State, ForgetTurn, begin_forget, write_tombstone, forget_command, fenced_tombstone,
  commit_tombstone, delivered, forget, complete_forget, is_forgetting, tombstone_hook,
  supersede_deliveries, tombstone_ok, execute, rejected_run,
}
use asynx.EventStore.Writer.{Stamp, Command}
use asynx.Processor.Forget.Fences.{FenceAfter, forget_lifts_fence, execute_fenced}
use asynx.Processor.Forget.Erasing.{Completed, complete_forget_lem}
use asynx.Processor.Forget.Answers.{ErrorKnown, execute-ErrorKnown}
use asynx.EventStore.Writing.{Encoded}
use asynx.Base.{Bool, false, none, [], true, ◌≡◌, refl, String, some, string_eq}
use asynx.Tests.Codecs.{flag_codec, flag_laws, Stored, replaces, stored_event}
use asynx.Tests.EventStores.{
  flag_replayer, raised, calm_write, all_marshal, raised-IsOrdered, raised-Holds, stamp_1,
  raise_flag,
}
use asynx.Tests.Executing.{flag_executor, as_text, calm_run}
use asynx.Models.Records.{forget_event_name}
use asynx.EventStore.Codec.{events_of}
use asynx.Store.Memory.Transaction.{run_program}
use asynx.Processor.Hooks.{and_then}
use asynx.Models.Errors.{note, sentinel, err_forget_in_progress}

abbrev flag_state : State Bool Stored
flag_state = record { world = raised; forgetting = Dict.empty; told = [] }

abbrev calm_turn : ForgetTurn
calm_turn = record {
  in_handler = false;
  at_lock = none;
  writing = calm_write;
  at_drop = none;
  at_enqueue = none;
  final_wait = delivered;
  ticket_err = none;
}

abbrev stamp_2 : Stamp
stamp_2 = record { id = "event-2"; now = 1700000060 }

forget_lifts_fence_example :
    FenceAfter flag_codec flag_replayer flag_executor "flag-1" flag_state
      (forget flag_codec flag_replayer flag_executor calm_turn stamp_2 "flag-1" (λ s. s) flag_state)
forget_lifts_fence_example =
    forget_lifts_fence flag_codec flag_replayer flag_executor calm_turn stamp_2 "flag-1" (λ s. s)
      flag_state

complete_forget_lem_example :
    Completed flag_codec flag_replayer flag_executor calm_turn "flag-1" flag_state
      (complete_forget flag_codec flag_replayer flag_executor calm_turn "flag-1" flag_state)
complete_forget_lem_example =
    complete_forget_lem flag_codec flag_replayer flag_executor calm_turn "flag-1" flag_state

forget_flag-Encoded : Encoded flag_laws flag_replayer stamp_2 forget_event_name 1 true true
forget_flag-Encoded = record {
  patch = true;
  patches = replaces true;
  blob = stored_event (record {
    id = "event-2";
    event_name = forget_event_name;
    version = 2;
    schema_version = 2;
    occurred_at = 1700000060;
    patches = replaces true;
  });
  compared = refl;
  marshalled = refl;
  encoded = refl;
}

raised-clear : Dict.get raised.store.err_on (events_of "flag-1") ≡ none
raised-clear = Dict.get-empty (events_of "flag-1")

flag_command : Command Bool
flag_command = forget_command flag_codec flag_replayer flag_executor "flag-1"

flag_forgets :
    (begin_forget flag_codec flag_replayer flag_executor calm_turn stamp_2 "flag-1" flag_state).0
    ≡ tombstone_ok
unfolding run_sync_projections project begin_forget write_tombstone fenced_tombstone
    commit_tombstone is_forgetting tombstone_hook supersede_deliveries run_program and_then
flag_forgets =
    rw
      (
        Dict.get-empty {K = String} {V = Unit {0}} "flag-1",
        (write_tx_lem flag_laws flag_replayer calm_write stamp_2 raised
            (forget_command flag_codec flag_replayer flag_executor "flag-1")
            (tombstone_hook flag_codec flag_replayer flag_executor calm_turn) (some true) 1
            all_marshal (refl, refl) (refl, refl) raised-IsOrdered raised-clear
            (0, refl, raised-Holds) refl forget_flag-Encoded (refl, refl)).0,
      )
      refl

abbrev fenced_state : State Bool Stored
fenced_state =
    (begin_forget flag_codec flag_replayer flag_executor calm_turn stamp_2 "flag-1" flag_state).1

execute_fenced_example :
    execute flag_codec flag_replayer flag_executor as_text calm_run none stamp_1 fenced_state
      raise_flag "command-1"
    ≡ rejected_run flag_codec flag_replayer flag_executor as_text fenced_state.world
        (note (sentinel err_forget_in_progress) "flag-1")
execute_fenced_example =
    execute_fenced flag_codec flag_replayer flag_executor calm_turn stamp_2 "flag-1" flag_state
      fenced_state as_text calm_run stamp_1 raise_flag "command-1" flag_forgets refl refl

execute-ErrorKnown_example :
    ErrorKnown flag_codec flag_replayer flag_executor as_text none
      (is_forgetting flag_state "flag-1")
      (execute flag_codec flag_replayer flag_executor as_text calm_run none stamp_2 flag_state
        raise_flag "command-1")
execute-ErrorKnown_example =
    execute-ErrorKnown flag_codec flag_replayer flag_executor as_text calm_run none stamp_2
      flag_state raise_flag "command-1"
