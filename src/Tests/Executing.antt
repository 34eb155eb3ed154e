-- ===== src/Tests/Executing.antt =====
-- The executor, on an idempotent command.
use asynx.Base.Dict
use asynx.Base.{◌≡◌, Bool, String, none, [], string_eq, refl, List, false, ◌∷◌, ◌++◌}
use asynx.Tests.EventStores.{
  flag_replayer, raise_flag, stamp_1, calm_write, blank, raise_flag-Encoded, all_marshal,
  blank-IsOrdered, blank-clear, blank-nothing, blank-missing,
}
use asynx.Processor.Executor.{
  Executor, RunCtxs, Ran, run, answer_retry, answer_from_receipt, returned, snapshot_if_due,
  after_write, enqueue,
}
use asynx.Models.Errors.{Error}
use asynx.Models.Records.{Receipt, Event}
use asynx.EventStore.Writer.{World, TxHook, Written, wrote, write_tx, run_hook}
use asynx.Store.Memory.{entries_of, new, get_receipt, append, put_receipt, deletes_receipt}
use asynx.Processor.Executor.ExactlyOnce.{Answers, exactly_once}
use asynx.Tests.Codecs.{Stored, flag_codec, flag_laws}
use asynx.Store.Memory.{MemoryTx, append, append_fresh, removes_entry}
use asynx.EventStore.Codec.{events_of}
use asynx.Store.Memory.Slices.{Entry, is_at_first, insert_at, first_not_below}
use asynx.Store.Memory.Transaction.{run_program, run_call, committed}
use asynx.Processor.Hooks.{
  tx_hook, hook_body, and_then, run_sync_projections, project, put_accepted_receipt, receipt_of,
  record_delivery,
}
use asynx.EventStore.Writing.{Quiet}
use asynx.EventStore.RoundTrip.{event_of, write_tx_lem}

abbrev pub flag_executor : Executor Bool Stored
flag_executor = record { dispatcher = none; syncs = []; durable_match = none }

abbrev pub as_text : Error → String
as_text e = "validation failed"

abbrev pub calm_run : RunCtxs
calm_run = record {
  at_receipt = none;
  at_replay = none;
  writing = calm_write;
  in_hook = record { at_receipt = none; at_delivery = none };
  at_snapshot = none;
  at_reject_begin = none;
  at_reject = none;
  at_second_receipt = none;
  at_second_replay = none;
}

-- The first run of the command writes its event and its receipt.
abbrev receipt_hook : TxHook Bool Stored
receipt_hook = tx_hook calm_run.in_hook [] none false "command-1"

abbrev start_tx : MemoryTx Stored
start_tx = record { store = blank.store; undo = [] }

abbrev first_event : Event Bool
first_event = event_of flag_laws flag_replayer stamp_1 raise_flag none 0

abbrev appended_tx : MemoryTx Stored
appended_tx = record {
  store = record (blank.store) {
    streams =
        Dict.put Dict.empty (events_of "flag-1")
          (record { version = 1; blob = raise_flag-Encoded.blob } ∷ []);
  };
  undo = removes_entry (events_of "flag-1") 1 ∷ [];
}

appended : append none start_tx (events_of "flag-1") 1 raise_flag-Encoded.blob ≡ (none, appended_tx)
unfolding append append_fresh entries_of new is_at_first insert_at first_not_below
appended =
    rw (append, Dict.get-empty {K = String} {V = Error} (events_of "flag-1"))
      (rw (append_fresh, Dict.get-empty {K = String} {V = List (Entry Stored)} (events_of "flag-1"))
        refl)

abbrev receipted_tx : MemoryTx Stored
receipted_tx = record {
  store = record (appended_tx.store) {
    receipts = Dict.put Dict.empty "command-1" (receipt_of first_event);
  };
  undo = appended_tx.undo ++ deletes_receipt "command-1" ∷ [];
}

receipt_hook-runs :
    run_program (run_hook flag_codec flag_replayer receipt_hook first_event none) appended_tx
    ≡ (committed, receipted_tx)
unfolding run_program run_call put_receipt tx_hook hook_body and_then run_sync_projections project
    put_accepted_receipt record_delivery new
receipt_hook-runs =
    rw (run_program, run_call, put_receipt, Dict.get-empty {K = String} {V = Receipt} "command-1")
      refl

receipt_hook-Quiet :
    Quiet flag_laws flag_replayer blank.store raise_flag-Encoded.blob receipt_hook first_event
unfolding entries_of new
receipt_hook-Quiet = rw appended (rw receipt_hook-runs (refl, refl))

abbrev first_write : Written Bool × World Stored
first_write = write_tx flag_codec flag_replayer calm_write stamp_1 blank raise_flag receipt_hook

first_write-wrote : first_write.0 ≡ wrote first_event
first_write-wrote =
    (write_tx_lem flag_laws flag_replayer calm_write stamp_1 blank raise_flag receipt_hook none 0
      all_marshal (refl, refl) (refl, refl) blank-IsOrdered blank-clear
      (refl, blank-nothing, blank-missing) refl raise_flag-Encoded receipt_hook-Quiet).0

abbrev first_ran : Ran Bool Stored
first_ran =
    let due =
      snapshot_if_due flag_codec flag_replayer flag_executor as_text calm_run first_write.1
        raise_flag first_event in
    enqueue flag_codec flag_replayer flag_executor as_text due.1 first_event due.0

blank-fresh :
    answer_retry flag_codec flag_replayer flag_executor as_text calm_run blank "command-1" ≡ none
unfolding answer_retry answer_from_receipt get_receipt new
blank-fresh =
    rw (answer_from_receipt, get_receipt, Dict.get-empty {K = String} {V = Receipt} "command-1")
      refl

first_runs :
    run flag_codec flag_replayer flag_executor as_text calm_run stamp_1 blank raise_flag "command-1"
    ≡ returned first_ran
unfolding run after_write
first_runs = rw (run, blank-fresh) (rw (after_write, first_write-wrote) refl)

first_ran-fine : first_ran.err ≡ none
unfolding enqueue
first_ran-fine = refl

exactly_once_example :
    Answers flag_codec flag_replayer flag_executor as_text first_ran.event first_ran.world (
      run flag_codec flag_replayer flag_executor as_text calm_run stamp_1 first_ran.world raise_flag
        "command-1")
exactly_once_example =
    exactly_once flag_codec flag_replayer flag_executor as_text calm_run calm_run stamp_1 stamp_1
      blank raise_flag raise_flag "command-1" first_ran refl refl first_runs first_ran-fine
