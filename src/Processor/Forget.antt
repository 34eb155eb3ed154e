-- ===== src/Processor/Forget.antt =====
-- internal/processor/exec/exec_forget.go, internal/commands/forget.go, and the part of exec.go that
-- keeps commands out while an aggregate is forgotten. A call of Forget has two parts, since others
-- run while it waits for the tombstone to be delivered.
pub mod Fences
pub mod Erasing
pub mod Answers
use asynx.Base.Dict
use asynx.Store.Snapshots
use asynx.Base.Dict.{Dict}
use asynx.EventStore.Writer.{
  World, WriteCtxs, Command, TxHook, Written, Stamp, wrote, write_tx, refused, panicking,
}
use asynx.Models.Errors.{
  Error, is, wrap, err_validation, sentinel, err_pipeline_failed, err_forget_failed,
  err_shutting_down, note, err_context_cancelled, err_sync_projection, err_forget_in_progress,
  err_forget_from_handler,
}
use asynx.Base.{
  Bool, Option, ◌++◌, String, ◌∷◌, if◌then◌else◌, none, List, is_some, [], some, ◌&&◌, string_eq,
  not, true, false,
}
use asynx.EventStore.Codec.{Codec, events_of}
use asynx.Store.Memory.{Ctx}
use asynx.EventStore.Replayer.{Replayer}
use asynx.Models.Records.{Event, forget_event_name}
use asynx.Processor.Executor.{Executor, Dispatcher, RunCtxs, Run, returned, no_event, no_wait, run}
use asynx.Processor.Hooks.{and_then, go_on, run_sync_projections}
use asynx.Store.Memory.Transaction.{
  Outcome, Program, atomically, failed, calls, committed, drops_deliveries, deletes_stream,
  panicked, returns, enqueues_delivery,
}

-- What an executor keeps and writes, with what Forget tells the dispatcher, oldest first.
pub data Told (T : Type 0) : Type 0 where
  supersedes : String → Told T
  enqueues_tombstone : Event T → Told T
  parks_forgotten : String → Error → Told T

pub record State (T D : Type 0) : Type 0 where
  pub world : World D
  pub forgetting : Dict String (Unit {0})
  pub told : List (Told T)

-- The case that the `select` of waitFinal takes; after an interrupt `final_closed` decides. It takes
-- none as long as the delivery, the context and the dispatcher all go on.
pub data FinalWait : Type 0 where
  keeps_waiting : FinalWait
  delivered : FinalWait
  gave_up : Error → FinalWait
  interrupted_wait : (final_closed : Bool) → FinalWait

-- What a call of Forget meets: whether its context is that of a handler of the aggregate, what the
-- lock returns, the contexts of the transaction, how its wait ends, and the ticket's error.
pub record ForgetTurn : Type 0 where
  pub in_handler : Bool
  pub at_lock : Ctx
  pub writing : WriteCtxs
  pub at_drop : Ctx
  pub at_enqueue : Ctx
  pub final_wait : FinalWait
  pub ticket_err : Option Error

unfoldable pub is_forgetting : {T D : Type 0} → State T D → String → Bool
is_forgetting s id = is_some (Dict.get s.forgetting id)

abbrev pub fence : {T D : Type 0} → String → State T D → State T D
fence id s = record s { forgetting = Dict.put s.forgetting id tt }

abbrev pub clear_forgetting : {T D : Type 0} → String → State T D → State T D
clear_forgetting id s = record s { forgetting = Dict.remove s.forgetting id }

abbrev pub tells : {T D : Type 0} → Told T → State T D → State T D
tells t s = record s { told = s.told ++ t ∷ [] }

-- What a call returns; `tombstone_ok` says that the tombstone has a ticket, which has no Final where
-- there is no dispatcher. A panic of a projection goes on to the caller.
pub data Tombstone (T : Type 0) : Type 0 where
  tombstone_ok : Tombstone T
  tombstone_failed : Error → Tombstone T
  tombstone_panicked : Tombstone T

pub data Forgot : Type 0 where
  still_waiting : Forgot
  forgotten : Forgot
  forget_failed : Error → Forgot
  forget_panicked : Forgot

is_plain_validation : Error → Bool
is_plain_validation e = is e err_validation && not (is e err_sync_projection)

pub tombstone_write_error : Error → Error
unfolding is_plain_validation
tombstone_write_error e = if is_plain_validation e then e else wrap (sentinel err_pipeline_failed) e

abbrev failed_forget : Error → Error
failed_forget e = wrap (sentinel err_forget_failed) e

-- What a wait comes to: an error or nil, where it ends.
pub data Awaited : Type 0 where
  goes_on : Awaited
  ended : Option Error → Awaited

pub wait_final : FinalWait → Awaited
wait_final keeps_waiting = goes_on
wait_final delivered = ended none
wait_final (gave_up e) = ended (some (failed_forget e))
wait_final (interrupted_wait true) = ended none
wait_final (interrupted_wait false) = ended (some (failed_forget (sentinel err_shutting_down)))

abbrev pub after_final : Awaited → (ticket_err : Option Error) → Awaited
after_final goes_on _ = goes_on
after_final (ended (some e)) _ = ended (some e)
after_final (ended none) none = ended none
after_final (ended none) (some e) = ended (some (failed_forget e))

module _ {T J P D : Type 0} (c : Codec T J P D) (r : Replayer T) (x : Executor T D) where
  -- NewForgetCommand; its Validate keeps the state that its EmitEvent then returns.
  abbrev pub forget_command : String → Command T
  forget_command id = record {
    aggregate_id = id;
    event_name = forget_event_name;
    should_snapshot = false;
    validate = λ current. elim current [
      | none ↦ some (note (sentinel err_validation) "aggregate not found")
      | some _ ↦ none
    ];
    emit_event = λ last. elim last [ none ↦ r.zero_value | some a ↦ a ];
  }

  unfoldable pub supersede_deliveries : ForgetTurn → Event T → Program D
  unfolding and_then
  supersede_deliveries t tombstone =
      if is_some x.durable_match && is_some x.dispatcher
      then and_then (calls (drops_deliveries t.at_drop tombstone.aggregate_id) returns) (λ o.
        go_on o
          (calls (enqueues_delivery t.at_enqueue tombstone.aggregate_id tombstone.version) returns))
      else returns none

  unfoldable pub tombstone_hook : ForgetTurn → TxHook T D
  unfolding supersede_deliveries
  tombstone_hook t = some (λ tombstone.
      and_then (supersede_deliveries t tombstone)
        (λ o. go_on o (run_sync_projections x.syncs tombstone)))

  abbrev pub enqueue_answered : String → Option Error → State T D → Tombstone T × State T D
  enqueue_answered id none s = (tombstone_ok, s)
  enqueue_answered id (some e) s =
      (tombstone_failed (wrap (sentinel err_pipeline_failed) e), tells (parks_forgotten id e) s)

  abbrev pub enqueue_tombstone :
      String → Option (Dispatcher T) → Event T → State T D → Tombstone T × State T D
  enqueue_tombstone id none tombstone s = (tombstone_ok, s)
  enqueue_tombstone id (some d) tombstone s =
      enqueue_answered id (d.enqueue tombstone)
        (tells (enqueues_tombstone tombstone) (tells (supersedes id) s))

  abbrev pub commit_ended : String → State T D → Written T × World D → Tombstone T × State T D
  commit_ended id s (wrote tombstone, w) =
      enqueue_tombstone id x.dispatcher tombstone (record s { world = w })
  commit_ended id s (refused e, w) =
      (tombstone_failed (tombstone_write_error e), record s { world = w })
  commit_ended id s (panicking, w) = (tombstone_panicked, record s { world = w })

  unfoldable pub commit_tombstone :
      ForgetTurn → Stamp → String → State T D → Tombstone T × State T D
  commit_tombstone t stamp id s =
      commit_ended id s
        (write_tx c r t.writing stamp s.world (forget_command id) (tombstone_hook t))

  -- On an error the fence goes down again; nothing takes it down on a panic.
  abbrev pub fence_kept : String → Tombstone T × State T D → Tombstone T × State T D
  fence_kept id (tombstone_failed e, s) = (tombstone_failed e, clear_forgetting id s)
  fence_kept id (other, s) = (other, s)

  unfoldable pub fenced_tombstone :
      ForgetTurn → Stamp → String → State T D → Tombstone T × State T D
  fenced_tombstone t stamp id s =
      if is_forgetting s id
      then (tombstone_failed (note (sentinel err_forget_in_progress) id), s)
      else fence_kept id (commit_tombstone t stamp id (fence id s))

  unfoldable pub write_tombstone : ForgetTurn → Stamp → String → State T D → Tombstone T × State T D
  write_tombstone t stamp id s = elim t.at_lock [
    | some e ↦ (tombstone_failed (wrap (sentinel err_context_cancelled) e), s)
    | none ↦ fenced_tombstone t stamp id s
  ]

  -- The first part of Forget, to the wait.
  unfoldable pub begin_forget : ForgetTurn → Stamp → String → State T D → Tombstone T × State T D
  begin_forget t stamp id s =
      if is_some x.dispatcher && t.in_handler
      then (tombstone_failed (note (sentinel err_forget_from_handler) id), s)
      else write_tombstone t stamp id s

  pub await_tombstone : ForgetTurn → Awaited
  await_tombstone t =
      if is_some x.dispatcher
      then after_final (wait_final t.final_wait) t.ticket_err
      else ended none

  -- `erase` without the lock: its context has no cancellation, so every Err of it is nil.
  erase_stream : String → World D → Outcome × World D
  erase_stream id w =
      let done =
        atomically none
          (calls (deletes_stream none (events_of id))
            (λ o. go_on o (calls (drops_deliveries none id) returns)))
          w.store in
      (done.0, record w { store = done.1 })

  -- This transaction calls no code that panics.
  abbrev erase_ended : String → Outcome → State T D → Option Error × State T D
  erase_ended id committed s = (none, clear_forgetting id s)
  erase_ended id (failed e) s = (some (failed_forget e), s)
  erase_ended id panicked s = (some (sentinel err_forget_failed), s)

  pub erase : String → State T D → Option Error × State T D
  unfolding erase_stream
  erase id s =
      let dropped = Snapshots.delete none s.world.snaps id in
      let w = record (s.world) { snaps = dropped.1 } in
      let erased = erase_stream id w in
      elim dropped.0 [
        | some e ↦ (some (failed_forget e), record s { world = w })
        | none ↦ erase_ended id erased.0 (record s { world = erased.1 })
      ]

  -- The deferred function of Forget.
  abbrev pub forget_ended : String → Option Error × State T D → Forgot × State T D
  forget_ended id (none, s) = (forgotten, s)
  forget_ended id (some e, s) = (
    forget_failed e,
    clear_forgetting id (if is_some x.dispatcher then tells (parks_forgotten id e) s else s),
  )

  abbrev pub after_await : Awaited → String → State T D → Forgot × State T D
  after_await goes_on id s = (still_waiting, s)
  after_await (ended (some e)) id s = forget_ended id (some e, s)
  after_await (ended none) id s = forget_ended id (erase id s)

  -- The second part of Forget.
  pub complete_forget : ForgetTurn → String → State T D → Forgot × State T D
  unfolding await_tombstone
  complete_forget t id s = after_await (await_tombstone t) id s

  abbrev after_tombstone :
      ForgetTurn → String → (State T D → State T D) → Tombstone T × State T D → Forgot × State T D
  after_tombstone t id others (tombstone_failed e, s) = (forget_failed e, s)
  after_tombstone t id others (tombstone_panicked, s) = (forget_panicked, s)
  after_tombstone t id others (tombstone_ok, s) = complete_forget t id (others s)

  -- `others` is what others do while the call waits.
  pub forget :
      ForgetTurn → Stamp → String → (State T D → State T D) → State T D → Forgot × State T D
  forget t stamp id others s = after_tombstone t id others (begin_forget t stamp id s)

  abbrev pub rejected_run : (Error → String) → World D → Error → Run T D
  rejected_run text w e = returned (record {
    event = no_event c r x text;
    wait = no_wait;
    err = some e;
    world = w;
    effects = [];
  })

  -- ExecuteAsync, with what the lock returns.
  pub execute :
      (Error → String)
      → RunCtxs
      → Ctx
      → Stamp
      → State T D
      → Command T
      → (command_id : String) → Run T D
  execute text ctxs at_lock stamp s cmd command_id = elim at_lock [
    | some e ↦ rejected_run text s.world (wrap (sentinel err_context_cancelled) e)
    | none ↦
        if is_forgetting s cmd.aggregate_id
        then rejected_run text s.world (note (sentinel err_forget_in_progress) cmd.aggregate_id)
        else run c r x text ctxs stamp s.world cmd command_id
  ]
