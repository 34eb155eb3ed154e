-- ===== src/Processor/Executor.antt =====
-- internal/processor/exec/exec.go and exec_idempotency.go: what a command does between taking and
-- releasing the aggregate's lock.
pub mod Errors
pub mod Idempotency
pub mod Retry
pub mod ExactlyOnce
use asynx.Processor.Hooks.{SyncProjection, HookCtxs, tx_hook}
use asynx.Base.{
  ℕ, Option, List, Bool, String, if◌then◌else◌, false, some, ◌∷◌, ◌==◌, true, [], none, is_some,
  ◌&&◌, not, ◌++◌, string_eq, nat_eq,
}
use asynx.Store.Memory.{Ctx, get_receipt}
use asynx.Models.Records.{Event, Receipt}
use asynx.EventStore.Writer.{
  World, WriteCtxs, Command, Stamp, snapshot, Written, wrote, write_tx, refused, panicking,
}
use asynx.EventStore.Codec.{Codec}
use asynx.Models.Errors.{
  Error, wrap, sentinel, fail, is, err_pipeline_failed, ok, err_duplicate_receipt,
  err_sync_projection, note, err_validation,
}
use asynx.EventStore.Replayer.{Replayer, replay}
use asynx.Store.Memory.Transaction.{Outcome, atomically, failed, calls, puts_receipt, returns}

-- What the executor asks of the dispatcher: whether an enqueue is refused, whether a ticket for the
-- event is under way, and why the event was left undelivered.
pub record Dispatcher (T : Type 0) : Type 0 where
  pub enqueue : Event T → Option Error
  pub underway : String → ℕ → Bool
  pub unrun : String → ℕ → Option Error

pub record Executor (T D : Type 0) : Type 0 where
  pub dispatcher : Option (Dispatcher T)
  pub syncs : List (SyncProjection T D)
  pub durable_match : Option (String → Bool)

-- The Wait that a command returns: none, for the handlers of an event, or for one that nothing took.
pub data Wait (T : Type 0) : Type 0 where
  no_wait : Wait T
  waits_on : Event T → Wait T
  waits_unrun : Error → Event T → Wait T

-- What the executor tells the dispatcher and the snapshot error handler, in order.
pub data Effect (T : Type 0) : Type 0 where
  enqueues : Event T → (acked : Bool) → Effect T
  parks : String → Error → Effect T
  reports_snapshot : Event T → Error → Effect T

-- The context at each call of a store.
pub record RunCtxs : Type 0 where
  pub at_receipt : Ctx
  pub at_replay : Ctx
  pub writing : WriteCtxs
  pub in_hook : HookCtxs
  pub at_snapshot : Ctx
  pub at_reject_begin : Ctx
  pub at_reject : Ctx
  pub at_second_receipt : Ctx
  pub at_second_replay : Ctx

-- The three results of a command, with the stores after it and what it told the others.
pub record Ran (T D : Type 0) : Type 0 where
  pub event : Event T
  pub wait : Wait T
  pub err : Option Error
  pub world : World D
  pub effects : List (Effect T)

-- A panic of a projection goes on to the caller.
pub data Run (T D : Type 0) : Type 0 where
  returned : Ran T D → Run T D
  panicked_run : World D → Run T D

module _ {T J P D : Type 0} (c : Codec T J P D) (r : Replayer T) (x : Executor T D)
    (text : Error → String) where
  abbrev pub no_event : Event T
  no_event = record {
    id = "";
    aggregate_id = "";
    event_name = "";
    version = 0;
    schema_version = 0;
    occurred_at = 0;
    aggregate = r.zero_value;
    previous_aggregate = r.zero_value;
  }

  is_durable : String → Bool
  is_durable name = elim x.durable_match [
    | none ↦ false
    | some accepts ↦ is_some x.dispatcher && accepts name
  ]

  -- `event = evt` in the callback of Replay, for each event that it is called with.
  pub pick_event : Receipt → Event T → List (Event T) → Event T
  pick_event q event [] = event
  pick_event q event (evt ∷ evts) =
      pick_event q (if evt.version == q.version && evt.id == q.event_id then evt else event) evts

  abbrev pub pipeline : Error → Error
  pipeline = wrap (sentinel err_pipeline_failed)

  -- The answer of a retry; `none` is `handled == false`.
  abbrev pub Answer : Type 0
  Answer = Option (Event T × Option Error)

  pub answer_accepted : Ctx → World D → Receipt → Event T × Option Error
  unfolding pick_event
  answer_accepted ctx w q =
      let bare = record no_event {
        id = q.event_id;
        aggregate_id = q.aggregate_id;
        version = q.version;
      } in
      let read = replay c r ctx w.store q.aggregate_id q.version q.version in
      (pick_event q bare read.0, elim read.1 [ none ↦ none | some e ↦ some (pipeline e) ])

  unfoldable pub answer_from_receipt : Ctx → Ctx → World D → String → Answer
  unfolding answer_accepted
  answer_from_receipt at_receipt at_replay w command_id =
      elim (get_receipt at_receipt w.store command_id) [
        | fail e ↦ some (no_event, some (pipeline e))
        | ok none ↦ none
        | ok (some q) ↦
            if not q.accepted
            then some (no_event, some (note (sentinel err_validation) q.rejection))
            else some (answer_accepted at_replay w q)
      ]

  unfoldable pub answer_retry : RunCtxs → World D → String → Answer
  unfolding answer_from_receipt
  answer_retry ctxs w command_id =
      if command_id == ""
      then none
      else answer_from_receipt ctxs.at_receipt ctxs.at_replay w command_id

  -- What writeFailed and validationFailed give: whether the answer is final, and the answer.
  abbrev pub Failed : Type 0
  Failed = (Bool × Event T × Option Error) × World D

  abbrev pub unhandled : Error → World D → Failed
  unhandled e w = ((false, no_event, some e), w)

  abbrev pub answered : Answer → Failed → Failed
  answered none otherwise = otherwise
  answered (some (event, err)) ((_, _, _), w) = ((true, event, err), w)

  abbrev rejection_of : Error → Receipt
  rejection_of cause = record {
    accepted = false;
    aggregate_id = "";
    event_id = "";
    version = 0;
    rejection = text cause;
  }

  record_rejection : RunCtxs → World D → String → Error → Outcome × World D
  record_rejection ctxs w command_id cause =
      let done =
        atomically ctxs.at_reject_begin
          (calls (puts_receipt ctxs.at_reject command_id (rejection_of cause)) returns) w.store in
      (done.0, record w { store = done.1 })

  -- PutReceipt does not panic.
  abbrev pub after_rejection : RunCtxs → String → Error → Outcome × World D → Failed
  after_rejection ctxs command_id rejection (failed e, w) =
      if is e err_duplicate_receipt
      then answered (answer_from_receipt ctxs.at_second_receipt ctxs.at_second_replay w command_id)
          (unhandled (pipeline e) w)
      else unhandled (pipeline e) w
  after_rejection ctxs command_id rejection (_, w) = unhandled rejection w

  pub validation_failed : RunCtxs → World D → String → Error → Failed
  unfolding record_rejection answer_from_receipt
  validation_failed ctxs w command_id rejection =
      if command_id == ""
      then unhandled rejection w
      else after_rejection ctxs command_id rejection (record_rejection ctxs w command_id rejection)

  pub write_failed : RunCtxs → World D → String → Error → Failed
  unfolding validation_failed answer_from_receipt
  write_failed ctxs w command_id e =
      if is e err_sync_projection
      then unhandled (pipeline e) w
      else if not (command_id == "") && is e err_duplicate_receipt
      then answered (answer_from_receipt ctxs.at_second_receipt ctxs.at_second_replay w command_id)
          (unhandled (pipeline e) w)
      else if is e err_validation
      then validation_failed ctxs w command_id e
      else unhandled (pipeline e) w

  abbrev unrun_wait : Option Error → Event T → Wait T
  unrun_wait none event = no_wait
  unrun_wait (some e) event = waits_unrun e event

  pub wait_for_answered : Event T → Option Error → Wait T
  wait_for_answered event (some e) = no_wait
  wait_for_answered event none = elim x.dispatcher [
    | none ↦ no_wait
    | some d ↦
        if d.underway event.aggregate_id event.version
        then waits_on event
        else unrun_wait (d.unrun event.aggregate_id event.version) event
  ]

  abbrev pub failed_write : Failed → Run T D
  failed_write ((handled, event, err), w) = returned (record {
    event = event;
    wait = if handled then wait_for_answered event err else no_wait;
    err = err;
    world = w;
    effects = [];
  })

  pub snapshot_if_due : RunCtxs → World D → Command T → Event T → List (Effect T) × World D
  snapshot_if_due ctxs w cmd event =
      let done = snapshot c r ctxs.at_snapshot w event in
      if not cmd.should_snapshot
      then ([], w)
      else (elim done.0 [ none ↦ [] | some e ↦ reports_snapshot event e ∷ [] ], done.1)

  park_if_durable : Event T → Error → List (Effect T)
  unfolding is_durable
  park_if_durable event cause =
      if is_durable event.event_name then parks event.aggregate_id cause ∷ [] else []

  -- `enqueue`, and the end of `run`.
  unfoldable pub enqueue : World D → Event T → List (Effect T) → Ran T D
  unfolding park_if_durable is_durable
  enqueue w event before = elim x.dispatcher [
    | none ↦ record { event = event; wait = no_wait; err = none; world = w; effects = before }
    | some d ↦
        let told = before ++ enqueues event (is_durable event.event_name) ∷ [] in
        elim (d.enqueue event) [
          | none ↦ record {
            event = event;
            wait = waits_on event;
            err = none;
            world = w;
            effects = told;
          }
          | some e ↦ record {
            event = event;
            wait = no_wait;
            err = some (pipeline e);
            world = w;
            effects = told ++ park_if_durable event e;
          }
        ]
  ]

  unfoldable pub after_write : RunCtxs → Command T → String → Written T × World D → Run T D
  unfolding snapshot_if_due enqueue write_failed
  after_write ctxs cmd command_id (wrote event, w) =
      let (reports, w') = snapshot_if_due ctxs w cmd event in returned (enqueue w' event reports)
  after_write ctxs cmd command_id (refused e, w) = failed_write (write_failed ctxs w command_id e)
  after_write ctxs cmd command_id (panicking, w) = panicked_run w

  unfoldable pub run : RunCtxs → Stamp → World D → Command T → (command_id : String) → Run T D
  unfolding answer_retry after_write
  run ctxs stamp w cmd command_id = elim (answer_retry ctxs w command_id) [
    | some (event, err) ↦ returned (record {
      event = event;
      wait = wait_for_answered event err;
      err = err;
      world = w;
      effects = [];
    })
    | none ↦ after_write ctxs cmd command_id (
        write_tx c r ctxs.writing stamp w cmd
          (tx_hook ctxs.in_hook x.syncs x.durable_match (is_some x.dispatcher) command_id))
  ]
