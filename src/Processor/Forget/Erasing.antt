-- ===== src/Processor/Forget/Erasing.antt =====
-- What a Forget that succeeded leaves of an aggregate.
use asynx.Base.Dict
use asynx.Store.Snapshots
use asynx.Models.Errors.{is}
use asynx.EventStore.Codec.{Codec, events_of}
use asynx.EventStore.Replayer.{Replayer}
use asynx.Processor.Executor.{Executor}
use asynx.Processor.Forget.{
  erase, String, World, State, clear_forgetting, ForgetTurn, Error, await_tombstone, Forgot,
  wait_final, Told, forget_failed, err_forget_failed, forget_ended, parks_forgotten, forgotten,
  forget_panicked, complete_forget, tells, after_final, FinalWait, gave_up, interrupted_wait,
  delivered, ended, keeps_waiting, Awaited, after_await, still_waiting, goes_on,
}
use asynx.Store.Memory.Transaction.{atomically, run_program, run_call, close_tx}
use asynx.Base.{
  keep_if, not, ◌==◌, string_eq, ◌≡◌, none, Option-cases, inl, inr, arith, [], ==_refl, is_some,
  List, false, true, refl, if◌then◌else◌, ◌++◌, some, if_cases, ◌∷◌, Bool, Option, sym, ap,
}
use asynx.Store.Memory.{entries_of}
use mathlib.Core.Path.{subst}
use mathlib.Core.List.{append-nil}

module _ {T J P D : Type 0} (c : Codec T J P D) (r : Replayer T) (x : Executor T D) where
  -- The stores without the aggregate.
  abbrev erased_world : String → World D → World D
  erased_world id w = record {
    store = record (w.store) {
      streams = Dict.remove w.store.streams (events_of id);
      deliveries = keep_if (λ d. not (d.aggregate_id == id)) w.store.deliveries;
    };
    snaps = record (w.snaps) { snaps = Dict.remove w.snaps.snaps id };
  }

  erase_lem :
      (id : String) (s : State T D)
      → erase c r x id s
        ≡ (none, clear_forgetting id (record s { world = erased_world id s.world }))
  unfolding erase Snapshots.delete atomically run_program run_call close_tx
  erase_lem id s = elim (Option-cases (Dict.get s.world.store.streams (events_of id))) [
    | inl missing ↦ ground (arith, missing)
    | inr (entries, there) ↦ ground (arith, there)
  ]

  -- The aggregate is gone from the stores and the rest is as it was.
  pub record Gone (id : String) (before after : World D) : Type 0 where
    pub stream : entries_of after.store (events_of id) ≡ []
    pub streams :
        (name : String)
        → (events_of id == name) ≡ false
        → entries_of after.store name ≡ entries_of before.store name
    pub snapshot : Dict.get after.snaps.snaps id ≡ none
    pub snapshots :
        (j : String)
        → (id == j) ≡ false
        → Dict.get after.snaps.snaps j ≡ Dict.get before.snaps.snaps j
    pub deliveries :
        after.store.deliveries ≡ keep_if (λ d. not (d.aggregate_id == id)) before.store.deliveries
    pub receipts : after.store.receipts ≡ before.store.receipts

  erased_world-Gone : (id : String) (w : World D) → Gone id w (erased_world id w)
  unfolding entries_of
  erased_world-Gone id w = record {
    stream = ground (
      arith,
      Dict.get-remove w.store.streams (events_of id) (events_of id),
      ==_refl (events_of id),
    );
    streams = λ name d. ground (arith, Dict.get-remove w.store.streams (events_of id) name, d);
    snapshot = ground (arith, Dict.get-remove w.snaps.snaps id id, ==_refl id);
    snapshots = λ j d. ground (arith, Dict.get-remove w.snaps.snaps id j, d);
    deliveries = refl;
    receipts = refl;
  }

  -- The tombstone reached its subscribers, where there is a dispatcher.
  abbrev WasDelivered : ForgetTurn → Type 0
  WasDelivered t =
      is_some x.dispatcher ≡ true → (wait_final t.final_wait ≡ ended none) × (t.ticket_err ≡ none)

  abbrev parks_told : String → Error → List (Told T)
  parks_told id e = if is_some x.dispatcher then parks_forgotten id e ∷ [] else []

  abbrev pub Completed : ForgetTurn → String → State T D → Forgot × State T D → Type 0
  Completed t id s (forgotten, s') = WasDelivered t × Gone id s.world s'.world × (s'.told ≡ s.told)
  Completed t id s (forget_failed e, s') =
      (is e err_forget_failed ≡ true) × (s'.world ≡ s.world) × (s'.told ≡ s.told ++ parks_told id e)
  Completed t id s (forget_panicked, s') = ⊥
  Completed t id s (still_waiting, s') =
      (is_some x.dispatcher ≡ true) × (t.final_wait ≡ keeps_waiting) × (s' ≡ s)

  gave_up-Completed :
      (t : ForgetTurn) (id : String) (s : State T D) (e : Error)
      → is e err_forget_failed ≡ true
      → Completed t id s (forget_ended c r x id (some e, s))
  gave_up-Completed t id s e known =
      let told_when : (b : Bool)
          → (if b then tells (parks_forgotten id e) s else s).told
            ≡ s.told ++ (if b then parks_forgotten id e ∷ [] else []) =
        λ b. ground (arith, append-nil s.told) in
      (
        known,
        if_cases {A = State T D} (λ q. q.world ≡ s.world) (is_some x.dispatcher) (λ _. refl)
            (λ _. refl),
        told_when (is_some x.dispatcher),
      )

  -- What each end of the wait says of it.
  AwaitTold : ForgetTurn → Awaited → Type 0
  AwaitTold t goes_on = (is_some x.dispatcher ≡ true) × (t.final_wait ≡ keeps_waiting)
  AwaitTold t (ended none) = WasDelivered t
  AwaitTold t (ended (some e)) = is e err_forget_failed ≡ true

  after_final-AwaitTold :
      (t : ForgetTurn) (w : FinalWait) (o : Option Error)
      → is_some x.dispatcher ≡ true
      → t.final_wait ≡ w
      → t.ticket_err ≡ o
      → AwaitTold t (after_final (wait_final w) o)
  unfolding AwaitTold wait_final is
  after_final-AwaitTold t keeps_waiting o there w e = (there, w)
  after_final-AwaitTold t delivered none there w e = λ _. (ap wait_final w, e)
  after_final-AwaitTold t delivered (some f) there w e = refl
  after_final-AwaitTold t (gave_up f) o there w e = refl
  after_final-AwaitTold t (interrupted_wait true) none there w e = λ _. (ap wait_final w, e)
  after_final-AwaitTold t (interrupted_wait true) (some f) there w e = refl
  after_final-AwaitTold t (interrupted_wait false) o there w e = refl

  await_tombstone-AwaitTold : (t : ForgetTurn) → AwaitTold t (await_tombstone c r x t)
  unfolding await_tombstone AwaitTold
  await_tombstone-AwaitTold t =
      if_cases {A = Awaited} (AwaitTold t) (is_some x.dispatcher)
        (λ there. after_final-AwaitTold t t.final_wait t.ticket_err there refl refl)
        (λ nobody there. cc)

  after_await-Completed :
      (t : ForgetTurn) (id : String) (s : State T D) (a : Awaited)
      → AwaitTold t a
      → Completed t id s (after_await c r x a id s)
  unfolding AwaitTold
  after_await-Completed t id s goes_on (there, w) = (there, w, refl)
  after_await-Completed t id s (ended (some e)) known = gave_up-Completed t id s e known
  after_await-Completed t id s (ended none) delivered' =
      subst (λ q. Completed t id s (forget_ended c r x id q)) (sym (erase_lem id s))
        (delivered', erased_world-Gone id s.world, refl)

  -- The second part of Forget, once it gets the lock that its erase takes, returns unless it waits for
  -- the tombstone: then there is a dispatcher, and neither the delivery nor the context has ended nor
  -- the dispatcher been interrupted, and nothing has changed.
  -- Once it returns, either the tombstone was delivered, where there is a dispatcher, and the stream,
  -- the snapshot and the pending deliveries of the aggregate are gone, with all else in the stores as
  -- it was and nothing more told to the dispatcher. Or it fails with an error that wraps
  -- ErrForgetFailed, the stores are as they were, and the dispatcher, where there is one, is told to
  -- park the aggregate with this error.
  pub complete_forget_lem :
      (t : ForgetTurn) (id : String) (s : State T D)
      → Completed t id s (complete_forget c r x t id s)
  unfolding complete_forget
  complete_forget_lem t id s =
      after_await-Completed t id s (await_tombstone c r x t) (await_tombstone-AwaitTold t)
