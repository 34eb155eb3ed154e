-- ===== src/Processor/Executor/ExactlyOnce.antt =====
-- An accepted command takes effect once.
use asynx.Base.Dict
use asynx.EventStore.Writer.{snapshot, panicking}
use asynx.Store.Memory.{get_receipt}
use asynx.Base.{
  String, ◌≡◌, List, some, true, ◌∷◌, none, if◌then◌else◌, string_eq, ◌==◌, ◌&&◌, if_cases, [],
  nat_eq, arith, nat_eqb_iff, Option-cases, inl, inr, false, not, sym, refl, is_some, Bool, ◌∙◌,
}
use asynx.EventStore.Codec.{Codec}
use asynx.EventStore.Replayer.{Replayer, replay}
use asynx.Processor.Executor.{
  Executor, Error, Event, pick_event, World, answer_from_receipt, Receipt, Answer, answer_accepted,
  Ctx, Failed, RunCtxs, write_failed, Ran, Run, snapshot_if_due, enqueue, after_write, run,
  answered, Outcome, validation_failed, returned, Effect, Command, answer_retry, unhandled,
  after_rejection, is, panicked_run, Written, Stamp, failed, err_sync_projection, wrote,
  err_duplicate_receipt, no_event, err_validation, refused, failed_write,
}
use asynx.Store.Memory.Receipts.{HasReceipt}
use asynx.Processor.Hooks.{receipt_of}
use asynx.Store.Memory.Transaction.{committed, panicked}
use mathlib.Core.Path.{subst}
use asynx.Processor.Executor.Retry.{write_tx-receipt}

module _ {T J P D : Type 0} (c : Codec T J P D) (r : Replayer T) (x : Executor T D)
    (text : Error → String) where
  -- The store holds the accepted receipt of the event.
  abbrev Accepted : String → Event T → World D → Type 0
  Accepted id evt w =
      (p : Receipt) × (Dict.get w.store.receipts id ≡ some p)
      × (p.accepted ≡ true)
      × (p.event_id ≡ evt.id)
      × (p.version ≡ evt.version)

  pick_event-same :
      (p : Receipt) (event : Event T) (evts : List (Event T))
      → (p.event_id ≡ event.id) × (p.version ≡ event.version)
      → (p.event_id ≡ (pick_event c r x text p event evts).id)
        × (p.version ≡ (pick_event c r x text p event evts).version)
  unfolding pick_event
  pick_event-same p event [] h = h
  pick_event-same p event (evt ∷ evts) h =
      pick_event-same p (if evt.version == p.version && evt.id == p.event_id then evt else event)
        evts
        (if_cases {A = Event T} (λ e. (p.event_id ≡ e.id) × (p.version ≡ e.version))
          (evt.version == p.version && evt.id == p.event_id)
          (λ same.
            ground (arith, nat_eqb_iff evt.version p.version, string_eq.beq_iff evt.id p.event_id))
          (λ _. h))

  abbrev AnswerAccepted : String → World D → Answer c r x text → Type 0
  AnswerAccepted id w none = Unit
  AnswerAccepted id w (some (event, some e)) = Unit
  AnswerAccepted id w (some (event, none)) = Accepted id event w

  answer-Accepted :
      (at_receipt at_replay : Ctx) (w : World D) (id : String)
      → AnswerAccepted id w (answer_from_receipt c r x text at_receipt at_replay w id)
  unfolding answer_from_receipt answer_accepted get_receipt
  answer-Accepted (some e) at_replay w id = tt
  answer-Accepted none at_replay w id = elim (Option-cases (Dict.get w.store.receipts id)) [
    | inl missing ↦ rw (answer_from_receipt, missing) tt
    | inr (p, there) ↦
        rw (answer_from_receipt, there)
          (if_cases (AnswerAccepted id w) (not p.accepted) (λ _. tt)
            (λ yes.
              let bare : Event T = record (no_event c r x text) {
                id = p.event_id;
                aggregate_id = p.aggregate_id;
                version = p.version;
              } in
              let read = replay c r at_replay w.store p.aggregate_id p.version p.version in
              let same = pick_event-same p bare read.0 (refl, refl) in
              elim (Option-cases read.1) [
                | inl fine ↦ rw fine (p, there, ground arith, same.0, same.1)
                | inr (e, bad) ↦ rw bad tt
              ]))
  ]

  abbrev FailedAccepted : String → Failed c r x text → Type 0
  FailedAccepted id ((handled, event, some e), w) = Unit
  FailedAccepted id ((handled, event, none), w) = Accepted id event w

  answered-Accepted :
      (at_receipt at_replay : Ctx) (w : World D) (id : String) (e : Error)
      → FailedAccepted id (
          answered c r x text
            (answer_from_receipt c r x text at_receipt at_replay w id)
            (unhandled c r x text e w))
  answered-Accepted at_receipt at_replay w id e =
      go (answer_from_receipt c r x text at_receipt at_replay w id)
        (answer-Accepted at_receipt at_replay w id)
    where
      go :
          (a : Answer c r x text)
          → AnswerAccepted id w a
          → FailedAccepted id (answered c r x text a (unhandled c r x text e w))
      go none h = tt
      go (some (event, some e')) h = tt
      go (some (event, none)) h = h

  after_rejection-Accepted :
      (ctxs : RunCtxs) (id : String) (e : Error) (q : Outcome × World D)
      → FailedAccepted id (after_rejection c r x text ctxs id e q)
  after_rejection-Accepted ctxs id e (committed, w) = tt
  after_rejection-Accepted ctxs id e (panicked, w) = tt
  after_rejection-Accepted ctxs id e (failed e', w) =
      if_cases (FailedAccepted id) (is e' err_duplicate_receipt)
        (λ _. answered-Accepted ctxs.at_second_receipt ctxs.at_second_replay w id _) (λ _. tt)

  write_failed-Accepted :
      (ctxs : RunCtxs) (w : World D) (id : String) (e : Error)
      → FailedAccepted id (write_failed c r x text ctxs w id e)
  unfolding write_failed validation_failed
  write_failed-Accepted ctxs w id e =
      if_cases (FailedAccepted id) (is e err_sync_projection) (λ _. tt)
        (λ _.
          if_cases (FailedAccepted id) (not (id == "") && is e err_duplicate_receipt)
            (λ _. answered-Accepted ctxs.at_second_receipt ctxs.at_second_replay w id _)
            (λ _.
              if_cases (FailedAccepted id) (is e err_validation)
                (λ _.
                  if_cases (FailedAccepted id) (id == "") (λ _. tt)
                    (λ _. after_rejection-Accepted ctxs id e _))
                (λ _. tt)))

  abbrev RanAccepted : String → Ran T D → Type 0
  RanAccepted id q = q.err ≡ none → Accepted id q.event q.world

  abbrev RunAccepted : String → Run T D → Type 0
  RunAccepted id (returned q) = q.err ≡ none → Accepted id q.event q.world
  RunAccepted id (panicked_run w) = Unit

  snapshot-store :
      (ctxs : RunCtxs) (w : World D) (cmd : Command T) (event : Event T)
      → (snapshot_if_due c r x text ctxs w cmd event).1.store ≡ w.store
  unfolding snapshot_if_due snapshot
  snapshot-store ctxs w cmd event =
      if_cases {A = List (Effect T) × World D} (λ q. q.1.store ≡ w.store) (not cmd.should_snapshot)
        (λ _. refl) (λ _. refl)

  enqueue-Accepted :
      (id : String) (w : World D) (event : Event T) (before : List (Effect T))
      → Accepted id event w
      → RanAccepted id (enqueue c r x text w event before)
  unfolding enqueue
  enqueue-Accepted id w event before h = elim (Option-cases x.dispatcher) [
    | inl nobody ↦ rw (enqueue, nobody) (λ _. h)
    | inr (d, there) ↦ elim (Option-cases (d.enqueue event)) [
      | inl takes ↦ rw (enqueue, there, takes) (λ _. h)
      | inr (e, refuses) ↦ rw (enqueue, there, refuses) (λ k. cc k)
    ]
  ]

  after_write-Accepted :
      (ctxs : RunCtxs) (cmd : Command T) (id : String) (q : Written T × World D)
      → ((evt : Event T) → q.0 ≡ wrote evt → HasReceipt id (receipt_of evt) q.1.store)
      → RunAccepted id (after_write c r x text ctxs cmd id q)
  unfolding after_write
  after_write-Accepted ctxs cmd id (wrote event, w) h = enqueue-Accepted id _ event _ (
    receipt_of event,
    subst (HasReceipt id (receipt_of event)) (sym (snapshot-store ctxs w cmd event)) (h event refl),
    refl,
    refl,
    refl,
  )
  after_write-Accepted ctxs cmd id (refused e, w) h =
      go (write_failed c r x text ctxs w id e) (write_failed-Accepted ctxs w id e)
    where
      go :
          (f : Failed c r x text) → FailedAccepted id f → RunAccepted id (failed_write c r x text f)
      go ((handled, event, some e'), w') k = λ n. cc n
      go ((handled, event, none), w') k = λ _. k
  after_write-Accepted ctxs cmd id (panicking, w) h = tt

  -- A command with an id that returns without an error has left its accepted receipt in the store,
  -- with the id and the version of the event that it returned.
  run-Accepted :
      (ctxs : RunCtxs) (stamp : Stamp) (w : World D) (cmd : Command T) (id : String)
      → (id == "") ≡ false
      → RunAccepted id (run c r x text ctxs stamp w cmd id)
  unfolding run answer_retry
  run-Accepted ctxs stamp w cmd id named =
      let known =
        if_cases (AnswerAccepted id w) (id == "") (λ _. tt)
          (λ _. answer-Accepted ctxs.at_receipt ctxs.at_replay w id) in
      elim (Option-cases (answer_retry c r x text ctxs w id)) [
        | inl fresh ↦
            rw (run, fresh)
              (after_write-Accepted ctxs cmd id _ (λ evt h.
                write_tx-receipt c r ctxs.in_hook x.syncs x.durable_match (is_some x.dispatcher) id
                  ctxs.writing stamp w cmd evt named h))
        | inr ((event, some e), answer) ↦ rw (run, answer) (λ k. cc k)
        | inr ((event, none), answer) ↦
            rw (run, answer) (λ _. subst (AnswerAccepted id w) answer known)
      ]

  -- The answer of a retry: the same event, and nothing changed or told.
  abbrev pub Answers : Event T → World D → Run T D → Type 0
  Answers evt w (returned q) =
      (q.event.id ≡ evt.id) × (q.event.version ≡ evt.version) × (q.world ≡ w) × (q.effects ≡ [])
  Answers evt w (panicked_run w') = ⊥

  unrejected {ℓ} : {A : Type ℓ} (b : Bool) (a a' : A) → b ≡ true → (if not b then a else a') ≡ a'
  unrejected true a a' h = refl
  unrejected false a a' h = cc h

  receipt-answer :
      (at_receipt at_replay : Ctx) (w : World D) (id : String) (p : Receipt)
      → at_receipt ≡ none
      → Dict.get w.store.receipts id ≡ some p
      → p.accepted ≡ true
      → answer_from_receipt c r x text at_receipt at_replay w id
        ≡ some (answer_accepted c r x text at_replay w p)
  unfolding answer_from_receipt get_receipt
  receipt-answer (some e) at_replay w id p clear there holds = cc clear
  receipt-answer none at_replay w id p clear there holds =
      rw (answer_from_receipt, there) (unrejected p.accepted _ _ holds)

  answer_accepted-same :
      (ctx : Ctx) (w : World D) (p : Receipt)
      → let a = answer_accepted c r x text ctx w p in
        (p.event_id ≡ a.0.id) × (p.version ≡ a.0.version)
  unfolding answer_accepted
  answer_accepted-same ctx w p =
      pick_event-same p _ (replay c r ctx w.store p.aggregate_id p.version p.version).0 (refl, refl)

  retry_lem :
      (ctxs : RunCtxs) (stamp : Stamp) (w : World D) (cmd : Command T) (id : String) (evt : Event T)
      → (id == "") ≡ false
      → ctxs.at_receipt ≡ none
      → Accepted id evt w
      → Answers evt w (run c r x text ctxs stamp w cmd id)
  unfolding run answer_retry
  retry_lem ctxs stamp w cmd id evt named clear (p, there, holds, same_id, same_version) =
      let a = answer_accepted c r x text ctxs.at_replay w p in
      let same = answer_accepted-same ctxs.at_replay w p in
      let e : answer_retry c r x text ctxs w id ≡ some a =
        rw named (receipt-answer ctxs.at_receipt ctxs.at_replay w id p clear there holds) in
      rw (run, e) (sym same.0 ∙ same_id, sym same.1 ∙ same_version, refl, refl)

  -- When a command with an id has returned without an error, running it again under the same id, in
  -- the stores as it left them and with a context that is live when the receipt is read, returns an
  -- event with the same id and version, changes no store, and tells the dispatcher nothing: no
  -- second event is appended or delivered.
  pub exactly_once :
      (ctxs again : RunCtxs) (stamp next : Stamp) (w : World D) (cmd retried : Command T)
      (id : String) (q : Ran T D)
      → (id == "") ≡ false
      → again.at_receipt ≡ none
      → run c r x text ctxs stamp w cmd id ≡ returned q
      → q.err ≡ none
      → Answers q.event q.world (run c r x text again next q.world retried id)
  exactly_once ctxs again stamp next w cmd retried id q named clear ran fine =
      retry_lem again next q.world retried id q.event named clear
        (subst (RunAccepted id) ran (run-Accepted ctxs stamp w cmd id named) fine)
