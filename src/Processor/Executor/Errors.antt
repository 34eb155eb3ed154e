-- ===== src/Processor/Executor/Errors.antt =====
-- The errors that a command returns (writeFailed and its callers).
use asynx.Base.{
  Option, some, String, ◌||◌, none, ◌≡◌, Option-cases, List, true, inr, if_cases, inl, arith, refl,
  not, ◌==◌, ◌&&◌, string_eq,
}
use asynx.EventStore.Codec.{Codec}
use asynx.Models.Errors.{
  Error, is, err_pipeline_failed, err_validation, Result-cases, err_duplicate_receipt,
  err_sync_projection,
}
use asynx.EventStore.Replayer.{Replayer, replay}
use asynx.Processor.Executor.{
  Executor, Answer, Failed, Run, pipeline, answer_accepted, answer_from_receipt, RunCtxs,
  write_failed, enqueue, after_write, run, returned, Ctx, answered, Outcome, validation_failed,
  World, Command, answer_retry, panicked_run, Receipt, after_rejection, Event, Written, Stamp,
  get_receipt, failed, wrote, Effect, refused,
}
use asynx.EventStore.Writer.{panicking}
use asynx.Store.Memory.Transaction.{committed, panicked}
use mathlib.Core.Path.{subst}

-- No error, or one that wraps ErrPipelineFailed or ErrValidation.
abbrev pub Known : Option Error → Type 0
Known none = Unit
Known (some e) = is e err_pipeline_failed || is e err_validation ≡ true

module _ {T J P D : Type 0} (c : Codec T J P D) (r : Replayer T) (x : Executor T D)
    (text : Error → String) where
  abbrev AnswerKnown : Answer c r x text → Type 0
  AnswerKnown none = Unit
  AnswerKnown (some (event, err)) = Known err

  abbrev FailedKnown : Failed c r x text → Type 0
  FailedKnown ((handled, event, err), w) = Known err

  abbrev pub RunKnown : Run T D → Type 0
  RunKnown (returned q) = Known q.err
  RunKnown (panicked_run w) = Unit

  pipeline-Known : (e : Error) → Known (some (pipeline c r x text e))
  unfolding is
  pipeline-Known e = refl

  accepted-Known :
      (ctx : Ctx) (w : World D) (q : Receipt) → Known (answer_accepted c r x text ctx w q).1
  unfolding answer_accepted
  accepted-Known ctx w q =
      elim (Option-cases (replay c r ctx w.store q.aggregate_id q.version q.version).1) [
        | inl fine ↦ rw (answer_accepted, fine) tt
        | inr (e, bad) ↦ rw (answer_accepted, bad) (pipeline-Known e)
      ]

  receipt-Known :
      (at_receipt at_replay : Ctx) (w : World D) (id : String)
      → AnswerKnown (answer_from_receipt c r x text at_receipt at_replay w id)
  unfolding answer_from_receipt is
  receipt-Known at_receipt at_replay w id =
      elim (Result-cases (get_receipt at_receipt w.store id)) [
        | inr (e, bad) ↦ rw (answer_from_receipt, bad) refl
        | inl (none, good) ↦ rw (answer_from_receipt, good) tt
        | inl (some q, good) ↦
            rw (answer_from_receipt, good)
              (if_cases AnswerKnown (not q.accepted) (λ _. refl)
                (λ _. accepted-Known at_replay w q))
      ]

  answered-Known :
      (a : Answer c r x text) (f : Failed c r x text)
      → AnswerKnown a
      → FailedKnown f
      → FailedKnown (answered c r x text a f)
  answered-Known none f h k = k
  answered-Known (some q) f h k = h

  after_rejection-Known :
      (ctxs : RunCtxs) (id : String) (e : Error) (q : Outcome × World D)
      → Known (some e)
      → FailedKnown (after_rejection c r x text ctxs id e q)
  after_rejection-Known ctxs id e (committed, w) h = h
  after_rejection-Known ctxs id e (panicked, w) h = h
  after_rejection-Known ctxs id e (failed e', w) h =
      if_cases FailedKnown (is e' err_duplicate_receipt)
        (λ _.
          answered-Known _ _ (receipt-Known ctxs.at_second_receipt ctxs.at_second_replay w id)
            (pipeline-Known e'))
        (λ _. pipeline-Known e')

  write_failed-Known :
      (ctxs : RunCtxs) (w : World D) (id : String) (e : Error)
      → FailedKnown (write_failed c r x text ctxs w id e)
  unfolding write_failed validation_failed
  write_failed-Known ctxs w id e =
      if_cases FailedKnown (is e err_sync_projection) (λ _. pipeline-Known e)
        (λ _.
          if_cases FailedKnown (not (id == "") && is e err_duplicate_receipt)
            (λ _.
              answered-Known _ _ (receipt-Known ctxs.at_second_receipt ctxs.at_second_replay w id)
                (pipeline-Known e))
            (λ _.
              if_cases FailedKnown (is e err_validation)
                (λ v.
                  if_cases FailedKnown (id == "") (λ _. validation-Known e v)
                    (λ _. after_rejection-Known ctxs id e _ (validation-Known e v)))
                (λ _. pipeline-Known e)))
    where
      validation-Known : (e : Error) → is e err_validation ≡ true → Known (some e)
      validation-Known e v = ground arith

  enqueue-Known :
      (w : World D) (event : Event T) (before : List (Effect T))
      → Known (enqueue c r x text w event before).err
  unfolding enqueue
  enqueue-Known w event before = elim (Option-cases x.dispatcher) [
    | inl nobody ↦ rw (enqueue, nobody) tt
    | inr (d, there) ↦ elim (Option-cases (d.enqueue event)) [
      | inl takes ↦ rw (enqueue, there, takes) tt
      | inr (e, refuses) ↦ rw (enqueue, there, refuses) (pipeline-Known e)
    ]
  ]

  after_write-Known :
      (ctxs : RunCtxs) (cmd : Command T) (id : String) (q : Written T × World D)
      → RunKnown (after_write c r x text ctxs cmd id q)
  unfolding after_write
  after_write-Known ctxs cmd id (wrote event, w) = enqueue-Known _ event _
  after_write-Known ctxs cmd id (refused e, w) = write_failed-Known ctxs w id e
  after_write-Known ctxs cmd id (panicking, w) = tt

  -- The errors of a command that has its lock, where no Forget of its aggregate is under way.
  pub run-Known :
      (ctxs : RunCtxs) (stamp : Stamp) (w : World D) (cmd : Command T) (id : String)
      → RunKnown (run c r x text ctxs stamp w cmd id)
  unfolding run answer_retry
  run-Known ctxs stamp w cmd id =
      let known =
        if_cases AnswerKnown (id == "") (λ _. tt)
          (λ _. receipt-Known ctxs.at_receipt ctxs.at_replay w id) in
      elim (Option-cases (answer_retry c r x text ctxs w id)) [
        | inl fresh ↦ rw (run, fresh) (after_write-Known ctxs cmd id _)
        | inr ((event, err), answer) ↦ rw (run, answer) (subst AnswerKnown answer known)
      ]
