-- ===== src/Processor/Forget/Answers.antt =====
-- The errors that ExecuteAsync returns.
use asynx.Base.{
  some, none, true, false, Bool, String, is_some, if◌then◌else◌, ◌||◌, ◌≡◌, refl, Option-cases,
  Bool-cases, inl, inr,
}
use asynx.Models.Errors.{
  Error, is, err_context_cancelled, err_forget_in_progress, err_pipeline_failed, err_validation,
}
use asynx.EventStore.Codec.{Codec}
use asynx.EventStore.Replayer.{Replayer}
use asynx.EventStore.Writer.{Stamp, Command}
use asynx.Store.Memory.{Ctx}
use asynx.Processor.Executor.{Executor, RunCtxs, Run, returned, panicked_run, run}
use asynx.Processor.Executor.Errors.{Known, RunKnown, run-Known}
use asynx.Processor.Forget.{State, execute, is_forgetting}
use mathlib.Core.Path.{subst}

module _ {T J P D : Type 0} (c : Codec T J P D) (r : Replayer T) (x : Executor T D)
    (text : Error → String) where
  -- Which error a command may return, by what its lock returned and by the fence of its aggregate.
  abbrev pub ErrorKnown : (at_lock : Ctx) (fenced : Bool) → Run T D → Type 0
  ErrorKnown at_lock fenced (panicked_run w) = (at_lock ≡ none) × (fenced ≡ false)
  ErrorKnown at_lock fenced (returned q) = elim q.err [
    | none ↦ (at_lock ≡ none) × (fenced ≡ false)
    | some e ↦
        (if is_some at_lock
          then is e err_context_cancelled
          else if fenced
          then is e err_forget_in_progress
          else is e err_pipeline_failed || is e err_validation)
        ≡ true
  ]

  ran-ErrorKnown : (q : Run T D) → RunKnown c r x text q → ErrorKnown none false q
  ran-ErrorKnown (panicked_run w) k = (refl, refl)
  ran-ErrorKnown (returned q) k = elim (Option-cases q.err) [
    | inl fine ↦ rw fine (refl, refl)
    | inr (e, failed) ↦ rw failed (subst (Known) failed k)
  ]

  -- Whatever the contexts, the stores, the projections and the dispatcher do, an error that a command
  -- returns wraps ErrContextCancelled if the command did not get its lock, ErrForgetInProgress if it
  -- got the lock while its aggregate is being forgotten, and ErrPipelineFailed or ErrValidation
  -- otherwise. In the first two cases it always returns an error.
  pub execute-ErrorKnown :
      (ctxs : RunCtxs) (at_lock : Ctx) (stamp : Stamp) (s : State T D) (cmd : Command T)
      (id : String)
      → ErrorKnown at_lock
          (is_forgetting s cmd.aggregate_id)
          (execute c r x text ctxs at_lock stamp s cmd id)
  unfolding execute is
  execute-ErrorKnown ctxs (some e) stamp s cmd id = refl
  execute-ErrorKnown ctxs none stamp s cmd id =
      elim (Bool-cases (is_forgetting s cmd.aggregate_id)) [
        | inl up ↦ rw (up, execute) refl
        | inr down ↦
            rw (down, execute)
              (ran-ErrorKnown (run c r x text ctxs stamp s.world cmd id)
                (run-Known c r x text ctxs stamp s.world cmd id))
      ]
