-- ===== src/Processor/Forget/Fences.antt =====
-- While an aggregate is forgotten its commands are refused, and only then.
use asynx.Base.Dict
use asynx.Store.Snapshots
use asynx.EventStore.Codec.{Codec}
use asynx.EventStore.Replayer.{Replayer}
use asynx.Processor.Executor.{Executor, Dispatcher, RunCtxs}
use asynx.Processor.Forget.{
  begin_forget, String, write_tombstone, Option, State, fenced_tombstone, Error, Written, Tombstone,
  commit_tombstone, enqueue_answered, World, is_forgetting, commit_ended, ForgetTurn, refused,
  tombstone_failed, fence_kept, Stamp, wrote, tombstone_ok, enqueue_tombstone, tombstone_panicked,
  tells, enqueues_tombstone, supersedes, supersedes, Outcome, erase_ended, fence, failed,
  forget_command, tombstone_hook, erase, forget_ended, complete_forget, Forgot, forget,
  await_tombstone, forget_failed, after_tombstone, parks_forgotten, forget_panicked, forgotten,
  erase_stream, execute, rejected_run, note, sentinel, err_forget_in_progress, Awaited,
  still_waiting, after_await, ended, goes_on,
}
use asynx.Base.{
  ◌≡◌, some, none, refl, ap, ◌∙◌, string_eq, arith, ==_refl, sym, if_cases, Option-cases, is_some,
  inl, inr, ◌&&◌, if◌then◌else◌,
}
use asynx.EventStore.Writer.{panicking, write_tx, Command}
use asynx.Store.Memory.Transaction.{committed, panicked}
use mathlib.Core.Path.{subst}

module _ {T J P D : Type 0} (c : Codec T J P D) (r : Replayer T) (x : Executor T D) where
  enqueued-forgetting :
      (id : String) (o : Option Error) (s : State T D)
      → (enqueue_answered c r x id o s).1.forgetting ≡ s.forgetting
  enqueued-forgetting id none s = refl
  enqueued-forgetting id (some e) s = refl

  commit_ended-forgetting :
      (id : String) (s : State T D) (q : Written T × World D)
      → (commit_ended c r x id s q).1.forgetting ≡ s.forgetting
  commit_ended-forgetting id s (refused e, w) = refl
  commit_ended-forgetting id s (panicking, w) = refl
  commit_ended-forgetting id s (wrote tombstone, w) = to x.dispatcher
    where
      to :
          (o : Option (Dispatcher T))
          → (enqueue_tombstone c r x id o tombstone (record s { world = w })).1.forgetting
            ≡ s.forgetting
      to none = refl
      to (some d) =
          enqueued-forgetting id (d.enqueue tombstone)
            (tells (enqueues_tombstone tombstone) (tells (supersedes id) (record s { world = w })))

  -- The fence of the aggregate after the first part, by its result.
  abbrev BegunFence : String → State T D → Tombstone T → State T D → Type 0
  BegunFence id s tombstone_ok s' =
      (Dict.get s'.forgetting id ≡ some tt) × (Dict.get s.forgetting id ≡ none)
  BegunFence id s (tombstone_failed e) s' = Dict.get s'.forgetting id ≡ Dict.get s.forgetting id
  BegunFence id s tombstone_panicked s' =
      (Dict.get s'.forgetting id ≡ some tt) × (Dict.get s.forgetting id ≡ none)

  fence_kept-BegunFence :
      (id : String) (s : State T D) (q : Tombstone T × State T D)
      → Dict.get s.forgetting id ≡ none
      → q.1.forgetting ≡ Dict.put s.forgetting id tt
      → BegunFence id s (fence_kept c r x id q).0 (fence_kept c r x id q).1
  fence_kept-BegunFence id s (tombstone_ok, s') free e = (
    ap (λ f. Dict.get f id) e ∙ ground (arith, Dict.get-put s.forgetting id id tt, ==_refl id),
    free,
  )
  fence_kept-BegunFence id s (tombstone_panicked, s') free e = (
    ap (λ f. Dict.get f id) e ∙ ground (arith, Dict.get-put s.forgetting id id tt, ==_refl id),
    free,
  )
  fence_kept-BegunFence id s (tombstone_failed _, s') free e =
      ground (arith, Dict.get-remove s'.forgetting id id, ==_refl id) ∙ sym free

  -- The result of a part with its fence.
  abbrev Begun : String → State T D → Tombstone T × State T D → Type 0
  Begun id s q = BegunFence id s q.0 q.1

  fenced_tombstone-Begun :
      (t : ForgetTurn) (stamp : Stamp) (id : String) (s : State T D)
      → Begun id s (fenced_tombstone c r x t stamp id s)
  unfolding fenced_tombstone commit_tombstone is_forgetting
  fenced_tombstone-Begun t stamp id s =
      if_cases {A = Tombstone T × State T D} (Begun id s) (is_some (Dict.get s.forgetting id))
        (λ _. refl)
        (λ free.
          fence_kept-BegunFence id s (commit_tombstone c r x t stamp id (fence id s))
            (ground (arith, free))
            (commit_ended-forgetting id (fence id s) (
              write_tx c r t.writing stamp s.world (forget_command c r x id)
                (tombstone_hook c r x t))))

  write_tombstone-Begun :
      (t : ForgetTurn) (stamp : Stamp) (id : String) (s : State T D)
      → Begun id s (write_tombstone c r x t stamp id s)
  unfolding write_tombstone
  write_tombstone-Begun t stamp id s = elim (Option-cases t.at_lock) [
    | inl locked ↦ rw (locked, write_tombstone) (fenced_tombstone-Begun t stamp id s)
    | inr (e, over) ↦ rw (over, write_tombstone) refl
  ]

  begin_forget-Begun :
      (t : ForgetTurn) (stamp : Stamp) (id : String) (s : State T D)
      → Begun id s (begin_forget c r x t stamp id s)
  unfolding begin_forget
  begin_forget-Begun t stamp id s =
      if_cases {A = Tombstone T × State T D} (Begun id s) (is_some x.dispatcher && t.in_handler)
        (λ _. refl) (λ _. write_tombstone-Begun t stamp id s)

  -- The fence is down after the second part.
  erase_ended-forgetting :
      (id : String) (o : Outcome) (s : State T D)
      → let q = erase_ended c r x id o s in (q.0 ≡ none → Dict.get q.1.forgetting id ≡ none)
  erase_ended-forgetting id committed s _ =
      ground (arith, Dict.get-remove s.forgetting id id, ==_refl id)
  erase_ended-forgetting id (failed e) s h = cc
  erase_ended-forgetting id panicked s h = cc

  erase-forgetting :
      (id : String) (s : State T D)
      → (erase c r x id s).0 ≡ none
      → Dict.get (erase c r x id s).1.forgetting id ≡ none
  unfolding erase Snapshots.delete
  erase-forgetting id s = erase_ended-forgetting id _ (record s {
    world =
        (erase_stream c r x id
          (record (s.world) { snaps = (Snapshots.delete none s.world.snaps id).1 })).1;
  })

  forget_ended-forgetting :
      (id : String) (q : Option Error × State T D)
      → (q.0 ≡ none → Dict.get q.1.forgetting id ≡ none)
      → Dict.get (forget_ended c r x id q).1.forgetting id ≡ none
  forget_ended-forgetting id (none, s) h = h refl
  forget_ended-forgetting id (some e, s) h =
      let s' = if is_some x.dispatcher then tells (parks_forgotten id e) s else s in
      ground (arith, Dict.get-remove s'.forgetting id id, ==_refl id)

  -- The fence of the aggregate after Forget, by its result; down before, if Forget came to its wait.
  abbrev pub FenceAfter : String → State T D → Forgot × State T D → Type 0
  FenceAfter id s (forget_panicked, s') =
      (Dict.get s'.forgetting id ≡ some tt) × (Dict.get s.forgetting id ≡ none)
  FenceAfter id s (forgotten, s') = Dict.get s'.forgetting id ≡ Dict.get s.forgetting id
  FenceAfter id s (forget_failed e, s') = Dict.get s'.forgetting id ≡ Dict.get s.forgetting id
  FenceAfter id s (still_waiting, s') = Dict.get s.forgetting id ≡ none

  completed-FenceAfter :
      (id : String) (s : State T D) (q : Option Error × State T D)
      → Dict.get (forget_ended c r x id q).1.forgetting id ≡ Dict.get s.forgetting id
      → FenceAfter id s (forget_ended c r x id q)
  completed-FenceAfter id s (none, s') h = h
  completed-FenceAfter id s (some e, s') h = h

  after_await-FenceAfter :
      (id : String) (s s' : State T D) (a : Awaited)
      → Dict.get s.forgetting id ≡ none
      → FenceAfter id s (after_await c r x a id s')
  after_await-FenceAfter id s s' goes_on free = free
  after_await-FenceAfter id s s' (ended (some e)) free =
      completed-FenceAfter id s (some e, s')
        (forget_ended-forgetting id (some e, s') (λ h. cc) ∙ sym free)
  after_await-FenceAfter id s s' (ended none) free =
      completed-FenceAfter id s _
        (forget_ended-forgetting id (erase c r x id s') (erase-forgetting id s') ∙ sym free)

  after_tombstone-FenceAfter :
      (t : ForgetTurn) (id : String) (others : State T D → State T D) (s : State T D)
      (q : Tombstone T × State T D)
      → Begun id s q
      → FenceAfter id s (after_tombstone c r x t id others q)
  unfolding complete_forget
  after_tombstone-FenceAfter t id others s (tombstone_failed e, s') b = b
  after_tombstone-FenceAfter t id others s (tombstone_panicked, s') b = b
  after_tombstone-FenceAfter t id others s (tombstone_ok, s') b =
      after_await-FenceAfter id s (others s') (await_tombstone c r x t) b.1

  -- A Forget that returns leaves the fence of its aggregate as it found it: down, unless another
  -- Forget of the aggregate had raised it. One that a synchronous projection ends by a panic leaves
  -- the fence up, though it was down before.
  pub forget_lifts_fence :
      (t : ForgetTurn) (stamp : Stamp) (id : String) (others : State T D → State T D)
      (s : State T D)
      → FenceAfter id s (forget c r x t stamp id others s)
  unfolding forget
  forget_lifts_fence t stamp id others s =
      after_tombstone-FenceAfter t id others s (begin_forget c r x t stamp id s)
        (begin_forget-Begun t stamp id s)

  -- From the tombstone on, until the fence goes down, every command for the aggregate that gets its
  -- lock is answered with ErrForgetInProgress: nothing is written and the dispatcher is told nothing.
  pub execute_fenced :
      (t : ForgetTurn) (stamp : Stamp) (id : String) (s later : State T D) (text : Error → String)
      (ctxs : RunCtxs) (stamp' : Stamp) (cmd : Command T) (command_id : String)
      → (begin_forget c r x t stamp id s).0 ≡ tombstone_ok
      → Dict.get later.forgetting id ≡ Dict.get (begin_forget c r x t stamp id s).1.forgetting id
      → cmd.aggregate_id ≡ id
      → execute c r x text ctxs none stamp' later cmd command_id
        ≡ rejected_run c r x text later.world (note (sentinel err_forget_in_progress) id)
  unfolding execute is_forgetting
  execute_fenced t stamp id s later text ctxs stamp' cmd command_id begun same e =
      let up : Dict.get later.forgetting id ≡ some tt =
        same
        ∙ (subst (λ o. BegunFence id s o (begin_forget c r x t stamp id s).1) begun
            (begin_forget-Begun t stamp id s)).0 in
      let up' : Dict.get later.forgetting cmd.aggregate_id ≡ some tt =
        ap (Dict.get later.forgetting) e ∙ up in
      rw up'
        (ap (λ a. rejected_run c r x text later.world (note (sentinel err_forget_in_progress) a)) e)
