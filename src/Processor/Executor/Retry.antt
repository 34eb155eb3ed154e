-- ===== src/Processor/Executor/Retry.antt =====
-- The retry of a command that was accepted.
use asynx.Processor.Hooks.{receipt_of, accepts}
use asynx.Base.{
  ℕ, List, ◌≡◌, Option, String, Bool, ap, ◌==◌, false, some, refl, ◌&&◌, true, ◌≢◌, arith, [],
  if_cases, is_empty, not, sym, is_some, string_eq, inr, none, inl, Option-cases,
}
use asynx.EventStore.Codec.{Codec, events_of}
use asynx.EventStore.Replayer.{Replayer}
use asynx.Processor.Hooks.{tx_hook, HookCtxs, SyncProjection, receipt_of}
use asynx.EventStore.Writer.{
  append_tx, written, wrote, run_hook, commit, write_tx, WriteCtxs, Stamp, World, Command,
  build_event, or_zero, current_of,
}
use asynx.Store.Memory.Transaction.{
  Outcome, run_program, atomically, committed, failed, run_call, panicked, appends, close_tx,
}
use asynx.Models.Errors.{Result, ok, Error, fail, Result-cases}
use asynx.Models.Records.{Event}
use asynx.Store.Memory.{Ctx, MemoryTx, Memory}
use asynx.Store.Memory.Receipts.{HasReceipt}
use mathlib.Core.Path.{subst}
use asynx.EventStore.Reader.{load, holds_lock}
use asynx.Processor.Executor.Idempotency.{hook_body-receipt}

module _ {T J P D : Type 0} (c : Codec T J P D) (r : Replayer T) where
  run_hook-receipt :
      (ctxs : HookCtxs) (syncs : List (SyncProjection T D)) (durable_match : Option (String → Bool))
      (dispatched : Bool) (id : String) (evt : Event T) (o : Option Error) (t : MemoryTx D)
      → (id == "") ≡ false
      → let p = run_hook c r (tx_hook ctxs syncs durable_match dispatched id) evt o in
        (run_program p t).0 ≡ committed → HasReceipt id (receipt_of evt) (run_program p t).1.store
  unfolding tx_hook run_program
  run_hook-receipt ctxs syncs durable_match dispatched id evt (some e) t named = λ h. cc h
  run_hook-receipt ctxs syncs durable_match dispatched id evt none t named =
      if_cases
        (λ hook.
          (run_program (run_hook c r hook evt none) t).0 ≡ committed
          → HasReceipt id (receipt_of evt) (run_program (run_hook c r hook evt none) t).1.store)
        (is_empty syncs && not (is_some durable_match) && id == "")
        (λ nothing.
          absurd (unnamed (is_empty syncs) (not (is_some durable_match)) (id == "") nothing named))
        (λ _.
          hook_body-receipt ctxs syncs (accepts durable_match dispatched evt.event_name) id evt t
            named)
    where
      unnamed : (a b d : Bool) → a && b && d ≡ true → d ≢ false
      unnamed a b d h k = ground arith

  append_tx-receipt :
      (ctxs : HookCtxs) (syncs : List (SyncProjection T D)) (durable_match : Option (String → Bool))
      (dispatched : Bool) (id : String) (begin at_append : Ctx) (blob : D) (evt : Event T)
      (s : Memory D)
      → (id == "") ≡ false
      → let p =
          append_tx c r at_append
            (tx_hook ctxs syncs durable_match dispatched id)
            (ok (blob, evt)) in
        (atomically begin p s).0 ≡ committed
        → HasReceipt id (receipt_of evt) (atomically begin p s).1
  unfolding append_tx atomically run_program
  append_tx-receipt ctxs syncs durable_match dispatched id (some e) at_append blob evt s named h =
      cc h
  append_tx-receipt ctxs syncs durable_match dispatched id none at_append blob evt s named h =
      let hook = tx_hook ctxs syncs durable_match dispatched id in
      let a =
        run_call (appends at_append (events_of evt.aggregate_id) evt.version blob)
          (record { store = s; undo = [] }) in
      let p = run_program (run_hook c r hook evt a.0) a.1 in
      subst (λ o. HasReceipt id (receipt_of evt) (close_tx o p.1)) (sym h)
        (unfold close_tx in
          run_hook-receipt ctxs syncs durable_match dispatched id evt a.0 a.1 named h)

  written-wrote :
      (o : Outcome) (built : Result (D × Event T)) (evt : Event T)
      → written c r o built ≡ wrote evt
      → (o ≡ committed) × ((blob : D) × (built ≡ ok (blob, evt)))
  written-wrote committed (ok (blob, e)) evt h = (refl, (blob, ap (λ x. ok (blob, x)) (cc h)))
  written-wrote committed (fail e) evt h = cc h
  written-wrote (failed e) built evt h = cc h
  written-wrote panicked built evt h = cc h

  commit-receipt :
      (ctxs : HookCtxs) (syncs : List (SyncProjection T D)) (durable_match : Option (String → Bool))
      (dispatched : Bool) (id : String) (writing : WriteCtxs) (stamp : Stamp) (w : World D)
      (cmd : Command T) (current : Option T) (n : ℕ) (evt : Event T)
      → (id == "") ≡ false
      → let q =
          commit c r writing stamp w cmd
            (tx_hook ctxs syncs durable_match dispatched id)
            current
            n in
        q.0 ≡ wrote evt → HasReceipt id (receipt_of evt) q.1.store
  unfolding commit
  commit-receipt ctxs syncs durable_match dispatched id writing stamp w cmd current n evt named h =
      let hook = tx_hook ctxs syncs durable_match dispatched id in
      let built =
        build_event c r stamp cmd.aggregate_id cmd.event_name n (or_zero c r current)
          (cmd.emit_event current) in
      let k =
        written-wrote
          (atomically writing.at_begin (append_tx c r writing.at_append hook built) w.store).0 built
          evt h in
      subst
        (λ b.
          (atomically writing.at_begin (append_tx c r writing.at_append hook b) w.store).0
            ≡ committed
          → HasReceipt id (receipt_of evt)
              (atomically writing.at_begin (append_tx c r writing.at_append hook b) w.store).1)
        (sym k.1.1)
        (append_tx-receipt ctxs syncs durable_match dispatched id writing.at_begin writing.at_append
          k.1.0 evt w.store named)
        k.0

  pub write_tx-receipt :
      (ctxs : HookCtxs) (syncs : List (SyncProjection T D)) (durable_match : Option (String → Bool))
      (dispatched : Bool) (id : String) (writing : WriteCtxs) (stamp : Stamp) (w : World D)
      (cmd : Command T) (evt : Event T)
      → (id == "") ≡ false
      → let q = write_tx c r writing stamp w cmd (tx_hook ctxs syncs durable_match dispatched id) in
        q.0 ≡ wrote evt → HasReceipt id (receipt_of evt) q.1.store
  unfolding write_tx
  write_tx-receipt ctxs syncs durable_match dispatched id writing stamp w cmd evt named =
      let q = load c r holds_lock writing.loading w.store w.store w.snaps cmd.aggregate_id in
      let w' = record w { snaps = q.snaps } in
      elim (Result-cases (current_of c r q.result)) [
        | inr (e, bad) ↦ rw (write_tx, bad) (λ h. cc h)
        | inl ((current, n), good) ↦ elim (Option-cases (cmd.validate current)) [
          | inr (e, refuses) ↦ rw (write_tx, good, refuses) (λ h. cc h)
          | inl valid ↦
              rw (write_tx, good, valid)
                (commit-receipt ctxs syncs durable_match dispatched id writing stamp w' cmd current
                  n evt named)
        ]
      ]
