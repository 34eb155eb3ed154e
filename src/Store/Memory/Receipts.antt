-- ===== src/Store/Memory/Receipts.antt =====
-- Receipts are written once.
use asynx.Base.Dict
use asynx.Store.Memory.{
  put_receipt, String, Ctx, append, Receipt, MemoryTx, append_fresh, Memory, some, delete_stream,
  drop_deliveries, enqueue_delivery, set_error,
}
use asynx.Store.Memory.Transaction.{
  run_call, run_program, atomically, Program, returns, calls, observes, Outcome, Call, interrupted,
  failed, appends, deletes_stream, panics, drops_deliveries, committed, puts_receipt, panicked,
  enqueues_delivery,
}
use asynx.Base.{◌≡◌, Option-cases, [], string_eq, inl, arith, inr, ◌∙◌, none, refl}
use asynx.Store.Memory.Rollback.{atomically_rolls_back}

module _ {ℓ} {B : Type ℓ} where
  -- `r` is the receipt of the command.
  abbrev pub HasReceipt : String → Receipt → Memory B → Type 0
  HasReceipt id r s = Dict.get s.receipts id ≡ some r

  put_receipt-HasReceipt :
      (ctx : Ctx) (t : MemoryTx B) (c : String) (q : Receipt) (id : String) (r : Receipt)
      → HasReceipt id r t.store
      → HasReceipt id r (put_receipt ctx t c q).1.store
  unfolding put_receipt
  put_receipt-HasReceipt (some e) t c q id r h = h
  put_receipt-HasReceipt none t c q id r h = elim (Option-cases (Dict.get t.store.receipts c)) [
    | inl missing ↦
        rw (missing, put_receipt)
          (ground (arith, Dict.get-put t.store.receipts c id q, string_eq.beq_iff c id, h, missing))
    | inr (old, there) ↦ rw (there, put_receipt) h
  ]

  run_call-HasReceipt :
      (c : Call B) (t : MemoryTx B) (id : String) (r : Receipt)
      → HasReceipt id r t.store
      → HasReceipt id r (run_call c t).1.store
  unfolding run_call append append_fresh delete_stream drop_deliveries enqueue_delivery
  run_call-HasReceipt (appends ctx j version blob) t id r h = ground arith
  run_call-HasReceipt (deletes_stream ctx j) t id r h = ground arith
  run_call-HasReceipt (drops_deliveries ctx j) t id r h = ground arith
  run_call-HasReceipt (puts_receipt ctx j q) t id r h = put_receipt-HasReceipt ctx t j q id r h
  run_call-HasReceipt (enqueues_delivery ctx j version) t id r h = ground arith

  pub run_program-HasReceipt :
      (p : Program B) (t : MemoryTx B) (id : String) (r : Receipt)
      → HasReceipt id r t.store
      → HasReceipt id r (run_program p t).1.store
  unfolding run_program
  run_program-HasReceipt (returns e) t id r h = h
  run_program-HasReceipt panics t id r h = h
  run_program-HasReceipt (calls c k) t id r h =
      let q = run_call c t in
      run_program-HasReceipt (k q.0) q.1 id r (run_call-HasReceipt c t id r h)
  run_program-HasReceipt (observes k) t id r h = run_program-HasReceipt (k t.store) t id r h
  run_program-HasReceipt (interrupted j e p) t id r h =
      run_program-HasReceipt p (record t { store = set_error t.store j e }) id r
        (unfold set_error in h)

  -- No transaction, committed or not, changes or removes the receipt of a command that has one.
  pub atomically_keeps_receipt :
      (ctx : Ctx) (p : Program B) (s : Memory B) (id : String) (r : Receipt)
      → Dict.get s.receipts id ≡ some r
      → Dict.get (atomically ctx p s).1.receipts id ≡ some r
  unfolding atomically
  atomically_keeps_receipt (some e) p s id r h = h
  atomically_keeps_receipt none p s id r h = go (run_program p start).0 refl
    where
      start : MemoryTx B
      start = record { store = s; undo = [] }

      go : (o : Outcome) → (run_program p start).0 ≡ o → HasReceipt id r (atomically none p s).1
      go committed e = rw e (run_program-HasReceipt p start id r h)
      go (failed x) e = (atomically_rolls_back none p s (λ k. cc (e, k))).receipts id ∙ h
      go panicked e = (atomically_rolls_back none p s (λ k. cc (e, k))).receipts id ∙ h
