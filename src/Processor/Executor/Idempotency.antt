-- ===== src/Processor/Executor/Idempotency.antt =====
-- An idempotent command and its retry.
use asynx.Base.Dict
use asynx.Base.{
  Option, List, ◌≡◌, String, Bool, some, ◌==◌, none, false, refl, Option-cases, inr, inl, string_eq,
  arith, if_cases, ==_refl, sym, ◌∙◌,
}
use asynx.Processor.Hooks.{
  and_then, hook_body, put_accepted_receipt, HookCtxs, go_on, SyncProjection, receipt_of,
  record_delivery, run_sync_projections,
}
use asynx.Store.Memory.Transaction.{
  run_program, Program, run_call, committed, returns, calls, observes, puts_receipt, interrupted,
  panics,
}
use asynx.Models.Errors.{Error}
use asynx.Store.Memory.{put_receipt, MemoryTx, Ctx, set_error}
use asynx.Models.Records.{Receipt, Event}
use asynx.Store.Memory.Receipts.{HasReceipt, run_program-HasReceipt}
use mathlib.Core.Path.{subst}

module _ {B : Type 0} where
  -- A sequence that commits has run its second part.
  and_then-committed :
      (p : Program B) (k : Option Error → Program B) (t : MemoryTx B)
      → (run_program (and_then p k) t).0 ≡ committed
      → (o : Option Error) × (t' : MemoryTx B) × (run_program (and_then p k) t
          ≡ run_program (k o) t')
  unfolding and_then run_program
  and_then-committed (returns o) k t h = (o, t, refl)
  and_then-committed panics k t h = cc h
  and_then-committed (calls call f) k t h =
      let q = run_call call t in and_then-committed (f q.0) k q.1 h
  and_then-committed (observes f) k t h = and_then-committed (f t.store) k t h
  and_then-committed (interrupted id e p) k t h =
      and_then-committed p k (record t { store = set_error t.store id e }) h

  go_on-committed :
      (o : Option Error) (p : Program B) (t : MemoryTx B)
      → (run_program (go_on o p) t).0 ≡ committed
      → run_program (go_on o p) t ≡ run_program p t
  unfolding run_program
  go_on-committed none p t h = refl
  go_on-committed (some e) p t h = cc h

module _ {B : Type 0} where
  put_receipt-stores :
      (ctx : Ctx) (id : String) (q : Receipt) (t : MemoryTx B)
      → (put_receipt ctx t id q).0 ≡ none
      → HasReceipt id q (put_receipt ctx t id q).1.store
  unfolding put_receipt
  put_receipt-stores (some e) id q t h = cc h
  put_receipt-stores none id q t h = elim (Option-cases (Dict.get t.store.receipts id)) [
    | inr (old, there) ↦ cc (rw (there, put_receipt) at h)
    | inl missing ↦
        rw (missing, put_receipt)
          (ground (arith, Dict.get-put t.store.receipts id id q, ==_refl id))
  ]

  go_on-HasReceipt :
      (o : Option Error) (k : Program B) (id : String) (q : Receipt) (t : MemoryTx B)
      → (o ≡ none → HasReceipt id q t.store)
      → (run_program (go_on o k) t).0 ≡ committed
      → HasReceipt id q (run_program (go_on o k) t).1.store
  unfolding run_program
  go_on-HasReceipt none k id q t f h = run_program-HasReceipt k t id q (f refl)
  go_on-HasReceipt (some e) k id q t f h = cc h

  -- PutReceipt and then a program, committed: the receipt is there.
  receipt_then :
      (ctx : Ctx) (id : String) (q : Receipt) (k : Program B) (t : MemoryTx B)
      → (run_program (calls (puts_receipt ctx id q) (λ o. go_on o k)) t).0 ≡ committed
      → HasReceipt id q (run_program (calls (puts_receipt ctx id q) (λ o. go_on o k)) t).1.store
  unfolding run_program run_call
  receipt_then ctx id q k t h =
      let a = put_receipt ctx t id q in
      go_on-HasReceipt a.0 k id q a.1 (put_receipt-stores ctx id q t) h

put_accepted-receipt :
    {T D : Type 0} (ctx : Ctx) (id : String) (evt : Event T) (k : Program D) (t : MemoryTx D)
    → (id == "") ≡ false
    → (run_program (and_then (put_accepted_receipt ctx id evt) (λ o. go_on o k)) t).0 ≡ committed
    → HasReceipt id
        (receipt_of evt)
        (run_program (and_then (put_accepted_receipt ctx id evt) (λ o. go_on o k)) t).1.store
unfolding put_accepted_receipt and_then
put_accepted-receipt {D = D} ctx id evt k t named =
    if_cases
      (λ p.
        (run_program (and_then {B = D} p (λ o. go_on o k)) t).0 ≡ committed
        → HasReceipt id (receipt_of evt) (run_program (and_then p (λ o. go_on o k)) t).1.store)
      (id == "") (λ unnamed. cc (named, unnamed))
      (λ _ h. receipt_then ctx id (receipt_of evt) k t h)

pub hook_body-receipt :
    {T D : Type 0} (ctxs : HookCtxs) (syncs : List (SyncProjection T D)) (durable : Bool)
    (id : String) (evt : Event T) (t : MemoryTx D)
    → (id == "") ≡ false
    → (run_program (hook_body ctxs syncs durable id evt) t).0 ≡ committed
    → HasReceipt id (receipt_of evt) (run_program (hook_body ctxs syncs durable id evt) t).1.store
unfolding hook_body
hook_body-receipt {D = D} ctxs syncs durable id evt t named h =
    let last : Program D = record_delivery ctxs durable evt in
    let rest : Program D =
      and_then (put_accepted_receipt ctxs.at_receipt id evt) (λ o. go_on o last) in
    let a = and_then-committed (run_sync_projections syncs evt) (λ o. go_on o rest) t h in
    let h₁ = subst (λ z. z.0 ≡ committed) a.2 h in
    let e = go_on-committed a.0 rest a.1 h₁ in
    let h₂ = subst (λ z. z.0 ≡ committed) e h₁ in
    subst (λ z. HasReceipt id (receipt_of evt) z.1.store) (sym (a.2 ∙ e))
      (put_accepted-receipt ctxs.at_receipt id evt last a.1 named h₂)
