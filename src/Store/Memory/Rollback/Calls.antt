-- ===== src/Store/Memory/Rollback/Calls.antt =====
-- Every method of the transaction records how to undo what it wrote.
use asynx.Base.{
  ℕ, String, refl, inl, inr, none, some, arith, string_eq, nat_eq, Bool-cases, Option-cases,
}
use asynx.Base.Dict
use asynx.Base.Dict.{Dict, dict_laws}
use asynx.Models.Records.{Receipt}
use asynx.Store.Memory.{
  MemoryTx, Ctx, removes_entry, restores_stream, restores_deliveries, deletes_receipt, entries_of,
  run_undo, append, append_fresh, delete_stream, drop_deliveries, put_receipt, enqueue_delivery,
}
use asynx.Store.Memory.Slices.{is_at_first}
use asynx.Store.Memory.Transaction.{
  Call, appends, deletes_stream, drops_deliveries, puts_receipt, enqueues_delivery, run_call,
}
use asynx.Store.Memory.Rollback.Undoing.{
  SameContents-refl, run_undos-SameContents, Undoes, undoes_push, undo-insert_at,
}
use asynx.Store.Memory.Views.{
  entries_of-put, entries_of-remove, entries_of_missing, entries_of_found,
}

module _ {ℓ} {B : Type ℓ} where
  append_fresh-Undoes :
      (t : MemoryTx B) (id : String) (version : ℕ) (blob : B)
      → Undoes (append_fresh t id version blob).1 t
  unfolding append_fresh
  append_fresh-Undoes t id version blob =
      elim (Bool-cases (is_at_first (entries_of t.store id) version)) [
        | inl found ↦ rw found (SameContents-refl _)
        | inr fresh ↦ rw fresh (
            undoes_push t.undo (removes_entry id version) _ t.store
              (undo-insert_at t.store id (record { version = version; blob = blob }) fresh))
      ]

  append-Undoes :
      (ctx : Ctx) (t : MemoryTx B) (id : String) (version : ℕ) (blob : B)
      → Undoes (append ctx t id version blob).1 t
  unfolding append
  append-Undoes (some e) t id version blob = SameContents-refl _
  append-Undoes none t id version blob = elim (Option-cases (Dict.get t.store.err_on id)) [
    | inl clear ↦ rw (clear, append) (append_fresh-Undoes t id version blob)
    | inr (e, scheduled) ↦
        rw (scheduled, append)
          (run_undos-SameContents t.undo (
            unfold entries_of in
            record { streams = λ _. refl; receipts = λ _. refl; deliveries = refl }))
  ]

  delete_stream-Undoes :
      (ctx : Ctx) (t : MemoryTx B) (id : String) → Undoes (delete_stream ctx t id).1 t
  unfolding delete_stream
  delete_stream-Undoes (some e) t id = SameContents-refl _
  delete_stream-Undoes none t id = elim (Option-cases (Dict.get t.store.streams id)) [
    | inl missing ↦
        rw (missing, delete_stream)
          (run_undos-SameContents t.undo record {
            streams = λ j. ground (
              arith,
              entries_of-remove t.store id j,
              entries_of_missing t.store id missing,
              string_eq.beq_iff id j,
            );
            receipts = λ j. refl;
            deliveries = refl;
          })
    | inr (old, there) ↦
        rw (there, delete_stream)
          (undoes_push t.undo (restores_stream id old) _ t.store (
            unfold run_undo in
            record {
              streams = λ j. ground (
                arith,
                entries_of-put (record (t.store) { streams = Dict.remove t.store.streams id }) id
                    old j,
                entries_of-remove t.store id j,
                entries_of_found t.store id old there,
                string_eq.beq_iff id j,
              );
              receipts = λ j. refl;
              deliveries = refl;
            }))
  ]

  drop_deliveries-Undoes :
      (ctx : Ctx) (t : MemoryTx B) (id : String) → Undoes (drop_deliveries ctx t id).1 t
  unfolding drop_deliveries
  drop_deliveries-Undoes (some e) t id = SameContents-refl _
  drop_deliveries-Undoes none t id =
      undoes_push t.undo (restores_deliveries t.store.deliveries) _ t.store
        (unfold run_undo in record { streams = λ _. refl; receipts = λ _. refl; deliveries = refl })

  enqueue_delivery-Undoes :
      (ctx : Ctx) (t : MemoryTx B) (id : String) (version : ℕ)
      → Undoes (enqueue_delivery ctx t id version).1 t
  unfolding enqueue_delivery
  enqueue_delivery-Undoes (some e) t id version = SameContents-refl _
  enqueue_delivery-Undoes none t id version =
      undoes_push t.undo (restores_deliveries t.store.deliveries) _ t.store
        (unfold run_undo in record { streams = λ _. refl; receipts = λ _. refl; deliveries = refl })

  put_receipt-Undoes :
      (ctx : Ctx) (t : MemoryTx B) (id : String) (r : Receipt) → Undoes (put_receipt ctx t id r).1 t
  unfolding put_receipt
  put_receipt-Undoes (some e) t id r = SameContents-refl _
  put_receipt-Undoes none t id r = elim (Option-cases (Dict.get t.store.receipts id)) [
    | inl missing ↦
        rw (missing, put_receipt)
          (undoes_push t.undo (deletes_receipt id) _ t.store (
            unfold run_undo entries_of in
            record {
              streams = λ j. refl;
              receipts = λ j. ground (
                arith,
                Dict.get-remove (Dict.put t.store.receipts id r) id j,
                Dict.get-put t.store.receipts id j r,
                missing,
                string_eq.beq_iff id j,
              );
              deliveries = refl;
            }))
    | inr (old, there) ↦ rw (there, put_receipt) (SameContents-refl _)
  ]

  pub run_call-Undoes : (c : Call B) (t : MemoryTx B) → Undoes (run_call c t).1 t
  unfolding run_call
  run_call-Undoes (appends ctx id version blob) t = append-Undoes ctx t id version blob
  run_call-Undoes (deletes_stream ctx id) t = delete_stream-Undoes ctx t id
  run_call-Undoes (drops_deliveries ctx id) t = drop_deliveries-Undoes ctx t id
  run_call-Undoes (puts_receipt ctx id r) t = put_receipt-Undoes ctx t id r
  run_call-Undoes (enqueues_delivery ctx id version) t = enqueue_delivery-Undoes ctx t id version
