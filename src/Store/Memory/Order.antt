-- ===== src/Store/Memory/Order.antt =====
-- Every stream is in ascending version order, without a repeated version.
mod Ascending
pub use Ascending.{Above}
use Ascending.{Above-insert_at}
use asynx.Base.Dict
use asynx.Store.Memory.{
  Memory, MemoryTx, Ctx, Undo, String, new, Bool, append_fresh, append, set_error, some, entries_of,
  List, ℕ, delete_stream, [], Entry, drop_deliveries, if◌then◌else◌, ◌==◌, put_receipt,
  enqueue_delivery,
}
use asynx.Store.Memory.Transaction.{
  Call, appends, deletes_stream, drops_deliveries, puts_receipt, enqueues_delivery, Program,
  returns, panics, calls, observes, interrupted, Outcome, committed, failed, panicked, run_call,
  run_program, close_tx, atomically,
}
use asynx.Store.Memory.Rollback.{SameContents, atomically_rolls_back}
use asynx.Store.Memory.Views.{
  entries_of-put, entries_of-remove, entries_of_missing, entries_of_found,
}
use asynx.Base.{string_eq, Bool-cases, Option-cases, ◌≡◌, inl, inr, true, none, arith, false, refl}
use asynx.Store.Memory.Slices.{is_at_first}

module _ {ℓ} {B : Type ℓ} where
  pub record IsOrdered (s : Memory B) : Type ℓ where
    pub ascending : (id : String) → Above 0 (entries_of s id)

  pub new-IsOrdered : IsOrdered (new {B = B})
  unfolding new entries_of
  new-IsOrdered = record { ascending = λ id. rw (Dict.get-empty id) tt }

  IsOrdered-same : {s t : Memory B} → SameContents s t → IsOrdered t → IsOrdered s
  IsOrdered-same h v = record { ascending = λ id. rw (h.streams id) (v.ascending id) }

  Above-if :
      (b : Bool) (xs ys : List (Entry B)) → Above 0 xs → Above 0 ys → Above 0 (if b then xs else ys)
  Above-if true xs ys a b = a
  Above-if false xs ys a b = b

  IsOrdered-put :
      (s : Memory B) (id : String) (es : List (Entry B))
      → Above 0 es
      → IsOrdered s
      → IsOrdered (record s { streams = Dict.put s.streams id es })
  IsOrdered-put s id es a v = record {
    ascending = λ j.
        rw (entries_of-put s id es j) (Above-if (id == j) es (entries_of s j) a (v.ascending j));
  }

  IsOrdered-remove :
      (s : Memory B) (id : String)
      → IsOrdered s
      → IsOrdered (record s { streams = Dict.remove s.streams id })
  IsOrdered-remove s id v = record {
    ascending = λ j.
        rw (entries_of-remove s id j) (Above-if (id == j) [] (entries_of s j) tt (v.ascending j));
  }

  append_fresh-IsOrdered :
      (t : MemoryTx B) (id : String) (version : ℕ) (blob : B)
      → IsOrdered t.store
      → IsOrdered (append_fresh t id version blob).1.store
  unfolding append_fresh
  append_fresh-IsOrdered t id version blob v =
      elim (Bool-cases (is_at_first (entries_of t.store id) version)) [
        | inl found ↦ rw found v
        | inr fresh ↦ rw fresh (
            IsOrdered-put t.store id _
              (Above-insert_at 0 (entries_of t.store id) (record { version = version; blob = blob })
                (v.ascending id) (omega arith) fresh)
              v)
      ]

  run_call-IsOrdered :
      (c : Call B) (t : MemoryTx B) → IsOrdered t.store → IsOrdered (run_call c t).1.store
  unfolding run_call append delete_stream entries_of drop_deliveries put_receipt enqueue_delivery
  run_call-IsOrdered (appends (some e) id version blob) t v = v
  run_call-IsOrdered (appends none id version blob) t v =
      elim (Option-cases (Dict.get t.store.err_on id)) [
        | inl clear ↦ rw (clear, append) (append_fresh-IsOrdered t id version blob v)
        | inr (e, scheduled) ↦ rw (scheduled, append) (record { ascending = v.ascending })
      ]
  run_call-IsOrdered (deletes_stream (some e) id) t v = v
  run_call-IsOrdered (deletes_stream none id) t v =
      elim (Option-cases (Dict.get t.store.streams id)) [
        | inl missing ↦ rw (missing, delete_stream) (IsOrdered-remove t.store id v)
        | inr (old, there) ↦ rw (there, delete_stream) (IsOrdered-remove t.store id v)
      ]
  run_call-IsOrdered (drops_deliveries (some e) id) t v = v
  run_call-IsOrdered (drops_deliveries none id) t v = record { ascending = v.ascending }
  run_call-IsOrdered (puts_receipt (some e) id r) t v = v
  run_call-IsOrdered (puts_receipt none id r) t v =
      elim (Option-cases (Dict.get t.store.receipts id)) [
        | inl missing ↦ rw (missing, put_receipt) (record { ascending = v.ascending })
        | inr (old, there) ↦ rw (there, put_receipt) v
      ]
  run_call-IsOrdered (enqueues_delivery (some e) id version) t v = v
  run_call-IsOrdered (enqueues_delivery none id version) t v = record { ascending = v.ascending }

  run_program-IsOrdered :
      (p : Program B) (t : MemoryTx B) → IsOrdered t.store → IsOrdered (run_program p t).1.store
  unfolding run_program
  run_program-IsOrdered (returns r) t v = v
  run_program-IsOrdered panics t v = v
  run_program-IsOrdered (calls c k) t v =
      let r = run_call c t in run_program-IsOrdered (k r.0) r.1 (run_call-IsOrdered c t v)
  run_program-IsOrdered (observes k) t v = run_program-IsOrdered (k t.store) t v
  run_program-IsOrdered (interrupted id e p) t v =
      run_program-IsOrdered p (record t { store = set_error t.store id e })
        (unfold set_error entries_of in record { ascending = v.ascending })

  -- Every transaction, committed or not, leaves each stream in strictly ascending version order.
  pub atomically-IsOrdered :
      (ctx : Ctx) (p : Program B) (s : Memory B) → IsOrdered s → IsOrdered (atomically ctx p s).1
  unfolding atomically
  atomically-IsOrdered (some e) p s v = v
  atomically-IsOrdered none p s v = go (run_program p start).0 refl
    where
      start : MemoryTx B
      start = record { store = s; undo = [] }

      go : (o : Outcome) → (run_program p start).0 ≡ o → IsOrdered (atomically none p s).1
      go committed e = rw e (run_program-IsOrdered p start v)
      go (failed x) e = IsOrdered-same (atomically_rolls_back none p s (λ h. cc (e, h))) v
      go panicked e = IsOrdered-same (atomically_rolls_back none p s (λ h. cc (e, h))) v
