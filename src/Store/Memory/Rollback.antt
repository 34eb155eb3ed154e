-- ===== src/Store/Memory/Rollback.antt =====
-- A transaction that does not commit leaves streams, receipts and deliveries as they were.
mod Undoing
mod Calls
use asynx.Base.{
  ℕ, zero, suc, String, ◌≡◌, refl, sym, ap, ◌∙◌, ◌⊎◌, inl, inr, Bool, true, false, List, [], ◌∷◌,
  ◌++◌, Option, none, some, arith, ltb, if◌then◌else◌, ◌==◌, ==_refl, string_eq, nat_eq, Bool-cases,
  Option-cases, nat_eqb_iff, ◌≢◌,
}
use asynx.Base.Dict
use asynx.Base.Dict.{Dict, dict_laws}
use asynx.Models.Errors.{Error}
use asynx.Models.Records.{Receipt, Delivery}
use asynx.Store.Memory.{
  Memory, MemoryTx, Ctx, Reply, Undo, removes_entry, restores_stream, restores_deliveries,
  deletes_receipt, entries_of, or_nil, remove_entry, run_undo, run_undos, append, append_fresh,
  delete_stream, drop_deliveries, put_receipt, enqueue_delivery, rollback, set_error,
}
use asynx.Store.Memory.Slices.{
  Entry, binary_search, first_not_below, is_at_first, insert_at, delete_at,
}
use asynx.Store.Memory.Transaction.{
  Call, appends, deletes_stream, drops_deliveries, puts_receipt, enqueues_delivery, Program,
  returns, panics, calls, observes, interrupted, Outcome, committed, failed, panicked, run_call,
  run_program, close_tx, atomically,
}
use Undoing.{SameContents-refl, SameContents-trans, run_undos-SameContents, Undoes}
use Calls.{run_call-Undoes}
pub use Undoing.{SameContents, SameContents-refl}

module _ {ℓ} {B : Type ℓ} where
  set_error-SameContents :
      (s : Memory B) (id : String) (e : Error) → SameContents (set_error s id e) s
  unfolding set_error entries_of
  set_error-SameContents s id e = record {
    streams = λ _. refl;
    receipts = λ _. refl;
    deliveries = refl;
  }

  run_program-Undoes : (p : Program B) (t : MemoryTx B) → Undoes (run_program p t).1 t
  unfolding run_program
  run_program-Undoes (returns r) t = SameContents-refl _
  run_program-Undoes panics t = SameContents-refl _
  run_program-Undoes (calls c k) t =
      let r = run_call c t in
      SameContents-trans (run_program-Undoes (k r.0) r.1) (run_call-Undoes c t)
  run_program-Undoes (observes k) t = run_program-Undoes (k t.store) t
  run_program-Undoes (interrupted id e p) t =
      SameContents-trans (run_program-Undoes p (record t { store = set_error t.store id e }))
        (run_undos-SameContents t.undo (set_error-SameContents t.store id e))

  -- Whatever a transaction has written before it fails or panics, readers find the streams, the
  -- receipts and the pending deliveries that they would have found before it.
  pub atomically_rolls_back :
      (ctx : Ctx) (p : Program B) (s : Memory B)
      → (atomically ctx p s).0 ≢ committed
      → SameContents (atomically ctx p s).1 s
  unfolding atomically
  atomically_rolls_back (some e) p s h = SameContents-refl s
  atomically_rolls_back none p s h = go (run_program p start).0 refl
    where
      start : MemoryTx B
      start = record { store = s; undo = [] }

      go :
          (o : Outcome)
          → (run_program p start).0 ≡ o
          → SameContents (close_tx (run_program p start).0 (run_program p start).1) s
      go committed e = absurd (h e)
      go (failed x) e = rw e (run_program-Undoes p start)
      go panicked e = rw e (run_program-Undoes p start)
