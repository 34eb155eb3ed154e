-- ===== src/Dispatcher/Delivery/Loops.antt =====
-- How a property of a delivery is proved from one of its attempts, and that the fuel is enough.
use asynx.Base.{
  Option, ℕ, List, String, some, keep_if, is_empty, none, is_some, ◌≡◌, ◌<◌, true, ◌+◌, false,
  arith, ◌≤◌, suc, Bool-cases, inl, inr, leb, Option-cases, zero,
}
use asynx.Dispatcher.Delivery.{
  Surroundings, Error, Deliverer, Delivering, DurableSub, Job, loop, settle_after_first,
  attempt_all, step, error_of, give_up, last_of, wait, min_duration, doubled, Outcome,
}

-- The delivery ends, with a result and a state of which the property holds.
abbrev pub Ends : (Option Error → Delivering → Type 0) → Outcome → Type 0
Ends Q none = ⊥
Ends Q (some (o, s)) = Q o s

-- The subscribers that fail in an attempt, the state after it, and the job settled with the first.
abbrev pub failed_in : Surroundings → ℕ → List DurableSub → List DurableSub
failed_in x n = keep_if λ sub. is_some (error_of (x.behaves n sub).ends)

module _ (x : Surroundings) (d : Deliverer) (agg : String) (halt : ℕ) (job : Job)
    (P : List DurableSub → (attempt backoff : ℕ) → Delivering → Type 0)
    (Q : Option Error → Delivering → Type 0) where
  -- What an attempt has to show.
  pub record Round (pending : List DurableSub) (n backoff : ℕ) (s : Delivering) : Type 0 where
    pub all_done :
        is_empty (attempt_all x n pending s).0.0 ≡ true
        → Q none (settle_after_first n (attempt_all x n pending s).1)
    pub gives_up :
        is_empty (attempt_all x n pending s).0.0 ≡ false
        → d.max_attempts ≤ n
        → let g =
            give_up x agg halt job
              (last_of (attempt_all x n pending s).0.1)
              n
              (settle_after_first n (attempt_all x n pending s).1) in
          Q g.0 g.1
    pub waits :
        is_empty (attempt_all x n pending s).0.0 ≡ false
        → n < d.max_attempts
        → let w =
            wait x agg halt job n backoff (settle_after_first n (attempt_all x n pending s).1) in
          ((e : Error) → w.0 ≡ some e → Q (some e) w.1)
          × (w.0 ≡ none
              → P
                  (attempt_all x n pending s).0.0
                  (n + 1)
                  (min_duration (doubled backoff) d.retry_max)
                  w.1)

  pub loop-Ends :
      ((pending : List DurableSub) (n backoff : ℕ) (s : Delivering)
        → P pending n backoff s
        → Round pending n backoff s)
      → (fuel : ℕ) (pending : List DurableSub) (n backoff : ℕ) (s : Delivering) → 0 < fuel
      → d.max_attempts < n + fuel
      → P pending n backoff s
      → Ends Q (
          loop fuel x d agg halt job
            (record { pending = pending; attempt = n; backoff = backoff; err = none })
            s)
  unfolding loop step
  loop-Ends body zero pending n backoff s pos enough p = absurd (omega arith)
  loop-Ends body (suc fuel) pending n backoff s pos enough p =
      let b = body pending n backoff s p in
      let done = attempt_all x n pending s in
      let s' = settle_after_first n done.1 in
      let w = wait x agg halt job n backoff s' in
      elim (Bool-cases (is_empty done.0.0)) [
        | inl all ↦ rw all (b.all_done all)
        | inr some_failed ↦ elim (Bool-cases (leb d.max_attempts n)) [
          | inl last ↦ rw (some_failed, last) (b.gives_up some_failed (ground (arith, last)))
          | inr more ↦
              let below : n < d.max_attempts = ground (arith, more) in
              let after = b.waits some_failed below in
              elim (Option-cases w.0) [
                | inl woke ↦
                    rw (some_failed, more, woke)
                      (loop-Ends body fuel done.0.0 (n + 1)
                        (min_duration (doubled backoff) d.retry_max) w.1 (omega (arith, below))
                        (omega arith) (after.1 woke))
                | inr (e, stopped) ↦ rw (some_failed, more, stopped) (after.0 e stopped)
              ]
        ]
      ]
