-- ===== src/Dispatcher/Delivery/Held.antt =====
-- A durable delivery that fails leaves its aggregate held back.
use asynx.Dispatcher.Delivery.{
  Surroundings, String, Deliverer, ℕ, Option, Job, Error, Delivering, give_up, Wake, park_current,
  woken, err_dispatcher_closed, taken, is_closed, sentinel, dead_lettered, elapsed, wrap,
  parked_error, interrupted, wait, deliver, halted, DurableSub, slept, settle_after_first,
  attempt_all, subscribers_for, Outcome,
}
use asynx.Base.{
  ◌≡◌, true, some, Bool-cases, ◌||◌, inl, inr, none, if_cases, refl, List, ◌<◌, ◌≤◌, is_empty,
  arith, ◌&&◌,
}
use asynx.Models.Errors.{is, err_delivery_parked}
use asynx.Dispatcher.Aggregates.Parking.Held.{HeldBack, park_if_current-HeldBack}
use asynx.Dispatcher.Delivery.Loops.{Round, Ends, loop-Ends}
use mathlib.Core.Path.{subst}

pub park_current-HeldBack :
    (agg : String) (halt : ℕ) (job : Job) (cause : Error) (s : Delivering)
    → job.acked ≡ true
    → HeldBack agg halt (park_current agg halt job cause s).registry
park_current-HeldBack agg halt job cause s acked =
    rw acked (park_if_current-HeldBack s.registry agg halt (some cause))

-- What a delivery that failed leaves: a known error, and the aggregate held back.
abbrev pub Stopped : String → ℕ → Option Error → Delivering → Type 0
Stopped agg halt none s = Unit
Stopped agg halt (some e) s =
    (is e err_delivery_parked || is e err_dispatcher_closed ≡ true) × HeldBack agg halt s.registry

module _ (x : Surroundings) (d : Deliverer) (agg : String) (halt : ℕ) (job : Job)
    (acked : job.acked ≡ true) where
  backoff_ended-Stopped :
      (s : Delivering) → let q = woken agg halt job s elapsed in Stopped agg halt q.0 q.1
  unfolding is
  backoff_ended-Stopped s = elim (Bool-cases (is_closed halt s)) [
    | inl closed ↦ rw (acked, closed) (refl, inr closed)
    | inr open' ↦ rw (acked, open') tt
  ]

  woken-Stopped :
      (s : Delivering) (w : Wake)
      → let q = woken agg halt job s (taken w (is_closed halt s)) in Stopped agg halt q.0 q.1
  unfolding is
  woken-Stopped s interrupted =
      (refl, park_current-HeldBack agg halt job (sentinel err_dispatcher_closed) s acked)
  woken-Stopped s elapsed = backoff_ended-Stopped s
  woken-Stopped s halted = elim (Bool-cases (is_closed halt s)) [
    | inl closed ↦ rw closed (refl, inr closed)
    | inr open' ↦ rw open' (backoff_ended-Stopped s)
  ]

  give_up-Stopped :
      (last : Error) (n : ℕ) (s : Delivering)
      → let g = give_up x agg halt job last n s in Stopped agg halt g.0 g.1
  unfolding give_up is
  give_up-Stopped last n s = elim (Bool-cases (is_closed halt s)) [
    | inl closed ↦ rw closed (refl, inr closed)
    | inr open' ↦ rw open' (
        if_cases {A = Option Error × Delivering} (λ g. Stopped agg halt g.0 g.1)
          (dead_lettered x job last n s).0 (λ accepted. tt)
          (λ refused. (
            refl,
            park_current-HeldBack agg halt job (wrap parked_error last)
                (dead_lettered x job last n s).1 acked,
          )))
  ]

  attempt-Stopped :
      (pending : List DurableSub) (n backoff : ℕ) (s : Delivering)
      → Unit {0}
      → Round x d agg halt job (λ _ _ _ _. Unit {0}) (Stopped agg halt) pending n backoff s
  unfolding wait
  attempt-Stopped pending n backoff s _ = record {
    all_done = λ _. tt;
    gives_up = λ _ _. give_up-Stopped _ n _;
    waits = λ _ _.
        let s' = slept x n backoff (settle_after_first n (attempt_all x n pending s).1) in
        (
          λ e stop.
              subst
                (λ o.
                  Stopped agg halt o
                    (wait x agg halt job n backoff
                      (settle_after_first n (attempt_all x n pending s).1)).1)
                stop (woken-Stopped s' (x.wakes n)),
          λ _. tt,
        );
  }

-- A delivery of an acked job ends, with as much fuel as it may make attempts. If it fails, the error
-- says that it was parked or that the dispatcher is closing, and when it returns the aggregate is
-- parked or the halt channel of the delivery was closed.
pub deliver_holds_back :
    (fuel : ℕ) (x : Surroundings) (d : Deliverer) (agg : String) (halt : ℕ) (job : Job)
    (s : Delivering)
    → job.acked ≡ true
    → 0 < fuel
    → d.max_attempts ≤ fuel
    → Ends (Stopped agg halt) (deliver fuel x d agg halt job s)
unfolding deliver is
deliver_holds_back fuel x d agg halt job s acked pos enough =
    if_cases {A = Outcome} (Ends (Stopped agg halt)) (job.acked && is_closed halt s)
      (λ both. (refl, inr (ground (arith, both))))
      (λ _.
        if_cases {A = Outcome} (Ends (Stopped agg halt)) (is_empty (subscribers_for job d.subs))
          (λ _. tt)
          (λ _.
            loop-Ends x d agg halt job (λ _ _ _ _. Unit {0}) (Stopped agg halt)
              (attempt-Stopped x d agg halt job acked) fuel (subscribers_for job d.subs) 1
              d.retry_initial s pos (omega arith) tt))
