-- ===== src/Dispatcher/Delivery/Serving.antt =====
-- Which handlers a delivery calls, and when it succeeds.
use asynx.Dispatcher.Delivery.{
  Surroundings, ℕ, Job, Deliverer, List, String, DurableSub, suc, [], Option, Delivering, ◌++◌,
  Error, mark_settled, attempt_all, settle_after_first, deliver, is_closed, last_of,
  subscribers_for, give_up, Outcome,
}
use asynx.Dispatcher.Delivery.Loops.{failed_in, Round, Ends, loop-Ends}
use asynx.Base.{
  ◌++◌, ◌≡◌, ◌≤◌, ◌⊎◌, ◌<◌, max, zero, some, if◌then◌else◌, none, ◌==◌, nat_eq, ◌∙◌, ap, sym, arith,
  if_cases, refl, is_empty, inr, true, ◌&&◌, ◌∷◌, inl, false, Bool-cases,
}
use asynx.Dispatcher.Delivery.Tracing.{
  calls_of, DeadLettered, handled, attempt_all-lem, Called, give_up-Called, wait-Called, unmoved,
  Beat,
}
use mathlib.Core.List.{append_assoc, append-nil}
use mathlib.Core.Path.{subst}

empty_list {ℓ} : {A : Type ℓ} (xs : List A) → is_empty xs ≡ true → xs ≡ []
empty_list [] h = refl
empty_list (x ∷ xs) h = cc

-- The subscribers that fail in each of the first `k` attempts.
pub left : Surroundings → ℕ → List DurableSub → List DurableSub
left x zero subs = subs
left x (suc k) subs = failed_in x (suc k) (left x k subs)

-- The calls of the first `k` attempts: each takes those that failed in all attempts before.
pub calls_until : Surroundings → ℕ → List DurableSub → List (String × ℕ)
calls_until x zero subs = []
calls_until x (suc k) subs = calls_until x k subs ++ calls_of (suc k) (left x k subs)

-- The result after `k` attempts.
abbrev pub ServedBy : Surroundings → Job → List DurableSub → ℕ → Option Error → Type 0
ServedBy x job subs k none = (left x k subs ≡ []) ⊎ DeadLettered x job
ServedBy x job subs k (some e) = Unit

pub record Served (x : Surroundings) (d : Deliverer) (job : Job) (subs : List DurableSub)
    (s : Delivering) (o : Option Error) (s' : Delivering) : Type 0 where
  attempts : ℕ
  pub made : 0 < attempts
  capped : attempts ≤ max 1 d.max_attempts
  pub called : handled s'.acts ≡ handled s.acts ++ calls_until x attempts subs
  pub settled : s'.progress ≡ mark_settled s.progress
  pub served : ServedBy x job subs attempts o

module _ (x : Surroundings) (d : Deliverer) (agg : String) (halt : ℕ) (job : Job)
    (subs : List DurableSub) (s₀ : Delivering) where
  -- What holds before each attempt.
  record Before (pending : List DurableSub) (n : ℕ) (s : Delivering) : Type 0 where
    k : ℕ
    is_next : n ≡ suc k
    allowed : n ≤ max 1 d.max_attempts
    pending' : pending ≡ left x k subs
    called : handled s.acts ≡ handled s₀.acts ++ calls_until x k subs
    progress : s.progress ≡ (if k == 0 then s₀.progress else mark_settled s₀.progress)

  -- What holds after one.
  record After (failed : List DurableSub) (n : ℕ) (s : Delivering) : Type 0 where
    allowed : n ≤ max 1 d.max_attempts
    made : 0 < n
    failed' : failed ≡ left x n subs
    called : handled s.acts ≡ handled s₀.acts ++ calls_until x n subs
    progress : s.progress ≡ mark_settled s₀.progress

  attempt-After :
      (pending : List DurableSub) (n : ℕ) (s : Delivering)
      → Before pending n s
      → After (attempt_all x n pending s).0.0 n (settle_after_first n (attempt_all x n pending s).1)
  unfolding left calls_until
  attempt-After pending n s b =
      let a = attempt_all-lem x n pending s in
      let t = (attempt_all x n pending s).1 in
      let called : handled t.acts ≡ handled s₀.acts ++ calls_until x n subs =
        a.1.handled'
        ∙ ap (λ zs. zs ++ calls_of n pending) b.called
        ∙ append_assoc (handled s₀.acts) (calls_until x b.k subs) (calls_of n pending)
        ∙ ap (λ zs. handled s₀.acts ++ (calls_until x b.k subs ++ calls_of n zs)) b.pending'
        ∙ subst
            (λ m.
              handled s₀.acts ++ (calls_until x b.k subs ++ calls_of m (left x b.k subs))
              ≡ handled s₀.acts ++ calls_until x m subs)
            (sym b.is_next) refl in
      record {
        allowed = b.allowed;
        made = omega (arith, b.is_next);
        failed' =
            a.0
            ∙ ap (failed_in x n) b.pending'
            ∙ subst (λ m. failed_in x m (left x b.k subs) ≡ left x m subs) (sym b.is_next) refl;
        called =
            if_cases {A = Delivering}
              (λ u. handled u.acts ≡ handled s₀.acts ++ calls_until x n subs) (n == 1) (λ _. called)
              (λ _. called);
        progress = ground (arith, a.1.progress', b.progress, b.is_next);
      }

  After-Served :
      (failed : List DurableSub) (n : ℕ) (s s' : Delivering) (o : Option Error) {ds : List Beat}
      → After failed n s
      → Called [] ds s s'
      → ServedBy x job subs n o
      → Served x d job subs s₀ o s'
  After-Served failed n s s' o a c served = record {
    attempts = n;
    made = a.made;
    capped = a.allowed;
    called = c.handled' ∙ append-nil (handled s.acts) ∙ a.called;
    settled = c.progress' ∙ a.progress;
    served = served;
  }

  ended_with :
      (n : ℕ) (o : Option Error) → (o ≡ none → DeadLettered x job) → ServedBy x job subs n o
  ended_with n none h = inr (h refl)
  ended_with n (some e) h = tt

  attempt-Served :
      (pending : List DurableSub) (n backoff : ℕ) (s : Delivering)
      → Before pending n s
      → Round x d agg halt job
          (λ p m _ t. Before p m t)
          (Served x d job subs s₀)
          pending
          n
          backoff
          s
  attempt-Served pending n backoff s b =
      let a = attempt-After pending n s b in
      let failed = (attempt_all x n pending s).0.0 in
      let s' = settle_after_first n (attempt_all x n pending s).1 in
      record {
        all_done = λ all.
            After-Served failed n s' s' none a (unmoved s' s' refl refl)
              (inl (sym a.failed' ∙ empty_list failed all));
        gives_up = λ _ _.
            let last = last_of (attempt_all x n pending s).0.1 in
            let g = give_up-Called x agg halt job last n s' in
            let o = (give_up x agg halt job last n s').0 in
            After-Served failed n s' _ o a g.0 (ended_with n o g.1);
        waits = λ _ below.
            let w = wait-Called x agg halt job n backoff s' in
            (
              λ e _. After-Served failed n s' _ (some e) a w tt,
              λ _. record {
                k = n;
                is_next = omega arith;
                allowed = omega (arith, below);
                pending' = a.failed';
                called = w.handled' ∙ append-nil (handled s'.acts) ∙ a.called;
                progress = ground (arith, w.progress', a.progress, a.made);
              },
            );
      }

-- A delivery that the park of its aggregate does not stop at the start, of a job that some subscriber
-- receives, ends with as much fuel as it may make attempts. It makes between 1 and that many
-- attempts; each calls, in order, the handlers that failed in all attempts before it, and no other
-- handler is called. The job is settled. If the delivery succeeds, no subscriber failed in all
-- attempts, or the dead-letter handler, which an acked job has that is no deletion, took the event.
pub deliver_serves :
    (fuel : ℕ) (x : Surroundings) (d : Deliverer) (agg : String) (halt : ℕ) (job : Job)
    (s : Delivering)
    → job.acked && is_closed halt s ≡ false
    → is_empty (subscribers_for job d.subs) ≡ false
    → 0 < fuel
    → d.max_attempts ≤ fuel
    → Ends (Served x d job (subscribers_for job d.subs) s) (deliver fuel x d agg halt job s)
unfolding deliver left calls_until
deliver_serves fuel x d agg halt job s open' received pos enough =
    let subs = subscribers_for job d.subs in
    rw (open', received)
      (loop-Ends x d agg halt job (λ p m _ t. Before x d agg halt job subs s p m t)
        (Served x d job subs s) (attempt-Served x d agg halt job subs s) fuel subs 1 d.retry_initial
        s pos (omega arith)
        (record {
          k = 0;
          is_next = omega arith;
          allowed = omega arith;
          pending' = refl;
          called = sym (append-nil (handled s.acts));
          progress = refl;
        }))

-- The same without the hypotheses on the park and on the subscribers, and less.
abbrev pub Came :
    Surroundings
    → Deliverer
    → Job
    → List DurableSub
    → Delivering
    → Option Error
    → Delivering
    → Type 0
Came x d job subs s o s' =
    ((k : ℕ) × (k ≤ max 1 d.max_attempts) × ServedBy x job subs k o)
    × ((s'.progress ≡ s.progress) ⊎ (s'.progress ≡ mark_settled s.progress))

Served-Came :
    (x : Surroundings) (d : Deliverer) (job : Job) (subs : List DurableSub) (s : Delivering)
    (r : Outcome)
    → Ends (Served x d job subs s) r
    → Ends (Came x d job subs s) r
Served-Came x d job subs s none h = h
Served-Came x d job subs s (some (o, s')) h = ((h.attempts, h.capped, h.served), inr h.settled)

pub deliver-Came :
    (fuel : ℕ) (x : Surroundings) (d : Deliverer) (agg : String) (halt : ℕ) (job : Job)
    (s : Delivering)
    → 0 < fuel
    → d.max_attempts ≤ fuel
    → Ends (Came x d job (subscribers_for job d.subs) s) (deliver fuel x d agg halt job s)
unfolding deliver left
deliver-Came fuel x d agg halt job s pos enough =
    let subs = subscribers_for job d.subs in
    elim (Bool-cases (job.acked && is_closed halt s)) [
      | inl stops ↦ rw stops ((0, omega arith, tt), inl refl)
      | inr open' ↦ elim (Bool-cases (is_empty subs)) [
        | inl nobody ↦ rw (open', nobody) ((0, omega arith, inl (empty_list subs nobody)), inl refl)
        | inr received ↦
            Served-Came x d job subs s (deliver fuel x d agg halt job s)
              (deliver_serves fuel x d agg halt job s open' received pos enough)
      ]
    ]
