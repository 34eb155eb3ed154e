-- ===== src/Dispatcher/Delivery/Pacing.antt =====
-- How long a delivery waits between its attempts.
use asynx.Base.{
  List, ℕ, ◌∷◌, ◌<◌, ◌++◌, ◌/◌, ◌≡◌, ◌≤◌, min, ◌^◌, ap, [], arith, ◌*◌, refl, String, ◌∙◌, if_cases,
  ◌==◌, nat_eq, Option, none, sym, some, ◌&&◌, is_empty, ◌+◌,
}
use asynx.Dispatcher.Delivery.{
  min_duration, jittered, doubled, Deliverer, Surroundings, Delivering, Job, settle_after_first,
  DurableSub, attempt_all, last_of, deliver, Error, is_closed, parked_error, subscribers_for,
  Outcome,
}
use asynx.Dispatcher.Delivery.Tracing.{
  beats, Called, attempt_all-lem, give_up-Called, wait-Called, Beat, beats_of, calls_in, rests,
}
use asynx.Dispatcher.Delivery.Loops.{Round, Ends, loop-Ends}
use mathlib.Core.Path.{subst}
use mathlib.Core.List.{append-nil, append_assoc}

-- The beats of attempt `n` on, where `b` is the backoff of its wait: each handler is called in the
-- attempt that is under way, and each wait starts the next attempt. Waits double up to `top`, each
-- shortened by up to half; numbers without a bound.
abbrev Rhythm : (top b n : ℕ) → List Beat → Type 0
Rhythm top b n [] = Unit
Rhythm top b n (calls_in k ∷ bs) = (k ≡ n) × Rhythm top b n bs
Rhythm top b n (rests d ∷ bs) = (b / 2 ≤ d) × (d ≤ b) × Rhythm top (min (2 * b) top) (n + 1) bs

-- The backoff and the attempt after the beats.
abbrev last_backoff : (top b : ℕ) → List Beat → ℕ
last_backoff top b [] = b
last_backoff top b (calls_in _ ∷ bs) = last_backoff top b bs
last_backoff top b (rests _ ∷ bs) = last_backoff top (min (2 * b) top) bs

abbrev last_attempt : ℕ → List Beat → ℕ
last_attempt n [] = n
last_attempt n (calls_in _ ∷ bs) = last_attempt n bs
last_attempt n (rests _ ∷ bs) = last_attempt (n + 1) bs

Rhythm-append :
    (top b n : ℕ) (xs ys : List Beat)
    → Rhythm top b n xs
    → Rhythm top (last_backoff top b xs) (last_attempt n xs) ys
    → Rhythm top b n (xs ++ ys)
Rhythm-append top b n [] ys p q = q
Rhythm-append top b n (calls_in k ∷ xs) ys (e, p) q = (e, Rhythm-append top b n xs ys p q)
Rhythm-append top b n (rests d ∷ xs) ys (lo, hi, p) q =
    (lo, hi, Rhythm-append top (min (2 * b) top) (n + 1) xs ys p q)

last-append :
    (top b n : ℕ) (xs ys : List Beat)
    → (last_backoff top b (xs ++ ys) ≡ last_backoff top (last_backoff top b xs) ys)
      × (last_attempt n (xs ++ ys) ≡ last_attempt (last_attempt n xs) ys)
last-append top b n [] ys = (refl, refl)
last-append top b n (calls_in k ∷ xs) ys = last-append top b n xs ys
last-append top b n (rests d ∷ xs) ys = last-append top (min (2 * b) top) (n + 1) xs ys

-- An attempt calls handlers only.
beats_of-Rhythm :
    (top b n : ℕ) (subs : List DurableSub)
    → Rhythm top b n (beats_of n subs)
      × (last_backoff top b (beats_of n subs) ≡ b)
      × ((m : ℕ) → last_attempt m (beats_of n subs) ≡ m)
beats_of-Rhythm top b n [] = (tt, refl, λ m. refl)
beats_of-Rhythm top b n (sub ∷ subs) =
    let rest = beats_of-Rhythm top b n subs in ((refl, rest.0), rest.1, rest.2)

last_backoff-lt :
    (top b : ℕ) (bs : List Beat) → b < 2 ^ 62 → top < 2 ^ 62 → last_backoff top b bs < 2 ^ 62
last_backoff-lt top b [] h k = h
last_backoff-lt top b (calls_in _ ∷ bs) h k = last_backoff-lt top b bs h k
last_backoff-lt top b (rests d ∷ bs) h k = last_backoff-lt top (min (2 * b) top) bs (omega arith) k

doubled_lem :
    (b top : ℕ) → b < 2 ^ 62 → top < 2 ^ 62 → min_duration (doubled b) top ≡ min (2 * b) top
unfolding min_duration doubled
doubled_lem b top h k = ground arith

jittered_bounds : (drawn b : ℕ) → b < 2 ^ 62 → (b / 2 ≤ jittered drawn b) × (jittered drawn b ≤ b)
unfolding jittered
jittered_bounds drawn b h = ground arith

-- The beats since `s₀` keep the rhythm from the first attempt on.
abbrev pub PacedSince : Deliverer → Delivering → Option Error → Delivering → Type 0
PacedSince d s₀ o s =
    (bs : List Beat) × (beats s.acts ≡ beats s₀.acts ++ bs)
    × Rhythm d.retry_max d.retry_initial 1 bs

module _ (x : Surroundings) (d : Deliverer) (agg : String) (halt : ℕ) (job : Job)
    (s₀ : Delivering) where
  -- What holds in attempt `n`, with the backoff of its wait.
  record Ready (n backoff : ℕ) (s : Delivering) : Type 0 where
    so_far : List Beat
    since : beats s.acts ≡ beats s₀.acts ++ so_far
    paced : Rhythm d.retry_max d.retry_initial 1 so_far
    attempt : n ≡ last_attempt 1 so_far
    next : backoff ≡ last_backoff d.retry_max d.retry_initial so_far

  paced_since :
      {n backoff : ℕ} {s : Delivering} (o : Option Error) → Ready n backoff s → PacedSince d s₀ o s
  paced_since o r = (r.so_far, r.since, r.paced)

  -- More beats.
  Ready-Called :
      {calls : List (String × ℕ)} (n backoff m backoff' : ℕ) (bs : List Beat) (s s' : Delivering)
      → Ready n backoff s
      → Called calls bs s s'
      → Rhythm d.retry_max backoff n bs
      → m ≡ last_attempt n bs
      → backoff' ≡ last_backoff d.retry_max backoff bs
      → Ready m backoff' s'
  Ready-Called n backoff m backoff' bs s s' r c p e f =
      let last = last-append d.retry_max d.retry_initial 1 r.so_far bs in
      record {
        so_far = r.so_far ++ bs;
        since = c.beats' ∙ ap (λ zs. zs ++ bs) r.since ∙ append_assoc (beats s₀.acts) r.so_far bs;
        paced = Rhythm-append d.retry_max d.retry_initial 1 r.so_far bs r.paced (
            subst (λ k. Rhythm d.retry_max (last_backoff d.retry_max d.retry_initial r.so_far) k bs)
              r.attempt (subst (λ k. Rhythm d.retry_max k n bs) r.next p));
        attempt = e ∙ ap (λ k. last_attempt k bs) r.attempt ∙ sym last.1;
        next = f ∙ ap (λ k. last_backoff d.retry_max k bs) r.next ∙ sym last.0;
      }

  settled-Ready :
      (n backoff k : ℕ) (s : Delivering)
      → Ready n backoff s
      → Ready n backoff (settle_after_first k s)
  settled-Ready n backoff k s r =
      if_cases {A = Delivering} (Ready n backoff) (k == 1)
        (λ _. record {
          so_far = r.so_far;
          since = r.since;
          paced = r.paced;
          attempt = r.attempt;
          next = r.next;
        })
        (λ _. r)

  Ready-lt :
      (n backoff : ℕ) (s : Delivering)
      → d.retry_initial < 2 ^ 62
      → d.retry_max < 2 ^ 62
      → Ready n backoff s
      → backoff < 2 ^ 62
  Ready-lt n backoff s initial_ok max_ok r =
      omega (arith, r.next, last_backoff-lt d.retry_max d.retry_initial r.so_far initial_ok max_ok)

  attempt-Ready :
      d.retry_initial < 2 ^ 62
      → d.retry_max < 2 ^ 62
      → (pending : List DurableSub) (n backoff : ℕ) (s : Delivering) → Ready n backoff s
      → Round x d agg halt job (λ _ n b t. Ready n b t) (PacedSince d s₀) pending n backoff s
  attempt-Ready initial_ok max_ok pending n backoff s r =
      let t = (attempt_all x n pending s).1 in
      let s' = settle_after_first n t in
      let calls = beats_of-Rhythm d.retry_max backoff n pending in
      let tried = settled-Ready n backoff n t (
        Ready-Called n backoff n backoff (beats_of n pending) s t r
          (attempt_all-lem x n pending s).1 calls.0 (sym (calls.2 n)) (sym calls.1)) in
      record {
        all_done = λ _. paced_since none tried;
        gives_up = λ _ _.
            let g = give_up-Called x agg halt job (last_of (attempt_all x n pending s).0.1) n s' in
            paced_since none (Ready-Called n backoff n backoff [] s' _ tried g.0 tt refl refl);
        waits = λ _ _.
            let below = Ready-lt n backoff s' initial_ok max_ok tried in
            let j = jittered_bounds (x.draws n) backoff below in
            let ready =
              Ready-Called n backoff (n + 1) (min_duration (doubled backoff) d.retry_max)
                (rests (jittered (x.draws n) backoff) ∷ []) s' _ tried
                (wait-Called x agg halt job n backoff s') (j.0, j.1, tt) refl
                (doubled_lem backoff d.retry_max below max_ok) in
            (λ e _. paced_since (some e) ready, λ _. ready);
      }

-- The handlers of attempt `n` are called after exactly `n - 1` waits of the delivery: it waits once
-- between two attempts, for its backoff, shortened by at most half. The backoff is the initial one,
-- and doubles after each attempt up to the maximal one; where both are below 2 ^ 62 nanoseconds no
-- int64 overflows on the way.
pub deliver_paces :
    (fuel : ℕ) (x : Surroundings) (d : Deliverer) (agg : String) (halt : ℕ) (job : Job)
    (s : Delivering)
    → d.retry_initial < 2 ^ 62
    → d.retry_max < 2 ^ 62
    → 0 < fuel
    → d.max_attempts ≤ fuel
    → Ends (PacedSince d s) (deliver fuel x d agg halt job s)
unfolding deliver
deliver_paces fuel x d agg halt job s initial_ok max_ok pos enough =
    let still : (o : Option Error) → PacedSince d s o s =
      λ o. ([], sym (append-nil (beats s.acts)), tt) in
    if_cases {A = Outcome} (Ends (PacedSince d s)) (job.acked && is_closed halt s)
      (λ _. still (some parked_error))
      (λ _.
        if_cases {A = Outcome} (Ends (PacedSince d s)) (is_empty (subscribers_for job d.subs))
          (λ _. still none)
          (λ _.
            loop-Ends x d agg halt job (λ _ n b t. Ready x d agg halt job s n b t) (PacedSince d s)
              (attempt-Ready x d agg halt job s initial_ok max_ok) fuel (subscribers_for job d.subs)
              1 d.retry_initial s pos (omega arith)
              (record {
                so_far = [];
                since = sym (append-nil (beats s.acts));
                paced = tt;
                attempt = refl;
                next = refl;
              })))
