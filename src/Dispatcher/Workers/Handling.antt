-- ===== src/Dispatcher/Workers/Handling.antt =====
-- What becomes of a job that a worker handles.
use asynx.Dispatcher.Workers.{
  Pool, Turn, String, ℕ, Job, Option, ack, Error, Delivering, Outcome, parked_error, ack_delivered,
  publish_live, deliver_job, report_publish, held_by_park, finish, handle, answer_ack,
  publish_error, settle_if_parked,
}
use asynx.Dispatcher.Job.{Progress, started, mark_settled, mark_unrun, complete, durable}
use asynx.Base.{
  ◌≡◌, true, ◌⊎◌, some, inl, ◌∙◌, none, inr, ap, if_cases, ◌<◌, ◌≤◌, arith, not, false, refl, ◌||◌,
  Bool, ◌&&◌, max,
}
use asynx.Dispatcher.Delivery.Serving.{ServedBy, Came, deliver-Came}
use asynx.Dispatcher.Delivery.{
  subscribers_for, succeeds, panics, let_others, acking, does, acks, Ended, fails, deliver,
  publishing, publishes,
}
use asynx.Dispatcher.Delivery.Loops.{Ends}
use asynx.Dispatcher.Delivery.Held.{Stopped, park_current-HeldBack, deliver_holds_back}
use asynx.Dispatcher.Aggregates.Parking.Held.{HeldBack, settle_if_parked-HeldBack}

module _ (p : Pool) (t : Turn) (agg : String) (halt : ℕ) (job : Job) where
  -- No subscriber that receives the job failed in all of the first `k` attempts, or the dead-letter
  -- handler took it.
  abbrev Reached : Type 0
  Reached =
      (k : ℕ) × (k ≤ max 1 p.deliverer.max_attempts)
      × ServedBy t.around job (subscribers_for job p.deliverer.subs) k none

  -- What is so of the aggregate and of the subscribers, by the outcome.
  abbrev Fate : Option Error → Delivering → Type 0
  Fate none s = Reached × (t.acked_with ≡ succeeds)
  Fate (some e) s = HeldBack agg halt s.registry ⊎ ((v : String) × (t.acked_with ≡ panics v))

  -- The job as it may be when its outcome is known.
  abbrev Unfinished : Progress → Type 0
  Unfinished q = (q ≡ started) ⊎ (q ≡ mark_settled started) ⊎ (q ≡ mark_unrun parked_error started)

  abbrev Known : Option Error → Delivering → Type 0
  Known o s = Fate o s × Unfinished s.progress

  abbrev pub Handled : Option Error → Delivering → Type 0
  Handled o s =
      (s.progress.final ≡ true)
      × (s.progress.err ≡ o)
      × (s.progress.settled ≡ true)
      × (s.progress.callbacks ≡ 1)
      × Fate o s

  answer_ack-Known :
      job.acked ≡ true
      → (e : Ended) → t.acked_with ≡ e
      → Reached
      → (s : Delivering) → Unfinished s.progress
      → Known (answer_ack agg halt job e s).0 (answer_ack agg halt job e s).1
  answer_ack-Known acked succeeds same served s u = ((served, same), u)
  answer_ack-Known acked (fails e) same served s u =
      (inl (park_current-HeldBack agg halt job e s acked), u)
  answer_ack-Known acked (panics v) same served s u = (inr (v, same), u)

  underway_since :
      (s₀ s : Delivering)
      → s₀.progress ≡ started
      → (s.progress ≡ s₀.progress) ⊎ (s.progress ≡ mark_settled s₀.progress)
      → Unfinished s.progress
  underway_since s₀ s fresh (inl e) = inl (e ∙ fresh)
  underway_since s₀ s fresh (inr e) = inr (inl (e ∙ ap mark_settled fresh))

  ack_delivered-Known :
      job.acked ≡ true
      → (s₀ : Delivering) → s₀.progress ≡ started
      → (r : Outcome)
      → Ends (Came t.around p.deliverer job (subscribers_for job p.deliverer.subs) s₀) r
      → Ends (Stopped agg halt) r
      → Ends Known (ack_delivered t agg halt job r)
  unfolding ack
  ack_delivered-Known acked s₀ fresh none c h = c
  ack_delivered-Known acked s₀ fresh (some (some e, s)) c h =
      (inl h.1, underway_since s₀ s fresh c.1)
  ack_delivered-Known acked s₀ fresh (some (none, s)) c h =
      if_cases {A = Option Error × Delivering} (λ q. Known q.0 q.1) job.acked
        (λ _.
          answer_ack-Known acked t.acked_with refl c.0 (let_others t.around acking (does acks s))
            (underway_since s₀ s fresh c.1))
        (λ n. absurd (ground (arith, acked, n)))

  report_publish-progress :
      (o : Option Error) (s : Delivering) → (report_publish o s).progress ≡ s.progress
  report_publish-progress none s = refl
  report_publish-progress (some e) s = refl

  publish_live-progress : (s : Delivering) → (publish_live p t job s).progress ≡ s.progress
  unfolding publish_live
  publish_live-progress s =
      if_cases {A = Delivering} (λ q. q.progress ≡ s.progress) (not p.bus || job.skip_live)
        (λ _. refl)
        (λ _.
          report_publish-progress (publish_error t.published)
            (let_others t.around publishing (does publishes s)))

  held_by_park-Known :
      (s : Delivering)
      → s.progress ≡ started
      → let h = held_by_park agg halt job s in
        (h.0 ≡ true → Known (some parked_error) h.1) × (h.0 ≡ false → h.1 ≡ s)
  unfolding held_by_park
  held_by_park-Known s fresh =
      let settled = settle_if_parked s.registry agg halt job in
      if_cases {A = Bool × Delivering}
        (λ h. (h.0 ≡ true → Known (some parked_error) h.1) × (h.0 ≡ false → h.1 ≡ s))
        (job.acked && settled.0)
        (λ held. (
          λ _. (
            inl (settle_if_parked-HeldBack s.registry agg halt job (ground (arith, held))),
            inr (inr (ap (mark_unrun parked_error) fresh)),
          ),
          λ h. cc,
        ))
        (λ _. (λ h. cc, λ _. refl))

  deliver_job-Known :
      (fuel : ℕ) (s : Delivering)
      → job.acked ≡ true
      → s.progress ≡ started
      → 0 < fuel
      → p.deliverer.max_attempts ≤ fuel
      → Ends Known (deliver_job fuel p t agg halt job s)
  unfolding deliver_job
  deliver_job-Known fuel s acked fresh pos enough =
      let h = held_by_park agg halt job s in
      let s' = publish_live p t job h.1 in
      let known = held_by_park-Known s fresh in
      if_cases {A = Outcome} (Ends Known) h.0 (λ held. known.0 held)
        (λ free.
          if_cases {A = Outcome} (Ends Known) (not (durable job))
            (λ n. absurd (ground (arith, n, acked)))
            (λ _.
              ack_delivered-Known acked s'
                (publish_live-progress h.1 ∙ ap (λ q. q.progress) (known.1 free) ∙ fresh)
                (deliver fuel t.around p.deliverer agg halt job s')
                (deliver-Came fuel t.around p.deliverer agg halt job s' pos enough)
                (deliver_holds_back fuel t.around p.deliverer agg halt job s' acked pos enough)))

  finished :
      (o : Option Error) (q : Progress)
      → Unfinished q
      → let q' = complete o (mark_settled q) in
        (q'.final ≡ true) × (q'.err ≡ o) × (q'.settled ≡ true) × (q'.callbacks ≡ 1)
  unfolding complete mark_settled mark_unrun
  finished o q (inl e) = rw e (refl, refl, refl, refl)
  finished o q (inr (inl e)) = rw e (refl, refl, refl, refl)
  finished o q (inr (inr e)) = rw e (refl, refl, refl, refl)

  finish-Handled : (r : Outcome) → Ends Known r → Ends Handled (finish r)
  finish-Handled none h = h
  finish-Handled (some (none, s)) (fate, u) =
      let f = finished none s.progress u in (f.0, f.1, f.2, f.3, fate)
  finish-Handled (some (some e, s)) (fate, u) =
      let f = finished (some e) s.progress u in (f.0, f.1, f.2, f.3, fate)

-- A worker that takes a job with an Ack, which nobody settled or completed before, is done with it,
-- given fuel for the attempts it may make. The job is then settled, and completed once, with the
-- outcome. If there is no error, the Ack succeeded, and for some k within the attempts it may make
-- no subscriber that receives the job failed in all of the first k, or the dead-letter handler took
-- the event. If there is one, the aggregate is parked or the halt channel was closed, unless the Ack
-- panicked.
pub handle_acked :
    (fuel : ℕ) (p : Pool) (t : Turn) (agg : String) (halt : ℕ) (job : Job) (s : Delivering)
    → job.acked ≡ true
    → s.progress ≡ started
    → 0 < fuel
    → p.deliverer.max_attempts ≤ fuel
    → Ends (Handled p t agg halt job) (handle fuel p t agg halt job s)
unfolding handle
handle_acked fuel p t agg halt job s acked fresh pos enough =
    finish-Handled p t agg halt job (deliver_job fuel p t agg halt job s)
      (deliver_job-Known p t agg halt job fuel s acked fresh pos enough)
