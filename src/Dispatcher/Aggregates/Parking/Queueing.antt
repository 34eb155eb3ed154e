-- ===== src/Dispatcher/Aggregates/Parking/Queueing.antt =====
-- Enqueueing, and lifting a park, keep the invariant of the registry.
use asynx.Base.Dict
use asynx.Dispatcher.Aggregates.Parking.Preserves.{signal-IsValid, record_parked-IsValid}
use asynx.Base.{
  ◌≡◌, List, All, String, Bool, false, if_cases, ◌≤◌, true, Option-cases, ◌++◌, some, ◌∷◌, [], ◌+◌,
  arith, inr, refl, inl, ◌&&◌, string_eq,
}
use asynx.Dispatcher.Aggregates.{
  Registry, admit, enqueue_queued, enqueue, Record, ensure_worker, Admission, signal, Call,
  record_of, ok, store, fail, called, spawns,
}
use asynx.Dispatcher.Job.{Job}
use asynx.Models.Errors.{Result}
use asynx.Dispatcher.Aggregates.Parking.Invariant.{
  IsValid, RecordValid, Owns, Writes, Writes-IsValid, only,
}
use asynx.Dispatcher.Aggregates.Parking.Imposing.{Found, record_of-Found}

All-snoc :
    (js : List Job) (job : Job)
    → All (λ j. j.acked ≡ false) js
    → job.acked ≡ false
    → All (λ j. j.acked ≡ false) (js ++ job ∷ [])
All-snoc [] job h k = (k, tt)
All-snoc (j ∷ js) job (h, hs) k = (h, All-snoc js job hs k)

module _ {r r₁ : Registry} {agg : String} {rec : Record} (f : Found r r₁ agg rec) where
  -- A record stored after `recordOf`, with the channels of the registry that it is stored in.
  stored-Writes :
      (r₂ : Registry) (rec' : Record)
      → r₂.records ≡ r₁.records
      → r₁.next ≤ r₂.next
      → r₂.closed_halts ≡ r₁.closed_halts
      → RecordValid r₂.next r₂.closed_halts rec'
      → Owns r r₂.next agg rec'.halt
      → Writes r (store agg rec' r₂) agg (some rec')
  stored-Writes r₂ rec' records next closed valid owns = record {
    written = λ j. ground (arith, Dict.get-put r₂.records agg j rec', f.same j);
    grown = omega (arith, f.grown, next);
    stays_closed = λ h c. ground (arith, f.closed);
    closed_own = λ h c. inl (ground (arith, f.closed));
    valid =
        only (λ q. RecordValid r₂.next r₂.closed_halts q × Owns r r₂.next agg q.halt) (valid, owns);
  }

  -- ensureWorker's halt channel, and the record's own, belong to the aggregate.
  ensured-Writes :
      (v : IsValid r) (job : Job) (cs : List Call)
      → (rec.parked ≡ true → job.acked ≡ false)
      → let rec' = record rec {
        worker = true;
        wake = some r₁.next;
        halt = r₁.next + 1;
        jobs = rec.jobs ++ job ∷ [];
      } in
        IsValid (store agg rec' (record r₁ { next = r₁.next + 2; calls = cs }))
  ensured-Writes v job cs live_job = Writes-IsValid v (
      stored-Writes _ _ refl (omega arith) refl
        (record {
          running = f.running;
          held_back = λ p. All-snoc rec.jobs job (f.held_back p) (live_job p);
          served = λ _. refl;
          open_halt = λ _. rw f.closed (v.unborn (r₁.next + 1) (omega (arith, f.grown)));
          known = omega arith;
          kept = refl;
        })
        (inr (omega (arith, f.grown), omega arith)))

  reused-Writes :
      (v : IsValid r) (job : Job) (cs : List Call)
      → (rec.parked ≡ true → job.acked ≡ false)
      → rec.worker ≡ true
      → IsValid (store agg (record rec { jobs = rec.jobs ++ job ∷ [] }) (record r₁ { calls = cs }))
  reused-Writes v job cs live_job busy = Writes-IsValid v (
      stored-Writes _ _ refl (omega arith) refl
        (record {
          running = f.running;
          held_back = λ p. All-snoc rec.jobs job (f.held_back p) (live_job p);
          served = λ _. busy;
          open_halt = f.open_halt;
          known = f.known;
          kept = ground arith;
        })
        f.owns)

-- What is left of Enqueue after `ensureWorker`.
abbrev AfterWorker : Job → Bool × Record × Registry → Type 0
AfterWorker job (_, rec, r) = IsValid (
    signal rec.wake
      (store job.aggregate_id (record rec { jobs = rec.jobs ++ job ∷ [] }) (admit job r)))

-- Admitting a job adds a call.
admitted :
    (job : Job) (rec : Record) (r : Registry)
    → ((cs : List Call)
        → IsValid (
            store job.aggregate_id
              (record rec { jobs = rec.jobs ++ job ∷ [] })
              (record r { calls = cs })))
    → AfterWorker job (true, rec, r)
unfolding admit
admitted job rec r h = signal-IsValid rec.wake _ (
    if_cases (λ a. IsValid (store job.aggregate_id (record rec { jobs = rec.jobs ++ job ∷ [] }) a))
      r.hooks.admit (λ _. h _) (λ _. h _))

queued-IsValid :
    (r : Registry) (job : Job)
    → IsValid r
    → ((record_of r job.aggregate_id).0.parked ≡ true → job.acked ≡ false)
    → IsValid (enqueue_queued r job).1
unfolding enqueue_queued ensure_worker
queued-IsValid r job v live_job =
    let q = record_of r job.aggregate_id in
    let f = record_of-Found r job.aggregate_id v in
    if_cases (AfterWorker job) q.0.worker
      (λ busy. admitted job (q.0) (q.1) (λ cs. reused-Writes f v job cs live_job busy))
      (λ idle.
        let rec' = record (q.0) { worker = true; wake = some q.1.next; halt = q.1.next + 1 } in
        let r' = record (q.1) { next = q.1.next + 2 } in
        if_cases (λ a. AfterWorker job (true, rec', a)) q.1.hooks.spawn
          (λ _.
            admitted job rec' (called (spawns job.aggregate_id) r')
              (λ cs. ensured-Writes f v job cs live_job))
          (λ _. admitted job rec' r' (λ cs. ensured-Writes f v job cs live_job)))

abbrev pub AfterResult : Result (Admission × Registry) → Type 0
AfterResult (ok (_, r)) = IsValid r
AfterResult (fail e) = Unit

pub enqueue-IsValid : (r : Registry) (job : Job) → IsValid r → AfterResult (enqueue r job)
unfolding enqueue record_of
enqueue-IsValid r job v =
    if_cases AfterResult r.closed (λ _. tt)
      (λ _. elim (Option-cases (Dict.get r.records job.aggregate_id)) [
        | inl missing ↦ rw missing (queued-IsValid r job v (λ p. cc (rw (missing, record_of) at p)))
        | inr (rec, there) ↦ rw there (
            if_cases AfterResult (rec.parked && job.acked)
              (λ p. record_parked-IsValid r job.aggregate_id rec job _ v there (ground arith))
              (λ p. queued-IsValid r job v (λ q. ground (arith, rw (there, record_of) at q))))
      ])
