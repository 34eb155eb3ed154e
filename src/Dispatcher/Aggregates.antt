-- ===== src/Dispatcher/Aggregates.antt =====
-- internal/bus/dispatcher/internal/aggregates/aggregate_registry.go and record.go. Each method
-- holds the one mutex throughout, so it is one function of the registry. Channels are numbered:
-- `next` is the first number not given out, `closed_halts` the halt channels that were closed,
-- `signals` the wake channels that hold a signal. `calls` lists, oldest first, the calls that the
-- registry has made of jobs and hooks.
pub mod Records
pub mod Parking
use asynx.Base.Dict
use asynx.Base.Dict.{Dict}
use Records.{Record, Call, marks_unrun, completes_parked, spawns, admits}
use asynx.Base.Dict.Sorted.{sorted_keys}
use asynx.Base.{
  Bool, false, Option, List, ◌++◌, String, [], ◌∷◌, ℕ, if◌then◌else◌, some, true, none, ◌+◌,
  contains, ◌||◌, string_eq, nat_eq, not, is_empty, ◌&&◌,
}
use asynx.Models.Errors.{
  Error, sentinel, Result, err_delivery_parked, fail, err_dispatcher_closed, ok,
}
use asynx.Dispatcher.Job.{Job}

pub record Hooks : Type 0 where
  pub spawn : Bool
  pub admit : Bool

pub record Registry : Type 0 where
  pub records : Dict String Record
  pub generation : ℕ
  pub closed : Bool
  pub hooks : Hooks
  pub next : ℕ
  pub closed_halts : List ℕ
  pub signals : List ℕ
  pub calls : List Call

pub record Admission : Type 0 where
  pub spawned : Bool
  pub parked : Bool

unfoldable pub new : Hooks → Registry
new hooks = record {
  records = Dict.empty;
  generation = 0;
  closed = false;
  hooks = hooks;
  next = 0;
  closed_halts = [];
  signals = [];
  calls = [];
}

abbrev pub parked_error : Error
parked_error = sentinel err_delivery_parked

-- The call of the registry goes to the end of the list.
abbrev pub called : Call → Registry → Registry
called c r = record r { calls = r.calls ++ c ∷ [] }

-- What the source does by mutating the record that the map points to.
abbrev pub store : String → Record → Registry → Registry
store agg rec r = record r { records = Dict.put r.records agg rec }

-- A record made by `recordOf`, with its first halt channel.
abbrev pub fresh : ℕ → Record
fresh halt = record {
  jobs = [];
  worker = false;
  wake = none;
  halt = halt;
  parked = false;
  generation = 0;
  cause = none;
  undelivered = Dict.empty;
}

pub record_of : Registry → String → Record × Registry
record_of r agg = elim (Dict.get r.records agg) [
  | some rec ↦ (rec, r)
  | none ↦ (fresh r.next, record (store agg (fresh r.next) r) { next = r.next + 1 })
]

-- ensureWorker, with the record that it changed
pub ensure_worker : String → Record → Registry → Bool × Record × Registry
ensure_worker agg rec r = if rec.worker then (false, rec, r) else (
  true,
  record rec { worker = true; wake = some r.next; halt = r.next + 1 },
  let r' = record r { next = r.next + 2 } in if r.hooks.spawn then called (spawns agg) r' else r',
)

pub admit : Job → Registry → Registry
admit job r = if r.hooks.admit then called (admits job) r else r

-- signal(rec.wake): a channel of capacity one takes one signal; a nil channel takes none.
pub signal : Option ℕ → Registry → Registry
signal none r = r
signal (some ch) r = if contains ch r.signals then r else record r { signals = ch ∷ r.signals }

abbrev pub recorded : Job → Record → Record
recorded job rec = record rec { undelivered = Dict.put rec.undelivered job.version parked_error }

abbrev pub is_parked : Option Record → Bool
is_parked none = false
is_parked (some rec) = rec.parked

pub enqueue_queued : Registry → Job → Admission × Registry
unfolding record_of ensure_worker admit signal
enqueue_queued r job =
    let agg = job.aggregate_id in
    let (rec, r₁) = record_of r agg in
    let (spawned, rec', r₂) = ensure_worker agg rec r₁ in
    let r₃ = admit job r₂ in
    let r₄ = store agg (record rec' { jobs = rec'.jobs ++ job ∷ [] }) r₃ in
    (record { spawned = spawned; parked = false }, signal rec'.wake r₄)

-- markParkedUnrun of a durable job that its parked aggregate refuses, and then, when the mutex is
-- released, its completion by Enqueue.
abbrev refuse : Registry → Job → Record → Admission × Registry
refuse r job rec = (
  record { spawned = false; parked = true },
  called (completes_parked job)
      (store job.aggregate_id (recorded job rec) (called (marks_unrun job) r)),
)

pub enqueue : Registry → Job → Result (Admission × Registry)
unfolding enqueue_queued
enqueue r job =
    let current = Dict.get r.records job.aggregate_id in
    if r.closed then fail (sentinel err_dispatcher_closed) else elim current [
      | none ↦ ok (enqueue_queued r job)
      | some rec ↦
          if rec.parked && job.acked then ok (refuse r job rec) else ok (enqueue_queued r job)
    ]

pub pop_jobs : Registry → String → Record → List Job → Option (Job × ℕ) × Registry
pop_jobs r agg rec [] = (none, r)
pop_jobs r agg rec (job ∷ rest) = (some (job, rec.halt), store agg (record rec { jobs = rest }) r)

pub pop : Registry → String → Option (Job × ℕ) × Registry
unfolding pop_jobs
pop r agg = elim (Dict.get r.records agg) [
  | none ↦ (none, r)
  | some rec ↦ pop_jobs r agg rec rec.jobs
]

pub wake : Registry → String → Option ℕ
wake r agg = elim (Dict.get r.records agg) [ none ↦ none | some rec ↦ rec.wake ]

pub discard_if_empty : String → Record → Registry → Registry
discard_if_empty agg rec r =
    let busy = rec.worker || not (is_empty rec.jobs) in
    let held = rec.parked || not (is_empty (sorted_keys rec.undelivered)) in
    if busy || held then r else record r { records = Dict.remove r.records agg }

pub retire : Registry → String → Bool × Registry
unfolding discard_if_empty
retire r agg = elim (Dict.get r.records agg) [
  | none ↦ (true, r)
  | some rec ↦
      if not (is_empty rec.jobs)
      then (false, r)
      else let rec' = record rec { worker = false } in
        (true, discard_if_empty agg rec' (store agg rec' r))
]
