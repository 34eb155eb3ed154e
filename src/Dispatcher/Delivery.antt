-- ===== src/Dispatcher/Delivery.antt =====
-- internal/bus/dispatcher/internal/delivery: the attempts by which a worker delivers one job to the
-- durable subscribers. What user code and other goroutines do meanwhile is a `Surroundings`.
pub mod Loops
mod Tracing
pub mod Serving
pub mod Pacing
pub mod Held
use asynx.Base.{
  ℕ, zero, suc, String, List, [], ◌∷◌, ◌++◌, Option, some, none, Bool, true, false, not, ◌&&◌, ◌||◌,
  ◌+◌, ◌*◌, ◌/◌, ◌%◌, ◌^◌, ltb, leb, ◌==◌, if◌then◌else◌, contains, is_empty, string_eq, nat_eq,
}
use asynx.Models.Errors.{
  Error, external, sentinel, note, wrap, subscriber_error, err_handler_panic, err_handler_timeout,
  err_dispatcher_closed,
}
use asynx.Dispatcher.Job.{Job, Progress, mark_settled}
use asynx.Dispatcher.Aggregates.{Registry, parked_error}
use asynx.Dispatcher.Aggregates.Parking.{park_if_current}

-- A time.Duration is the bit pattern of an int64; these compare the numbers that two patterns stand
-- for.
abbrev signed_rank : ℕ → ℕ
signed_rank d = (d + 2 ^ 63) % 2 ^ 64

pub min_duration : ℕ → ℕ → ℕ
min_duration a b = if ltb (signed_rank b) (signed_rank a) then b else a

pub doubled : ℕ → ℕ
doubled d = d * 2 % 2 ^ 64

-- `drawn` is what rand.N makes its number of. Half of a negative delay is not positive.
pub jittered : (drawn delay : ℕ) → ℕ
jittered drawn delay =
    let half = delay / 2 in
    if half == 0 || leb (2 ^ 63) delay then delay else half + drawn % (half + 1)

-- How a call of user code ends.
pub data Ended : Type 0 where
  succeeds : Ended
  fails : Error → Ended
  panics : String → Ended

-- Whether a handler with a Timeout outlives it, and then whether its panic is reported before the
-- timeout is.
pub data Pace : Type 0 where
  in_time late : Pace
  panics_while_late : Pace

pub record Behaviour : Type 0 where
  pub ends : Ended
  pub pace : Pace

-- models.DurableSub without its handler; a Timeout that is not positive is 0.
pub record DurableSub : Type 0 where
  pub name : String
  pub match : String → Bool
  pub timeout : ℕ

-- The case that the `select` of `wait` takes.
pub data Wake : Type 0 where
  interrupted halted elapsed : Wake

-- Where a delivery lets others run.
pub data Point : Type 0 where
  attempting waiting : ℕ → Point
  dead_lettering publishing acking : Point

-- What a delivery meets: how each handler behaves in each attempt, how each wait ends, the numbers
-- drawn, how the dead-letter handler ends, if there is one, and how others change the registry.
pub record Surroundings : Type 0 where
  pub behaves : ℕ → DurableSub → Behaviour
  pub wakes : ℕ → Wake
  pub draws : ℕ → ℕ
  pub dead_letter : Option (Error → Ended)
  pub others : Point → Registry → Registry

-- The fields of a durableDeliverer that are numbers or lists.
pub record Deliverer : Type 0 where
  pub subs : List DurableSub
  pub retry_initial : ℕ
  pub retry_max : ℕ
  pub max_attempts : ℕ

-- What a delivery does that others see, beside the registry and the job.
pub data Act : Type 0 where
  handles : String → (attempt : ℕ) → Act
  reports_panic : String → Act
  reports_delivery : Error → (attempt : ℕ) → Act
  reports_publish : Error → Act
  sleeps : ℕ → Act
  dead_letters : Error → Act
  publishes acks : Act

-- The shared state of a delivery.
pub record Delivering : Type 0 where
  pub registry : Registry
  pub progress : Progress
  pub acts : List Act

abbrev pub does : Act → Delivering → Delivering
does a s = record s { acts = s.acts ++ a ∷ [] }

abbrev pub is_closed : ℕ → Delivering → Bool
is_closed halt s = contains halt s.registry.closed_halts

abbrev pub let_others : Surroundings → Point → Delivering → Delivering
let_others x p s = record s { registry = x.others p s.registry }

unfoldable pub subscribers_for : Job → List DurableSub → List DurableSub
subscribers_for job [] = []
subscribers_for job (sub ∷ subs) =
    let rest = subscribers_for job subs in
    if not job.forget && not (sub.match job.event_name) then rest else sub ∷ rest

-- callRecovering, with what recoverHandlerPanic reports.
abbrev pub error_of : Ended → Option Error
error_of succeeds = none
error_of (fails e) = some e
error_of (panics v) = some (note (sentinel err_handler_panic) v)

abbrev pub reports_of : Ended → List Act
reports_of (panics v) = reports_panic v ∷ []
reports_of _ = []

abbrev pub late_reports : List Act → Act → Pace → List Act
late_reports panicked timed_out in_time = panicked
late_reports panicked timed_out late = timed_out ∷ panicked
late_reports panicked timed_out panics_while_late = panicked ++ timed_out ∷ []

abbrev pub timed_out : DurableSub → Error
timed_out sub = subscriber_error sub.name (note (sentinel err_handler_timeout) "after")

timeout_reports : DurableSub → ℕ → Behaviour → List Act
timeout_reports sub attempt b =
    let panicked = reports_of b.ends in
    if sub.timeout == 0
    then panicked
    else late_reports panicked (reports_delivery (timed_out sub) attempt) b.pace

pub run_durable : Surroundings → DurableSub → ℕ → Delivering → Option Error × Delivering
unfolding timeout_reports
run_durable x sub attempt s =
    let b = x.behaves attempt sub in
    (
      error_of b.ends,
      record s { acts = s.acts ++ handles sub.name attempt ∷ timeout_reports sub attempt b },
    )

-- The loop of `attempt` with `try`: the subscribers that failed, and their errors.
pub record Failures : Type 0 where
  pub failed : List DurableSub
  pub errs : List Error

abbrev pub after_try : DurableSub → ℕ → Option Error → Failures → Delivering → Failures × Delivering
after_try sub attempt none f s = (f, s)
after_try sub attempt (some e) f s =
    let failure = subscriber_error sub.name e in
    (
      record { failed = f.failed ++ sub ∷ []; errs = f.errs ++ failure ∷ [] },
      does (reports_delivery failure attempt) s,
    )

pub try_all : Surroundings → ℕ → List DurableSub → Failures → Delivering → Failures × Delivering
unfolding run_durable
try_all x attempt [] f s = (f, s)
try_all x attempt (sub ∷ subs) f s =
    let (e, s') = run_durable x sub attempt s in
    let (f', s'') = after_try sub attempt e f s' in try_all x attempt subs f' s''

-- errors.Join as errors.Is sees it.
abbrev join : List Error → Option Error
join [] = none
join (e ∷ es) = elim (join es) [ none ↦ some e | some rest ↦ some (wrap e rest) ]

pub attempt_all :
    Surroundings → ℕ → List DurableSub → Delivering → (List DurableSub × Option Error) × Delivering
unfolding try_all
attempt_all x attempt pending s =
    let (f, s') = try_all x attempt pending (record { failed = []; errs = [] }) s in
    ((f.failed, join f.errs), let_others x (attempting attempt) s')

-- The registry's part of ParkThenReport; the caller reports afterwards.
abbrev pub park_current : String → ℕ → Job → Error → Delivering → Delivering
park_current agg halt job cause s = record s {
  registry = (park_if_current s.registry agg halt job.acked (some cause)).1;
}

-- A case whose channel is open is not taken.
abbrev pub taken : Wake → (closed : Bool) → Wake
taken interrupted closed = interrupted
taken halted true = halted
taken halted false = elapsed
taken elapsed closed = elapsed

-- The cases of the `select`, with backoffEnded in the last.
abbrev pub woken : String → ℕ → Job → Delivering → Wake → Option Error × Delivering
woken agg halt job s interrupted = (
  some (sentinel err_dispatcher_closed),
  park_current agg halt job (sentinel err_dispatcher_closed) s,
)
woken agg halt job s halted = (some parked_error, s)
woken agg halt job s elapsed =
    (if job.acked && is_closed halt s then some parked_error else none, s)

abbrev pub slept : Surroundings → (attempt backoff : ℕ) → Delivering → Delivering
slept x attempt backoff s =
    let_others x (waiting attempt) (does (sleeps (jittered (x.draws attempt) backoff)) s)

pub wait :
    Surroundings → String → ℕ → Job → (attempt backoff : ℕ) → Delivering → Option Error × Delivering
wait x agg halt job attempt backoff s =
    let s' = slept x attempt backoff s in
    woken agg halt job s' (taken (x.wakes attempt) (is_closed halt s'))

abbrev pub dead_letters_to : Surroundings → Job → Option (Error → Ended)
dead_letters_to x job = if job.acked && not job.forget then x.dead_letter else none

-- `deadLettered`, from the dead-letter handler's error on.
abbrev pub letter_answered : Option Error → Error → ℕ → Delivering → Bool × Delivering
letter_answered (some e) last attempt s =
    (false, does (reports_delivery (note e "dead-letter handler") attempt) s)
letter_answered none last attempt s =
    (true, does (reports_delivery (note last "dead-lettered") attempt) s)

abbrev pub letter_sent :
    Surroundings → Option (Error → Ended) → Error → ℕ → Delivering → Bool × Delivering
letter_sent x none last attempt s = (false, s)
letter_sent x (some handler) last attempt s =
    letter_answered (error_of (handler last)) last attempt
      (let_others x dead_lettering (does (dead_letters last) s))

pub dead_lettered : Surroundings → Job → Error → ℕ → Delivering → Bool × Delivering
dead_lettered x job = letter_sent x (dead_letters_to x job)

pub give_up :
    Surroundings → String → ℕ → Job → Error → (attempt : ℕ) → Delivering → Option Error × Delivering
unfolding dead_lettered
give_up x agg halt job last attempt s =
    let (accepted, s') = dead_lettered x job last attempt s in
    let parked = wrap parked_error last in
    if is_closed halt s
    then (some parked_error, s)
    else if accepted
    then (none, s')
    else (some parked, does (reports_delivery parked attempt) (park_current agg halt job parked s'))

-- The variables of a retryLoop.
pub record RetryLoop : Type 0 where
  pub pending : List DurableSub
  pub attempt : ℕ
  pub backoff : ℕ
  pub err : Option Error

abbrev pub settle_after_first : ℕ → Delivering → Delivering
settle_after_first attempt s =
    if attempt == 1 then record s { progress = mark_settled s.progress } else s

-- Where a subscriber failed there is an error.
abbrev pub last_of : Option Error → Error
last_of none = external "<nil>"
last_of (some e) = e

abbrev next_loop : Deliverer → RetryLoop → Option Error → Delivering → Bool × RetryLoop × Delivering
next_loop d l (some e) s = (false, record l { err = some e }, s)
next_loop d l none s = (
  true,
  record l {
    attempt = l.attempt + 1;
    backoff = min_duration (doubled l.backoff) d.retry_max;
    err = none;
  },
  s,
)

pub step :
    Surroundings
    → Deliverer
    → String
    → ℕ
    → Job
    → RetryLoop
    → Delivering
    → Bool × RetryLoop × Delivering
step x d agg halt job l s =
    let ((failed, last), s₁) = attempt_all x l.attempt l.pending s in
    let s₂ = settle_after_first l.attempt s₁ in
    let l' = record l { pending = failed } in
    let given_up = give_up x agg halt job (last_of last) l.attempt s₂ in
    let waited = wait x agg halt job l.attempt l.backoff s₂ in
    if is_empty failed
    then (false, l', s₂)
    else if leb d.max_attempts l.attempt
    then (false, record l' { err = given_up.0 }, given_up.1)
    else next_loop d l' waited.0 waited.1

-- The error of a delivery with the state after it; `none` is that the fuel ran out.
abbrev pub Outcome : Type 0
Outcome = Option (Option Error × Delivering)

-- `for loop.step() {}`; no rounds are left at the fuel's end.
pub loop : ℕ → Surroundings → Deliverer → String → ℕ → Job → RetryLoop → Delivering → Outcome
unfolding step
loop zero x d agg halt job l s = none
loop (suc fuel) x d agg halt job l s =
    let (more, l', s') = step x d agg halt job l s in
    let rest = loop fuel x d agg halt job l' s' in if more then rest else some (l'.err, s')

abbrev first_loop : Deliverer → List DurableSub → RetryLoop
first_loop d pending = record {
  pending = pending;
  attempt = 1;
  backoff = d.retry_initial;
  err = none;
}

pub deliver : ℕ → Surroundings → Deliverer → String → ℕ → Job → Delivering → Outcome
unfolding loop subscribers_for
deliver fuel x d agg halt job s =
    let pending = subscribers_for job d.subs in
    let delivered = loop fuel x d agg halt job (first_loop d pending) s in
    if job.acked && is_closed halt s
    then some (some parked_error, s)
    else if is_empty pending
    then some (none, s)
    else delivered
