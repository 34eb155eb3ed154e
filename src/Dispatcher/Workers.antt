-- ===== src/Dispatcher/Workers.antt =====
-- internal/bus/dispatcher/internal/workers/aggregate_pool.go: what the worker of an aggregate does
-- with one job.
pub mod Handling
use asynx.Models.Errors.{Error, external}
use asynx.Base.{Bool, Option, none, String, ℕ, some, if◌then◌else◌, not, ◌&&◌, ◌||◌, true, false}
use asynx.Dispatcher.Delivery.{
  Surroundings, Ended, Deliverer, Delivering, Outcome, fails, panics, does, let_others,
  reports_publish, acking, succeeds, publishing, park_current, acks, deliver, publishes,
}
use asynx.Dispatcher.Job.{Job, complete, durable, mark_settled, mark_unrun}
use asynx.Dispatcher.Aggregates.Parking.{settle_if_parked}
use asynx.Dispatcher.Aggregates.{parked_error}

-- The fields of an aggregatePool; `bus` says that there is one.
pub record Pool : Type 0 where
  pub bus : Bool
  pub deliverer : Deliverer

-- What the worker meets with one job: how the bus and the Ack of the job end.
pub record Turn : Type 0 where
  pub around : Surroundings
  pub published : Ended
  pub acked_with : Ended

abbrev publish_error : Ended → Option Error
publish_error succeeds = none
publish_error (fails e) = some e
publish_error (panics v) = some (external v)

abbrev report_publish : Option Error → Delivering → Delivering
report_publish none s = s
report_publish (some e) s = does (reports_publish e) s

pub publish_live : Pool → Turn → Job → Delivering → Delivering
publish_live p t job s =
    if not p.bus || job.skip_live
    then s
    else report_publish (publish_error t.published)
        (let_others t.around publishing (does publishes s))

pub held_by_park : String → ℕ → Job → Delivering → Bool × Delivering
held_by_park agg halt job s =
    let (held, r) = settle_if_parked s.registry agg halt job in
    if job.acked && held
    then (true, record s { registry = r; progress = mark_unrun parked_error s.progress })
    else (false, s)

-- The end of `ack`, and with a panic that of `handle`, which recovers it.
abbrev pub answer_ack : String → ℕ → Job → Ended → Delivering → Option Error × Delivering
answer_ack agg halt job succeeds s = (none, s)
answer_ack agg halt job (fails e) s =
    (some e, does (reports_publish e) (park_current agg halt job e s))
answer_ack agg halt job (panics v) s = (some (external v), does (reports_publish (external v)) s)

pub ack : Turn → String → ℕ → Job → Delivering → Option Error × Delivering
ack t agg halt job s =
    if job.acked
    then answer_ack agg halt job t.acked_with (let_others t.around acking (does acks s))
    else (none, s)

-- What `deliver` does when the deliverer returned.
abbrev pub ack_delivered : Turn → String → ℕ → Job → Outcome → Outcome
ack_delivered t agg halt job none = none
ack_delivered t agg halt job (some (some e, s)) = some (some e, s)
ack_delivered t agg halt job (some (none, s)) = some (ack t agg halt job s)

pub deliver_job : ℕ → Pool → Turn → String → ℕ → Job → Delivering → Outcome
deliver_job fuel p t agg halt job s =
    let (held, s') = held_by_park agg halt job s in
    let s'' = publish_live p t job s' in
    if held
    then some (some parked_error, s')
    else if not (durable job)
    then some (none, s'')
    else ack_delivered t agg halt job (deliver fuel t.around p.deliverer agg halt job s'')

-- finish
abbrev pub finish : Outcome → Outcome
finish none = none
finish (some (o, s)) = some (o, record s { progress = complete o (mark_settled s.progress) })

pub handle : ℕ → Pool → Turn → String → ℕ → Job → Delivering → Outcome
unfolding deliver_job
handle fuel p t agg halt job s = finish (deliver_job fuel p t agg halt job s)
