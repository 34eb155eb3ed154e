-- ===== src/Dispatcher/Aggregates/Parking/Actions.antt =====
-- The calls that clients make of the registry, in any order, and what they reach.
use asynx.Dispatcher.Aggregates.Parking.Preserves.{
  pop-IsValid, retire-IsValid, settle_if_parked-IsValid,
}
use asynx.Dispatcher.Aggregates.Parking.Lifting.{
  park-IsValid, park_if_current-IsValid, lift-IsValid, supersede-IsValid,
}
use asynx.Base.{List, String, ◌∷◌, Option, ℕ, Bool, []}
use asynx.Dispatcher.Job.{Job}
use asynx.Dispatcher.Aggregates.{
  Registry, Hooks, Result, enqueue, Admission, pop, new, Error, ok, retire, fail,
}
use asynx.Dispatcher.Aggregates.Parking.{
  close, park, park_if_current, settle_if_parked, lift, supersede,
}
use asynx.Dispatcher.Aggregates.Parking.Invariant.{IsValid, new-IsValid}
use asynx.Dispatcher.Aggregates.Parking.Queueing.{enqueue-IsValid, AfterResult}

pub data Action : Type 0 where
  enqueues : Job → Action
  pops : String → Action
  retires : String → Action
  parks : String → Option Error → List ℕ → Action
  parks_if_current : String → ℕ → Bool → Option Error → Action
  settles_if_parked : String → ℕ → Job → Action
  lifts : String → ℕ → Action
  supersedes : String → Action
  closes : Action

-- A refused enqueue changes nothing.
abbrev enqueued : Registry → Result (Admission × Registry) → Registry
enqueued r (ok (_, r')) = r'
enqueued r (fail e) = r

act : Action → Registry → Registry
act (enqueues job) r = enqueued r (enqueue r job)
act (pops agg) r = (pop r agg).1
act (retires agg) r = (retire r agg).1
act (parks agg cause vs) r = park r agg cause vs
act (parks_if_current agg halt durable cause) r = (park_if_current r agg halt durable cause).1
act (settles_if_parked agg halt job) r = (settle_if_parked r agg halt job).1
act (lifts agg generation) r = (lift r agg generation).1
act (supersedes agg) r = supersede r agg
act closes r = (close r).1

pub acts : List Action → Registry → Registry
unfolding act
acts [] r = r
acts (a ∷ rest) r = acts rest (act a r)

enqueued-IsValid :
    (r : Registry) (q : Result (Admission × Registry))
    → IsValid r
    → AfterResult q
    → IsValid (enqueued r q)
enqueued-IsValid r (ok _) v h = h
enqueued-IsValid r (fail _) v h = v

close-IsValid : (r : Registry) → IsValid r → IsValid (close r).1
unfolding close
close-IsValid r v = record { each = v.each; apart = v.apart; unborn = v.unborn }

act-IsValid : (a : Action) (r : Registry) → IsValid r → IsValid (act a r)
unfolding act
act-IsValid (enqueues job) r v = enqueued-IsValid r _ v (enqueue-IsValid r job v)
act-IsValid (pops agg) r v = pop-IsValid r agg v
act-IsValid (retires agg) r v = retire-IsValid r agg v
act-IsValid (parks agg cause vs) r v = park-IsValid r agg cause vs v
act-IsValid (parks_if_current agg halt durable cause) r v =
    park_if_current-IsValid r agg halt durable cause v
act-IsValid (settles_if_parked agg halt job) r v = settle_if_parked-IsValid r agg halt job v
act-IsValid (lifts agg generation) r v = lift-IsValid r agg generation v
act-IsValid (supersedes agg) r v = supersede-IsValid r agg v
act-IsValid closes r v = close-IsValid r v

pub acts-from : (calls : List Action) (r : Registry) → IsValid r → IsValid (acts calls r)
unfolding acts
acts-from [] r v = v
acts-from (a ∷ rest) r v = acts-from rest (act a r) (act-IsValid a r v)

-- After any calls of Enqueue, Pop, Retire, Park, ParkIfCurrent, SettleIfParked, Lift, Supersede and
-- Close on a new registry: a record that is not parked carries no generation, cause or undelivered
-- version, and its halt channel is open; a parked aggregate queues no durable job; queued jobs have a
-- worker; a record that stays has a worker or a park; and no two aggregates share a halt channel.
pub acts-IsValid : (hooks : Hooks) (calls : List Action) → IsValid (acts calls (new hooks))
acts-IsValid hooks calls = acts-from calls (new hooks) (new-IsValid hooks)
