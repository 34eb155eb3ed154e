-- ===== src/Tests/Dispatching.antt =====
-- A job and a registry of the dispatcher.
use asynx.Base.{ℕ, List, Bool, true, false, ◌∷◌, ◌≡◌, is_some, some, [], none, ◌&&◌, ◌==◌, nat_eq}
use asynx.Dispatcher.Aggregates
use asynx.Dispatcher.Aggregates.{Hooks, Registry}
use asynx.Dispatcher.Job.Once.{
  moves, Move, settles, first_settle, first_completion, settles_unrun, flat, completes, one_if,
  moves_lem,
}
use asynx.Dispatcher.Aggregates.Parking.Invariant.{IsValid}
use asynx.Dispatcher.Job.{started, Job}
use asynx.Dispatcher.Aggregates.Parking.Actions.{Action, acts, enqueues, acts-IsValid, parks, lifts}
use asynx.Models.Errors.{sentinel, err_delivery_parked, err_handler_timeout, err_shutting_down}
use asynx.Dispatcher.Aggregates.Parking.Parked.{ParkTable, park_lem}
use asynx.Dispatcher.Aggregates.Parking.{park, inspect, lift}
use asynx.Dispatcher.Aggregates.Parking.Tables.{LiftTable, lift_lem}

abbrev late_moves : List Move
late_moves =
    settles
    ∷ settles_unrun (sentinel err_delivery_parked)
    ∷ completes none
    ∷ completes (some (sentinel err_shutting_down))
    ∷ []

moves_example :
    let p = moves late_moves started in
    let s = first_settle late_moves in
    let c = first_completion late_moves in
    (p.settled ≡ is_some s)
    × (p.unrun ≡ flat s)
    × (p.final ≡ is_some c)
    × (p.err ≡ flat c)
    × (p.cancelled ≡ is_some c)
    × (p.callbacks ≡ one_if (is_some c))
moves_example = moves_lem late_moves

abbrev order_job : ℕ → Bool → Job
order_job version acked = record {
  identity = version;
  aggregate_id = "order-1";
  version = version;
  event_name = "shipped";
  acked = acked;
  forget = false;
  skip_live = false;
}

abbrev both_hooks : Hooks
both_hooks = record { spawn = true; admit = true }

abbrev parked_twice : List Action
parked_twice =
    enqueues (order_job 1 true)
    ∷ enqueues (order_job 2 false)
    ∷ parks "order-1" (some (sentinel err_handler_timeout)) (1 ∷ [])
    ∷ enqueues (order_job 3 true)
    ∷ lifts "order-1" 1
    ∷ []

acts-IsValid_example : IsValid (acts parked_twice (Aggregates.new both_hooks))
acts-IsValid_example = acts-IsValid both_hooks parked_twice

abbrev two_queued : Registry
two_queued =
    acts (enqueues (order_job 1 true) ∷ enqueues (order_job 2 false) ∷ [])
      (Aggregates.new both_hooks)

park_example :
    ParkTable two_queued "order-1"
      (some (sentinel err_handler_timeout))
      (1 ∷ [])
      (park two_queued "order-1" (some (sentinel err_handler_timeout)) (1 ∷ []))
park_example =
    park_lem two_queued "order-1" (some (sentinel err_handler_timeout)) (1 ∷ [])
      (acts-IsValid both_hooks (enqueues (order_job 1 true) ∷ enqueues (order_job 2 false) ∷ []))

lift_example :
    let r = park two_queued "order-1" none (1 ∷ []) in
    LiftTable r "order-1"
      ((inspect r "order-1").parked && (inspect r "order-1").generation == 1)
      (lift r "order-1" 1)
lift_example = lift_lem (park two_queued "order-1" none (1 ∷ [])) "order-1" 1
