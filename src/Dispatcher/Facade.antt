-- ===== src/Dispatcher/Facade.antt =====
-- internal/bus/dispatcher/dispatcher.go: the methods of the dispatcher over its registry.
use asynx.Dispatcher.Job.{new_job}
use asynx.Dispatcher.Aggregates
use asynx.Dispatcher.Aggregates.Parking
use asynx.Dispatcher.Aggregates.{Registry, Hooks, Admission}
use asynx.Dispatcher.Job.{Request}
use asynx.Base.{
  true, Option, ℕ, [], String, List, false, Bool, if◌then◌else◌, suc, ◌||◌, none, is_some, some,
  ◌++◌, ◌∷◌,
}
use asynx.Models.Errors.{Error, Result, ok, fail}

-- `next_job` tells the jobs apart, `released` lists those whose context was released at once,
-- `quit` is that the channel quit is closed, `stops` counts the calls of Stop of the worker pool and
-- `cancelled` is that the context of the handlers is cancelled.
pub record Facade : Type 0 where
  pub registry : Registry
  pub next_job : ℕ
  pub released : List ℕ
  pub quit : Bool
  pub stops : ℕ
  pub cancelled : Bool

abbrev pub new : Hooks → Facade
new hooks = record {
  registry = Aggregates.new hooks;
  next_job = 0;
  released = [];
  quit = false;
  stops = 0;
  cancelled = false;
}

abbrev pub admitted : Facade → ℕ → Result (Admission × Registry) → Option Error × Facade
admitted f identity (ok (_, r)) = (none, record f { registry = r })
admitted f identity (fail e) = (some e, record f { released = f.released ++ identity ∷ [] })

unfoldable pub enqueue : Request → Facade → Option Error × Facade
enqueue q f =
    let job = new_job f.next_job q in
    admitted (record f { next_job = suc f.next_job }) f.next_job (Aggregates.enqueue f.registry job)

unfoldable pub park : String → Option Error → List ℕ → Facade → Facade
park agg cause undelivered f = record f { registry = Parking.park f.registry agg cause undelivered }

pub supersede : String → Facade → Facade
supersede agg f = record f { registry = Parking.supersede f.registry agg }

unfoldable pub resume_undelivered : String → ℕ → Facade → (Bool × List ℕ) × Facade
resume_undelivered agg generation f =
    let (answer, r) = Parking.lift f.registry agg generation in (answer, record f { registry = r })

interrupt : Facade → Facade
interrupt f = record f { quit = true }

-- `at_wait` is the error of the context if it ends before the workers have drained.
pub close : Option Error → Facade → Option Error × Facade
unfolding interrupt
close at_wait f =
    let (first, r) = Parking.close f.registry in
    let f' = record f { registry = r; stops = if first then suc f.stops else f.stops } in
    (at_wait, record (interrupt f') { cancelled = f.cancelled || is_some at_wait })
