-- ===== src/Bus/Handlers.antt =====
-- internal/bus/exec/exec.go: how one handler of a subscription is run for an event.
pub mod Fallbacks
use asynx.Base.{
  if◌then◌else◌, Bool, Option, List, ℕ, ◌∷◌, ◌++◌, some, [], ◌==◌, none, false, nat_eq, true,
}

-- What a handler does: whether it panics, and whether it is still running when its timer fires.
pub record Behaviour : Type 0 where
  pub panics : Bool
  pub late : Bool

-- HandlerJob; a timeout is an int64, of which only whether it is zero counts here.
pub record HandlerJob : Type 0 where
  pub handler : Behaviour
  pub fallback : Option Behaviour
  pub timeout : ℕ
  pub wait_after_timeout : Bool

pub data Role : Type 0 where
  primary secondary : Role

-- What happens in the course of a job. A panic inside a callback is swallowed.
pub data Happening : Type 0 where
  starts : Role → Happening
  reports_panic : Happening
  reports_timeout : Happening

-- What has happened when a call ends, what its goroutine does after that, and whether it panics.
pub record Execution : Type 0 where
  pub before : List Happening
  pub later : List Happening
  pub panicked : Bool

-- runGuarded with reportPanic, after the start
pub guarded : Behaviour → List Happening
guarded b = if b.panics then reports_panic ∷ [] else []

-- afterTimeout: what the handler still does comes before the end of the call, or after it.
after_timeout : Role → Behaviour → (wait_after_timeout : Bool) → Execution
unfolding guarded
after_timeout role b true = record {
  before = starts role ∷ reports_timeout ∷ guarded b;
  later = [];
  panicked = false;
}
after_timeout role b false = record {
  before = starts role ∷ reports_timeout ∷ [];
  later = guarded b;
  panicked = false;
}

execute_with_timeout : Role → Behaviour → (timeout : ℕ) → (wait_after_timeout : Bool) → Execution
unfolding after_timeout
execute_with_timeout role b timeout wait_after_timeout =
    if timeout == 0
    then record { before = starts role ∷ []; later = []; panicked = b.panics }
    else if b.late
    then after_timeout role b wait_after_timeout
    else record { before = starts role ∷ guarded b; later = []; panicked = false }

abbrev then_reports : Execution → Execution
then_reports q =
    if q.panicked
    then record { before = q.before ++ reports_panic ∷ []; later = q.later; panicked = false }
    else q

run_fallback : HandlerJob → Behaviour → Execution
unfolding execute_with_timeout
run_fallback job b =
    then_reports (execute_with_timeout secondary b job.timeout job.wait_after_timeout)

abbrev after_panic : HandlerJob → Option Behaviour → Execution → Execution
after_panic job none q = then_reports q
after_panic job (some b) q =
    let p = run_fallback job b in
    record {
      before = q.before ++ reports_panic ∷ p.before;
      later = q.later ++ p.later;
      panicked = p.panicked;
    }

fall_back_on_panic : HandlerJob → Execution → Execution
unfolding run_fallback
fall_back_on_panic job q = if q.panicked then after_panic job job.fallback q else q

-- ExecuteHandler; the call of Done follows what has happened before its end.
pub execute_handler : HandlerJob → Execution
unfolding execute_with_timeout fall_back_on_panic
execute_handler job =
    fall_back_on_panic job
      (execute_with_timeout primary job.handler job.timeout job.wait_after_timeout)
