-- ===== src/Bus/Handlers/Fallbacks.antt =====
-- When the fallback of a subscription runs, and what is reported.
use asynx.Bus.Handlers.{
  execute_handler, List, HandlerJob, Option, Bool, Happening, Behaviour, Execution, starts,
  reports_panic, primary, reports_timeout, secondary,
}
use asynx.Base.{
  ◌&&◌, ℕ, false, ◌≡◌, some, ◌==◌, ◌∷◌, is_some, suc, none, ◌++◌, if◌then◌else◌, nat_eq, zero, ◌+◌,
  [], true, arith, refl,
}

abbrev primaries : List Happening → ℕ
primaries [] = 0
primaries (starts primary ∷ hs) = suc (primaries hs)
primaries (starts secondary ∷ hs) = primaries hs
primaries (reports_panic ∷ hs) = primaries hs
primaries (reports_timeout ∷ hs) = primaries hs

abbrev secondaries : List Happening → ℕ
secondaries [] = 0
secondaries (starts primary ∷ hs) = secondaries hs
secondaries (starts secondary ∷ hs) = suc (secondaries hs)
secondaries (reports_panic ∷ hs) = secondaries hs
secondaries (reports_timeout ∷ hs) = secondaries hs

abbrev panic_reports : List Happening → ℕ
panic_reports [] = 0
panic_reports (starts _ ∷ hs) = panic_reports hs
panic_reports (reports_panic ∷ hs) = suc (panic_reports hs)
panic_reports (reports_timeout ∷ hs) = panic_reports hs

abbrev falls_back : HandlerJob → Bool
falls_back job = job.handler.panics && job.timeout == 0 && is_some job.fallback

abbrev fallback_panics : Option Behaviour → Bool
fallback_panics none = false
fallback_panics (some b) = b.panics

pub record Handled (job : HandlerJob) (q : Execution) : Type 0 where
  pub contained : q.panicked ≡ false
  pub handler : primaries (q.before ++ q.later) ≡ 1
  pub fallback : secondaries (q.before ++ q.later) ≡ (if falls_back job then 1 else 0)
  pub reported :
      panic_reports (q.before ++ q.later)
      ≡ (if job.handler.panics then 1 else 0)
        + (if falls_back job && fallback_panics job.fallback then 1 else 0)
  pub waits : job.wait_after_timeout ≡ true → q.later ≡ []

abbrev job_of : Behaviour → Option Behaviour → ℕ → Bool → HandlerJob
job_of b o n w = record { handler = b; fallback = o; timeout = n; wait_after_timeout = w }

inline-Handled :
    (p l w : Bool) (o : Option Behaviour)
    → let job = job_of (record { panics = p; late = l }) o 0 w in Handled job (execute_handler job)
unfolding execute_handler
inline-Handled false l w o = record {
  contained = refl;
  handler = refl;
  fallback = refl;
  reported = refl;
  waits = λ _. refl;
}
inline-Handled true l w none = record {
  contained = refl;
  handler = refl;
  fallback = refl;
  reported = refl;
  waits = λ _. refl;
}
inline-Handled true l w (some b) = record {
  contained = ground arith;
  handler = ground arith;
  fallback = ground arith;
  reported = ground arith;
  waits = λ h. ground (arith, h);
}

timed-Handled :
    (p l w : Bool) (o : Option Behaviour) (n : ℕ)
    → let job = job_of (record { panics = p; late = l }) o (suc n) w in
      Handled job (execute_handler job)
unfolding execute_handler
timed-Handled p l w o n = record {
  contained = ground arith;
  handler = ground arith;
  fallback = ground arith;
  reported = ground arith;
  waits = λ h. ground (arith, h);
}

-- ExecuteHandler starts the handler once and lets no panic out. The fallback is started, once, just
-- if the handler panics and the subscription has no timeout and has a fallback. Each panic, of the
-- handler or of the fallback, is reported once. With WaitAfterTimeout nothing happens after the
-- return.
pub execute_handler_lem : (job : HandlerJob) → Handled job (execute_handler job)
execute_handler_lem job = go job.timeout
  where
    go :
        (n : ℕ)
        → let j = job_of job.handler job.fallback n job.wait_after_timeout in
          Handled j (execute_handler j)
    go zero = inline-Handled job.handler.panics job.handler.late job.wait_after_timeout job.fallback
    go (suc n) =
        timed-Handled job.handler.panics job.handler.late job.wait_after_timeout job.fallback n
