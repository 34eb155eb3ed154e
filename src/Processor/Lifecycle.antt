-- ===== src/Processor/Lifecycle.antt =====
-- The part of internal/processor/processor.go that starts and ends: which calls are under way, and
-- the states of a shutdown. One lock orders its steps.
pub mod Closing
use asynx.Base.{Bool, false, Option, ◌-◌, ◌≡◌, ◌<◌, ℕ, if◌then◌else◌, true, suc, some, ◌≢◌, none}
use asynx.Models.Errors.{Error, sentinel, err_shutting_down}

pub data ShutdownState : Type 0 where
  not_shut_down shutting_down_now shutdown_failed shut_down : ShutdownState

-- How far runShutdown is, and whether one runs.
pub data Phase : Type 0 where
  no_shutdown waits_for_sends drains waits_for_forgets closes_dispatcher closes_bus : Phase

-- `sends` and `forgets` are the counts of the two wait groups.
pub record Lifecycle : Type 0 where
  pub shutting_down : Bool
  pub shutdown : ShutdownState
  pub sends : ℕ
  pub forgets : ℕ
  pub phase : Phase

pub new_lifecycle : Lifecycle
new_lifecycle = record {
  shutting_down = false;
  shutdown = not_shut_down;
  sends = 0;
  forgets = 0;
  phase = no_shutdown;
}

pub begin_send : Lifecycle → Bool × Lifecycle
begin_send p = if p.shutting_down then (false, p) else (true, record p { sends = suc p.sends })

-- The head of Processor.Forget, up to the unlock
pub begin_forget : Lifecycle → Option Error × Lifecycle
begin_forget p =
    if p.shutting_down
    then (some (sentinel err_shutting_down), p)
    else (none, record p { forgets = suc p.forgets })

-- The deferred calls of Done.
pub end_send : Lifecycle → Lifecycle
end_send p = record p { sends = p.sends - 1 }

pub end_forget : Lifecycle → Lifecycle
end_forget p = record p { forgets = p.forgets - 1 }

abbrev pub is_under_way : ShutdownState → Bool
is_under_way not_shut_down = false
is_under_way shutting_down_now = true
is_under_way shutdown_failed = false
is_under_way shut_down = true

-- beginShutdown; a caller that gets true goes on to runShutdown.
pub begin_shutdown : Lifecycle → Bool × Lifecycle
begin_shutdown p = if is_under_way p.shutdown then (false, p) else (
  true,
  record p { shutdown = shutting_down_now; shutting_down = true; phase = waits_for_sends },
)

abbrev ended_state : Option Error → ShutdownState
ended_state (some _) = shutdown_failed
ended_state none = shut_down

-- endShutdown, after runShutdown returned `err`
pub end_shutdown : Option Error → Lifecycle → Lifecycle
end_shutdown err p = record p { shutdown = ended_state err; phase = no_shutdown }

-- The steps of runShutdown. A wait group lets its waiter go on when its count is zero.
pub data Advances : Phase → Lifecycle → Phase → Type 0 where
  sends_are_done : {p : Lifecycle} → p.sends ≡ 0 → Advances waits_for_sends p drains
  is_drained : {p : Lifecycle} → Advances drains p waits_for_forgets
  forgets_are_done :
      {p : Lifecycle} → p.forgets ≡ 0 → Advances waits_for_forgets p closes_dispatcher
  dispatcher_is_closed : {p : Lifecycle} → Advances closes_dispatcher p closes_bus

pub data Step : Lifecycle → Lifecycle → Type 0 where
  sends_command : (p : Lifecycle) → Step p (begin_send p).1
  command_returns : (p : Lifecycle) → 0 < p.sends → Step p (end_send p)
  forgets_aggregate : (p : Lifecycle) → Step p (begin_forget p).1
  forget_returns : (p : Lifecycle) → 0 < p.forgets → Step p (end_forget p)
  shuts_down : (p : Lifecycle) → Step p (begin_shutdown p).1
  advances : (p : Lifecycle) (to : Phase) → Advances p.phase p to → Step p (record p { phase = to })
  shutdown_fails :
      (p : Lifecycle) (e : Error) → p.phase ≢ no_shutdown → Step p (end_shutdown (some e) p)
  shutdown_ends : (p : Lifecycle) → p.phase ≡ closes_bus → Step p (end_shutdown none p)

pub data Reaches : Lifecycle → Type 0 where
  starts : Reaches new_lifecycle
  goes_on : (p p' : Lifecycle) → Reaches p → Step p p' → Reaches p'
