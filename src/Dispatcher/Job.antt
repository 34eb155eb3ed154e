-- ===== src/Dispatcher/Job.antt =====
-- internal/bus/dispatcher/internal/jobs: one event on its way through the dispatcher. What a
-- request fixes for good is a `Job`, what changes while it is delivered is its `Progress`.
pub mod Once
use asynx.Base.{
  if◌then◌else◌, Bool, false, Option, ℕ, String, ◌==◌, true, ◌||◌, none, some, ◌+◌, string_eq,
}
use asynx.Models.Errors.{Error}
use asynx.Models.Records.{forget_event_name}

-- models.DispatchKind
pub data DispatchKind : Type 0 where
  dispatch_event dispatch_redelivery dispatch_tombstone : DispatchKind

-- `identity` tells two jobs apart, as their addresses do.
pub record Job : Type 0 where
  pub identity : ℕ
  pub aggregate_id : String
  pub version : ℕ
  pub event_name : String
  pub acked : Bool
  pub forget : Bool
  pub skip_live : Bool

-- models.DispatchRequest, without the payload of the event: `acked` says that it has an Ack.
pub record Request : Type 0 where
  pub aggregate_id : String
  pub version : ℕ
  pub event_name : String
  pub acked : Bool
  pub kind : DispatchKind

is_forget : Request → Bool
is_forget q = elim q.kind [
  | dispatch_event ↦ false
  | dispatch_redelivery ↦ q.event_name == forget_event_name
  | dispatch_tombstone ↦ true
]

is_redelivery : DispatchKind → Bool
is_redelivery dispatch_redelivery = true
is_redelivery _ = false

pub new_job : ℕ → Request → Job
unfolding is_forget is_redelivery
new_job identity q = record {
  identity = identity;
  aggregate_id = q.aggregate_id;
  version = q.version;
  event_name = q.event_name;
  acked = q.acked;
  forget = is_forget q;
  skip_live = is_redelivery q.kind;
}

abbrev pub durable : Job → Bool
durable j = j.acked || j.forget

-- The two `sync.Once` of a dispatchJob with what they guard: `settled` is that the channel of the
-- ticket's Settled is closed, `final` that of its Final, and `callbacks` counts the runs of the
-- completion callback.
pub record Progress : Type 0 where
  pub settled : Bool
  pub unrun : Option Error
  pub final : Bool
  pub err : Option Error
  pub cancelled : Bool
  pub callbacks : ℕ

abbrev pub started : Progress
started = record {
  settled = false;
  unrun = none;
  final = false;
  err = none;
  cancelled = false;
  callbacks = 0;
}

unfoldable pub mark_settled : Progress → Progress
mark_settled p = if p.settled then p else record p { settled = true }

unfoldable pub mark_unrun : Error → Progress → Progress
mark_unrun e p = if p.settled then p else record p { settled = true; unrun = some e }

unfoldable pub complete : Option Error → Progress → Progress
complete e p =
    if p.final
    then p
    else record p { final = true; err = e; cancelled = true; callbacks = p.callbacks + 1 }
