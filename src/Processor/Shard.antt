-- ===== src/Processor/Shard.antt =====
-- internal/processor/pool/shard.go: the mailboxes by which the workers of a shard share its
-- aggregates. A worker is a number; a step is what it does under the mutex of the mailboxes.
pub mod Alone
use asynx.Base.Dict
use asynx.Base.{
  ℕ, String, Option, ◌++◌, some, List, [], if◌then◌else◌, Bool, none, ◌∷◌, string_eq, leb, true,
  nat_eq, length, false,
}
use asynx.Base.Dict.{Dict}

-- `identity` tells two commands apart.
pub record CommandJob : Type 0 where
  pub identity : ℕ
  pub aggregate_id : String

-- `full` lists the commands that were answered with ErrQueueFull.
pub record Shard : Type 0 where
  pub mailbox_limit : ℕ
  pub mailboxes : Dict String (List CommandJob)
  pub full : List CommandJob

pub file : String → CommandJob → List CommandJob → Shard → Shard
file agg job mailbox s =
    if leb s.mailbox_limit (length mailbox)
    then record s { full = s.full ++ job ∷ [] }
    else record s { mailboxes = Dict.put s.mailboxes agg (mailbox ++ job ∷ []) }

pub claim : String → CommandJob → Shard → Bool × Shard
unfolding file
claim agg job s = elim (Dict.get s.mailboxes agg) [
  | none ↦ (true, record s { mailboxes = Dict.put s.mailboxes agg [] })
  | some mailbox ↦ (false, file agg job mailbox s)
]

abbrev mailbox_of : Option (List CommandJob) → List CommandJob
mailbox_of none = []
mailbox_of (some jobs) = jobs

pub next_of : String → List CommandJob → Shard → Option CommandJob × Shard
next_of agg [] s = (none, record s { mailboxes = Dict.remove s.mailboxes agg })
next_of agg (job ∷ jobs) s = (some job, record s { mailboxes = Dict.put s.mailboxes agg jobs })

pub next : String → Shard → Option CommandJob × Shard
unfolding next_of
next agg s = next_of agg (mailbox_of (Dict.get s.mailboxes agg)) s

-- The shard with the command that each busy worker executes, and the commands in the order in
-- which workers have started them.
pub record Workers : Type 0 where
  pub shard : Shard
  pub busy : Dict ℕ CommandJob
  pub started : List CommandJob

pub start : ℕ → CommandJob → Shard → Workers → Workers
start worker job s p = record {
  shard = s;
  busy = Dict.put p.busy worker job;
  started = p.started ++ job ∷ [];
}

-- The worker takes a command from the queue of the shard, and after that command the next one of
-- its aggregate: the loop of `serve`. A busy worker takes nothing.
pub take_job : ℕ → CommandJob → Workers → Workers
unfolding claim start
take_job worker job p = elim (Dict.get p.busy worker) [
  | some _ ↦ p
  | none ↦
      let (mine, s) = claim job.aggregate_id job p.shard in
      if mine then start worker job s p else record p { shard = s }
]

pub go_on_with : ℕ → Option CommandJob × Shard → Workers → Workers
unfolding start
go_on_with worker (none, s) p = record p { shard = s; busy = Dict.remove p.busy worker }
go_on_with worker (some job, s) p = start worker job s p

pub finish_job : ℕ → Workers → Workers
unfolding next go_on_with
finish_job worker p = elim (Dict.get p.busy worker) [
  | none ↦ p
  | some job ↦ go_on_with worker (next job.aggregate_id p.shard) p
]

pub data Move : Type 0 where
  takes : ℕ → CommandJob → Move
  finishes : ℕ → Move

pub moves : List Move → Workers → Workers
unfolding take_job finish_job
moves [] p = p
moves (takes worker job ∷ ms) p = moves ms (take_job worker job p)
moves (finishes worker ∷ ms) p = moves ms (finish_job worker p)

pub new : (limit : ℕ) → Workers
new limit = record {
  shard = record { mailbox_limit = limit; mailboxes = Dict.empty; full = [] };
  busy = Dict.empty;
  started = [];
}
