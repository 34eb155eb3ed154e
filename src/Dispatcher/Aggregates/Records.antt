-- ===== src/Dispatcher/Aggregates/Records.antt =====
-- record.go, and the calls that the registry makes of jobs (Item) and hooks.
use asynx.Base.Dict.{Dict}
use asynx.Base.{List, Bool, String, Option, ℕ}
use asynx.Dispatcher.Job.{Job}
use asynx.Models.Errors.{Error}

pub record Record : Type 0 where
  pub jobs : List Job
  pub worker : Bool
  pub wake : Option ℕ
  pub halt : ℕ
  pub parked : Bool
  pub generation : ℕ
  pub cause : Option Error
  pub undelivered : Dict ℕ Error

-- `MarkUnrun` and `Complete` always get ErrDeliveryParked here.
pub data Call : Type 0 where
  marks_unrun : Job → Call
  completes_parked : Job → Call
  spawns : String → Call
  admits : Job → Call
