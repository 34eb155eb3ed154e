-- ===== src/Models/Records.antt =====
-- models/event.go and the records of models/store.go. Versions start at 1 and grow by one for
-- each event of an aggregate: they are numbers without a bound here.
use asynx.Base.{ℕ, String, Bool, ◌&&◌, ◌==◌, string_eq, nat_eq}

pub record Event {ℓ} (T : Type ℓ) : Type ℓ where
  pub id : String
  pub aggregate_id : String
  pub event_name : String
  pub version : ℕ
  pub schema_version : ℕ
  pub occurred_at : ℕ
  pub aggregate : T
  pub previous_aggregate : T

pub record Receipt : Type 0 where
  pub accepted : Bool
  pub aggregate_id : String
  pub event_id : String
  pub version : ℕ
  pub rejection : String

pub record Delivery : Type 0 where
  pub aggregate_id : String
  pub version : ℕ

abbrev pub delivery_eqb : Delivery → Delivery → Bool
delivery_eqb a b = a.aggregate_id == b.aggregate_id && a.version == b.version

-- models.ForgetEventName
abbrev pub forget_event_name : String
forget_event_name = "asynx.aggregate.forget"
