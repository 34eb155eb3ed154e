-- ===== src/Dispatcher/Aggregates/Parking.antt =====
-- The park of an aggregate: aggregate_registry.go from Park on, and its helpers.
mod Sweeping
pub mod Invariant
pub mod Preserves
pub mod Imposing
pub mod Queueing
pub mod Lifting
pub mod Actions
pub mod Tables
mod Recording
pub mod Held
pub mod Parked
use asynx.Base.Dict
use asynx.Base.Dict.{Dict}
use asynx.Base.Dict.Sorted.{sorted_keys}
use asynx.Base.{
  Option, List, Bool, false, ◌∷◌, String, ℕ, none, some, not, if◌then◌else◌, contains, [], true,
  string_eq, ◌+◌, ◌%◌, nat_eq, ◌&&◌, ◌^◌, ◌==◌, ◌++◌,
}
use asynx.Dispatcher.Aggregates.Records.{Record}
use asynx.Dispatcher.Job.{Job}
use asynx.Dispatcher.Aggregates.{
  record_of, Registry, discard_if_empty, Error, recorded, store, parked_error, is_parked, called,
  completes_parked, marks_unrun,
}

abbrev pub first_cause : Option Error → Option Error → Option Error
first_cause none cause = cause
first_cause (some e) cause = some e

-- The variables of the loop over the queue in `park`.
pub record Sweep : Type 0 where
  pub rec : Record
  pub kept : List Job
  pub registry : Registry

pub keep_live : Job → Sweep → Sweep
keep_live job s =
    if job.acked
    then record s {
      rec = recorded job s.rec;
      registry = called (completes_parked job) (called (marks_unrun job) s.registry);
    }
    else record s { kept = s.kept ++ job ∷ [] }

pub sweep : List Job → Sweep → Sweep
unfolding keep_live
sweep [] s = s
sweep (job ∷ jobs) s = sweep jobs (keep_live job s)

-- The part of `park` for an aggregate that was not parked. A uint64 counts the generations.
pub impose : String → Record → Registry → Record × Registry
unfolding sweep
impose agg rec r =
    let generation = (r.generation + 1) % 2 ^ 64 in
    let r' = record r { generation = generation; closed_halts = rec.halt ∷ r.closed_halts } in
    let s = sweep rec.jobs (record {
      rec = record rec { parked = true; generation = generation };
      kept = [];
      registry = r';
    }) in
    let rec' = record (s.rec) { jobs = s.kept } in (rec', store agg rec' s.registry)

-- The unexported `park`.
pub park_record : Registry → String → Option Error → Record × Registry
unfolding record_of impose
park_record r agg cause =
    let (rec, r') = record_of r agg in
    let rec' = record rec { cause = first_cause rec.cause cause } in
    if rec.parked then (rec', store agg rec' r') else impose agg rec' r'

abbrev pub record_versions : List ℕ → Record → Record
record_versions [] rec = rec
record_versions (v ∷ vs) rec =
    record_versions vs (record rec { undelivered = Dict.put rec.undelivered v parked_error })

pub park : Registry → String → Option Error → List ℕ → Registry
unfolding park_record
park r agg cause undelivered =
    let (rec, r') = park_record r agg cause in store agg (record_versions undelivered rec) r'

pub park_if_current : Registry → String → ℕ → Bool → Option Error → Bool × Registry
unfolding park_record
park_if_current r agg halt durable cause =
    if not durable
    then (false, r)
    else if contains halt r.closed_halts
    then (false, r)
    else (true, (park_record r agg cause).1)

pub settle_if_parked : Registry → String → ℕ → Job → Bool × Registry
settle_if_parked r agg halt job =
    let current = Dict.get r.records agg in
    if is_parked current
    then (
      true,
      elim current [
        | none ↦ r
        | some rec ↦ store agg (recorded job rec) (called (marks_unrun job) r)
      ],
    )
    else if contains halt r.closed_halts
    then (true, called (marks_unrun job) r)
    else (false, r)

-- The unexported `lift`.
pub lift_record : String → Record → Registry → Registry
unfolding discard_if_empty
lift_record agg rec r =
    let rec' = record rec {
      parked = false;
      generation = 0;
      cause = none;
      undelivered = Dict.empty;
      halt = r.next;
    } in
    discard_if_empty agg rec' (store agg rec' (record r { next = r.next + 1 }))

pub lift : Registry → String → ℕ → (Bool × List ℕ) × Registry
unfolding lift_record
lift r agg generation = elim (Dict.get r.records agg) [
  | none ↦ ((false, []), r)
  | some rec ↦
      if rec.parked && rec.generation == generation
      then ((true, sorted_keys rec.undelivered), lift_record agg rec r)
      else ((false, []), r)
]

pub supersede : Registry → String → Registry
unfolding park_record lift_record
supersede r agg = let (rec, r') = park_record r agg none in lift_record agg rec r'

-- models.DeliveryStatus
pub record DeliveryStatus : Type 0 where
  pub parked : Bool
  pub generation : ℕ
  pub cause : Option Error
  pub undelivered : List ℕ

abbrev pub no_status : DeliveryStatus
no_status = record { parked = false; generation = 0; cause = none; undelivered = [] }

abbrev pub status_of : Option Record → DeliveryStatus
status_of none = no_status
status_of (some rec) =
    if rec.parked
    then record {
      parked = true;
      generation = rec.generation;
      cause = rec.cause;
      undelivered = sorted_keys rec.undelivered;
    }
    else no_status

pub inspect : Registry → String → DeliveryStatus
inspect r agg = status_of (Dict.get r.records agg)

pub unrun : Registry → String → ℕ → Option Error
unrun r agg version = elim (Dict.get r.records agg) [
  | none ↦ none
  | some rec ↦ Dict.get rec.undelivered version
]

abbrev add_park : String → Option Record → Dict String ℕ → Dict String ℕ
add_park agg none parks = parks
add_park agg (some rec) parks = if rec.parked then Dict.put parks agg rec.generation else parks

parks_of : List String → Registry → Dict String ℕ
parks_of [] r = Dict.empty
parks_of (agg ∷ aggs) r = add_park agg (Dict.get r.records agg) (parks_of aggs r)

pub parks : Registry → Dict String ℕ
unfolding parks_of
parks r = parks_of (Dict.keys r.records) r

pub close : Registry → Bool × Registry
close r = (not r.closed, record r { closed = true })
