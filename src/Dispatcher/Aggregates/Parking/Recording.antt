-- ===== src/Dispatcher/Aggregates/Parking/Recording.antt =====
-- What the unexported `park` makes of the record of an aggregate.
use asynx.Base.Dict
use asynx.Dispatcher.Aggregates.Records.{Call}
use asynx.Base.{
  ℕ, List, String, ◌≡◌, Option, ◌∷◌, if◌then◌else◌, contains, arith, true, false, nat_eq, some, ◌+◌,
  none, [], ◌%◌, Option-cases, refl, ◌^◌, inl, not, inr, ◌&&◌, string_eq, if_cases, ap, ◌∙◌, Bool,
  sym, ◌++◌,
}
use asynx.Dispatcher.Aggregates.{Registry, record_of, Record, Error, parked_error, Job}
use asynx.Dispatcher.Aggregates.Parking.{
  impose, inspect, unrun, record_versions, status_of, first_cause, Sweep, park_record,
}
use asynx.Dispatcher.Aggregates.Parking.Tables.{queue}
use asynx.Dispatcher.Aggregates.Parking.Invariant.{IsValid}
use asynx.Dispatcher.Aggregates.Parking.Sweeping.{
  sweep-frame, versions, sweep-undelivered, held, sweep-kept, live, dropping, sweep-calls,
}
use mathlib.Core.List.{append-nil}

-- The record that a park starts from shows what callers see.
pub record Shows (r : Registry) (agg : String) (rec : Record) : Type 0 where
  pub parked : rec.parked ≡ (inspect r agg).parked
  pub generation : rec.generation ≡ (inspect r agg).generation
  pub cause : rec.cause ≡ (inspect r agg).cause
  pub undelivered : (v : ℕ) → Dict.get rec.undelivered v ≡ unrun r agg v
  pub jobs : rec.jobs ≡ queue r agg

pub record_of-Shows : (r : Registry) (agg : String) → IsValid r → Shows r agg (record_of r agg).0
unfolding record_of inspect unrun
record_of-Shows r agg v = elim (Option-cases (Dict.get r.records agg)) [
  | inl missing ↦
      rw (missing, record_of)
        (record {
          parked = rw missing refl;
          generation = rw missing refl;
          cause = rw missing refl;
          undelivered = λ k. rw (missing, unrun) (Dict.get-empty k);
          jobs = rw missing refl;
        })
  | inr (rec, there) ↦
      rw (there, record_of)
        (let q = (v.each agg rec there).running in
          record {
            parked = rw there (status-parked rec);
            generation = rw there (status-generation rec (λ p. (q p).0));
            cause = rw there (status-cause rec (λ p. (q p).1));
            undelivered = λ k. rw (there, unrun) refl;
            jobs = rw there refl;
          })
]
  where
    status-parked : (rec : Record) → rec.parked ≡ (status_of (some rec)).parked
    status-parked rec = ground arith

    status-generation :
        (rec : Record)
        → (rec.parked ≡ false → rec.generation ≡ 0)
        → rec.generation ≡ (status_of (some rec)).generation
    status-generation rec h = ground arith

    status-cause :
        (rec : Record)
        → (rec.parked ≡ false → rec.cause ≡ none)
        → rec.cause ≡ (status_of (some rec)).cause
    status-cause rec h = ground arith

pub record_versions-get :
    (vs : List ℕ) (rec : Record) (v : ℕ)
    → Dict.get (record_versions vs rec).undelivered v
      ≡ (if contains v vs then some parked_error else Dict.get rec.undelivered v)
record_versions-get [] rec v = refl
record_versions-get (k ∷ vs) rec v = ground (
  arith,
  record_versions-get vs (record rec { undelivered = Dict.put rec.undelivered k parked_error }) v,
  Dict.get-put rec.undelivered k v parked_error,
)

pub record_versions-rest :
    (vs : List ℕ) (rec : Record)
    → record_versions vs rec ≡ record rec { undelivered = (record_versions vs rec).undelivered }
record_versions-rest [] rec = refl
record_versions-rest (k ∷ vs) rec = ground (
  arith,
  record_versions-rest vs (record rec { undelivered = Dict.put rec.undelivered k parked_error }),
)

-- What `park` makes of the record, in terms of the one before.
pub record Became (r : Registry) (before after : Record) (cause : Option Error) : Type 0 where
  pub parked : after.parked ≡ true
  pub generation :
      after.generation ≡ (if before.parked then before.generation else (r.generation + 1) % 2 ^ 64)
  pub cause' : after.cause ≡ first_cause before.cause cause
  pub undelivered :
      (v : ℕ)
      → Dict.get after.undelivered v ≡ (
          if not before.parked && contains v (versions (held before.jobs))
          then some parked_error
          else Dict.get before.undelivered v)
  pub jobs : after.jobs ≡ (if before.parked then before.jobs else live before.jobs)

impose-Became :
    (rec : Record) (agg : String) (r : Registry) (cause : Option Error)
    → rec.parked ≡ false
    → Became r rec (impose agg (record rec { cause = first_cause rec.cause cause }) r).0 cause
unfolding impose
impose-Became rec agg r cause p =
    let generation : ℕ = (r.generation + 1) % 2 ^ 64 in
    let start : Sweep = record {
      rec = record rec {
        cause = first_cause rec.cause cause;
        parked = true;
        generation = generation;
      };
      kept = [];
      registry = record r { generation = generation; closed_halts = rec.halt ∷ r.closed_halts };
    } in
    let frame = (sweep-frame rec.jobs start).0 in
    record {
      parked = ground (arith, frame);
      generation = ground (arith, frame, p);
      cause' = ground (arith, frame);
      undelivered = λ v. ground (arith, sweep-undelivered rec.jobs start v, p);
      jobs = ground (arith, sweep-kept rec.jobs start, p);
    }

record_of-generation : (r : Registry) (agg : String) → (record_of r agg).1.generation ≡ r.generation
unfolding record_of
record_of-generation r agg = elim (Option-cases (Dict.get r.records agg)) [
  | inl missing ↦ rw (missing, record_of) refl
  | inr (rec, there) ↦ rw (there, record_of) refl
]

pub park_record-Became :
    (r : Registry) (agg : String) (cause : Option Error)
    → Became r (record_of r agg).0 (park_record r agg cause).0 cause
unfolding park_record
park_record-Became r agg cause =
    let q = record_of r agg in
    if_cases {A = Record × Registry} (λ e. Became r q.0 e.0 cause) q.0.parked
      (λ p. record {
        parked = p;
        generation = ground (arith, p);
        cause' = refl;
        undelivered = λ v. ground (arith, p);
        jobs = ground (arith, p);
      })
      (λ p.
        let h = impose-Became (q.0) agg (q.1) cause p in
        record {
          parked = h.parked;
          generation = ground (arith, h.generation, record_of-generation r agg);
          cause' = h.cause';
          undelivered = h.undelivered;
          jobs = h.jobs;
        })

record_of-calls : (r : Registry) (agg : String) → (record_of r agg).1.calls ≡ r.calls
unfolding record_of
record_of-calls r agg = elim (Option-cases (Dict.get r.records agg)) [
  | inl missing ↦ rw (missing, record_of) refl
  | inr (rec, there) ↦ rw (there, record_of) refl
]

impose-calls :
    (agg : String) (rec : Record) (r : Registry)
    → (impose agg rec r).1.calls ≡ r.calls ++ dropping (held rec.jobs)
unfolding impose
impose-calls agg rec r =
    let generation : ℕ = (r.generation + 1) % 2 ^ 64 in
    sweep-calls rec.jobs (record {
      rec = record rec { parked = true; generation = generation };
      kept = [];
      registry = record r { generation = generation; closed_halts = rec.halt ∷ r.closed_halts };
    })

-- The calls that a park makes of the jobs of an aggregate.
abbrev pub told : Bool → List Job → List Call
told parked jobs = if parked then [] else dropping (held jobs)

pub park_record-calls :
    (r : Registry) (agg : String) (cause : Option Error)
    → let before = (record_of r agg).0 in
      (park_record r agg cause).1.calls ≡ r.calls ++ told before.parked before.jobs
unfolding park_record
park_record-calls r agg cause =
    let q = record_of r agg in
    told_when q.0.parked q.0.jobs _ _ (record_of-calls r agg ∙ sym (append-nil r.calls)) (
      impose-calls agg (record (q.0) { cause = first_cause q.0.cause cause }) (q.1)
      ∙ ap (λ cs. cs ++ dropping (held q.0.jobs)) (record_of-calls r agg))
  where
    told_when :
        (b : Bool) (jobs : List Job) (x y : Record × Registry)
        → x.1.calls ≡ r.calls ++ []
        → y.1.calls ≡ r.calls ++ dropping (held jobs)
        → (if b then x else y).1.calls ≡ r.calls ++ told b jobs
    told_when true jobs x y h k = h
    told_when false jobs x y h k = k
