-- ===== src/Dispatcher/Aggregates/Parking/Lifting.antt =====
-- Parking and lifting a park keep the invariant of the registry.
use asynx.Base.Dict
use asynx.Dispatcher.Aggregates.Parking.Preserves.{After, sorted_keys-empty}
use asynx.Dispatcher.Aggregates.Parking.Imposing.{
  Parks, record_of-Found, merged-Parks, impose-Parks,
}
use asynx.Base.{
  ◌≡◌, List, ℕ, String, Option, Bool, ◌∷◌, some, Option-cases, none, arith, if_cases, inl, inr, [],
  refl, ◌+◌, nat_eq, string_eq, not, is_empty, ◌||◌, ◌&&◌, contains, false, ◌==◌, true,
}
use asynx.Dispatcher.Aggregates.Parking.{
  park_record, park, park_if_current, lift_record, lift, supersede, Registry, discard_if_empty,
  Record, record_versions, Error, parked_error, record_of, sorted_keys, first_cause,
}
use asynx.Dispatcher.Aggregates.Parking.Invariant.{IsValid, Writes-IsValid, only, RecordValid, Owns}
use asynx.Dispatcher.Aggregates.Parking.Preserves.{quiet, removed}

pub park_record-Parks :
    (r : Registry) (agg : String) (cause : Option Error)
    → IsValid r
    → let q = park_record r agg cause in Parks r q.1 agg q.0
unfolding park_record
park_record-Parks r agg cause v =
    let q = record_of r agg in
    let f = record_of-Found r agg v in
    if_cases {A = Record × Registry} (λ e. Parks r e.1 agg e.0) q.0.parked
      (λ p. merged-Parks f (first_cause q.0.cause cause) p)
      (λ p. impose-Parks f (first_cause q.0.cause cause) p)

record_versions-halt : (vs : List ℕ) (rec : Record) → (record_versions vs rec).halt ≡ rec.halt
record_versions-halt [] rec = refl
record_versions-halt (v ∷ vs) rec =
    record_versions-halt vs (record rec { undelivered = Dict.put rec.undelivered v parked_error })

record_versions-RecordValid :
    (n : ℕ) (closed : List ℕ) (vs : List ℕ) (rec : Record)
    → rec.parked ≡ true
    → RecordValid n closed rec
    → RecordValid n closed (record_versions vs rec)
record_versions-RecordValid n closed [] rec p k = k
record_versions-RecordValid n closed (v ∷ vs) rec p k =
    record_versions-RecordValid n closed vs
      (record rec { undelivered = Dict.put rec.undelivered v parked_error }) p
      (record {
        running = λ q. cc (p, q);
        held_back = k.held_back;
        served = k.served;
        open_halt = k.open_halt;
        known = k.known;
        kept = k.kept;
      })

pub park-IsValid :
    (r : Registry) (agg : String) (cause : Option Error) (vs : List ℕ)
    → IsValid r
    → IsValid (park r agg cause vs)
unfolding park
park-IsValid r agg cause vs v =
    let q = park_record r agg cause in
    let parks = park_record-Parks r agg cause v in
    let v' = Writes-IsValid v parks.writes in
    Writes-IsValid v' (
      quiet parks.stored (record_versions vs (q.0)) (λ j. Dict.get-put q.1.records agg j _) refl
        refl (record_versions-halt vs (q.0))
        (record_versions-RecordValid q.1.next q.1.closed_halts vs (q.0) parks.is_parked
          (v'.each agg q.0 parks.stored)))

pub park_if_current-IsValid :
    (r : Registry) (agg : String) (halt : ℕ) (durable : Bool) (cause : Option Error)
    → IsValid r
    → IsValid (park_if_current r agg halt durable cause).1
unfolding park_if_current
park_if_current-IsValid r agg halt durable cause v =
    if_cases After (not durable) (λ _. v)
      (λ _.
        if_cases After (contains halt r.closed_halts) (λ _. v)
          (λ _. Writes-IsValid v (park_record-Parks r agg cause v).writes))

-- A record that is kept after its park was lifted has a worker.
lifted_kept :
    (rec : Record)
    → (is_empty rec.jobs ≡ false → rec.worker ≡ true)
    → (rec.worker
        || not (is_empty rec.jobs)
        || (false || not (is_empty (sorted_keys (Dict.empty {K = ℕ} {V = Error})))))
      ≡ true
    → rec.worker || false ≡ true
lifted_kept rec served busy =
    ground (arith, sorted_keys-empty (Dict.empty {V = Error}) (λ j. Dict.get-empty j))

lift_record-IsValid :
    (r : Registry) (agg : String) (rec : Record)
    → IsValid r
    → Dict.get r.records agg ≡ some rec
    → IsValid (lift_record agg rec r)
unfolding lift_record discard_if_empty
lift_record-IsValid r agg rec v there =
    let k = v.each agg rec there in
    if_cases IsValid
      (rec.worker
        || not (is_empty rec.jobs)
        || (false || not (is_empty (sorted_keys (Dict.empty {K = ℕ} {V = Error})))))
      (λ busy. Writes-IsValid v (record {
        written = λ j. Dict.get-put r.records agg j _;
        grown = omega arith;
        stays_closed = λ h c. c;
        closed_own = λ h c. inl c;
        valid =
            only (λ q. RecordValid (r.next + 1) r.closed_halts q × Owns r (r.next + 1) agg q.halt)
              (
                record {
                  running = λ _. (refl, refl, λ j. Dict.get-empty j);
                  held_back = λ n. cc n;
                  served = k.served;
                  open_halt = λ _. v.unborn r.next (omega arith);
                  known = omega arith;
                  kept = lifted_kept rec k.served busy;
                },
                inr (omega arith, omega arith),
              );
      }))
      (λ _. Writes-IsValid v (record {
        written = removed r agg _;
        grown = omega arith;
        stays_closed = λ h c. c;
        closed_own = λ h c. inl c;
        valid = λ q e. cc e;
      }))

pub lift-IsValid :
    (r : Registry) (agg : String) (generation : ℕ) → IsValid r → IsValid (lift r agg generation).1
unfolding lift
lift-IsValid r agg generation v = elim (Option-cases (Dict.get r.records agg)) [
  | inl missing ↦ rw (missing, lift) v
  | inr (rec, there) ↦
      rw (there, lift)
        (if_cases After (rec.parked && rec.generation == generation)
          (λ _. lift_record-IsValid r agg rec v there) (λ _. v))
]

pub supersede-IsValid : (r : Registry) (agg : String) → IsValid r → IsValid (supersede r agg)
unfolding supersede
supersede-IsValid r agg v =
    let parks = park_record-Parks r agg none v in
    lift_record-IsValid _ agg _ (Writes-IsValid v parks.writes) parks.stored
