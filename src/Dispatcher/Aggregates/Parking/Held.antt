-- ===== src/Dispatcher/Aggregates/Parking/Held.antt =====
-- A job that its worker gives up leaves its aggregate held back.
use asynx.Base.Dict
use asynx.Dispatcher.Aggregates.Parking.{
  impose, park_record, park_if_current, settle_if_parked, String, Registry, ℕ, Record, Option,
  is_parked, Error, Job, true, record_of, first_cause, Sweep, sweep, recorded,
}
use asynx.Base.{
  ◌≡◌, ◌⊎◌, Bool-cases, ◌+◌, contains, ◌%◌, if_cases, inl, string_eq, ◌^◌, arith, inr, nat_eq, [],
  ==_refl, ◌∷◌, Option-cases,
}
use asynx.Dispatcher.Aggregates.Parking.Sweeping.{sweep-frame}

-- The aggregate is parked, or its halt channel was closed: it was parked and lifted meanwhile.
abbrev pub HeldBack : String → ℕ → Registry → Type 0
HeldBack agg halt r =
    (is_parked (Dict.get r.records agg) ≡ true) ⊎ (contains halt r.closed_halts ≡ true)

impose-parked :
    (agg : String) (rec : Record) (r : Registry)
    → is_parked (Dict.get (impose agg rec r).1.records agg) ≡ true
unfolding impose
impose-parked agg rec r =
    let generation : ℕ = (r.generation + 1) % 2 ^ 64 in
    let start : Sweep = record {
      rec = record rec { parked = true; generation = generation };
      kept = [];
      registry = record r { generation = generation; closed_halts = rec.halt ∷ r.closed_halts };
    } in
    let s = sweep rec.jobs start in
    ground (
      arith,
      (sweep-frame rec.jobs start).0,
      Dict.get-put s.registry.records agg agg (record (s.rec) { jobs = s.kept }),
      ==_refl agg,
    )

park_record-parked :
    (r : Registry) (agg : String) (cause : Option Error)
    → is_parked (Dict.get (park_record r agg cause).1.records agg) ≡ true
unfolding park_record
park_record-parked r agg cause =
    let q = record_of r agg in
    let rec = record (q.0) { cause = first_cause q.0.cause cause } in
    if_cases {A = Record × Registry} (λ e. is_parked (Dict.get e.1.records agg) ≡ true) q.0.parked
      (λ p. ground (arith, p, Dict.get-put q.1.records agg agg rec, ==_refl agg))
      (λ p. impose-parked agg rec q.1)

pub park_if_current-HeldBack :
    (r : Registry) (agg : String) (halt : ℕ) (cause : Option Error)
    → HeldBack agg halt (park_if_current r agg halt true cause).1
unfolding park_if_current
park_if_current-HeldBack r agg halt cause = elim (Bool-cases (contains halt r.closed_halts)) [
  | inl closed ↦ inr (rw closed closed)
  | inr open' ↦ inl (rw open' (park_record-parked r agg cause))
]

pub settle_if_parked-HeldBack :
    (r : Registry) (agg : String) (halt : ℕ) (job : Job)
    → (settle_if_parked r agg halt job).0 ≡ true
    → HeldBack agg halt (settle_if_parked r agg halt job).1
unfolding settle_if_parked
settle_if_parked-HeldBack r agg halt job h = elim (Option-cases (Dict.get r.records agg)) [
  | inl missing ↦ elim (Bool-cases (contains halt r.closed_halts)) [
    | inl closed ↦ inr (rw (missing, closed) closed)
    | inr open' ↦ absurd (ground (arith, missing, open', h))
  ]
  | inr (rec, there) ↦ elim (Bool-cases rec.parked) [
    | inl parked ↦ inl (
        ground
          (arith, there, parked, Dict.get-put r.records agg agg (recorded job rec), ==_refl agg))
    | inr runs ↦ elim (Bool-cases (contains halt r.closed_halts)) [
      | inl closed ↦ inr (rw (there, runs, closed) closed)
      | inr open' ↦ absurd (ground (arith, there, runs, open', h))
    ]
  ]
]
