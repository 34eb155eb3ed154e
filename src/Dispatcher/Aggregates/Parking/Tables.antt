-- ===== src/Dispatcher/Aggregates/Parking/Tables.antt =====
-- What `Lift` and `Park` do to what callers see of an aggregate.
use asynx.Base.Dict
use asynx.Base.{
  ℕ, Option, String, List, Bool, false, ◌==◌, ◌&&◌, ◌≡◌, none, [], Option-cases, string_eq, some,
  inl, if◌then◌else◌, ◌⊎◌, true, inr, is_empty, nat_eq, refl, ◌||◌, not, arith, if_cases, ==_refl,
  ◌∷◌, sym, ◌+◌,
}
use asynx.Dispatcher.Aggregates.{Registry, Record, discard_if_empty, Job, sorted_keys, Error}
use asynx.Dispatcher.Aggregates.Parking.{lift_record, inspect, lift, unrun, no_status, status_of}
use asynx.Base.Dict.Sorted.{Ascends, sorted_keys-Ascends}
use asynx.Base.Dict.{remove}
use asynx.Dispatcher.Aggregates.Parking.Preserves.{removed}
use mathlib.Core.Path.{subst}

abbrev queue_of : Option Record → List Job
queue_of none = []
queue_of (some rec) = rec.jobs

-- The queue of an aggregate, oldest first.
abbrev pub queue : Registry → String → List Job
queue r agg = queue_of (Dict.get r.records agg)

-- What a call leaves of the other aggregates.
abbrev pub OthersKept : Registry → Registry → String → Type 0
OthersKept r r' agg =
    (j : String) → (agg == j) ≡ false → Dict.get r'.records j ≡ Dict.get r.records j

lift_record-get :
    (agg : String) (rec : Record) (r : Registry) (j : String)
    → let kept = record rec {
      parked = false;
      generation = 0;
      cause = none;
      undelivered = Dict.empty;
      halt = r.next;
    } in
      (Dict.get (lift_record agg rec r).records j
        ≡ (if agg == j then some kept else Dict.get r.records j))
      ⊎ ((Dict.get (lift_record agg rec r).records j
            ≡ (if agg == j then none else Dict.get r.records j))
          × (is_empty rec.jobs ≡ true))
unfolding lift_record discard_if_empty
lift_record-get agg rec r j =
    let kept = record rec {
      parked = false;
      generation = 0;
      cause = none;
      undelivered = Dict.empty;
      halt = r.next;
    } in
    if_cases {A = Registry}
      (λ q.
        (Dict.get q.records j ≡ (if agg == j then some kept else Dict.get r.records j))
        ⊎ ((Dict.get q.records j ≡ (if agg == j then none else Dict.get r.records j))
            × (is_empty rec.jobs ≡ true)))
      (rec.worker
        || not (is_empty rec.jobs)
        || (false || not (is_empty (sorted_keys (Dict.empty {K = ℕ} {V = Error})))))
      (λ _. inl (Dict.get-put r.records agg j kept))
      (λ idle. inr (removed r agg kept j, empty_queue rec.worker (is_empty rec.jobs) _ idle))
  where
    empty_queue : (a b d : Bool) → a || not b || d ≡ false → b ≡ true
    empty_queue a b d h = ground arith

abbrev pub LiftTable : Registry → String → Bool → (Bool × List ℕ) × Registry → Type 0
LiftTable r agg taken q =
    let st = inspect r agg in
    (q.0.0 ≡ taken)
    × (q.0.1 ≡ (if taken then st.undelivered else []))
    × (inspect q.1 agg ≡ (if taken then no_status else st))
    × ((v : ℕ) → unrun q.1 agg v ≡ (if taken then none else unrun r agg v))
    × (queue q.1 agg ≡ queue r agg)
    × OthersKept r q.1 agg
    × Ascends 0 q.0.1
    × (q.1 ≡ (if taken then record r { records = q.1.records; next = r.next + 1 } else r))

lift-none : (r : Registry) (agg : String) → LiftTable r agg false ((false, []), r)
lift-none r agg = (refl, refl, refl, λ v. refl, refl, λ j d. refl, tt, refl)

lift_record_self :
    (agg : String) (rec : Record) (r : Registry)
    → let kept = record rec {
      parked = false;
      generation = 0;
      cause = none;
      undelivered = Dict.empty;
      halt = r.next;
    } in
      (Dict.get (lift_record agg rec r).records agg ≡ some kept)
      ⊎ ((Dict.get (lift_record agg rec r).records agg ≡ none) × (is_empty rec.jobs ≡ true))
lift_record_self agg rec r = elim (lift_record-get agg rec r agg) [
  | inl h ↦ inl (ground (arith, h, ==_refl agg))
  | inr (h, idle) ↦ inr (ground (arith, h, ==_refl agg), idle)
]

queue_of-idle : (rec : Record) → is_empty rec.jobs ≡ true → [] ≡ rec.jobs
queue_of-idle rec h = go rec.jobs h
  where
    go : (js : List Job) → is_empty js ≡ true → [] ≡ js
    go [] h = refl
    go (j ∷ js) h = cc h

-- A lift writes the record and gives the aggregate a halt channel that is new.
lift_record-rest :
    (agg : String) (rec : Record) (r : Registry)
    → let r' = lift_record agg rec r in r' ≡ record r { records = r'.records; next = r.next + 1 }
unfolding lift_record discard_if_empty
lift_record-rest agg rec r =
    if_cases {A = Registry} (λ r'. r' ≡ record r { records = r'.records; next = r.next + 1 })
      (rec.worker
        || not (is_empty rec.jobs)
        || (false || not (is_empty (sorted_keys (Dict.empty {K = ℕ} {V = Error})))))
      (λ _. refl) (λ _. refl)

lift-found :
    (r : Registry) (agg : String) (rec : Record)
    → Dict.get r.records agg ≡ some rec
    → rec.parked ≡ true
    → LiftTable r agg true ((true, sorted_keys rec.undelivered), lift_record agg rec r)
unfolding inspect unrun
lift-found r agg rec there p = (
  refl,
  rw there (ground (arith, p)),
  elim (lift_record_self agg rec r) [ inl e ↦ rw e refl | inr (e, _) ↦ rw e refl ],
  λ v. elim (lift_record_self agg rec r) [
    | inl e ↦ rw (unrun, e) (Dict.get-empty v)
    | inr (e, _) ↦ rw (unrun, e) refl
  ],
  elim (lift_record_self agg rec r) [
    | inl e ↦ rw (e, there) refl
    | inr (e, idle) ↦ rw (e, there) (queue_of-idle rec idle)
  ],
  λ j d. elim (lift_record-get agg rec r j) [
    | inl h ↦ ground (arith, h, d)
    | inr (h, _) ↦ ground (arith, h, d)
  ],
  sorted_keys-Ascends rec.undelivered,
  lift_record-rest agg rec r,
)

lift-either :
    (r : Registry) (agg : String) (rec : Record) (generation : ℕ)
    → Dict.get r.records agg ≡ some rec
    → let taken = rec.parked && rec.generation == generation in
      LiftTable r agg taken (
        if taken
        then ((true, sorted_keys rec.undelivered), lift_record agg rec r)
        else ((false, []), r))
lift-either r agg rec generation there = go (rec.parked && rec.generation == generation) refl
  where
    go :
        (b : Bool)
        → (rec.parked && rec.generation == generation) ≡ b
        → LiftTable r agg b (
            if b
            then ((true, sorted_keys rec.undelivered), lift_record agg rec r)
            else ((false, []), r))
    go true h = lift-found r agg rec there (ground arith)
    go false h = lift-none r agg

taken-same :
    (rec : Record) (generation : ℕ)
    → (status_of (some rec)).parked && (status_of (some rec)).generation == generation
      ≡ (rec.parked && rec.generation == generation)
taken-same rec generation = ground arith

-- Lift takes effect exactly if the aggregate is parked under the generation that it was asked for.
-- Then it returns the undelivered versions in ascending order, clears the park, its cause and the
-- undelivered versions, and changes nothing beside the records and the number of the next channel;
-- otherwise it returns nothing and the registry is the same. Either way the queue of the aggregate
-- and the other aggregates stay as they are.
pub lift_lem :
    (r : Registry) (agg : String) (generation : ℕ)
    → let st = inspect r agg in
      LiftTable r agg (st.parked && st.generation == generation) (lift r agg generation)
unfolding lift inspect
lift_lem r agg generation = elim (Option-cases (Dict.get r.records agg)) [
  | inl missing ↦
      let e : lift r agg generation ≡ ((false, []), r) = rw (missing, lift) refl in
      let same : (inspect r agg).parked && (inspect r agg).generation == generation ≡ false =
        rw missing refl in
      subst (λ b. LiftTable r agg b (lift r agg generation)) (sym same)
        (subst (LiftTable r agg false) (sym e) (lift-none r agg))
  | inr (rec, there) ↦
      let taken = rec.parked && rec.generation == generation in
      let e : lift r agg generation ≡ (
          if taken
          then ((true, sorted_keys rec.undelivered), lift_record agg rec r)
          else ((false, []), r)) =
        rw (there, lift) refl in
      let same : (inspect r agg).parked && (inspect r agg).generation == generation ≡ taken =
        rw there (taken-same rec generation) in
      subst (λ b. LiftTable r agg b (lift r agg generation)) (sym same)
        (subst (LiftTable r agg taken) (sym e) (lift-either r agg rec generation there))
]
