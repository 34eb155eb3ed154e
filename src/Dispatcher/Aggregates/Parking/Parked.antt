-- ===== src/Dispatcher/Aggregates/Parking/Parked.antt =====
-- What `Park` does to what callers see of an aggregate.
use asynx.Base.Dict
use asynx.Base.{
  ℕ, List, String, ◌≡◌, Option, if◌then◌else◌, contains, arith, true, false, nat_eq, some, ◌+◌, ◌%◌,
  refl, ◌^◌, not, ◌&&◌, string_eq, ◌||◌, ==_refl, ap, ◌∙◌, Bool, sym, ◌++◌,
}
use asynx.Dispatcher.Aggregates.{
  Registry, record_of, Record, Error, parked_error, sorted_keys, store,
}
use asynx.Dispatcher.Aggregates.Parking.{
  inspect, unrun, record_versions, status_of, first_cause, park_record, park,
}
use asynx.Dispatcher.Aggregates.Parking.Tables.{queue, OthersKept}
use asynx.Dispatcher.Aggregates.Parking.Invariant.{IsValid}
use asynx.Dispatcher.Aggregates.Parking.Sweeping.{versions, held, live}
use asynx.Base.Dict.Sorted.{Ascends, sorted_keys-Ascends}
use asynx.Dispatcher.Aggregates.Parking.Lifting.{park_record-Parks}
use mathlib.Core.Path.{subst}
use asynx.Dispatcher.Aggregates.Parking.Recording.{
  Shows, Became, record_of-Shows, record_versions-get, record_versions-rest, park_record-Became,
  park_record-calls, told,
}

-- What callers see of the aggregate after a record of it was stored.
seen :
    (r : Registry) (agg : String) (rec : Record)
    → Dict.get r.records agg ≡ some rec
    → rec.parked ≡ true
    → (inspect r agg ≡ record {
      parked = true;
      generation = rec.generation;
      cause = rec.cause;
      undelivered = sorted_keys rec.undelivered;
    })
      × ((v : ℕ) → unrun r agg v ≡ Dict.get rec.undelivered v)
      × (queue r agg ≡ rec.jobs)
unfolding inspect unrun
seen r agg rec there p = (rw there (status p), λ v. rw (unrun, there) refl, rw there refl)
  where
    status :
        rec.parked ≡ true
        → status_of (some rec) ≡ record {
          parked = true;
          generation = rec.generation;
          cause = rec.cause;
          undelivered = sorted_keys rec.undelivered;
        }
    status p = ground (arith, p)

abbrev pub ParkTable : Registry → String → Option Error → List ℕ → Registry → Type 0
ParkTable r agg cause vs r' =
    let st = inspect r agg in
    let st' = inspect r' agg in
    (st'.parked ≡ true)
    × (st'.generation ≡ (if st.parked then st.generation else (r.generation + 1) % 2 ^ 64))
    × (st'.cause ≡ first_cause st.cause cause)
    × ((v : ℕ)
        → unrun r' agg v ≡ (
            if contains v vs || (not st.parked && contains v (versions (held (queue r agg))))
            then some parked_error
            else unrun r agg v))
    × (queue r' agg ≡ (if st.parked then queue r agg else live (queue r agg)))
    × OthersKept r r' agg
    × Ascends 0 st'.undelivered
    × (r'.calls ≡ r.calls ++ told st.parked (queue r agg))

either {ℓ} :
    {A : Type ℓ} (b b' : Bool) {x x' y y' : A}
    → b ≡ b'
    → x ≡ x'
    → y ≡ y'
    → (if b then x else y) ≡ (if b' then x' else y')
either b b' e k k' = rw (e, k, k') refl

first_or {ℓ} :
    {A : Type ℓ} (a b : Bool) (x y : A)
    → (if a then x else if b then x else y) ≡ (if a || b then x else y)
first_or true b x y = refl
first_or false b x y = refl

-- The table, from the record before and the record that the unexported `park` left.
park-table :
    (r r' : Registry) (agg : String) (cause : Option Error) (vs : List ℕ) (before rec : Record)
    → Shows r agg before
    → Became r before rec cause
    → OthersKept r r' agg
    → r'.calls ≡ r.calls ++ told before.parked before.jobs
    → ParkTable r agg cause vs (store agg (record_versions vs rec) r')
park-table r r' agg cause vs before rec s h others calls =
    let after = record_versions vs rec in
    let rest = record_versions-rest vs rec in
    let there : Dict.get (Dict.put r'.records agg after) agg ≡ some after =
      ground (arith, Dict.get-put r'.records agg agg after, ==_refl agg) in
    let see = seen (store agg after r') agg after there (ap (λ x. x.parked) rest ∙ h.parked) in
    let same : before.parked ≡ (inspect r agg).parked = s.parked in
    (
      ap (λ x. x.parked) see.0,
      ap (λ x. x.generation) see.0
          ∙ ap (λ x. x.generation) rest
          ∙ h.generation
          ∙ either before.parked (inspect r agg).parked s.parked s.generation refl,
      ap (λ x. x.cause) see.0
          ∙ ap (λ x. x.cause) rest
          ∙ h.cause'
          ∙ ap (λ x. first_cause x cause) s.cause,
      λ v. see.1 v ∙ record_versions-get vs rec v ∙ undelivered v,
      see.2 ∙ ap (λ x. x.jobs) rest ∙ h.jobs ∙ jobs,
      λ j d. ground (arith, Dict.get-put r'.records agg j after, d) ∙ others j d,
      subst (λ x. Ascends 0 x.undelivered) (sym see.0) (sorted_keys-Ascends after.undelivered),
      calls
          ∙ ap (λ cs. r.calls ++ cs)
              (ap (λ b. told b before.jobs) s.parked ∙ ap (told (inspect r agg).parked) s.jobs),
    )
  where
    jobs :
        (if before.parked then before.jobs else live before.jobs)
        ≡ (if (inspect r agg).parked then queue r agg else live (queue r agg))
    jobs = either before.parked (inspect r agg).parked s.parked s.jobs (ap live s.jobs)

    undelivered :
        (v : ℕ)
        → (if contains v vs then some parked_error else Dict.get rec.undelivered v) ≡ (
            if contains v vs
              || (not (inspect r agg).parked && contains v (versions (held (queue r agg))))
            then some parked_error
            else unrun r agg v)
    undelivered v =
        let dropped : not before.parked && contains v (versions (held before.jobs))
            ≡ (not (inspect r agg).parked && contains v (versions (held (queue r agg)))) =
          ap (λ z. not z && contains v (versions (held before.jobs))) s.parked
          ∙ ap (λ z. not (inspect r agg).parked && contains v (versions (held z))) s.jobs in
        ap (λ z. if contains v vs then some parked_error else z)
          (h.undelivered v ∙ either _ _ dropped refl (s.undelivered v))
        ∙ first_or (contains v vs) _ (some parked_error) (unrun r agg v)

-- Park leaves the aggregate parked. A park that was there keeps its generation and its queue; a new
-- one takes the next generation of a uint64 and drops the durable jobs from the queue, so that the
-- live ones stay in order. The cause is the first that is not nil. The versions left undelivered
-- are those from before, those given and those of the dropped jobs, listed in ascending order. The
-- other aggregates stay as they are. Each dropped job is settled and then completed, in the order of
-- the queue, and no other job or hook is called.
pub park_lem :
    (r : Registry) (agg : String) (cause : Option Error) (vs : List ℕ)
    → IsValid r
    → ParkTable r agg cause vs (park r agg cause vs)
unfolding park
park_lem r agg cause vs v =
    let q = park_record r agg cause in
    let w = (park_record-Parks r agg cause v).writes in
    park-table r (q.1) agg cause vs ((record_of r agg).0) (q.0) (record_of-Shows r agg v)
      (park_record-Became r agg cause) (λ j d. ground (arith, w.written j, d))
      (park_record-calls r agg cause)
