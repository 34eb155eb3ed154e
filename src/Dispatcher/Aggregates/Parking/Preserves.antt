-- ===== src/Dispatcher/Aggregates/Parking/Preserves.antt =====
-- Every method of the registry keeps its invariant.
use asynx.Base.Dict
use asynx.Dispatcher.Aggregates.{
  Registry, pop, String, Record, List, Job, pop_jobs, Call, signal, admit, recorded, store, called,
  Error, marks_unrun, sorted_keys, discard_if_empty, retire,
}
use asynx.Dispatcher.Aggregates.Parking.Invariant.{IsValid, RecordValid, Writes, Writes-IsValid}
use asynx.Base.{
  ◌≡◌, some, if◌then◌else◌, ◌==◌, arith, inl, string_eq, Option-cases, ℕ, ◌∷◌, inr, true, Option,
  Bool-cases, contains, refl, [], none, nat_eq, if_cases, is_empty, false, is_some, not, ◌||◌, Bool,
}
use asynx.Dispatcher.Aggregates.Parking.{settle_if_parked}
use asynx.Base.Dict.Sorted.{contains-sorted_keys}

-- A write that leaves the channels alone.
pub quiet :
    {r r' : Registry} {agg : String} {rec : Record}
    → Dict.get r.records agg ≡ some rec
    → (rec' : Record)
    → ((j : String)
        → Dict.get r'.records j ≡ (if agg == j then some rec' else Dict.get r.records j))
    → r'.next ≡ r.next
    → r'.closed_halts ≡ r.closed_halts
    → rec'.halt ≡ rec.halt
    → RecordValid r.next r.closed_halts rec'
    → Writes r r' agg (some rec')
quiet {r} {r'} {agg} {rec} e rec' written next closed halt valid = record {
  written = written;
  grown = omega (arith, next);
  stays_closed = λ h c. rw closed c;
  closed_own = λ h c. inl (rw closed at c);
  valid = λ q same. ground arith;
}

pop_jobs-IsValid :
    (r : Registry) (agg : String) (rec : Record) (jobs : List Job)
    → IsValid r
    → Dict.get r.records agg ≡ some rec
    → rec.jobs ≡ jobs
    → IsValid (pop_jobs r agg rec jobs).1
unfolding pop_jobs
pop_jobs-IsValid r agg rec [] v there e = v
pop_jobs-IsValid r agg rec (job ∷ rest) v there e =
    let k = v.each agg rec there in
    Writes-IsValid v (
      quiet there (record rec { jobs = rest }) (λ j. Dict.get-put r.records agg j _) refl refl refl
        (record {
          running = k.running;
          held_back = λ p. ground (arith, k.held_back p);
          served = λ _. ground (arith, k.served);
          open_halt = k.open_halt;
          known = k.known;
          kept = k.kept;
        }))

pub pop-IsValid : (r : Registry) (agg : String) → IsValid r → IsValid (pop r agg).1
unfolding pop
pop-IsValid r agg v = elim (Option-cases (Dict.get r.records agg)) [
  | inl missing ↦ rw (missing, pop) v
  | inr (rec, there) ↦ rw (there, pop) (pop_jobs-IsValid r agg rec rec.jobs v there refl)
]

-- Calls and signals are no part of the invariant.
IsValid-calls : {r : Registry} (cs : List Call) → IsValid r → IsValid (record r { calls = cs })
IsValid-calls cs v = record { each = v.each; apart = v.apart; unborn = v.unborn }

IsValid-signals : {r : Registry} (ss : List ℕ) → IsValid r → IsValid (record r { signals = ss })
IsValid-signals ss v = record { each = v.each; apart = v.apart; unborn = v.unborn }

recorded-RecordValid :
    (n : ℕ) (closed : List ℕ) (rec : Record) (job : Job)
    → rec.parked ≡ true
    → RecordValid n closed rec
    → RecordValid n closed (recorded job rec)
recorded-RecordValid n closed rec job p k = record {
  running = λ q. cc (p, q);
  held_back = k.held_back;
  served = k.served;
  open_halt = k.open_halt;
  known = k.known;
  kept = k.kept;
}

-- A parked aggregate records a job that it does not deliver.
pub record_parked-IsValid :
    (r : Registry) (agg : String) (rec : Record) (job : Job) (cs : List Call)
    → IsValid r
    → Dict.get r.records agg ≡ some rec
    → rec.parked ≡ true
    → IsValid (store agg (recorded job rec) (record r { calls = cs }))
record_parked-IsValid r agg rec job cs v there p = Writes-IsValid v (
    quiet there (recorded job rec) (λ j. Dict.get-put r.records agg j _) refl refl refl
      (recorded-RecordValid r.next r.closed_halts rec job p (v.each agg rec there)))

abbrev pub After {ℓ} : {A : Type ℓ} → A × Registry → Type 0
After q = IsValid q.1

pub settle_if_parked-IsValid :
    (r : Registry) (agg : String) (halt : ℕ) (job : Job)
    → IsValid r
    → IsValid (settle_if_parked r agg halt job).1
unfolding settle_if_parked
settle_if_parked-IsValid r agg halt job v = elim (Option-cases (Dict.get r.records agg)) [
  | inl missing ↦ rw (missing, settle_if_parked) unparked
  | inr (rec, there) ↦
      rw (there, settle_if_parked)
        (if_cases After rec.parked (λ p. record_parked-IsValid r agg rec job _ v there p)
          (λ _. unparked))
]
  where
    unparked :
        After {A = Bool}
          (if contains halt r.closed_halts then (true, called (marks_unrun job) r) else (false, r))
    unparked = if_cases After (contains halt r.closed_halts) (λ _. IsValid-calls _ v) (λ _. v)

pub signal-IsValid : (ch : Option ℕ) (r : Registry) → IsValid r → IsValid (signal ch r)
unfolding signal
signal-IsValid none r v = v
signal-IsValid (some ch) r v =
    if_cases IsValid (contains ch r.signals) (λ _. v) (λ _. IsValid-signals (ch ∷ r.signals) v)

admit-IsValid : (job : Job) (r : Registry) → IsValid r → IsValid (admit job r)
unfolding admit
admit-IsValid job r v = if_cases IsValid r.hooks.admit (λ _. IsValid-calls _ v) (λ _. v)

pub sorted_keys-empty :
    (d : Dict.Dict ℕ Error) → ((k : ℕ) → Dict.get d k ≡ none) → is_empty (sorted_keys d) ≡ true
sorted_keys-empty d h = go (sorted_keys d) (contains-sorted_keys d)
  where
    go : (ks : List ℕ) → ((k : ℕ) → contains k ks ≡ is_some (Dict.get d k)) → is_empty ks ≡ true
    go [] c = refl
    go (k ∷ ks) c = ground (arith, c k, h k)

-- The records after a record was stored and removed again.
pub removed :
    (r : Registry) (agg : String) (rec : Record) (j : String)
    → Dict.get (Dict.remove (Dict.put r.records agg rec) agg) j
      ≡ (if agg == j then none else Dict.get r.records j)
removed r agg rec j =
    ground
      (arith, Dict.get-remove (Dict.put r.records agg rec) agg j, Dict.get-put r.records agg j rec)

retire_found-IsValid :
    (r : Registry) (agg : String) (rec : Record)
    → IsValid r
    → Dict.get r.records agg ≡ some rec
    → is_empty rec.jobs ≡ true
    → let rec' = record rec { worker = false } in
      IsValid (discard_if_empty agg rec' (store agg rec' r))
unfolding discard_if_empty
retire_found-IsValid r agg rec v there idle =
    let k = v.each agg rec there in
    if_cases IsValid _
      (λ busy. Writes-IsValid v (
        quiet there (record rec { worker = false }) (λ j. Dict.get-put r.records agg j _) refl refl
          refl
          (record {
            running = k.running;
            held_back = k.held_back;
            served = λ q. cc (q, idle);
            open_halt = k.open_halt;
            known = k.known;
            kept = parked_by busy (sorted_keys-empty rec.undelivered) k.running;
          })))
      (λ _. Writes-IsValid v (record {
        written = removed r agg _;
        grown = omega arith;
        stays_closed = λ h c. c;
        closed_own = λ h c. inl c;
        valid = λ q e. cc e;
      }))
  where
    parked_by :
        (false
            || not (is_empty rec.jobs)
            || (rec.parked || not (is_empty (sorted_keys rec.undelivered))))
          ≡ true
        → (((k : ℕ) → Dict.get rec.undelivered k ≡ none)
            → is_empty (sorted_keys rec.undelivered) ≡ true)
        → (rec.parked ≡ false
            → (rec.generation ≡ 0)
              × (rec.cause ≡ none)
              × ((k : ℕ) → Dict.get rec.undelivered k ≡ none))
        → (false || rec.parked) ≡ true
    parked_by busy none' running = elim (Bool-cases rec.parked) [
      | inl p ↦ p
      | inr p ↦ ground (arith, none' (running p).2, idle, busy)
    ]

pub retire-IsValid : (r : Registry) (agg : String) → IsValid r → IsValid (retire r agg).1
unfolding retire
retire-IsValid r agg v = elim (Option-cases (Dict.get r.records agg)) [
  | inl missing ↦ rw (missing, retire) v
  | inr (rec, there) ↦
      rw (there, retire)
        (if_cases After (not (is_empty rec.jobs)) (λ _. v)
          (λ idle. retire_found-IsValid r agg rec v there (ground arith)))
]
