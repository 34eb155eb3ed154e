-- ===== src/Dispatcher/Aggregates/Parking/Invariant.antt =====
-- The invariant of the registry, and how a method that writes one record keeps it.
use asynx.Base.Dict
use asynx.Dispatcher.Aggregates.{Registry, new, ℕ, String, Hooks, List, Record, Option}
use asynx.Base.{
  ◌≡◌, ◌==◌, false, some, arith, if◌then◌else◌, none, ◌≤◌, ◌⊎◌, ==_refl, inl, contains, true, ◌<◌,
  string_eq, Bool-cases, All, inr, ◌∙◌, nat_eq, is_empty, sym, ◌||◌, refl, ◌≢◌,
}
use mathlib.Core.Path.{subst}

pub record RecordValid (next : ℕ) (closed_halts : List ℕ) (rec : Record) : Type 0 where
  -- A record that is not parked carries nothing of a park.
  pub running :
      rec.parked ≡ false
      → (rec.generation ≡ 0) × (rec.cause ≡ none) × ((v : ℕ) → Dict.get rec.undelivered v ≡ none)
  -- No durable job waits in the queue of a parked aggregate.
  pub held_back : rec.parked ≡ true → All (λ j. j.acked ≡ false) rec.jobs
  -- Queued jobs have a worker.
  pub served : is_empty rec.jobs ≡ false → rec.worker ≡ true
  -- The halt channel of a record that is not parked is open, so that a park may close it.
  pub open_halt : rec.parked ≡ false → contains rec.halt closed_halts ≡ false
  pub known : rec.halt < next
  -- No empty record is kept.
  pub kept : (rec.worker || rec.parked) ≡ true

pub record IsValid (r : Registry) : Type 0 where
  pub each :
      (agg : String) (rec : Record)
      → Dict.get r.records agg ≡ some rec
      → RecordValid r.next r.closed_halts rec
  -- No two aggregates share a halt channel.
  pub apart :
      (a b : String) (ra rb : Record)
      → Dict.get r.records a ≡ some ra
      → Dict.get r.records b ≡ some rb
      → ra.halt ≡ rb.halt
      → a ≡ b
  pub unborn : (n : ℕ) → r.next ≤ n → contains n r.closed_halts ≡ false

pub new-IsValid : (hooks : Hooks) → IsValid (new hooks)
unfolding new
new-IsValid hooks = record {
  each = λ agg rec h. cc (h, Dict.get-empty {V = Record} agg);
  apart = λ a b ra rb ha hb _. cc (ha, Dict.get-empty {V = Record} a);
  unborn = λ n _. refl;
}

-- A halt channel that belongs to the aggregate: its record's, or one given out since.
abbrev pub Owns : Registry → ℕ → String → ℕ → Type 0
Owns r next agg h =
    ((rec : Record) × (Dict.get r.records agg ≡ some rec) × (rec.halt ≡ h))
    ⊎ ((r.next ≤ h) × (h < next))

-- A method that changes no record but one aggregate's, and closes no channel but its own.
pub record Writes (r r' : Registry) (agg : String) (o : Option Record) : Type 0 where
  pub written :
      (j : String) → Dict.get r'.records j ≡ (if agg == j then o else Dict.get r.records j)
  pub grown : r.next ≤ r'.next
  pub stays_closed : (h : ℕ) → contains h r.closed_halts ≡ true → contains h r'.closed_halts ≡ true
  pub closed_own :
      (h : ℕ)
      → contains h r'.closed_halts ≡ true
      → (contains h r.closed_halts ≡ true) ⊎ Owns r r'.next agg h
  pub valid :
      (rec : Record)
      → o ≡ some rec
      → RecordValid r'.next r'.closed_halts rec × Owns r r'.next agg rec.halt

-- A fact about the one record that may be meant.
pub only : (P : Record → Type 0) {rec : Record} → P rec → (q : Record) → some rec ≡ some q → P q
only P {rec} h q e = let same : rec ≡ q = cc in subst P same h

module _ {r r' : Registry} {agg : String} {o : Option Record} (v : IsValid r)
    (w : Writes r r' agg o) where
  at_self : Dict.get r'.records agg ≡ o
  at_self = ground (arith, w.written agg, ==_refl agg)

  at_other : (j : String) → (agg == j) ≡ false → Dict.get r'.records j ≡ Dict.get r.records j
  at_other j h = ground (arith, w.written j)

  -- Another aggregate's channel is not the written one's.
  foreign :
      (j : String) (rec : Record)
      → (agg == j) ≡ false
      → Dict.get r.records j ≡ some rec
      → ¬ Owns r r'.next agg rec.halt
  foreign j rec h e (inl (mine, there, same)) =
      let k = v.apart agg j mine rec there e same in cc (h, (string_eq.beq_iff agg j).1 k)
  foreign j rec h e (inr (young, _)) = let k = (v.each j rec e).known in omega arith

  closed_same :
      (j : String) (rec : Record)
      → (agg == j) ≡ false
      → Dict.get r.records j ≡ some rec
      → contains rec.halt r'.closed_halts ≡ contains rec.halt r.closed_halts
  closed_same j rec h e = elim (Bool-cases (contains rec.halt r'.closed_halts)) [
    | inl c ↦ elim (w.closed_own rec.halt c) [
      | inl old ↦ c ∙ sym old
      | inr own ↦ absurd (foreign j rec h e own)
    ]
    | inr open' ↦ elim (Bool-cases (contains rec.halt r.closed_halts)) [
      | inl c ↦ cc (w.stays_closed rec.halt c)
      | inr still ↦ open' ∙ sym still
    ]
  ]

  written_self :
      (j : String) (rec : Record)
      → (agg == j) ≡ true
      → Dict.get r'.records j ≡ some rec
      → o ≡ some rec
  written_self j rec s e = ground (arith, w.written j)

  written_other :
      (j : String) (rec : Record)
      → (agg == j) ≡ false
      → Dict.get r'.records j ≡ some rec
      → Dict.get r.records j ≡ some rec
  written_other j rec d e = ground (arith, w.written j)

  each' :
      (j : String) (rec : Record)
      → Dict.get r'.records j ≡ some rec
      → RecordValid r'.next r'.closed_halts rec
  each' j rec e = elim (Bool-cases (agg == j)) [
    | inl s ↦ (w.valid rec (written_self j rec s e)).0
    | inr d ↦
        let e' = written_other j rec d e in
        let k = v.each j rec e' in
        record {
          running = k.running;
          held_back = k.held_back;
          served = k.served;
          open_halt = λ p. closed_same j rec d e' ∙ k.open_halt p;
          known = omega (arith, k.known, w.grown);
          kept = k.kept;
        }
  ]

  apart_mine :
      (a b : String) (ra rb : Record)
      → (agg == a) ≡ true
      → (agg == b) ≡ false
      → Dict.get r'.records a ≡ some ra
      → Dict.get r'.records b ≡ some rb
      → ra.halt ≢ rb.halt
  apart_mine a b ra rb s d ea eb same =
      foreign b rb d (written_other b rb d eb)
        (subst (Owns r r'.next agg) same (w.valid ra (written_self a ra s ea)).1)

  apart' :
      (a b : String) (ra rb : Record)
      → Dict.get r'.records a ≡ some ra
      → Dict.get r'.records b ≡ some rb
      → ra.halt ≡ rb.halt
      → a ≡ b
  apart' a b ra rb ea eb same = elim (Bool-cases (agg == a)) [
    | inl sa ↦ elim (Bool-cases (agg == b)) [
      | inl sb ↦ sym ((string_eq.beq_iff agg a).0 sa) ∙ (string_eq.beq_iff agg b).0 sb
      | inr db ↦ absurd (apart_mine a b ra rb sa db ea eb same)
    ]
    | inr da ↦ elim (Bool-cases (agg == b)) [
      | inl sb ↦ absurd (apart_mine b a rb ra sb da eb ea (sym same))
      | inr db ↦ v.apart a b ra rb (written_other a ra da ea) (written_other b rb db eb) same
    ]
  ]

  unborn' : (n : ℕ) → r'.next ≤ n → contains n r'.closed_halts ≡ false
  unborn' n h = elim (Bool-cases (contains n r'.closed_halts)) [
    | inr open' ↦ open'
    | inl c ↦ elim (w.closed_own n c) [
      | inl old ↦ cc (old, v.unborn n (omega (arith, w.grown)))
      | inr (inl (rec, e, s)) ↦ absurd (omega (arith, (v.each agg rec e).known, w.grown))
      | inr (inr (_, young)) ↦ absurd (omega arith)
    ]
  ]

  pub Writes-IsValid : IsValid r'
  Writes-IsValid = record { each = each'; apart = apart'; unborn = unborn' }
