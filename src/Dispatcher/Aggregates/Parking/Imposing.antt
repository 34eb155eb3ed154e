-- ===== src/Dispatcher/Aggregates/Parking/Imposing.antt =====
-- Imposing and lifting a park keep the invariant of the registry.
use asynx.Base.Dict
use asynx.Dispatcher.Aggregates.{Registry, record_of, String, Record, fresh, Error, Job, store}
use asynx.Dispatcher.Aggregates.Parking.Invariant.{IsValid, Writes, Owns, only, RecordValid}
use asynx.Base.{
  Option-cases, ◌==◌, some, ◌≡◌, inr, true, false, arith, ◌≤◌, inl, string_eq, none, ℕ, All,
  is_empty, contains, ◌<◌, nat_eq, refl, Option, List, ◌+◌, ==_refl, ◌∷◌, [], ◌%◌, ◌^◌, ◌⊎◌, ap,
  Bool-cases, sym, nat_eqb_iff,
}
use asynx.Dispatcher.Aggregates.Parking.{impose, Sweep, sweep}
use asynx.Dispatcher.Aggregates.Parking.Sweeping.{live, sweep-frame, sweep-kept, live_not_acked}
use mathlib.Core.Path.{subst}

-- What `park` leaves: the record that it stored, parked and without durable jobs.
pub record Parks (r r' : Registry) (agg : String) (rec : Record) : Type 0 where
  pub writes : Writes r r' agg (some rec)
  pub stored : Dict.get r'.records agg ≡ some rec
  pub is_parked : rec.parked ≡ true

-- The record that `recordOf` gives and the park starts from.
pub record Found (r r' : Registry) (agg : String) (rec : Record) : Type 0 where
  pub same : (j : String) → (agg == j) ≡ false → Dict.get r'.records j ≡ Dict.get r.records j
  pub grown : r.next ≤ r'.next
  pub closed : r'.closed_halts ≡ r.closed_halts
  pub owns : Owns r r'.next agg rec.halt
  pub running :
      rec.parked ≡ false
      → (rec.generation ≡ 0) × (rec.cause ≡ none) × ((v : ℕ) → Dict.get rec.undelivered v ≡ none)
  pub held_back : rec.parked ≡ true → All (λ j. j.acked ≡ false) rec.jobs
  pub served : is_empty rec.jobs ≡ false → rec.worker ≡ true
  pub open_halt : rec.parked ≡ false → contains rec.halt r'.closed_halts ≡ false
  pub known : rec.halt < r'.next

pub record_of-Found :
    (r : Registry) (agg : String) → IsValid r → Found r (record_of r agg).1 agg (record_of r agg).0
unfolding record_of
record_of-Found r agg v = elim (Option-cases (Dict.get r.records agg)) [
  | inr (rec, there) ↦
      rw (there, record_of)
        (let k = v.each agg rec there in
          record {
            same = λ j d. refl;
            grown = omega arith;
            closed = refl;
            owns = inl (rec, there, refl);
            running = k.running;
            held_back = k.held_back;
            served = k.served;
            open_halt = k.open_halt;
            known = k.known;
          })
  | inl missing ↦
      rw (missing, record_of)
        (record {
          same = λ j d. ground (arith, Dict.get-put r.records agg j (fresh r.next));
          grown = omega arith;
          closed = refl;
          owns = inr (omega arith, omega arith);
          running = λ _. (refl, refl, λ k. Dict.get-empty k);
          held_back = λ p. cc;
          served = λ p. cc;
          open_halt = λ _. v.unborn r.next (omega arith);
          known = omega arith;
        })
]

module _ {r r₁ : Registry} {agg : String} {rec : Record} (f : Found r r₁ agg rec) where
  pub merged-Parks :
      (cause : Option Error)
      → rec.parked ≡ true
      → Parks r (store agg (record rec { cause = cause }) r₁) agg (record rec { cause = cause })
  merged-Parks cause p = record {
    writes = record {
      written = λ j.
          ground (arith, Dict.get-put r₁.records agg j (record rec { cause = cause }), f.same j);
      grown = f.grown;
      stays_closed = λ h c. rw f.closed c;
      closed_own = λ h c. inl (rw f.closed at c);
      valid =
          only (λ q. RecordValid r₁.next r₁.closed_halts q × Owns r r₁.next agg q.halt)
            (
              record {
                running = λ n. cc (p, n);
                held_back = f.held_back;
                served = f.served;
                open_halt = λ n. cc (p, n);
                known = f.known;
                kept = ground arith;
              },
              f.owns,
            );
    };
    stored =
        ground (arith, Dict.get-put r₁.records agg agg (record rec { cause = cause }), ==_refl agg);
    is_parked = p;
  }

is_empty-live : (js : List Job) → is_empty (live js) ≡ false → is_empty js ≡ false
is_empty-live [] h = h
is_empty-live (j ∷ js) h = refl

module _ {r r₁ : Registry} {agg : String} {rec : Record} (f : Found r r₁ agg rec) where
  -- The one channel that `park` closes is the record's.
  closed_by :
      (h : ℕ) {next : ℕ}
      → contains h (rec.halt ∷ r.closed_halts) ≡ true
      → next ≡ r₁.next
      → (contains h r.closed_halts ≡ true) ⊎ Owns r next agg h
  closed_by h c e = elim (Bool-cases (rec.halt == h)) [
    | inl mine ↦ inr (
        subst (λ k. Owns r k agg h) (sym e)
          (subst (Owns r r₁.next agg) ((nat_eqb_iff rec.halt h).0 mine) f.owns))
    | inr other ↦ inl (ground arith)
  ]

  pub impose-Parks :
      (cause : Option Error)
      → rec.parked ≡ false
      → let q = impose agg (record rec { cause = cause }) r₁ in Parks r q.1 agg q.0
  unfolding impose
  impose-Parks cause p =
      let generation : ℕ = (r₁.generation + 1) % 2 ^ 64 in
      let start : Sweep = record {
        rec = record rec { cause = cause; parked = true; generation = generation };
        kept = [];
        registry = record r₁ { generation = generation; closed_halts = rec.halt ∷ r₁.closed_halts };
      } in
      let s = sweep rec.jobs start in
      let frame = sweep-frame rec.jobs start in
      record {
        writes = record {
          written = λ j. ground (
            arith,
            Dict.get-put s.registry.records agg j (record (s.rec) { jobs = s.kept }),
            f.same j,
            frame.1,
          );
          grown = ground (arith, frame.1, f.grown);
          stays_closed = λ h c. ground (arith, frame.1, f.closed);
          closed_own =
              λ h c. closed_by h (ground (arith, frame.1, f.closed)) (ap (λ x. x.next) frame.1);
          valid =
              only
                (λ q.
                  RecordValid s.registry.next s.registry.closed_halts q
                  × Owns r s.registry.next agg q.halt)
                (
                  record {
                    running = λ n. ground (arith, frame.0);
                    held_back = λ _. rw (sweep-kept rec.jobs start) (live_not_acked rec.jobs);
                    served = λ n. ground (
                      arith,
                      frame.0,
                      f.served,
                      sweep-kept rec.jobs start,
                      is_empty-live rec.jobs,
                    );
                    open_halt = λ n. ground (arith, frame.0);
                    known = ground (arith, frame.0, frame.1, f.known);
                    kept = ground (arith, frame.0);
                  },
                  ground (arith, frame.0, frame.1, f.owns),
                );
        };
        stored = ground (
          arith,
          Dict.get-put s.registry.records agg agg (record (s.rec) { jobs = s.kept }),
          ==_refl agg,
        );
        is_parked = ground (arith, frame.0);
      }
