-- ===== src/Processor/Recovery/Gathering.antt =====
-- What the scan of the delivery log gathers, and that it ends.
use asynx.Base.Dict
use asynx.Base.Dict.{Dict}
use asynx.Processor.Recovery.{List, String, Delivery, is_some, Error}
use asynx.Processor.Recovery.Scanning.{
  unseen_of, Backlogs, delivery_eq, delivery_eqb_iff, collect, backlog_of,
}
use asynx.Base.{
  none, [], arith, ◌≡◌, ◌∷◌, if_cases, ◌||◌, contains, ◌&&◌, not, Distinct, refl, string_eq,
  ==_refl, true, ap, Bool, ◌==◌, Option, Bool-cases, inr, inl, if◌then◌else◌, Option-cases, ◌++◌,
  false, contains-append, Distinct-snoc,
}
use asynx.Models.Records.{delivery_eqb}

-- The unseen ones of a read, and what is seen after it.
pub record Unseen (pending : List Delivery) (seen : Dict Delivery (Unit {0}))
    (q : List Delivery × Dict Delivery (Unit {0})) : Type 0 where
  pub marked :
      (d : Delivery) → is_some (Dict.get q.1 d) ≡ (is_some (Dict.get seen d) || contains d pending)
  pub fresh :
      (d : Delivery) → contains d q.0 ≡ (contains d pending && not (is_some (Dict.get seen d)))
  pub once : Distinct q.0

seen_alike :
    (seen : Dict Delivery (Unit {0})) (x d : Delivery)
    → delivery_eqb x d ≡ true
    → is_some (Dict.get seen x) ≡ is_some (Dict.get seen d)
seen_alike seen x d h = ap (λ z. is_some (Dict.get seen z)) ((delivery_eqb_iff x d).0 h)

pub unseen_of-Unseen :
    (pending : List Delivery) (seen : Dict Delivery (Unit {0}))
    → Unseen pending seen (unseen_of pending seen)
unfolding unseen_of
unseen_of-Unseen [] seen = record { marked = λ d. ground arith; fresh = λ d. refl; once = tt }
unseen_of-Unseen (x ∷ pending) seen =
    let p = unseen_of-Unseen pending (Dict.put seen x tt) in
    let q = unseen_of pending (Dict.put seen x tt) in
    record {
      marked = λ d.
          if_cases {A = List Delivery × Dict Delivery (Unit {0})}
            (λ s.
              is_some (Dict.get s.1 d) ≡ (is_some (Dict.get seen d) || contains d (x ∷ pending)))
            (is_some (Dict.get seen x))
            (λ h. ground (arith, h, p.marked d, Dict.get-put seen x d tt))
            (λ h. ground (arith, h, p.marked d, Dict.get-put seen x d tt));
      fresh = λ d.
          if_cases {A = List Delivery × Dict Delivery (Unit {0})}
            (λ s. contains d s.0 ≡ (contains d (x ∷ pending) && not (is_some (Dict.get seen d))))
            (is_some (Dict.get seen x))
            (λ h. ground (arith, h, p.fresh d, Dict.get-put seen x d tt, seen_alike seen x d))
            (λ h. ground (arith, h, p.fresh d, Dict.get-put seen x d tt, seen_alike seen x d));
      once =
          if_cases {A = List Delivery × Dict Delivery (Unit {0})} (λ s. Distinct s.0)
            (is_some (Dict.get seen x)) (λ h. p.once)
            (λ h. (ground (arith, p.fresh x, Dict.get-put seen x x tt, ==_refl x), p.once));
    }

-- The backlogs after some visits: `visited` says which deliveries, and what is wanted of them is
-- there, once and under its aggregate.
pub record Gathered (want : String → Bool) (visited : Delivery → Bool) (g : Backlogs) : Type 0 where
  pub holds :
      (d : Delivery)
      → want d.aggregate_id ≡ true
      → contains d (backlog_of g d.aggregate_id) ≡ visited d
  pub own :
      (agg : String) (d : Delivery)
      → contains d (backlog_of g agg) ≡ true
      → ((d.aggregate_id == agg) ≡ true) × (want agg ≡ true)
  pub once : (agg : String) → Distinct (backlog_of g agg)
  pub listed : (agg : String) → contains agg g.order ≡ is_some (Dict.get g.backlogs agg)
  pub listed_once : Distinct g.order

-- What a visit does to each part.
pub record Collected (want : String → Bool) (x : Delivery) (g : Backlogs)
    (q : Option Error × Backlogs) : Type 0 where
  pub fine : q.0 ≡ none
  backlog :
      (agg : String)
      → backlog_of q.1 agg ≡ (
          if want x.aggregate_id && x.aggregate_id == agg
          then backlog_of g agg ++ x ∷ []
          else backlog_of g agg)
  known :
      (agg : String)
      → is_some (Dict.get q.1.backlogs agg)
        ≡ (is_some (Dict.get g.backlogs agg) || (want x.aggregate_id && x.aggregate_id == agg))
  order : q.1.order ≡ (
      if want x.aggregate_id && not (is_some (Dict.get g.backlogs x.aggregate_id))
      then g.order ++ x.aggregate_id ∷ []
      else g.order)

pub collect-Collected :
    (want : String → Bool) (x : Delivery) (g : Backlogs) → Collected want x g (collect want x g)
unfolding collect
collect-Collected want x g = elim (Bool-cases (want x.aggregate_id)) [
  | inr unwanted ↦ record {
    fine = ground (arith, unwanted);
    backlog = λ agg. ground (arith, unwanted);
    known = λ agg. ground (arith, unwanted);
    order = ground (arith, unwanted);
  }
  | inl wanted ↦ elim (Option-cases (Dict.get g.backlogs x.aggregate_id)) [
    | inl first ↦ record {
      fine = ground (arith, wanted, first);
      backlog = λ agg. ground (
        arith,
        wanted,
        first,
        Dict.get-put g.backlogs x.aggregate_id agg (x ∷ []),
        string_eq.beq_iff x.aggregate_id agg,
      );
      known = λ agg. ground (
        arith,
        wanted,
        first,
        Dict.get-put g.backlogs x.aggregate_id agg (x ∷ []),
        string_eq.beq_iff x.aggregate_id agg,
      );
      order = ground (arith, wanted, first);
    }
    | inr (ds, there) ↦ record {
      fine = ground (arith, wanted, there);
      backlog = λ agg. ground (
        arith,
        wanted,
        there,
        Dict.get-put g.backlogs x.aggregate_id agg (ds ++ x ∷ []),
        string_eq.beq_iff x.aggregate_id agg,
      );
      known = λ agg. ground (
        arith,
        wanted,
        there,
        Dict.get-put g.backlogs x.aggregate_id agg (ds ++ x ∷ []),
        string_eq.beq_iff x.aggregate_id agg,
      );
      order = ground (arith, wanted, there);
    }
  ]
]

pub collect-Gathered :
    (want : String → Bool) (visited : Delivery → Bool) (x : Delivery) (g : Backlogs)
    → Gathered want visited g
    → visited x ≡ false
    → Gathered want (λ d. visited d || delivery_eqb x d) (collect want x g).1
collect-Gathered want visited x g p new =
    let q = collect-Collected want x g in
    let grows = λ (agg : String). want x.aggregate_id && x.aggregate_id == agg in
    record {
      holds = λ d wanted. rw (q.backlog d.aggregate_id) (
          if_cases {A = List Delivery} (λ ds. contains d ds ≡ (visited d || delivery_eqb x d))
            (grows d.aggregate_id)
            (λ h. ground (
              arith,
              h,
              p.holds d,
              wanted,
              contains-append d (backlog_of g d.aggregate_id) (x ∷ []),
            ))
            (λ h.
              ground
                (arith, h, p.holds d, wanted, string_eq.beq_iff x.aggregate_id d.aggregate_id)));
      own = λ agg d. rw (q.backlog agg) (
          if_cases {A = List Delivery}
            (λ ds. contains d ds ≡ true → ((d.aggregate_id == agg) ≡ true) × (want agg ≡ true))
            (grows agg)
            (λ h k. ground (
              arith,
              h,
              k,
              p.own agg d,
              contains-append d (backlog_of g agg) (x ∷ []),
              string_eq.beq_iff x.aggregate_id agg,
              string_eq.beq_iff x.aggregate_id d.aggregate_id,
              string_eq.beq_iff d.aggregate_id agg,
            ))
            (λ h k. p.own agg d k));
      once = λ agg. rw (q.backlog agg) (
          if_cases {A = List Delivery} (λ ds. Distinct ds) (grows agg)
            (λ h.
              Distinct-snoc (backlog_of g agg) x (p.once agg)
                (ground (arith, h, p.holds x, new, string_eq.beq_iff x.aggregate_id agg)))
            (λ h. p.once agg));
      listed = λ agg.
          rw (q.order, q.known agg)
            (if_cases {A = List String}
              (λ names. contains agg names ≡ (is_some (Dict.get g.backlogs agg) || grows agg))
              (want x.aggregate_id && not (is_some (Dict.get g.backlogs x.aggregate_id)))
              (λ h. ground (
                arith,
                h,
                p.listed agg,
                contains-append agg g.order (x.aggregate_id ∷ []),
                string_eq.beq_iff x.aggregate_id agg,
              ))
              (λ h. ground (arith, h, p.listed agg, string_eq.beq_iff x.aggregate_id agg)));
      listed_once = rw q.order (
          if_cases {A = List String} (λ names. Distinct names)
            (want x.aggregate_id && not (is_some (Dict.get g.backlogs x.aggregate_id)))
            (λ h.
              Distinct-snoc g.order x.aggregate_id p.listed_once
                (ground (arith, h, p.listed x.aggregate_id)))
            (λ h. p.listed_once));
    }
