-- ===== src/Processor/Recovery/Accounting.antt =====
-- What a redelivery makes of the deliveries that are pending for an aggregate.
use asynx.Base.Dict
use asynx.Store.Memory.{ack_delivery, delete_first, Memory, Ctx}
use asynx.Base.Dict.{Dict}
use asynx.Base.{
  List, String, ℕ, ◌∷◌, map, [], ◌≡◌, contains, arith, nat_eq, none, keep_if, Bool-cases, inr, inl,
  Option-cases, refl, Bool, Option, true, ==_refl, some, false, ◌||◌, not, sym, ◌∙◌, ap, Distinct,
}
use asynx.Processor.Recovery.{
  ack_vanished, Delivery, first_error, ack_if_vanished, is_named, ack_delivery, named, Codec,
  Replayer, DeliveryPort, Event, RedeliverTurn, redeliver, Redelivered, Site, Error,
  enqueue_backlog, BacklogEnqueuer, joined, replayed, enqueue_each, backlog_ended,
}
use asynx.Store.Memory.{delete_first}
use asynx.Processor.Recovery.Redelivering.{
  InOrder, Split, versions, enqueue_each-InOrder, enqueue_each-Split, enqueue_each-exhausts,
}
use mathlib.Core.Path.{subst}
use asynx.Base.Dict.Sorted.{contains-sorted_keys}

abbrev pub versions_of : List Delivery → List ℕ
versions_of = map (λ d. d.version)

is_named-named : (ds : List Delivery) (v : ℕ) → is_named (named ds) v ≡ contains v (versions_of ds)
is_named-named [] v = ground (arith, Dict.get-empty {K = ℕ} {V = Unit {0}} v)
is_named-named (d ∷ ds) v =
    ground (arith, Dict.get-put (named ds) d.version v tt, is_named-named ds v)

-- The log after the acknowledgement of some versions of the aggregate.
pub acks : String → List Delivery → List Delivery → List Delivery
acks agg [] log = log
acks agg (d ∷ ds) log =
    acks agg ds (delete_first (record { aggregate_id = agg; version = d.version }) log)

module _ {D : Type 0} where
  ack_vanished_lem :
      (at_ack : Delivery → Ctx) (agg : String) (ds : List Delivery) (vanished : Dict ℕ (Unit {0}))
      (s : Memory D)
      → (ack_vanished at_ack agg ds vanished s).0 ≡ none
      → (ack_vanished at_ack agg ds vanished s).1 ≡ record s {
        deliveries = acks agg (keep_if (λ d. is_named vanished d.version) ds) s.deliveries;
      }
  unfolding ack_vanished first_error ack_if_vanished ack_delivery acks
  ack_vanished_lem at_ack agg [] vanished s h = refl
  ack_vanished_lem at_ack agg (d ∷ ds) vanished s h =
      elim (Bool-cases (is_named vanished d.version)) [
        | inr kept ↦ ground (arith, h, kept, ack_vanished_lem at_ack agg ds vanished s)
        | inl gone ↦ elim (Option-cases (at_ack d)) [
          | inl clear ↦
              let log =
                delete_first (record { aggregate_id = agg; version = d.version }) s.deliveries in
              ground (
                arith,
                h,
                gone,
                clear,
                ack_vanished_lem at_ack agg ds vanished (record s { deliveries = log }),
              )
          | inr (e, ended) ↦ ground (arith, h, gone, ended)
        ]
      ]

module _ {T J P D S : Type 0} (c : Codec T J P D) (r : Replayer T) (port : DeliveryPort T S) where
  -- What a redelivery did with the pending deliveries `backlog` of an aggregate, `events` being what
  -- the replay of its stream gave and `later` the store at the acknowledgements.
  pub record Accounted (agg : String) (events : List (Event T)) (backlog : List Delivery)
      (later : Memory D) (q : Redelivered T D S) : Type 0 where
    pub in_order : InOrder q.taken events
    pub once : Distinct (versions q.taken)
    pub pending :
        (v : ℕ) → contains v (versions q.taken) ≡ true → contains v (versions_of backlog) ≡ true
    pub covers :
        (v : ℕ)
        → contains v (versions_of backlog) ≡ true
        → (contains v (versions q.taken)
            || contains v q.not_enqueued
            || not (contains v (versions events)))
          ≡ true
    pub left :
        (v : ℕ)
        → contains v q.not_enqueued ≡ true
        → (contains v (versions_of backlog) ≡ true) × (contains v (versions q.taken) ≡ false)
    pub acked :
        q.err ≡ none
        → q.site.store ≡ record later {
          deliveries =
              acks agg
                (keep_if (λ d. not (contains d.version (versions q.taken))) backlog)
                later.deliveries;
        }

  keep_if-same :
      (p q : Delivery → Bool) (ds all : List Delivery)
      → ((d : Delivery) → contains d.version (versions_of ds) ≡ true → p d ≡ q d)
      → keep_if p ds ≡ keep_if q ds
  keep_if-same p q [] all h = refl
  keep_if-same p q (d ∷ ds) all h = ground (
    arith,
    h d (ground (arith, ==_refl d.version)),
    keep_if-same p q ds all (λ x k. h x (ground (arith, k))),
  )

  ended-Accounted :
      (turn : RedeliverTurn D) (agg : String) (backlog : List Delivery) (site : Site D S)
      (events : List (Event T)) (e : BacklogEnqueuer T S) (err : Option Error)
      → Split c r port (named backlog) e
      → InOrder e.taken events
      → (err ≡ none → (v : ℕ) → is_named e.vanished v ≡ true → contains v (versions events) ≡ false)
      → Accounted agg events backlog
          (turn.others site.store)
          (backlog_ended c r port turn agg backlog site e err)
  ended-Accounted turn agg backlog site events e (some x) p ordered exhausts = record {
    in_order = ordered;
    once = p.once;
    pending = λ v h. ground (arith, p.covers v, is_named-named backlog v, h);
    covers = λ v h.
        ground (arith, p.covers v, is_named-named backlog v, h, contains-sorted_keys e.vanished v);
    left = λ v h. ground (
      arith,
      p.covers v,
      p.apart v,
      is_named-named backlog v,
      h,
      contains-sorted_keys e.vanished v,
    );
    acked = λ h. cc;
  }
  ended-Accounted turn agg backlog site events e none p ordered exhausts = record {
    in_order = ordered;
    once = p.once;
    pending = λ v h. ground (arith, p.covers v, is_named-named backlog v, h);
    covers = λ v h. ground (arith, p.covers v, is_named-named backlog v, h, exhausts refl v);
    left = λ v h. ground (arith, h);
    acked = λ h.
        ack_vanished_lem turn.at_ack agg backlog e.vanished (turn.others site.store) h
        ∙ ap
            (λ ds. record (turn.others site.store) {
              deliveries = acks agg ds (turn.others site.store).deliveries;
            })
            (keep_if-same (λ d. is_named e.vanished d.version)
              (λ d. not (contains d.version (versions e.taken))) backlog backlog
              (λ d k. ground (
                arith,
                p.covers d.version,
                p.apart d.version,
                is_named-named backlog d.version,
                k,
              )));
  }

  joined-none : (a b : Option Error) → joined a b ≡ none → b ≡ none
  joined-none none b h = h
  joined-none (some e) none h = refl
  joined-none (some e) (some f) h = cc

  -- A redelivery hands the dispatcher events of the stream in the order of the replay, none of them
  -- twice and only such as are pending. Every pending version is handed over, or is returned as not
  -- enqueued, or has no event in the replayed range. What is returned is pending and was not handed
  -- over. Without an error, just the pending deliveries that were not handed over are acknowledged, and the
  -- rest of the store is as others left it.
  pub redeliver_accounts :
      (turn : RedeliverTurn D) (agg : String) (d : Delivery) (ds : List Delivery) (site : Site D S)
      → Accounted agg
          (replayed c r port turn.at_replay site.store agg d ds).0
          (d ∷ ds)
          (turn.others site.store)
          (redeliver c r port turn agg (d ∷ ds) site)
  unfolding redeliver enqueue_backlog
  redeliver_accounts turn agg d ds site =
      let read = replayed c r port turn.at_replay site.store agg d ds in
      let start : BacklogEnqueuer T S = record {
        dispatcher = site.dispatcher;
        vanished = named (d ∷ ds);
        err = none;
        taken = [];
      } in
      let e = enqueue_each c r port read.0 start in
      let fresh : Split c r port (named (d ∷ ds)) start = record {
        covers = λ v. ground arith;
        apart = λ v h. refl;
        once = tt;
      } in
      let (more, eq, ordered) = enqueue_each-InOrder c r port read.0 start in
      ended-Accounted turn agg (d ∷ ds) site read.0 (record e { err = joined read.1 e.err })
        (joined read.1 e.err)
        (let p = enqueue_each-Split c r port (named (d ∷ ds)) read.0 start fresh in
          record { covers = p.covers; apart = p.apart; once = p.once })
        (subst (λ xs. InOrder xs read.0) (sym eq) ordered)
        (λ fine v h.
          enqueue_each-exhausts c r port read.0 start v (joined-none read.1 e.err fine) h)
