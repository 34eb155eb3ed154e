-- ===== src/Processor/Recovery/Resuming.antt =====
-- A resume of a parked aggregate, over the dispatcher that the program comes with.
use asynx.Dispatcher.Facade
use asynx.Dispatcher.Aggregates
use asynx.Dispatcher.Aggregates.Parking.Invariant.{IsValid}
use asynx.Dispatcher.Aggregates.Parking.Queueing.{AfterResult, enqueue-IsValid}
use asynx.Dispatcher.Job.{new_job}
use asynx.Dispatcher.Facade.{Facade, admitted}
use asynx.Dispatcher.Aggregates.Parking
use asynx.Dispatcher.Aggregates.Parking.{inspect, unrun, no_status, first_cause}
use asynx.Models.Records.{Event, Delivery}
use asynx.Processor.Recovery.{
  DeliveryPort, some, Result, with_undelivered, ok, fail, Codec, Replayer, Ctx, RedeliverTurn,
  redeliver, resume_lifted, Memory, Site, enqueue_backlog, still_undelivered, replayed,
  BacklogEnqueuer, Redelivered, Error, backlog_ended, resume_ended, named, enqueue_each, joined,
  resume_aggregate,
}
use asynx.Dispatcher.Job.{Request, dispatch_redelivery}
use asynx.Base.{
  true, ℕ, Bool, String, List, contains, suc, keep_if, ◌≡◌, ◌&&◌, ◌||◌, ◌∷◌, arith, nat_eq, [],
  refl, Option, not, if◌then◌else◌, is_some, none, ◌∙◌, ap, sym, ◌==◌, false,
}
use asynx.Dispatcher.Aggregates.{Admission, Registry}
use asynx.Processor.Recovery.Accounting.{versions_of, redeliver_accounts}
use asynx.Processor.Recovery.Redelivering.{versions, enqueue_each-keeps}
use asynx.Dispatcher.Aggregates.Parking.Parked.{park_lem}
use asynx.Dispatcher.Aggregates.Parking.Actions.{Action, acts, acts-from}
use asynx.Dispatcher.Aggregates.Parking.Tables.{lift_lem}
use asynx.Dispatcher.Aggregates.Parking.Lifting.{lift-IsValid}

-- The request of a redelivery.
abbrev redelivery_of : {T : Type 0} → Event T → Request
redelivery_of evt = record {
  aggregate_id = evt.aggregate_id;
  version = evt.version;
  event_name = evt.event_name;
  acked = true;
  kind = dispatch_redelivery;
}

-- The calls that others, the workers among them, make of the registry before the next call of the
-- recovery.
abbrev pub Meanwhile : Type 0
Meanwhile = Facade → List Action

abbrev pub let_work : Meanwhile → Facade → Facade
let_work others f = record f { registry = acts (others f) f.registry }

abbrev pub facade_port : {T : Type 0} → Meanwhile → DeliveryPort T Facade
facade_port others = record {
  enqueue = λ evt f. Facade.enqueue (redelivery_of evt) (let_work others f);
  park = λ agg e versions f. Facade.park agg (some e) versions (let_work others f);
  resume_undelivered = Facade.resume_undelivered;
  parks = λ f. Parking.parks f.registry;
}

enqueue-IsValid' :
    (q : Request) (f : Facade) → IsValid f.registry → IsValid (Facade.enqueue q f).1.registry
unfolding Facade.enqueue
enqueue-IsValid' q f v =
    let job = new_job f.next_job q in
    answered (Aggregates.enqueue f.registry job) (enqueue-IsValid f.registry job v)
  where
    answered :
        (a : Result (Admission × Registry))
        → AfterResult a
        → IsValid (admitted (record f { next_job = suc f.next_job }) f.next_job a).1.registry
    answered (ok (_, r)) k = k
    answered (fail e) k = v

contains-keep_if :
    (p : ℕ → Bool) (v : ℕ) (xs : List ℕ) → contains v (keep_if p xs) ≡ (contains v xs && p v)
contains-keep_if p v [] = refl
contains-keep_if p v (x ∷ xs) = ground (arith, contains-keep_if p v xs)

contains-with_undelivered :
    (agg : String) (scanned : List Delivery) (vs : List ℕ) (v : ℕ)
    → contains v (versions_of (with_undelivered agg scanned vs))
      ≡ (contains v (versions_of scanned) || contains v vs)
unfolding with_undelivered
contains-with_undelivered agg [] [] v = refl
contains-with_undelivered agg [] (x ∷ vs) v = ground (arith, contains-with_undelivered agg [] vs v)
contains-with_undelivered agg (d ∷ ds) vs v = ground (arith, contains-with_undelivered agg ds vs v)

module _ {T J P D : Type 0} (c : Codec T J P D) (r : Replayer T) (others : Meanwhile) where
  abbrev port : DeliveryPort T Facade
  port = facade_port others

  -- The events of the stream that a redelivery goes through.
  abbrev pub events_of_backlog : Ctx → Memory D → String → List Delivery → List (Event T)
  events_of_backlog at_replay store agg [] = []
  events_of_backlog at_replay store agg (d ∷ ds) = (replayed c r port at_replay store agg d ds).0

  pub redeliver_covers :
      (turn : RedeliverTurn D) (agg : String) (backlog : List Delivery) (site : Site D Facade)
      (v : ℕ)
      → contains v (versions_of backlog) ≡ true
      → let q = redeliver c r port turn agg backlog site in
        (contains v (versions q.taken)
          || contains v q.not_enqueued
          || not (contains v (versions (events_of_backlog turn.at_replay site.store agg backlog))))
        ≡ true
  redeliver_covers turn agg [] site v h = cc h
  redeliver_covers turn agg (d ∷ ds) site v h =
      (redeliver_accounts c r port turn agg d ds site).covers v h

  pub redeliver-IsValid :
      (turn : RedeliverTurn D) (agg : String) (backlog : List Delivery) (site : Site D Facade)
      → IsValid site.dispatcher.registry
      → IsValid (redeliver c r port turn agg backlog site).site.dispatcher.registry
  unfolding redeliver enqueue_backlog
  redeliver-IsValid turn agg [] site v = v
  redeliver-IsValid turn agg (d ∷ ds) site v =
      let read = replayed c r port turn.at_replay site.store agg d ds in
      let start : BacklogEnqueuer T Facade = record {
        dispatcher = site.dispatcher;
        vanished = named (d ∷ ds);
        err = none;
        taken = [];
      } in
      let e = enqueue_each c r port read.0 start in
      ended (record e { err = joined read.1 e.err }) (joined read.1 e.err)
        (enqueue_each-keeps c r port (λ f. IsValid f.registry)
          (λ evt f k.
            enqueue-IsValid' (redelivery_of evt) (let_work others f)
              (acts-from (others f) f.registry k))
          read.0 start v)
    where
      ended :
          (e : BacklogEnqueuer T Facade) (o : Option Error)
          → IsValid e.dispatcher.registry
          → IsValid (backlog_ended c r port turn agg (d ∷ ds) site e o).site.dispatcher.registry
      ended e none k = k
      ended e (some x) k = k

  -- What a resume left, from what callers saw of the aggregate before: `q` is the redelivery that was tried.
  abbrev pub ResumeTable :
      RedeliverTurn D
      → String
      → Bool
      → List ℕ
      → List Delivery
      → Site D Facade
      → Redelivered T D Facade
      → Option Error × Site D Facade
      → Type 0
  ResumeTable turn agg lifted undelivered scanned site q (none, site') =
      if lifted
      then (q.err ≡ none) × (site' ≡ q.site)
      else (inspect site'.dispatcher.registry agg ≡ inspect site.dispatcher.registry agg)
        × (site'.store ≡ site.store)
  ResumeTable turn agg lifted undelivered scanned site q (some e, site') =
      (lifted ≡ true)
      × ((inspect site'.dispatcher.registry agg).parked ≡ true)
      × ((inspect site'.dispatcher.registry agg).cause
          ≡ first_cause (inspect (let_work others q.site.dispatcher).registry agg).cause q.err)
      × (is_some q.err ≡ true)
      × ((v : ℕ)
          → contains v undelivered ≡ true
          → (contains v (versions q.taken)
              || is_some (unrun site'.dispatcher.registry agg v)
              || not (
                  contains v (
                    versions (
                      events_of_backlog turn.at_replay site.store agg
                        (with_undelivered agg scanned undelivered)))))
            ≡ true)

  lifted-Table :
      (turn : RedeliverTurn D) (agg : String) (undelivered : List ℕ) (scanned : List Delivery)
      (site : Site D Facade) (f : Facade)
      → IsValid f.registry
      → let lifted = record site { dispatcher = f } in
        let q = redeliver c r port turn agg (with_undelivered agg scanned undelivered) lifted in
        ResumeTable turn agg true undelivered scanned site q
          (resume_lifted c r port turn agg scanned undelivered lifted)
  unfolding resume_lifted still_undelivered Facade.park
  lifted-Table turn agg undelivered scanned site f v = ended q.err refl
    where
      backlog : List Delivery
      backlog = with_undelivered agg scanned undelivered

      q : Redelivered T D Facade
      q = redeliver c r port turn agg backlog (record site { dispatcher = f })

      ended :
          (o : Option Error)
          → q.err ≡ o
          → ResumeTable turn agg true undelivered scanned site q
              (resume_ended c r port agg undelivered q o)
      ended none fine = (fine, refl)
      ended (some e) failed =
          let vs = still_undelivered undelivered q.not_enqueued in
          let before = let_work others q.site.dispatcher in
          let valid =
            acts-from (others q.site.dispatcher) q.site.dispatcher.registry
              (redeliver-IsValid turn agg backlog (record site { dispatcher = f }) v) in
          let parked = park_lem before.registry agg (some e) vs valid in
          (
            refl,
            parked.0,
            parked.2 ∙ ap (first_cause (inspect before.registry agg).cause) (sym failed),
            ap is_some failed,
            λ n h. ground (
              arith,
              h,
              redeliver_covers turn agg backlog (record site { dispatcher = f }) n,
              contains-with_undelivered agg scanned undelivered n,
              contains-keep_if (λ x. contains x q.not_enqueued) n undelivered,
              parked.3 n,
            ),
          )

  -- The resume after the answer `lifted` and `vs` of the dispatcher, `taken` saying which it has to be.
  answered-Table :
      (turn : RedeliverTurn D) (agg : String) (scanned : List Delivery) (site : Site D Facade)
      (f : Facade) (taken lifted : Bool) (vs : List ℕ)
      → let st = inspect site.dispatcher.registry agg in
        lifted ≡ taken
        → vs ≡ (if taken then st.undelivered else [])
        → inspect f.registry agg ≡ (if taken then no_status else st)
        → IsValid f.registry
        → let site' = record site { dispatcher = f } in
          ResumeTable turn agg taken st.undelivered scanned site
            (redeliver c r port turn agg (with_undelivered agg scanned st.undelivered) site')
            (if lifted then resume_lifted c r port turn agg scanned vs site' else (none, site'))
  answered-Table turn agg scanned site f true lifted vs e same status v =
      rw (e, same)
        (lifted-Table turn agg (inspect site.dispatcher.registry agg).undelivered scanned site f v)
  answered-Table turn agg scanned site f false lifted vs e same status v = rw e (status, refl)

  -- From a registry that is well formed, as every sequence of its calls leaves it: a resume of an
  -- aggregate, once it has the aggregate's lock, lifts the park only if the aggregate
  -- is parked under the generation that was listed; otherwise it keeps the status of the aggregate
  -- and the store, without an error. If the redelivery succeeds, what it left is what the resume
  -- leaves. If it fails, whatever calls others make of the registry before each of its calls, the
  -- resume fails and leaves the aggregate parked. The cause is that of a park that stood by then, such
  -- as a worker's, and otherwise the error of the redelivery. Each version that the lifted park had
  -- left undelivered was handed to the dispatcher by the redelivery, or is recorded as undelivered
  -- again, or has no event in the part of the stream that was replayed.
  pub resume_keeps_undelivered :
      (turn : RedeliverTurn D) (agg : String) (generation : ℕ) (scanned : List Delivery)
      (site : Site D Facade)
      → IsValid site.dispatcher.registry
      → let st = inspect site.dispatcher.registry agg in
        let (_, f) = Facade.resume_undelivered agg generation site.dispatcher in
        let q =
          redeliver c r port turn agg
            (with_undelivered agg scanned st.undelivered)
            (record site { dispatcher = f }) in
        ResumeTable turn agg
          (st.parked && st.generation == generation)
          st.undelivered
          scanned
          site
          q
          (resume_aggregate c r port none turn agg generation scanned site)
  unfolding resume_aggregate Facade.resume_undelivered
  resume_keeps_undelivered turn agg generation scanned site v =
      let st = inspect site.dispatcher.registry agg in
      let q = Parking.lift site.dispatcher.registry agg generation in
      let lifts = lift_lem site.dispatcher.registry agg generation in
      answered-Table turn agg scanned site (record (site.dispatcher) { registry = q.1 })
        (st.parked && st.generation == generation) q.0.0 q.0.1 lifts.0 lifts.1 lifts.2
        (lift-IsValid site.dispatcher.registry agg generation v)
