-- ===== src/Processor/Recovery/Recovering.antt =====
-- The recovery of one aggregate, over the dispatcher that the program comes with.
use asynx.Processor.Recovery.Driving.{first_version}
use asynx.Base.{◌||◌, if_cases, arith, none, ◌++◌, ◌∷◌, [], ℕ, contains, not, nat_eq, refl}
use asynx.Models.Errors.{is, err_dispatcher_closed, note}
use asynx.Processor.Recovery.Driving.{recover_aggregate, recover_ended, first_version}
use asynx.Dispatcher.Facade
use asynx.Dispatcher.Facade.{Facade}
use asynx.EventStore.Codec.{Codec}
use asynx.EventStore.Replayer.{Replayer}
use asynx.Processor.Recovery.{
  RedeliverTurn, Ctx, recovery_must_stop, String, List, Delivery, Redelivered, Option, Error, some,
  is_some, redeliver,
}
use asynx.Processor.Recovery.Driving.{recover_aggregate, Recovered}
use asynx.Base.{◌≡◌, true, ◌||◌}
use asynx.Processor.Recovery.Resuming.{
  Meanwhile, let_work, facade_port, redeliver-IsValid, redeliver_covers, events_of_backlog,
}
use asynx.Dispatcher.Aggregates.Parking.Actions.{acts-from}
use asynx.Dispatcher.Aggregates.Parking.Invariant.{IsValid}
use asynx.Dispatcher.Aggregates.Parking.Parked.{park_lem}
use asynx.Dispatcher.Aggregates.Parking.{first_cause, inspect, unrun}
use asynx.Processor.Recovery.Accounting.{versions_of}
use asynx.Processor.Recovery.Redelivering.{versions}

module _ {T J P D : Type 0} (c : Codec T J P D) (r : Replayer T) (others : Meanwhile) where
  -- `q` is the redelivery that was tried, from the site `s.site`.
  abbrev pub RecoverTable :
      RedeliverTurn D
      → Ctx
      → String
      → List Delivery
      → Recovered D Facade
      → Redelivered T D Facade
      → Option Error × Recovered D Facade
      → Type 0
  RecoverTable turn at_stop agg backlog s q (some e, s') =
      (is_some q.err ≡ true)
      × ((is_some at_stop || is e err_dispatcher_closed) ≡ true)
      × (s'.site ≡ q.site)
  RecoverTable turn at_stop agg backlog s q (none, s') = elim q.err [
    | none ↦ (s'.site ≡ q.site) × (s'.reported ≡ s.reported)
    | some e ↦
        let after = s'.site.dispatcher.registry in
        ((inspect after agg).parked ≡ true)
        × ((inspect after agg).cause
            ≡ first_cause (inspect (let_work others q.site.dispatcher).registry agg).cause (some e))
        × (s'.reported ≡ s.reported ++ (agg, first_version backlog, note e "recovery") ∷ [])
        × (s'.site.store ≡ q.site.store)
        × ((v : ℕ)
            → contains v (versions_of backlog) ≡ true
            → (contains v (versions q.taken)
                || is_some (unrun after agg v)
                || not (
                    contains v (
                      versions
                        (events_of_backlog c r others turn.at_replay s.site.store agg backlog))))
              ≡ true)
  ]

  -- Recovering an aggregate from a registry that is well formed, as every sequence of its calls
  -- leaves it: if the redelivery succeeds, what it left is what the recovery leaves. It
  -- fails only if the redelivery does and the context has ended or the dispatcher is closed, and then
  -- it leaves what the redelivery left. If the redelivery fails otherwise, whatever calls others make
  -- of the registry before each call of the recovery, the recovery goes on and leaves the aggregate
  -- parked. The cause is that of a park that stood by then, such as a worker's, and otherwise the
  -- error of the redelivery. That error is reported with the version of the first pending delivery,
  -- and each pending version was handed to the dispatcher, or is recorded as undelivered, or has no
  -- event in the part of the stream that was replayed.
  pub recover_keeps_undelivered :
      (turn : RedeliverTurn D) (at_stop : Ctx) (agg : String) (backlog : List Delivery)
      (s : Recovered D Facade)
      → IsValid s.site.dispatcher.registry
      → RecoverTable turn at_stop agg backlog s
          (redeliver c r (facade_port others) turn agg backlog s.site)
          (recover_aggregate c r (facade_port others) at_stop turn agg backlog s)
  unfolding recover_aggregate recovery_must_stop Facade.park is
  recover_keeps_undelivered turn at_stop agg backlog s v =
      ended (redeliver c r (facade_port others) turn agg backlog s.site).err refl
    where
      q : Redelivered T D Facade
      q = redeliver c r (facade_port others) turn agg backlog s.site

      ended :
          (o : Option Error)
          → q.err ≡ o
          → RecoverTable turn at_stop agg backlog s q
              (recover_ended c r (facade_port others) at_stop agg backlog s.reported q o)
      ended none fine = rw fine (refl, refl)
      ended (some e) failed =
          if_cases {A = Option Error × Recovered D Facade}
            (RecoverTable turn at_stop agg backlog s q)
            (is_some at_stop || is e err_dispatcher_closed) (λ stops. rw failed (refl, stops, refl))
            (λ _.
              let before = let_work others q.site.dispatcher in
              let valid =
                acts-from (others q.site.dispatcher) q.site.dispatcher.registry
                  (redeliver-IsValid c r others turn agg backlog s.site v) in
              let parked = park_lem before.registry agg (some e) q.not_enqueued valid in
              rw failed (
                parked.0,
                parked.2,
                refl,
                refl,
                λ n h.
                    ground
                      (arith, h, redeliver_covers c r others turn agg backlog s.site n, parked.3 n),
              ))
