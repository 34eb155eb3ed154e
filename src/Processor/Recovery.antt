-- ===== src/Processor/Recovery.antt =====
-- internal/processor/processor_recovery.go and backlog_enqueuer.go: what becomes of the deliveries
-- that are still pending, after a crash and when a park is lifted. The dispatcher is an interface.
pub mod Redelivering
pub mod Accounting
pub mod Scanning
pub mod Gathering
pub mod Resuming
pub mod Recovering
pub mod Driving
pub mod Visits
pub mod Scans
use asynx.Base.Dict
use asynx.Base.Dict.Sorted.{sorted_keys}
use asynx.Base.Dict.{Dict}
use asynx.Models.Records.{Event, Delivery}
use asynx.Base.{
  Option, List, ℕ, String, Bool, some, none, ◌∷◌, ◌++◌, keep_if, if◌then◌else◌, is_some, min, max,
  map, contains, [], not, ◌||◌, nat_eq,
}
use asynx.Store.Memory.{Memory, Ctx, ack_delivery}
use asynx.EventStore.Codec.{Codec}
use asynx.Models.Errors.{
  Error, Result, ok, wrap, fail, note, sentinel, is, err_context_cancelled, err_dispatcher_closed,
}
use asynx.EventStore.Replayer.{Replayer, replay}

-- What recovery asks of a dispatcher, whose state is `S`: Enqueue of a redelivery with an Ack, Park,
-- ResumeUndelivered and Parks. What others do to the dispatcher between the calls, the workers that
-- an Enqueue spawns among them, is a part of the functions.
pub record DeliveryPort (T S : Type 0) : Type 0 where
  pub enqueue : Event T → S → Option Error × S
  pub park : String → Error → List ℕ → S → S
  pub resume_undelivered : String → ℕ → S → (Bool × List ℕ) × S
  pub parks : S → Dict String ℕ

abbrev go_past {κ} : {S : Type κ} → Option Error × S → (S → Option Error × S) → Option Error × S
go_past (some e, s) rest = (some e, s)
go_past (none, s) rest = rest s

-- utils.FirstError
pub first_error {ℓ κ} :
    {A : Type ℓ} {S : Type κ} → (A → S → Option Error × S) → List A → S → Option Error × S
first_error try [] s = (none, s)
first_error try (x ∷ xs) s = go_past (try x s) (first_error try xs)

abbrev pub joined : Option Error → Option Error → Option Error
joined none o = o
joined (some e) none = some e
joined (some e) (some f) = some (wrap e f)

-- errors.Join of a list
pub join_all : List (Option Error) → Option Error
join_all [] = none
join_all (o ∷ os) = joined o (join_all os)

-- `taken` lists what the dispatcher took, oldest first.
pub record BacklogEnqueuer (T S : Type 0) : Type 0 where
  pub dispatcher : S
  pub vanished : Dict ℕ (Unit {0})
  pub err : Option Error
  pub taken : List (Event T)

-- The stores and the dispatcher.
pub record Site (D S : Type 0) : Type 0 where
  pub store : Memory D
  pub dispatcher : S

-- What a redelivery meets beside the dispatcher: the contexts of the replay and of each
-- acknowledgement, and what others do to the store between the two.
pub record RedeliverTurn (D : Type 0) : Type 0 where
  pub at_replay : Ctx
  pub at_ack : Delivery → Ctx
  pub others : Memory D → Memory D

pub record Redelivered (T D S : Type 0) : Type 0 where
  pub not_enqueued : List ℕ
  pub err : Option Error
  pub site : Site D S
  pub taken : List (Event T)

abbrev pub is_named : Dict ℕ (Unit {0}) → ℕ → Bool
is_named vanished version = is_some (Dict.get vanished version)

abbrev pub named : List Delivery → Dict ℕ (Unit {0})
named [] = Dict.empty
named (d ∷ ds) = Dict.put (named ds) d.version tt

lowest : ℕ → List Delivery → ℕ
lowest n [] = n
lowest n (d ∷ ds) = lowest (min n d.version) ds

highest : ℕ → List Delivery → ℕ
highest n [] = n
highest n (d ∷ ds) = highest (max n d.version) ds

pub with_undelivered : String → List Delivery → List ℕ → List Delivery
with_undelivered agg scanned undelivered =
    scanned ++ map (λ v. record { aggregate_id = agg; version = v }) undelivered

-- slices.BinarySearch finds what is there, since `remaining` ascends.
pub still_undelivered : List ℕ → List ℕ → List ℕ
still_undelivered undelivered remaining = keep_if (λ v. contains v remaining) undelivered

pub recovery_must_stop : Ctx → Error → Bool
recovery_must_stop at_stop e = is_some at_stop || is e err_dispatcher_closed

abbrev ack_settled {ℓ} : {D : Type ℓ} → Memory D → Result (Memory D) → Option Error × Memory D
ack_settled s (ok s') = (none, s')
ack_settled s (fail e) = (some e, s)

module _ {D : Type 0} where
  pub ack_if_vanished :
      (Delivery → Ctx) → String → Dict ℕ (Unit {0}) → Delivery → Memory D → Option Error × Memory D
  ack_if_vanished at_ack agg vanished d s =
      if is_named vanished d.version
      then ack_settled s (ack_delivery (at_ack d) s agg d.version)
      else (none, s)

  pub ack_vanished :
      (Delivery → Ctx)
      → String
      → List Delivery
      → Dict ℕ (Unit {0})
      → Memory D
      → Option Error × Memory D
  unfolding first_error ack_if_vanished
  ack_vanished at_ack agg backlog vanished =
      first_error (ack_if_vanished at_ack agg vanished) backlog

module _ {T J P D S : Type 0} (c : Codec T J P D) (r : Replayer T) (port : DeliveryPort T S) where
  abbrev pub enqueue_answered :
      Event T → Option Error × S → BacklogEnqueuer T S → BacklogEnqueuer T S
  enqueue_answered evt (some x, s) e = record e { dispatcher = s; err = some x }
  enqueue_answered evt (none, s) e = record e {
    dispatcher = s;
    vanished = Dict.remove e.vanished evt.version;
    taken = e.taken ++ evt ∷ [];
  }

  pub enqueue : Event T → BacklogEnqueuer T S → BacklogEnqueuer T S
  enqueue evt e =
      if not (is_named e.vanished evt.version) || is_some e.err
      then e
      else enqueue_answered evt (port.enqueue evt e.dispatcher) e

  -- Replay calls the enqueuer with one event after the other.
  pub enqueue_each : List (Event T) → BacklogEnqueuer T S → BacklogEnqueuer T S
  unfolding enqueue
  enqueue_each [] e = e
  enqueue_each (evt ∷ evts) e = enqueue_each evts (enqueue evt e)

  pub replayed : Ctx → Memory D → String → Delivery → List Delivery → List (Event T) × Option Error
  replayed at_replay store agg d ds =
      replay c r at_replay store agg (lowest d.version ds) (highest d.version ds)

  pub enqueue_backlog : Ctx → String → Delivery → List Delivery → Site D S → BacklogEnqueuer T S
  unfolding replayed enqueue_each
  enqueue_backlog at_replay agg d ds site =
      let read = replayed at_replay site.store agg d ds in
      let e = enqueue_each read.0 (record {
        dispatcher = site.dispatcher;
        vanished = named (d ∷ ds);
        err = none;
        taken = [];
      }) in
      record e { err = joined read.1 e.err }

  abbrev pub backlog_ended :
      RedeliverTurn D
      → String
      → List Delivery
      → Site D S
      → BacklogEnqueuer T S
      → Option Error
      → Redelivered T D S
  backlog_ended turn agg backlog site e (some x) = record {
    not_enqueued = sorted_keys e.vanished;
    err = some x;
    site = record site { dispatcher = e.dispatcher };
    taken = e.taken;
  }
  backlog_ended turn agg backlog site e none =
      let acked = ack_vanished turn.at_ack agg backlog e.vanished (turn.others site.store) in
      record {
        not_enqueued = [];
        err = acked.0;
        site = record { store = acked.1; dispatcher = e.dispatcher };
        taken = e.taken;
      }

  pub redeliver : RedeliverTurn D → String → List Delivery → Site D S → Redelivered T D S
  unfolding enqueue_backlog
  redeliver turn agg [] site = record { not_enqueued = []; err = none; site = site; taken = [] }
  redeliver turn agg (d ∷ ds) site =
      let e = enqueue_backlog turn.at_replay agg d ds site in
      backlog_ended turn agg (d ∷ ds) site e e.err

  -- The redelivery of an aggregate whose park has been lifted.
  abbrev pub resume_ended :
      String → List ℕ → Redelivered T D S → Option Error → Option Error × Site D S
  resume_ended agg undelivered q none = (none, q.site)
  resume_ended agg undelivered q (some e) = (
    some (note e "asynx: resume"),
    record (q.site) {
      dispatcher = port.park agg e (still_undelivered undelivered q.not_enqueued) q.site.dispatcher;
    },
  )

  pub resume_lifted :
      RedeliverTurn D → String → List Delivery → List ℕ → Site D S → Option Error × Site D S
  unfolding redeliver
  resume_lifted turn agg scanned undelivered site =
      let q = redeliver turn agg (with_undelivered agg scanned undelivered) site in
      resume_ended agg undelivered q q.err

  -- `at_lock` is what the lock of the aggregate returns.
  pub resume_aggregate :
      Ctx → RedeliverTurn D → String → ℕ → List Delivery → Site D S → Option Error × Site D S
  unfolding resume_lifted
  resume_aggregate at_lock turn agg park scanned site = elim at_lock [
    | some e ↦ (some (wrap (sentinel err_context_cancelled) e), site)
    | none ↦
        let ((lifted, undelivered), s) = port.resume_undelivered agg park site.dispatcher in
        let site' = record site { dispatcher = s } in
        if lifted then resume_lifted turn agg scanned undelivered site' else (none, site')
  ]
