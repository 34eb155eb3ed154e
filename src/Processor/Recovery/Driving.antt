-- ===== src/Processor/Recovery/Driving.antt =====
-- Recover, Resume and Paused of internal/processor/processor_recovery.go. Where there is no
-- dispatcher they do nothing; here there is one.
use asynx.Base.Dict
use asynx.Base.Dict.{Dict}
use Prim.Native.Nat.{Ordering, ℕ}
use Prim.Native.String.{compare as string_compare, String, ◌∷◌}
use asynx.Base.{
  List, Bool, ◌∷◌, true, if◌then◌else◌, [], false, Option, string_eq, is_empty, some, none, is_some,
  ◌++◌,
}
use asynx.Processor.Recovery.{
  Site, Error, Delivery, Replayer, RedeliverTurn, DeliveryPort, Ctx, recovery_must_stop,
  first_error, Redelivered, redeliver, note, resume_aggregate, join_all,
}
use asynx.EventStore.Codec.{Codec}
use asynx.Processor.Recovery.Scanning.{
  LogRead, Backlogs, backlog_of, pending_by_aggregate, batch_or_default,
}

abbrev before : String → String → Bool
before a b = elim (string_compare a b) [ Ordering.lt ↦ true | _ ↦ false ]

insert_name : String → List String → List String
insert_name a [] = a ∷ []
insert_name a (b ∷ bs) = if before a b then a ∷ b ∷ bs else b ∷ insert_name a bs

-- slices.Sorted of names
sort_names : List String → List String
unfolding insert_name
sort_names [] = []
sort_names (a ∷ names) = insert_name a (sort_names names)

-- What a recovery or a resume meets, by aggregate: the redelivery, what the lock returns, and the
-- error of the context once the aggregate is done.
pub record DriveTurn (D : Type 0) : Type 0 where
  pub reads : ℕ → LogRead D
  pub redelivers : String → RedeliverTurn D
  pub at_lock : String → Ctx
  pub at_stop : String → Ctx

-- `reported` lists what the publish error handler is told of: aggregate, version and error.
pub record Recovered (D S : Type 0) : Type 0 where
  pub site : Site D S
  pub reported : List (String × ℕ × Error)

abbrev pub first_version : List Delivery → ℕ
first_version [] = 0
first_version (d ∷ _) = d.version

module _ {T J P D S : Type 0} (c : Codec T J P D) (r : Replayer T) (port : DeliveryPort T S) where
  abbrev pub recover_ended :
      Ctx
      → String
      → List Delivery
      → List (String × ℕ × Error)
      → Redelivered T D S
      → Option Error
      → Option Error × Recovered D S
  recover_ended at_stop agg backlog reported q none =
      (none, record { site = q.site; reported = reported })
  recover_ended at_stop agg backlog reported q (some e) =
      if recovery_must_stop at_stop e
      then (some (note e "asynx: recovery"), record { site = q.site; reported = reported })
      else (
        none,
        record {
          site = record (q.site) { dispatcher = port.park agg e q.not_enqueued q.site.dispatcher };
          reported = reported ++ (agg, first_version backlog, note e "recovery") ∷ [];
        },
      )

  unfoldable pub recover_aggregate :
      Ctx → RedeliverTurn D → String → List Delivery → Recovered D S → Option Error × Recovered D S
  unfolding recovery_must_stop
  recover_aggregate at_stop turn agg backlog s =
      let q = redeliver c r port turn agg backlog s.site in
      recover_ended at_stop agg backlog s.reported q q.err

  recover_all : DriveTurn D → Backlogs → Recovered D S → Option Error × Recovered D S
  unfolding first_error recover_aggregate
  recover_all turn g =
      first_error
        (λ agg. recover_aggregate (turn.at_stop agg) (turn.redelivers agg) agg (backlog_of g agg))
        g.order

  -- `none` is a scan that is out of fuel.
  recover :
      (fuel : ℕ) → DriveTurn D → (batch : ℕ) → Site D S → Option (Option Error × Recovered D S)
  unfolding recover_all
  recover fuel turn batch site =
      let start : Recovered D S = record { site = site; reported = [] } in
      elim (pending_by_aggregate fuel turn.reads (batch_or_default batch) (λ agg. true)) [
        | none ↦ none
        | some (some e, g) ↦ some (some e, start)
        | some (none, g) ↦ some (recover_all turn g start)
      ]

  -- The loop of Resume, which leaves off when its context ends.
  resume_each :
      DriveTurn D
      → Dict String ℕ
      → Backlogs
      → List String
      → Site D S
      → List (Option Error) × Site D S
  resume_each turn parks g [] site = ([], site)
  resume_each turn parks g (agg ∷ aggs) site =
      let park : ℕ = elim (Dict.get parks agg) [ none ↦ 0 | some n ↦ n ] in
      let (e, site') =
        resume_aggregate c r port (turn.at_lock agg) (turn.redelivers agg) agg park
          (backlog_of g agg) site in
      elim (turn.at_stop agg) [
        | some _ ↦ (e ∷ [], site')
        | none ↦ let more = resume_each turn parks g aggs site' in (e ∷ more.0, more.1)
      ]

  resume : (fuel : ℕ) → DriveTurn D → (batch : ℕ) → Site D S → Option (Option Error × Site D S)
  unfolding resume_each
  resume fuel turn batch site =
      let parks = port.parks site.dispatcher in
      let halted = sort_names (Dict.keys parks) in
      if is_empty halted
      then some (none, site)
      else elim (pending_by_aggregate fuel turn.reads (batch_or_default batch)
          (λ agg. is_some (Dict.get parks agg))) [
            | none ↦ none
            | some (some e, g) ↦ some (some e, site)
            | some (none, g) ↦
                let (errs, site') = resume_each turn parks g halted site in
                some (join_all errs, site')
          ]

  paused : Site D S → List String
  paused site = sort_names (Dict.keys (port.parks site.dispatcher))
