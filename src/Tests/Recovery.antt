-- ===== src/Tests/Recovery.antt =====
-- The pending delivery of the event that raised a flag, recovered and resumed.
use asynx.Dispatcher.Facade
use asynx.Dispatcher.Facade.{Facade}
use asynx.Dispatcher.Aggregates
use asynx.Dispatcher.Aggregates.Parking
use asynx.Dispatcher.Aggregates.{Hooks, Registry, store}
use asynx.Dispatcher.Aggregates.Parking.{inspect}
use asynx.Models.Records.{Delivery}
use asynx.Store.Memory.{Memory}
use asynx.Processor.Recovery.{
  RedeliverTurn, Site, redeliver, replayed, with_undelivered, resume_aggregate,
}
use asynx.Processor.Recovery.Accounting.{Accounted, redeliver_accounts}
use asynx.Processor.Recovery.Driving.{Recovered, recover_aggregate}
use asynx.Dispatcher.Aggregates.Parking.Invariant.{IsValid, new-IsValid}
use asynx.Processor.Recovery.Scans.{Groups, pending_by_aggregate_lem}
use asynx.Tests.Codecs.{Stored, flag_codec}
use asynx.Base.{true, some, none, [], ℕ, ◌∷◌, arith, ◌&&◌, ◌==◌, nat_eq}
use asynx.Dispatcher.Aggregates.Parking.Lifting.{park-IsValid}
use asynx.Tests.EventStores.{raised, flag_replayer}
use asynx.Models.Errors.{sentinel, err_delivery_parked, err_handler_timeout}
use asynx.Dispatcher.Aggregates.Parking.Actions.{parks, closes}
use asynx.Processor.Recovery.Scanning.{pending_by_aggregate, LogRead, batch_or_default}
use asynx.Processor.Recovery.Resuming.{
  facade_port, ResumeTable, resume_keeps_undelivered, Meanwhile,
}
use asynx.Processor.Recovery.Recovering.{RecoverTable, recover_keeps_undelivered}

abbrev flag_delivery : Delivery
flag_delivery = record { aggregate_id = "flag-1"; version = 1 }

abbrev pending_flag : Memory Stored
pending_flag = record (raised.store) { deliveries = flag_delivery ∷ [] }

abbrev calm_redelivery : RedeliverTurn Stored
calm_redelivery = record { at_replay = none; at_ack = λ d. none; others = λ s. s }

abbrev hooks : Hooks
hooks = record { spawn = true; admit = true }

abbrev idle_site : Site Stored Facade
idle_site = record { store = pending_flag; dispatcher = Facade.new hooks }

redeliver_accounts_example :
    Accounted flag_codec flag_replayer
      (facade_port (λ f. []))
      "flag-1"
      (replayed flag_codec flag_replayer
        (facade_port (λ f. []))
        none
        pending_flag
        "flag-1"
        flag_delivery
        []).0
      (flag_delivery ∷ [])
      pending_flag
      (redeliver flag_codec flag_replayer
        (facade_port (λ f. []))
        calm_redelivery
        "flag-1"
        (flag_delivery ∷ [])
        idle_site)
redeliver_accounts_example =
    redeliver_accounts flag_codec flag_replayer (facade_port (λ f. [])) calm_redelivery "flag-1"
      flag_delivery [] idle_site

-- A worker parks the aggregate before each call of the recovery, and the dispatcher closes.
abbrev worker_parks : Meanwhile
worker_parks f = parks "flag-1" (some (sentinel err_handler_timeout)) [] ∷ closes ∷ []

recover_keeps_undelivered_example :
    let start : Recovered Stored Facade = record { site = idle_site; reported = [] } in
    RecoverTable flag_codec flag_replayer worker_parks calm_redelivery none "flag-1"
      (flag_delivery ∷ [])
      start
      (redeliver flag_codec flag_replayer
        (facade_port worker_parks)
        calm_redelivery
        "flag-1"
        (flag_delivery ∷ [])
        idle_site)
      (recover_aggregate flag_codec flag_replayer
        (facade_port worker_parks)
        none
        calm_redelivery
        "flag-1"
        (flag_delivery ∷ [])
        start)
recover_keeps_undelivered_example =
    recover_keeps_undelivered flag_codec flag_replayer worker_parks calm_redelivery none "flag-1"
      (flag_delivery ∷ []) (record { site = idle_site; reported = [] }) (new-IsValid hooks)

-- The aggregate is parked, with its event left undelivered.
abbrev parked_registry : Registry
parked_registry =
    Parking.park (Aggregates.new hooks) "flag-1" (some (sentinel err_delivery_parked)) (1 ∷ [])

parked_registry-IsValid : IsValid parked_registry
parked_registry-IsValid =
    park-IsValid (Aggregates.new hooks) "flag-1" (some (sentinel err_delivery_parked)) (1 ∷ [])
      (new-IsValid hooks)

abbrev parked_site : Site Stored Facade
parked_site = record {
  store = pending_flag;
  dispatcher = record (Facade.new hooks) { registry = parked_registry };
}

resume_keeps_undelivered_example :
    let st = inspect parked_registry "flag-1" in
    let (_, f) = Facade.resume_undelivered "flag-1" 1 parked_site.dispatcher in
    let q =
      redeliver flag_codec flag_replayer
        (facade_port worker_parks)
        calm_redelivery
        "flag-1"
        (with_undelivered "flag-1" (flag_delivery ∷ []) st.undelivered)
        (record parked_site { dispatcher = f }) in
    ResumeTable flag_codec flag_replayer worker_parks calm_redelivery "flag-1"
      (st.parked && st.generation == 1)
      st.undelivered
      (flag_delivery ∷ [])
      parked_site
      q
      (resume_aggregate flag_codec flag_replayer
        (facade_port worker_parks)
        none
        calm_redelivery
        "flag-1"
        1
        (flag_delivery ∷ [])
        parked_site)
resume_keeps_undelivered_example =
    resume_keeps_undelivered flag_codec flag_replayer worker_parks calm_redelivery "flag-1" 1
      (flag_delivery ∷ []) parked_site parked_registry-IsValid

abbrev flag_reads : ℕ → LogRead Stored
flag_reads k = record { at_read = none; store = pending_flag }

pending_by_aggregate_lem_example :
    Groups
      (λ agg. true)
      flag_reads
      (pending_by_aggregate 3 flag_reads (batch_or_default 0) (λ agg. true))
pending_by_aggregate_lem_example =
    pending_by_aggregate_lem flag_reads 1 0 (λ agg. true) (λ k. omega arith) (omega arith)
