-- ===== src/Processor/Hooks.antt =====
-- internal/processor/exec/exec.go: the work that commits with an event.
use asynx.Base.{
  String, Option, List, Bool, if◌then◌else◌, false, some, none, true, ◌==◌, is_empty, ◌∷◌, ◌&&◌,
  not, string_eq, [], is_some,
}
use asynx.Store.Memory.{Ctx}
use asynx.Store.Memory.Transaction.{
  Program, returns, calls, observes, puts_receipt, enqueues_delivery, interrupted, panics,
}
use asynx.Models.Records.{Event, Receipt}
use asynx.Models.Errors.{Error, wrap, sentinel, err_sync_projection}
use asynx.EventStore.Writer.{TxHook}

-- `fn` may call the transaction in any way.
pub record SyncProjection (T D : Type 0) : Type 0 where
  pub matches : String → Bool
  pub fn : Event T → Program D

-- The context at PutReceipt and at EnqueueDelivery.
pub record HookCtxs : Type 0 where
  pub at_receipt : Ctx
  pub at_delivery : Ctx

module _ {B : Type 0} where
  -- A function that runs another one in the transaction, and then goes on with its error.
  unfoldable pub and_then : Program B → (Option Error → Program B) → Program B
  and_then (returns o) k = k o
  and_then panics k = panics
  and_then (calls call f) k = calls call (λ o. and_then (f o) k)
  and_then (observes f) k = observes (λ s. and_then (f s) k)
  and_then (interrupted id e p) k = interrupted id e (and_then p k)

-- utils.FirstError over programs
abbrev pub go_on : {B : Type 0} → Option Error → Program B → Program B
go_on (some e) rest = returns (some e)
go_on none rest = rest

abbrev wrap_sync : {D : Type 0} → Option Error → Program D
wrap_sync none = returns none
wrap_sync (some e) = returns (some (wrap (sentinel err_sync_projection) e))

abbrev pub receipt_of : {T : Type 0} → Event T → Receipt
receipt_of evt = record {
  accepted = true;
  aggregate_id = evt.aggregate_id;
  event_id = evt.id;
  version = evt.version;
  rejection = "";
}

abbrev pub accepts : Option (String → Bool) → Bool → String → Bool
accepts none dispatched name = false
accepts (some f) dispatched name = dispatched && f name

module _ {T D : Type 0} where
  unfoldable pub project : List (SyncProjection T D) → Event T → Program D
  unfolding and_then
  project [] evt = returns none
  project (p ∷ ps) evt =
      let rest = project ps evt in
      if p.matches evt.event_name then and_then (p.fn evt) (λ o. go_on o rest) else rest

  unfoldable pub run_sync_projections : List (SyncProjection T D) → Event T → Program D
  unfolding project
  run_sync_projections syncs evt = and_then (project syncs evt) wrap_sync

  unfoldable pub put_accepted_receipt : Ctx → String → Event T → Program D
  put_accepted_receipt ctx command_id evt =
      if command_id == ""
      then returns none
      else calls (puts_receipt ctx command_id (receipt_of evt)) returns

  unfoldable pub record_delivery : HookCtxs → Bool → Event T → Program D
  record_delivery ctxs durable evt =
      if durable
      then calls (enqueues_delivery ctxs.at_delivery evt.aggregate_id evt.version) returns
      else returns none

  unfoldable pub hook_body :
      HookCtxs → List (SyncProjection T D) → Bool → String → Event T → Program D
  unfolding and_then run_sync_projections put_accepted_receipt record_delivery
  hook_body ctxs syncs durable command_id evt = and_then (run_sync_projections syncs evt) (λ o₁.
      go_on o₁ (
        and_then (put_accepted_receipt ctxs.at_receipt command_id evt)
          (λ o₂. go_on o₂ (record_delivery ctxs durable evt))))

  unfoldable pub tx_hook :
      HookCtxs
      → List (SyncProjection T D)
      → Option (String → Bool)
      → (dispatched : Bool) → String
      → TxHook T D
  unfolding hook_body
  tx_hook ctxs syncs durable_match dispatched command_id =
      if is_empty syncs && not (is_some durable_match) && command_id == ""
      then none
      else some (λ evt.
        hook_body ctxs syncs (accepts durable_match dispatched evt.event_name) command_id evt)
