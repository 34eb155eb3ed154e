-- ===== src/Processor/Recovery/Scanning.antt =====
-- The part of internal/processor/processor_recovery.go that reads the delivery log in growing
-- prefixes and groups its entries by aggregate.
use asynx.Base.Dict
use asynx.Base.Dict.{Dict}
use asynx.Store.Memory.{pending_deliveries, Memory, Ctx}
use asynx.Models.Records.{Delivery, delivery_eqb}
use asynx.Base.{
  Eq, List, String, ◌∷◌, ℕ, ◌≡◌, Bool, Option, if◌then◌else◌, true, is_some, ◌==◌, ◌↔◌, not, none,
  [], ◌||◌, string_eq, suc, leb, ◌++◌, arith, some, ◌^◌, nat_eq, ==_refl, ltb, length, ◌*◌, ◌%◌,
  zero, false,
}
use asynx.Processor.Recovery.{first_error, Error, fail, note, ok}
use mathlib.Core.Path.{subst}

pub delivery_eqb_iff : (a b : Delivery) → (delivery_eqb a b ≡ true) ↔ (a ≡ b)
delivery_eqb_iff a b = (
  λ h.
      let same_aggregate : a.aggregate_id ≡ b.aggregate_id =
        (string_eq.beq_iff a.aggregate_id b.aggregate_id).0 (ground (arith, h)) in
      let same_version : a.version ≡ b.version =
        (nat_eq.beq_iff a.version b.version).0 (ground (arith, h)) in
      (λ i. record { aggregate_id = same_aggregate i; version = same_version i }),
  λ e.
      subst (λ x. delivery_eqb a x ≡ true) e
        (ground (arith, ==_refl a.aggregate_id, ==_refl a.version)),
)

instance abbrev pub delivery_eq : Eq Delivery
delivery_eq = record { beq = delivery_eqb; beq_iff = delivery_eqb_iff }

-- What one read of the log meets, since others change it in between.
pub record LogRead (D : Type 0) : Type 0 where
  pub at_read : Ctx
  pub store : Memory D

-- The backlogs by aggregate, with the aggregates by first appearance.
pub record Backlogs : Type 0 where
  pub backlogs : Dict String (List Delivery)
  pub order : List String

-- backlogs[agg]
abbrev pub backlog_of : Backlogs → String → List Delivery
backlog_of g agg = elim (Dict.get g.backlogs agg) [ none ↦ [] | some ds ↦ ds ]

-- slices.DeleteFunc with a test that marks what it has seen.
unfoldable pub unseen_of :
    List Delivery → Dict Delivery (Unit {0}) → List Delivery × Dict Delivery (Unit {0})
unseen_of [] seen = ([], seen)
unseen_of (d ∷ ds) seen =
    let rest = unseen_of ds (Dict.put seen d tt) in
    if is_some (Dict.get seen d) then rest else (d ∷ rest.0, rest.1)

-- The visit of pendingByAggregate.
unfoldable pub collect : (String → Bool) → Delivery → Backlogs → Option Error × Backlogs
collect want d g =
    if not (want d.aggregate_id) then (none, g) else elim (Dict.get g.backlogs d.aggregate_id) [
      | none ↦ (
        none,
        record {
          backlogs = Dict.put g.backlogs d.aggregate_id (d ∷ []);
          order = g.order ++ d.aggregate_id ∷ [];
        },
      )
      | some ds ↦ (none, record g { backlogs = Dict.put g.backlogs d.aggregate_id (ds ++ d ∷ []) })
    ]

module _ {D : Type 0} where
  -- `limit` is an int as its bit pattern. `none` is a scan that is out of fuel.
  unfoldable pub scan_from :
      (fuel : ℕ)
      → (ℕ → LogRead D)
      → (limit : ℕ) → Dict Delivery (Unit {0})
      → (Delivery → Backlogs → Option Error × Backlogs)
      → Backlogs
      → Option (Option Error × Backlogs)
  unfolding unseen_of first_error pending_deliveries
  scan_from zero reads limit seen visit g = none
  scan_from (suc fuel) reads limit seen visit g =
      let read = reads 0 in
      elim (pending_deliveries read.at_read read.store limit) [
        | fail e ↦ some (some (note e "asynx: recovery"), g)
        | ok pending ↦
            let (unseen, seen') = unseen_of pending seen in
            let (failure, g') = first_error visit unseen g in
            elim failure [
              | some e ↦ some (some (note e "asynx: recovery"), g')
              | none ↦ elim (ltb (length pending) limit) [
                | true ↦ some (none, g')
                | false ↦ scan_from fuel (λ k. reads (suc k)) ((limit * 2) % 2 ^ 64) seen' visit g'
              ]
            ]
      ]

  unfoldable pub pending_by_aggregate :
      (fuel : ℕ)
      → (ℕ → LogRead D)
      → (batch : ℕ) → (String → Bool)
      → Option (Option Error × Backlogs)
  unfolding scan_from collect
  pending_by_aggregate fuel reads batch want =
      scan_from fuel reads batch Dict.empty (collect want)
        (record { backlogs = Dict.empty; order = [] })

-- The default of `batch`, an int as its bit pattern.
unfoldable pub batch_or_default : ℕ → ℕ
batch_or_default batch = if batch == 0 || leb (2 ^ 63) batch then 100 else batch
