-- ===== src/Base/Dict/Assoc.antt =====
-- Association lists: a key is looked up from the front.
use mathlib.Core.Path.{◌≡◌, refl}
use mathlib.Core.Option.{Option, none, some}
use mathlib.Core.List.{List, [], ◌∷◌, map}
use native.Mathlib.Omega.{arith}
use asynx.Base.Tests.{if◌then◌else◌, is_some}
use asynx.Base.Compare.{Eq, ◌==◌}
use asynx.Base.Lists.{contains}

module _ {ℓ κ} {K : Type ℓ} {V : Type κ} ⦃e : Eq K⦄ where
  unfoldable pub without : K → List (K × V) → List (K × V)
  without key [] = []
  without key (entry ∷ entries) =
      let others = without key entries in if entry.0 == key then others else entry ∷ others

  unfoldable pub lookup : K → List (K × V) → Option V
  lookup key [] = none
  lookup key (entry ∷ entries) = if entry.0 == key then some entry.1 else lookup key entries

  pub contains-lookup :
      (key : K) (entries : List (K × V))
      → contains key (map (λ p. p.0) entries) ≡ is_some (lookup key entries)
  unfolding lookup
  contains-lookup key [] = refl
  contains-lookup key (entry ∷ entries) = ground (arith, contains-lookup key entries)

  pub lookup-without :
      (removed key : K) (entries : List (K × V))
      → lookup key (without removed entries) ≡ (if removed == key then none else lookup key entries)
  unfolding lookup without
  lookup-without removed key [] = ground arith
  lookup-without removed key (entry ∷ entries) = ground (
    arith,
    lookup-without removed key entries,
    e.beq_iff entry.0 removed,
    e.beq_iff entry.0 key,
    e.beq_iff removed key,
  )
