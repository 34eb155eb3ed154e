-- ===== src/Base/Dict.antt =====
-- A Go map. The representation is private: clients have `dict_laws` and the sorted keys.
mod Assoc
pub mod Sorted
use asynx.Base.Tests.{if◌then◌else◌, is_some, if_cases}
use asynx.Base.Compare.{Eq, ◌==◌}
use asynx.Base.Lists.{contains}
use mathlib.Core.Path.{◌≡◌, refl, sym, ap, ◌∙◌, subst}
use mathlib.Core.Option.{Option, none, some}
use mathlib.Core.List.{List, [], ◌∷◌, map}
use native.Mathlib.Omega.{arith}
use Assoc.{lookup, without, lookup-without, contains-lookup}

pub record Dict {ℓ κ} (K : Type ℓ) (V : Type κ) : Type (ℓ ⊔ κ) where
  entries : List (K × V)

module _ {ℓ κ} {K : Type ℓ} {V : Type κ} ⦃e : Eq K⦄ where
  -- m[k]
  pub get : Dict K V → K → Option V
  unfolding lookup
  get d k = lookup k d.entries

  -- delete(m, k)
  pub remove : Dict K V → K → Dict K V
  unfolding without
  remove d k = record { entries = without k d.entries }

  -- m[k] = v
  pub put : Dict K V → K → V → Dict K V
  unfolding without
  put d k v = record { entries = (k, v) ∷ without k d.entries }

  -- The keys in the order of a `range` loop, which Go leaves open.
  pub keys : Dict K V → List K
  keys d = map (λ p. p.0) d.entries

  pub get-remove :
      (d : Dict K V) (k j : K) → get (remove d k) j ≡ (if k == j then none else get d j)
  unfolding get remove
  get-remove d k j = lookup-without k j d.entries

  pub get-put :
      (d : Dict K V) (k j : K) (v : V) → get (put d k v) j ≡ (if k == j then some v else get d j)
  unfolding get put
  get-put d k j v = ground (arith, lookup-without k j d.entries)

  -- What holds of a new binding and of the old ones holds of all that there are then.
  pub put-cases {μ} :
      (P : K → V → Type μ) (d : Dict K V) (k : K) (v : V)
      → P k v
      → ((j : K) (w : V) → get d j ≡ some w → P j w)
      → (j : K) (w : V) → get (put d k v) j ≡ some w
      → P j w
  put-cases P d k v new old j w h =
      if_cases (λ o. o ≡ some w → P j w) (k == j)
        (λ same there.
          subst (λ q. P q w) ((e.beq_iff k j).0 same)
            (subst (P k) (ap (λ o. elim o [ none ↦ v | some a ↦ a ]) there) new))
        (λ _ there. old j w there) (sym (get-put d k j v) ∙ h)

  pub contains-keys : (d : Dict K V) (k : K) → contains k (keys d) ≡ is_some (get d k)
  unfolding get keys
  contains-keys d k = contains-lookup k d.entries

module _ {ℓ κ} {K : Type ℓ} {V : Type κ} where
  -- make(map[K]V)
  pub empty : Dict K V
  empty = record { entries = [] }

module _ {ℓ κ} {K : Type ℓ} {V : Type κ} ⦃e : Eq K⦄ where
  pub get-empty : (k : K) → get (empty {V = V}) k ≡ none
  unfolding get empty
  get-empty k = refl

pub ruleset dict_laws = (get-empty, get-remove, get-put)
