-- ===== src/Store/Memory/Slices.antt =====
-- The calls of the package slices on a stream. `slices.BinarySearchFunc` is given on a slice in
-- ascending order by its documented result: the first place whose version is not below the
-- target, and whether the target stands there.
use asynx.Base.{ℕ, zero, suc, Bool, false, List, [], ◌∷◌, ltb, if◌then◌else◌, ◌==◌, nat_eq}

pub record Entry {ℓ} (B : Type ℓ) : Type ℓ where
  pub version : ℕ
  pub blob : B

module _ {ℓ} {B : Type ℓ} where
  unfoldable pub first_not_below : List (Entry B) → ℕ → ℕ
  first_not_below [] version = 0
  first_not_below (e ∷ es) version =
      if ltb e.version version then suc (first_not_below es version) else 0

  unfoldable pub is_at_first : List (Entry B) → ℕ → Bool
  is_at_first [] version = false
  is_at_first (e ∷ es) version =
      if ltb e.version version then is_at_first es version else e.version == version

  abbrev pub binary_search : List (Entry B) → ℕ → ℕ × Bool
  binary_search entries version = (first_not_below entries version, is_at_first entries version)

  -- slices.Insert(entries, i, entry)
  unfoldable pub insert_at : List (Entry B) → ℕ → Entry B → List (Entry B)
  insert_at es zero x = x ∷ es
  insert_at [] (suc i) x = x ∷ []
  insert_at (e ∷ es) (suc i) x = e ∷ insert_at es i x

  -- slices.Delete(entries, i, i+1)
  unfoldable pub delete_at : List (Entry B) → ℕ → List (Entry B)
  delete_at [] i = []
  delete_at (e ∷ es) zero = es
  delete_at (e ∷ es) (suc i) = e ∷ delete_at es i
