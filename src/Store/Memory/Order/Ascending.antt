-- ===== src/Store/Memory/Order/Ascending.antt =====
-- Streams in ascending order, under the two writes of a stream.
use asynx.Base.{ℕ, suc, ◌≤◌, ◌≡◌, false, List, [], ◌∷◌, arith, nat_eq}
use asynx.Store.Memory.Slices.{Entry, first_not_below, is_at_first, insert_at}

module _ {ℓ} {B : Type ℓ} where
  -- The versions are at least the bound, and each is larger than the one before it.
  abbrev pub Above : ℕ → List (Entry B) → Type 0
  Above n [] = Unit
  Above n (e ∷ es) = (n ≤ e.version) × Above (suc e.version) es

  pub Above-insert_at :
      (n : ℕ) (es : List (Entry B)) (e : Entry B)
      → Above n es
      → n ≤ e.version
      → is_at_first es e.version ≡ false
      → Above n (insert_at es (first_not_below es e.version) e)
  unfolding first_not_below is_at_first insert_at
  Above-insert_at n [] e a h f = (h, tt)
  Above-insert_at n (x ∷ es) e a h f = ground (arith, Above-insert_at (suc x.version) es e)
