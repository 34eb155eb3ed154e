-- ===== src/Store/Memory/Reads.antt =====
-- Reads of an ordered stream against a description that does not search, and what an append
-- changes for them.
use asynx.Base.{
  List, ℕ, Option, keep_if, ◌≤◌, String, if◌then◌else◌, none, leb, ◌≡◌, drop, ◌<◌, is_empty, ltb,
  ◌∷◌, is_some, false, [], length, arith, suc, ◌∙◌, take, ◌==◌, some, ap, refl, zero, nat_eq,
}
use asynx.Store.Memory.Slices.{first_not_below, is_at_first, insert_at}
use asynx.Store.Memory.{entries_from, read_from, Entry, Memory, read_range, entries_of, to_blobs}
use asynx.Store.Memory.Order.{Above, IsOrdered}
use asynx.Models.Errors.{ok}

module _ {ℓ} {B : Type ℓ} where
  -- The record of a version, by a walk over the whole stream.
  pub lookup_version : List (Entry B) → ℕ → Option B
  lookup_version [] version = none
  lookup_version (e ∷ es) version =
      if e.version == version then some e.blob else lookup_version es version

  -- The records from a version on, by a test of each of them.
  abbrev pub from_version : ℕ → List (Entry B) → List (Entry B)
  from_version version = keep_if λ e. leb version e.version

  pub from_version_all :
      (n v : ℕ) (es : List (Entry B)) → v ≤ n → Above n es → from_version v es ≡ es
  from_version_all n v [] h a = refl
  from_version_all n v (e ∷ es) h a = ground (arith, from_version_all (suc e.version) v es)

  drop-first_not_below :
      (n v : ℕ) (es : List (Entry B))
      → Above n es
      → drop (first_not_below es v) es ≡ from_version v es
  unfolding first_not_below
  drop-first_not_below n v [] a = refl
  drop-first_not_below n v (e ∷ es) a =
      ground
        (arith, drop-first_not_below (suc e.version) v es, from_version_all (suc e.version) v es)

  lookup_below : (n v : ℕ) (es : List (Entry B)) → Above n es → v < n → lookup_version es v ≡ none
  unfolding lookup_version
  lookup_below n v [] a h = refl
  lookup_below n v (e ∷ es) a h = ground (arith, lookup_below (suc e.version) v es)

  pub is_at_first-lookup :
      (n v : ℕ) (es : List (Entry B))
      → Above n es
      → is_at_first es v ≡ is_some (lookup_version es v)
  unfolding is_at_first lookup_version
  is_at_first-lookup n v [] a = refl
  is_at_first-lookup n v (e ∷ es) a =
      ground (arith, is_at_first-lookup (suc e.version) v es, lookup_below (suc e.version) v es)

  pub lookup-insert_at :
      (n : ℕ) (es : List (Entry B)) (e : Entry B) (w : ℕ)
      → Above n es
      → is_at_first es e.version ≡ false
      → lookup_version (insert_at es (first_not_below es e.version) e) w
        ≡ (if e.version == w then some e.blob else lookup_version es w)
  unfolding lookup_version insert_at is_at_first first_not_below
  lookup-insert_at n [] e w a h = refl
  lookup-insert_at n (x ∷ es) e w a h = ground (arith, lookup-insert_at (suc x.version) es e w)

  drop_empty : (es : List (Entry B)) (i : ℕ) → (if is_empty es then [] else drop i es) ≡ drop i es
  drop_empty [] zero = refl
  drop_empty [] (suc i) = refl
  drop_empty (e ∷ es) i = refl

  entries_from_lem :
      (s : Memory B) (id : String) (v : ℕ)
      → IsOrdered s
      → entries_from s id v ≡ from_version v (entries_of s id)
  unfolding entries_from
  entries_from_lem s id v h =
      drop_empty (entries_of s id) (first_not_below (entries_of s id) v)
      ∙ drop-first_not_below 0 v (entries_of s id) (h.ascending id)

  take_short :
      (c : ℕ) (es : List (Entry B)) → (if ltb c (length es) then take c es else es) ≡ take c es
  take_short zero [] = refl
  take_short zero (e ∷ es) = ground arith
  take_short (suc c) [] = ground arith
  take_short (suc c) (e ∷ es) = ground (arith, take_short c es)

  -- On an ordered store `ReadFrom` returns exactly the records whose version is at least the one
  -- asked for, in version order, and `ReadRange` the first `count` of them.
  pub reads_lem :
      (s : Memory B) (id : String) (v count : ℕ)
      → IsOrdered s
      → (read_from none s id v ≡ ok (to_blobs (from_version v (entries_of s id))))
        × (read_range none s id v count
            ≡ ok (to_blobs (take count (from_version v (entries_of s id)))))
  unfolding read_from read_range
  reads_lem s id v count h = (
    rw (entries_from_lem s id v h) refl,
    rw (entries_from_lem s id v h)
        (ap (λ es. ok (to_blobs es)) (take_short count (from_version v (entries_of s id)))),
  )
