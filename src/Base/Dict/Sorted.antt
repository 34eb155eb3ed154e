-- ===== src/Base/Dict/Sorted.antt =====
-- slices.Sorted(maps.Keys(m)) for a map keyed by versions.
use Prim.Native.Nat.{ℕ, suc, ◌≤◌}
use mathlib.Core.Path.{◌≡◌, refl}
use mathlib.Core.Bool.{◌||◌}
use mathlib.Core.List.{List, [], ◌∷◌}
use native.Mathlib.Omega.{arith}
use asynx.Base.Tests.{if◌then◌else◌, ltb, is_some}
use asynx.Base.Compare.{◌==◌, nat_eq}
use asynx.Base.Lists.{contains}
use asynx.Base.Dict.{Dict, keys, get, contains-keys}

-- Keys of a map are distinct, so a key that is there is not put in again.
insert_key : ℕ → List ℕ → List ℕ
insert_key k [] = k ∷ []
insert_key k (x ∷ xs) =
    if ltb k x then k ∷ x ∷ xs else if k == x then x ∷ xs else x ∷ insert_key k xs

sort_keys : List ℕ → List ℕ
unfolding insert_key
sort_keys [] = []
sort_keys (k ∷ ks) = insert_key k (sort_keys ks)

pub sorted_keys {κ} : {V : Type κ} → Dict ℕ V → List ℕ
unfolding sort_keys
sorted_keys d = sort_keys (keys d)

-- At least the bound, and each larger than the one before it.
abbrev pub Ascends : ℕ → List ℕ → Type 0
Ascends n [] = Unit
Ascends n (x ∷ xs) = (n ≤ x) × Ascends (suc x) xs

insert_key-Ascends : (n k : ℕ) (xs : List ℕ) → n ≤ k → Ascends n xs → Ascends n (insert_key k xs)
unfolding insert_key
insert_key-Ascends n k [] h a = (h, tt)
insert_key-Ascends n k (x ∷ xs) h a = ground (arith, insert_key-Ascends (suc x) k xs)

sort_keys-Ascends : (ks : List ℕ) → Ascends 0 (sort_keys ks)
unfolding sort_keys
sort_keys-Ascends [] = tt
sort_keys-Ascends (k ∷ ks) =
    insert_key-Ascends 0 k (sort_keys ks) (omega arith) (sort_keys-Ascends ks)

contains-insert_key :
    (j k : ℕ) (xs : List ℕ) → contains j (insert_key k xs) ≡ (k == j || contains j xs)
unfolding insert_key
contains-insert_key j k [] = refl
contains-insert_key j k (x ∷ xs) = ground (arith, contains-insert_key j k xs)

contains-sort_keys : (j : ℕ) (ks : List ℕ) → contains j (sort_keys ks) ≡ contains j ks
unfolding sort_keys
contains-sort_keys j [] = refl
contains-sort_keys j (k ∷ ks) =
    ground (arith, contains-insert_key j k (sort_keys ks), contains-sort_keys j ks)

pub sorted_keys-Ascends {κ} : {V : Type κ} (d : Dict ℕ V) → Ascends 0 (sorted_keys d)
unfolding sorted_keys
sorted_keys-Ascends d = sort_keys-Ascends (keys d)

pub contains-sorted_keys {κ} :
    {V : Type κ} (d : Dict ℕ V) (k : ℕ) → contains k (sorted_keys d) ≡ is_some (get d k)
unfolding sorted_keys
contains-sorted_keys d k = ground (arith, contains-sort_keys k (keys d), contains-keys d k)
