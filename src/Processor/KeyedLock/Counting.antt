-- ===== src/Processor/KeyedLock/Counting.antt =====
-- The calls that use a key, those that hold it, and those that use another entry than its own.
use asynx.Processor.KeyedLock.{
  Task, Phase, Bool, String, List, true, ℕ, ◌∷◌, false, ◌==◌, ◌++◌, holding,
}
use asynx.Base.{
  ◌==◌, ◌++◌, ◌≤◌, ◌&&◌, arith, if◌then◌else◌, string_eq, ◌≡◌, not, [], ◌+◌, refl, nat_eq,
}

abbrev pub count : (Task → Bool) → List Task → ℕ
count p [] = 0
count p (t ∷ ts) = (if p t then 1 else 0) + count p ts

abbrev pub is_holding : Phase → Bool
is_holding holding = true
is_holding _ = false

abbrev pub users : String → List Task → ℕ
users key = count λ t. t.key == key

abbrev pub holders : String → List Task → ℕ
holders key = count λ t. t.key == key && is_holding t.phase

abbrev pub strays : String → ℕ → List Task → ℕ
strays key a = count λ t. t.key == key && not (t.entry == a)

pub count_middle :
    (p : Task → Bool) (before after : List Task) (t : Task)
    → count p (before ++ t ∷ after) ≡ (if p t then 1 else 0) + count p (before ++ after)
count_middle p [] after t = refl
count_middle p (b ∷ before) after t = omega (arith, count_middle p before after t)

pub holders_le_users : (key : String) (ts : List Task) → holders key ts ≤ users key ts
holders_le_users key [] = omega arith
holders_le_users key (t ∷ ts) = ground (arith, holders_le_users key ts)

pub strays_le_users : (key : String) (a : ℕ) (ts : List Task) → strays key a ts ≤ users key ts
strays_le_users key a [] = omega arith
strays_le_users key a (t ∷ ts) = ground (arith, strays_le_users key a ts)
