-- ===== src/Processor/KeyedLock/Exclusion.antt =====
-- What holds of a lock and of the calls under way, and that a change at one key keeps it.
use asynx.Base.Dict
use asynx.Base.{
  Bool, ℕ, List, String, if◌then◌else◌, Option, ◌==◌, ◌≡◌, some, false, ◌<◌, ◌≤◌, ◌+◌, none, ◌≢◌,
  Option-cases, sym, string_eq, inl, ◌∙◌, nat_eq, ap, arith, Bool-cases, inr, nat_eqb_iff,
}
use asynx.Processor.KeyedLock.{KeyedLock, Task}
use asynx.Processor.KeyedLock.Counting.{users, holders, strays}
use mathlib.Core.Path.{subst}

abbrev pub tokens : Bool → ℕ
tokens b = if b then 1 else 0

-- What is so of a key with this entry: its references are counted, one call holds it or its token is
-- there, and the calls that use the key use this entry.
abbrev pub FitsAt : KeyedLock → List Task → String → Option ℕ → Type 0
FitsAt k ts key none = users key ts ≡ 0
FitsAt k ts key (some a) =
    (a < k.fresh)
    × ((k.heap a).refs ≡ users key ts)
    × (1 ≤ users key ts)
    × (holders key ts + tokens (k.heap a).token ≡ 1)
    × (strays key a ts ≡ 0)

pub record IsSound (k : KeyedLock) (ts : List Task) : Type 0 where
  pub fits : (key : String) → FitsAt k ts key (Dict.get k.entries key)
  -- No two keys have one entry.
  pub own :
      (key key' : String) (a : ℕ)
      → Dict.get k.entries key ≡ some a
      → Dict.get k.entries key' ≡ some a
      → key ≡ key'

-- The change of a state at one key, which has the entry, if any.
pub record Changes (key : String) (a : ℕ) (k k' : KeyedLock) (ts ts' : List Task) : Type 0 where
  pub entries : (j : String) → (key == j) ≡ false → Dict.get k'.entries j ≡ Dict.get k.entries j
  pub heap : (b : ℕ) → (b == a) ≡ false → k'.heap b ≡ k.heap b
  pub fresh : k.fresh ≤ k'.fresh
  pub users' : (j : String) → (key == j) ≡ false → users j ts' ≡ users j ts
  pub holders' : (j : String) → (key == j) ≡ false → holders j ts' ≡ holders j ts
  pub strays' : (j : String) (b : ℕ) → (key == j) ≡ false → strays j b ts' ≡ strays j b ts
  pub unshared : (j : String) → (key == j) ≡ false → Dict.get k.entries j ≢ some a

elsewhere :
    (key : String) (a : ℕ) (k k' : KeyedLock) (ts ts' : List Task)
    → Changes key a k k' ts ts'
    → (j : String) → (key == j) ≡ false
    → FitsAt k ts j (Dict.get k.entries j)
    → FitsAt k' ts' j (Dict.get k.entries j)
elsewhere key a k k' ts ts' c j d f = elim (Option-cases (Dict.get k.entries j)) [
  | inl missing ↦
      subst (FitsAt k' ts' j) (sym missing)
        (omega (arith, subst (FitsAt k ts j) missing f, c.users' j d))
  | inr (b, there) ↦
      let old : FitsAt k ts j (some b) = subst (FitsAt k ts j) there f in
      let same : k'.heap b ≡ k.heap b = elim (Bool-cases (b == a)) [
        | inl e ↦ absurd (c.unshared j d (there ∙ ap some ((nat_eqb_iff b a).0 e)))
        | inr e ↦ c.heap b e
      ] in
      subst (FitsAt k' ts' j) (sym there) (
        omega (arith, old.0, c.fresh),
        ground (arith, old.1, c.users' j d, same),
        omega (arith, old.2, c.users' j d),
        ground (arith, old.3, c.holders' j d, same),
        omega (arith, old.4, c.strays' j b d),
      )
]

pub change-IsSound :
    (key : String) (a : ℕ) (k k' : KeyedLock) (ts ts' : List Task) (o : Option ℕ)
    → IsSound k ts
    → Changes key a k k' ts ts'
    → Dict.get k'.entries key ≡ o
    → FitsAt k' ts' key o
    → ((b : ℕ) → o ≡ some b → b ≡ a)
    → IsSound k' ts'
change-IsSound key a k k' ts ts' o s c here f only = record {
  fits = λ j. elim (Bool-cases (key == j)) [
    | inl e ↦
        subst (λ x. FitsAt k' ts' x (Dict.get k'.entries x)) ((string_eq.beq_iff key j).0 e)
          (subst (FitsAt k' ts' key) (sym here) f)
    | inr d ↦
        subst (FitsAt k' ts' j) (sym (c.entries j d)) (elsewhere key a k k' ts ts' c j d (s.fits j))
  ];
  own = λ i j b at_i at_j. elim (Bool-cases (key == i)) [
    | inl e ↦ elim (Bool-cases (key == j)) [
      | inl e' ↦ sym ((string_eq.beq_iff key i).0 e) ∙ (string_eq.beq_iff key j).0 e'
      | inr d ↦ absurd (apart j b d ((string_eq.beq_iff key i).0 e) at_i at_j)
    ]
    | inr d ↦ elim (Bool-cases (key == j)) [
      | inl e ↦ absurd (apart i b d ((string_eq.beq_iff key j).0 e) at_j at_i)
      | inr d' ↦ s.own i j b (sym (c.entries i d) ∙ at_i) (sym (c.entries j d') ∙ at_j)
    ]
  ];
}
  where
    apart :
        (j : String) (b : ℕ) {i : String}
        → (key == j) ≡ false
        → key ≡ i
        → Dict.get k'.entries i ≡ some b
        → Dict.get k'.entries j ≡ some b
        → ⊥
    apart j b d e at_i at_j =
        let is_a : b ≡ a = only b (sym here ∙ ap (λ x. Dict.get k'.entries x) e ∙ at_i) in
        c.unshared j d (sym (c.entries j d) ∙ at_j ∙ ap some is_a)
