-- ===== src/Processor/KeyedLock/Joining.antt =====
-- The steps that a call of `Lock` or `TryLock` starts with.
use asynx.Base.Dict
use asynx.Processor.KeyedLock.{
  KeyedLock, begin_lock, try_lock, List, entry_of, Task, String, ℕ, Phase, ◌==◌, ◌≡◌, waiting,
  taken, holding, write, count_ref, receive,
}
use asynx.Processor.KeyedLock.Exclusion.{IsSound, tokens, FitsAt, change-IsSound}
use asynx.Base.{
  refl, ◌==◌, ◌≡◌, false, some, none, Option-cases, ◌∷◌, ◌≤◌, inl, ◌+◌, ◌<◌, arith, ==_refl, inr,
  if_cases, string_eq, ap, Option, ◌≢◌, ◌∙◌, nat_eq, refl, true,
}
use asynx.Processor.KeyedLock.Counting.{
  is_holding, users, holders, strays, holders_le_users, strays_le_users,
}
use mathlib.Core.Path.{subst}

-- A call joins the others with the entry of its key.
joined-IsSound :
    (k k' : KeyedLock) (ts : List Task) (key : String) (a : ℕ) (p : Phase)
    → IsSound k ts
    → ((j : String) → (key == j) ≡ false → Dict.get k'.entries j ≡ Dict.get k.entries j)
    → Dict.get k'.entries key ≡ some a
    → ((b : ℕ) → (b == a) ≡ false → k'.heap b ≡ k.heap b)
    → k.fresh ≤ k'.fresh
    → a < k'.fresh
    → (k'.heap a).refs ≡ users key ts + 1
    → holders key ts + tokens (is_holding p) + tokens (k'.heap a).token ≡ 1
    → strays key a ts ≡ 0
    → ((j : String) → (key == j) ≡ false → Dict.get k.entries j ≢ some a)
    → IsSound k' (record { key = key; entry = a; phase = p } ∷ ts)
joined-IsSound k k' ts key a p s entries there heap fresh below refs token stray unshared =
    change-IsSound key a k k' ts (record { key = key; entry = a; phase = p } ∷ ts) (some a) s
      (record {
        entries = entries;
        heap = heap;
        fresh = fresh;
        users' = λ j d. ground (arith, d);
        holders' = λ j d. ground (arith, d);
        strays' = λ j b d. ground (arith, d);
        unshared = unshared;
      })
      there
      (
        below,
        ground (arith, refs, ==_refl key),
        ground (arith, ==_refl key),
        ground (arith, token, ==_refl key),
        ground (arith, stray, ==_refl key, ==_refl a),
      )
      (λ b e. cc e)

-- The call finds the entry of its key.
found-IsSound :
    (k k' : KeyedLock) (ts : List Task) (key : String) (a : ℕ) (p : Phase)
    → IsSound k ts
    → Dict.get k.entries key ≡ some a
    → k'.entries ≡ k.entries
    → k'.fresh ≡ k.fresh
    → ((b : ℕ) → (b == a) ≡ false → k'.heap b ≡ k.heap b)
    → (k'.heap a).refs ≡ (k.heap a).refs + 1
    → tokens (is_holding p) + tokens (k'.heap a).token ≡ tokens (k.heap a).token
    → IsSound k' (record { key = key; entry = a; phase = p } ∷ ts)
found-IsSound k k' ts key a p s there entries fresh heap refs token =
    let f = subst (FitsAt k ts key) there (s.fits key) in
    joined-IsSound k k' ts key a p s (λ j d. ap (λ x. Dict.get x j) entries)
      (ap (λ x. Dict.get x key) entries ∙ there) heap (omega (arith, fresh))
      (omega (arith, f.0, fresh)) (omega (arith, f.1, refs)) (omega (arith, f.3, token)) f.4
      (λ j d there'. ground (arith, d, (string_eq.beq_iff key j).1 (s.own key j a there there')))

-- The call makes the entry of its key.
made-IsSound :
    (k k' : KeyedLock) (ts : List Task) (key : String) (p : Phase)
    → IsSound k ts
    → Dict.get k.entries key ≡ none
    → k'.entries ≡ Dict.put k.entries key k.fresh
    → k'.fresh ≡ k.fresh + 1
    → ((b : ℕ) → (b == k.fresh) ≡ false → k'.heap b ≡ k.heap b)
    → (k'.heap k.fresh).refs ≡ 1
    → tokens (is_holding p) + tokens (k'.heap k.fresh).token ≡ 1
    → IsSound k' (record { key = key; entry = k.fresh; phase = p } ∷ ts)
made-IsSound k k' ts key p s missing entries fresh heap refs token =
    let unused = subst (FitsAt k ts key) missing (s.fits key) in
    joined-IsSound k k' ts key k.fresh p s
      (λ j d.
        ap (λ x. Dict.get x j) entries ∙ ground (arith, Dict.get-put k.entries key j k.fresh, d))
      (ap (λ x. Dict.get x key) entries
        ∙ ground (arith, Dict.get-put k.entries key key k.fresh, ==_refl key))
      heap (omega (arith, fresh)) (omega (arith, fresh)) (omega (arith, refs, unused))
      (omega (arith, token, unused, holders_le_users key ts))
      (omega (arith, unused, strays_le_users key k.fresh ts))
      (λ j d there. let f = subst (FitsAt k ts j) there (s.fits j) in omega (arith, f.0))

abbrev made : String → KeyedLock → KeyedLock
made key k =
    write k.fresh (record { token = true; refs = 0 })
      (record k { entries = Dict.put k.entries key k.fresh; fresh = k.fresh + 1 })

pub begin_lock-IsSound :
    (k : KeyedLock) (ts : List Task) (key : String)
    → IsSound k ts
    → IsSound
        (begin_lock key k).1
        (record { key = key; entry = (begin_lock key k).0; phase = waiting } ∷ ts)
unfolding begin_lock entry_of
begin_lock-IsSound k ts key s = elim (Option-cases (Dict.get k.entries key)) [
  | inl missing ↦
      rw (missing, entry_of)
        (made-IsSound k _ ts key waiting s missing refl refl (λ b d. ground (arith, d))
          (ground (arith, ==_refl k.fresh)) (ground (arith, ==_refl k.fresh)))
  | inr (a, there) ↦
      rw (there, entry_of)
        (found-IsSound k _ ts key a waiting s there refl refl (λ b d. ground (arith, d))
          (ground (arith, ==_refl a)) (ground (arith, ==_refl a)))
]

pub try_lock-IsSound :
    (k : KeyedLock) (ts : List Task) (key : String)
    → IsSound k ts
    → IsSound (try_lock key k).1 (taken key (try_lock key k).0 ts)
unfolding try_lock entry_of
try_lock-IsSound k ts key s = elim (Option-cases (Dict.get k.entries key)) [
  | inl missing ↦
      rw (missing, entry_of)
        (if_cases {A = Option ℕ × KeyedLock} (λ x. IsSound x.1 (taken key x.0 ts))
          ((made key k).heap k.fresh).token
          (λ free.
            made-IsSound k (count_ref k.fresh (receive k.fresh (made key k))) ts key holding s
              missing refl refl (λ b d. ground (arith, d)) (ground (arith, ==_refl k.fresh))
              (ground (arith, ==_refl k.fresh)))
          (λ busy. absurd (ground (arith, busy, ==_refl k.fresh))))
  | inr (a, there) ↦
      rw (there, entry_of)
        (if_cases {A = Option ℕ × KeyedLock} (λ x. IsSound x.1 (taken key x.0 ts)) (k.heap a).token
          (λ free.
            found-IsSound k (count_ref a (receive a k)) ts key a holding s there refl refl
              (λ b d. ground (arith, d)) (ground (arith, ==_refl a))
              (ground (arith, ==_refl a, free)))
          (λ busy. s))
]
