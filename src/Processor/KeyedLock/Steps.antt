-- ===== src/Processor/KeyedLock/Steps.antt =====
-- Each step changes the lock at one key.
use asynx.Base.Dict
use asynx.Processor.KeyedLock.{
  KeyedLock, List, Task, String, ℕ, Phase, ◌++◌, release, leaving, write,
}
use asynx.Processor.KeyedLock.Exclusion.{IsSound, FitsAt, tokens, change-IsSound}
use asynx.Base.{
  ◌++◌, ◌∷◌, ◌≡◌, some, ◌==◌, Option-cases, false, inl, arith, ==_refl, inr, true, ◌+◌, ◌&&◌,
  if◌then◌else◌, not, ◌∙◌, ap, sym, nat_eqb_iff, string_eq, nat_eq, ◌-◌, if_cases, none, refl,
}
use mathlib.Core.Path.{subst}
use asynx.Processor.KeyedLock.Counting.{count_middle, is_holding, users}

-- The entry of a call under way is that of its key.
entry_there :
    (k : KeyedLock) (before after : List Task) (key : String) (a : ℕ) (p : Phase)
    → IsSound k (before ++ record { key = key; entry = a; phase = p } ∷ after)
    → Dict.get k.entries key ≡ some a
entry_there k before after key a p s =
    let t : Task = record { key = key; entry = a; phase = p } in
    elim (Option-cases (Dict.get k.entries key)) [
      | inl missing ↦
          let none_use = subst (FitsAt k (before ++ t ∷ after) key) missing (s.fits key) in
          absurd
            (ground (arith, none_use, count_middle (λ t. t.key == key) before after t, ==_refl key))
      | inr (b, there) ↦
          let fits = subst (FitsAt k (before ++ t ∷ after) key) there (s.fits key) in
          let same : (a == b) ≡ true = ground (
            arith,
            fits.4,
            ==_refl key,
            count_middle (λ t. t.key == key && not (t.entry == b)) before after t,
          ) in
          there ∙ ap some (sym ((nat_eqb_iff a b).0 same))
    ]

-- What is so of the key of a call under way.
fits_there :
    (k : KeyedLock) (before after : List Task) (key : String) (a : ℕ) (p : Phase)
    → IsSound k (before ++ record { key = key; entry = a; phase = p } ∷ after)
    → FitsAt k (before ++ record { key = key; entry = a; phase = p } ∷ after) key (some a)
fits_there k before after key a p s =
    let ts : List Task = before ++ record { key = key; entry = a; phase = p } ∷ after in
    subst (FitsAt k ts key) (entry_there k before after key a p s) (s.fits key)

-- A call goes on: its phase changes, and the token of its entry.
pub moved-IsSound :
    (k k' : KeyedLock) (before after : List Task) (key : String) (a : ℕ) (p q : Phase)
    → let t : Task = record { key = key; entry = a; phase = p } in
      let t' : Task = record { key = key; entry = a; phase = q } in
      IsSound k (before ++ t ∷ after)
      → k'.entries ≡ k.entries
      → k'.fresh ≡ k.fresh
      → ((b : ℕ) → (b == a) ≡ false → k'.heap b ≡ k.heap b)
      → (k'.heap a).refs ≡ (k.heap a).refs
      → tokens (k'.heap a).token + (if is_holding q then 1 else 0)
        ≡ tokens (k.heap a).token + (if is_holding p then 1 else 0)
      → IsSound k' (before ++ t' ∷ after)
moved-IsSound k k' before after key a p q s entries fresh heap refs token =
    let t : Task = record { key = key; entry = a; phase = p } in
    let t' : Task = record { key = key; entry = a; phase = q } in
    let there = entry_there k before after key a p s in
    let f = fits_there k before after key a p s in
    let users_same : users key (before ++ t' ∷ after) ≡ users key (before ++ t ∷ after) =
      count_middle (λ t. t.key == key) before after t'
      ∙ sym (count_middle (λ t. t.key == key) before after t) in
    change-IsSound key a k k' (before ++ t ∷ after) (before ++ t' ∷ after) (some a) s
      (record {
        entries = λ j d. ap (λ x. Dict.get x j) entries;
        heap = heap;
        fresh = omega (arith, fresh);
        users' = λ j d.
            count_middle (λ t. t.key == j) before after t'
            ∙ sym (count_middle (λ t. t.key == j) before after t);
        holders' = λ j d. ground (
          arith,
          d,
          count_middle (λ t. t.key == j && is_holding t.phase) before after t,
          count_middle (λ t. t.key == j && is_holding t.phase) before after t',
        );
        strays' = λ j b d.
            count_middle (λ t. t.key == j && not (t.entry == b)) before after t'
            ∙ sym (count_middle (λ t. t.key == j && not (t.entry == b)) before after t);
        unshared = λ j d there'.
            ground (arith, d, (string_eq.beq_iff key j).1 (s.own key j a there there'));
      })
      (ap (λ x. Dict.get x key) entries ∙ there)
      (
        omega (arith, f.0, fresh),
        refs ∙ f.1 ∙ sym users_same,
        omega (arith, f.2, users_same),
        ground (
          arith,
          f.3,
          token,
          ==_refl key,
          count_middle (λ t. t.key == key && is_holding t.phase) before after t,
          count_middle (λ t. t.key == key && is_holding t.phase) before after t',
        ),
        omega (
          arith,
          f.4,
          count_middle (λ t. t.key == key && not (t.entry == a)) before after t,
          count_middle (λ t. t.key == key && not (t.entry == a)) before after t',
        ),
      )
      (λ b e. cc e)

-- A call ends with `release`.
pub release-IsSound :
    (k : KeyedLock) (before after : List Task) (key : String) (a : ℕ)
    → IsSound k (before ++ record { key = key; entry = a; phase = leaving } ∷ after)
    → IsSound (release key a k) (before ++ after)
unfolding release
release-IsSound k before after key a s =
    let t : Task = record { key = key; entry = a; phase = leaving } in
    let there = entry_there k before after key a leaving s in
    let f = fits_there k before after key a leaving s in
    let users_more = count_middle (λ t. t.key == key) before after t in
    let holders_more = count_middle (λ t. t.key == key && is_holding t.phase) before after t in
    let strays_more = count_middle (λ t. t.key == key && not (t.entry == a)) before after t in
    let k' = write a (record (k.heap a) { refs = (k.heap a).refs - 1 }) k in
    if_cases {A = KeyedLock} (λ x. IsSound x (before ++ after)) ((k.heap a).refs == 1)
      (λ last.
        change-IsSound key a k (record k' { entries = Dict.remove k.entries key })
          (before ++ t ∷ after) (before ++ after) none s
          (record {
            entries = λ j d. ground (arith, Dict.get-remove k.entries key j, d);
            heap = λ b d. ground (arith, d);
            fresh = omega arith;
            users' = λ j d. ground (arith, d, count_middle (λ t. t.key == j) before after t);
            holders' = λ j d.
                ground
                  (arith, d, count_middle (λ t. t.key == j && is_holding t.phase) before after t);
            strays' = λ j b d.
                ground
                  (arith, d, count_middle (λ t. t.key == j && not (t.entry == b)) before after t);
            unshared = λ j d there'.
                ground (arith, d, (string_eq.beq_iff key j).1 (s.own key j a there there'));
          })
          (ground (arith, Dict.get-remove k.entries key key, ==_refl key))
          (ground (arith, last, f.1, users_more, ==_refl key)) (λ b e. cc e))
      (λ more.
        change-IsSound key a k k' (before ++ t ∷ after) (before ++ after) (some a) s
          (record {
            entries = λ j d. refl;
            heap = λ b d. ground (arith, d);
            fresh = omega arith;
            users' = λ j d. ground (arith, d, count_middle (λ t. t.key == j) before after t);
            holders' = λ j d.
                ground
                  (arith, d, count_middle (λ t. t.key == j && is_holding t.phase) before after t);
            strays' = λ j b d.
                ground
                  (arith, d, count_middle (λ t. t.key == j && not (t.entry == b)) before after t);
            unshared = λ j d there'.
                ground (arith, d, (string_eq.beq_iff key j).1 (s.own key j a there there'));
          })
          there
          (
            f.0,
            ground (arith, f.1, users_more, ==_refl key, ==_refl a),
            ground (arith, more, f.1, f.2, users_more, ==_refl key),
            ground (arith, f.3, holders_more, ==_refl key, ==_refl a),
            ground (arith, f.4, strays_more),
          )
          (λ b e. cc e))
