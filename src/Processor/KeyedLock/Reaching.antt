-- ===== src/Processor/KeyedLock/Reaching.antt =====
-- At most one call holds a key.
use asynx.Base.Dict
use asynx.Processor.KeyedLock.{
  unlocks, KeyedLock, new_lock, List, Task, [], Step, ℕ, Reachable, String, locks, goes_on, starts,
  gives_up, waiting, leaving, receives, receive, holding, unlocks, send, releases, tries,
}
use asynx.Processor.KeyedLock.Exclusion.{IsSound, FitsAt}
use asynx.Base.{
  refl, ◌≤◌, ◌≡◌, none, ◌↔◌, some, nat_eqb, arith, Option-cases, ==_refl, inl, inr, sym, nat_eq,
  ◌∙◌, string_eq,
}
use asynx.Processor.KeyedLock.Counting.{holders, users, strays, holders_le_users}
use asynx.Processor.KeyedLock.Joining.{begin_lock-IsSound, try_lock-IsSound}
use asynx.Processor.KeyedLock.Steps.{moved-IsSound, release-IsSound}
use mathlib.Core.Path.{subst}
use mathlib.Core.Option.{some-injective}

Step-IsSound :
    (k k' : KeyedLock) (ts ts' : List Task) → Step k ts k' ts' → IsSound k ts → IsSound k' ts'
Step-IsSound _ _ _ _ (locks k ts key) s = begin_lock-IsSound k ts key s
Step-IsSound _ _ _ _ (gives_up k before after key a) s =
    moved-IsSound k k before after key a waiting leaving s refl refl (λ _ _. refl) refl refl
Step-IsSound _ _ _ _ (receives k before after key a there) s =
    moved-IsSound k (receive a k) before after key a waiting holding s refl refl
      (λ b d. ground (arith, d)) (ground (arith, ==_refl a)) (ground (arith, ==_refl a, there))
Step-IsSound _ _ _ _ (unlocks k before after key a away) s =
    moved-IsSound k (send a k) before after key a holding leaving s refl refl
      (λ b d. ground (arith, d)) (ground (arith, ==_refl a)) (ground (arith, ==_refl a, away))
Step-IsSound _ _ _ _ (releases k before after key a) s = release-IsSound k before after key a s
Step-IsSound _ _ _ _ (tries k ts key) s = try_lock-IsSound k ts key s

new_lock-IsSound : IsSound new_lock []
unfolding new_lock
new_lock-IsSound = record {
  fits = λ key. rw (Dict.get-empty {V = ℕ} key) refl;
  own = λ key key' a h h'. cc (h, Dict.get-empty {V = ℕ} key);
}

Reachable-IsSound : (k : KeyedLock) (ts : List Task) → Reachable k ts → IsSound k ts
Reachable-IsSound _ _ starts = new_lock-IsSound
Reachable-IsSound _ _ (goes_on k k' ts ts' before step) =
    Step-IsSound k k' ts ts' step (Reachable-IsSound k ts before)

-- In every state that the lock comes to, whatever the calls and the order of their steps: at most
-- one call holds a key; the map has an entry for a key exactly when a call uses it; and while calls
-- use a key, its entry counts them, its token is there exactly when none of them holds the key, and
-- each of them uses this entry.
pub exclusive :
    (k : KeyedLock) (ts : List Task) (key : String)
    → Reachable k ts
    → (holders key ts ≤ 1)
      × (Dict.get k.entries key ≡ none ↔ users key ts ≡ 0)
      × ((a : ℕ)
          → Dict.get k.entries key ≡ some a
          → ((k.heap a).refs ≡ users key ts)
            × ((k.heap a).token ≡ nat_eqb (holders key ts) 0)
            × (strays key a ts ≡ 0))
exclusive k ts key r =
    let s = Reachable-IsSound k ts r in
    elim (Option-cases (Dict.get k.entries key)) [
      | inl missing ↦
          let unused = subst (FitsAt k ts key) missing (s.fits key) in
          (
            omega (arith, unused, holders_le_users key ts),
            (λ _. unused, λ _. missing),
            λ a there. absurd (ground (arith, missing, there)),
          )
      | inr (b, there) ↦
          let f = subst (FitsAt k ts key) there (s.fits key) in
          (
            omega (arith, f.3),
            (
              λ missing. absurd (ground (arith, missing, there)),
              λ unused. absurd (omega (arith, unused, f.2)),
            ),
            λ a there'.
                subst
                  (λ x.
                    ((k.heap x).refs ≡ users key ts)
                    × ((k.heap x).token ≡ nat_eqb (holders key ts) 0)
                    × (strays key x ts ≡ 0))
                  (some-injective _ _ (sym there ∙ there')) (f.1, ground (arith, f.3), f.4),
          )
    ]
