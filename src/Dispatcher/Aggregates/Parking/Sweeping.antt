-- ===== src/Dispatcher/Aggregates/Parking/Sweeping.antt =====
-- What the loop of `park` over the queue keeps, drops, records and calls.
use asynx.Base.Dict
use asynx.Dispatcher.Aggregates.Parking.{
  Sweep, sweep, keep_live, List, Job, ℕ, marks_unrun, completes_parked, parked_error,
}
use asynx.Base.{
  keep_if, All, ◌≡◌, not, ◌∷◌, false, if◌then◌else◌, ◌++◌, arith, contains, [], some, refl, nat_eq,
}
use asynx.Dispatcher.Aggregates.Records.{Call}
use mathlib.Core.List.{append-nil, append_assoc}

abbrev pub live : List Job → List Job
live = keep_if λ j. not j.acked

abbrev pub held : List Job → List Job
held = keep_if λ j. j.acked

abbrev pub versions : List Job → List ℕ
versions [] = []
versions (j ∷ js) = j.version ∷ versions js

-- The calls that the loop makes of the jobs that it drops.
abbrev pub dropping : List Job → List Call
dropping [] = []
dropping (j ∷ js) = marks_unrun j ∷ completes_parked j ∷ dropping js

pub live_not_acked : (js : List Job) → All (λ j. j.acked ≡ false) (live js)
live_not_acked [] = tt
live_not_acked (j ∷ js) = ground (arith, live_not_acked js)

pub sweep-kept : (js : List Job) (s : Sweep) → (sweep js s).kept ≡ s.kept ++ live js
unfolding sweep keep_live
sweep-kept [] s = ground (arith, append-nil s.kept)
sweep-kept (j ∷ js) s =
    ground (arith, sweep-kept js (keep_live j s), append_assoc s.kept (j ∷ []) (live js))

append_assoc_twice {ℓ} :
    {A : Type ℓ} (xs : List A) (a b : A) (ys : List A)
    → ((xs ++ a ∷ []) ++ b ∷ []) ++ ys ≡ xs ++ (a ∷ b ∷ ys)
append_assoc_twice xs a b ys = simp append_assoc

pub sweep-calls :
    (js : List Job) (s : Sweep)
    → (sweep js s).registry.calls ≡ s.registry.calls ++ dropping (held js)
unfolding sweep keep_live
sweep-calls [] s = ground (arith, append-nil s.registry.calls)
sweep-calls (j ∷ js) s = ground (
  arith,
  sweep-calls js (keep_live j s),
  append_assoc_twice s.registry.calls (marks_unrun j) (completes_parked j) (dropping (held js)),
)

pub sweep-undelivered :
    (js : List Job) (s : Sweep) (v : ℕ)
    → Dict.get (sweep js s).rec.undelivered v ≡ (
        if contains v (versions (held js)) then some parked_error else Dict.get s.rec.undelivered v)
unfolding sweep keep_live
sweep-undelivered [] s v = refl
sweep-undelivered (j ∷ js) s v = ground (
  arith,
  sweep-undelivered js (keep_live j s) v,
  Dict.get-put s.rec.undelivered j.version v parked_error,
)

-- Nothing else of the record or of the registry changes.
pub sweep-frame :
    (js : List Job) (s : Sweep)
    → ((sweep js s).rec ≡ record (s.rec) { undelivered = (sweep js s).rec.undelivered })
      × ((sweep js s).registry ≡ record (s.registry) { calls = (sweep js s).registry.calls })
unfolding sweep keep_live
sweep-frame [] s = (refl, refl)
sweep-frame (j ∷ js) s = ground (arith, sweep-frame js (keep_live j s))
