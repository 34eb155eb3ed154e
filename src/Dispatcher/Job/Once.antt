-- ===== src/Dispatcher/Job/Once.antt =====
-- Settling and completing a job take effect once, in whatever order and however often.
use asynx.Models.Errors.{Error}
use asynx.Dispatcher.Job.{mark_settled, mark_unrun, Progress, started, complete}
use asynx.Base.{List, Option, Bool, none, some, ℕ, ◌∷◌, ◌≡◌, true, false, [], arith, is_some, refl}

-- One call of the job's methods.
pub data Move : Type 0 where
  settles : Move
  settles_unrun : Error → Move
  completes : Option Error → Move

move : Move → Progress → Progress
unfolding mark_settled mark_unrun complete
move settles = mark_settled
move (settles_unrun e) = mark_unrun e
move (completes e) = complete e

pub moves : List Move → Progress → Progress
unfolding move
moves [] p = p
moves (m ∷ ms) p = moves ms (move m p)

-- The reason that the first settling call gives, and the outcome that the first completion gives.
abbrev pub first_settle : List Move → Option (Option Error)
first_settle [] = none
first_settle (settles ∷ ms) = some none
first_settle (settles_unrun e ∷ ms) = some (some e)
first_settle (completes e ∷ ms) = first_settle ms

abbrev pub first_completion : List Move → Option (Option Error)
first_completion [] = none
first_completion (settles ∷ ms) = first_completion ms
first_completion (settles_unrun e ∷ ms) = first_completion ms
first_completion (completes e ∷ ms) = some e

abbrev pub flat : Option (Option Error) → Option Error
flat none = none
flat (some e) = e

abbrev pub one_if : Bool → ℕ
one_if true = 1
one_if false = 0

-- The fields of the two `sync.Once`, which no call of the other kind touches.
abbrev Settling : Bool → Option Error → Progress → Type 0
Settling settled unrun p = (p.settled ≡ settled) × (p.unrun ≡ unrun)

abbrev Finishing : Bool → Option Error → ℕ → Progress → Type 0
Finishing final err callbacks p =
    (p.final ≡ final) × (p.err ≡ err) × (p.cancelled ≡ final) × (p.callbacks ≡ callbacks)

settled_stays :
    (ms : List Move) (u : Option Error) (p : Progress)
    → Settling true u p
    → Settling true u (moves ms p)
unfolding moves
settled_stays [] u p h = h
settled_stays (settles ∷ ms) u p h = settled_stays ms u (mark_settled p) (ground arith)
settled_stays (settles_unrun e ∷ ms) u p h = settled_stays ms u (mark_unrun e p) (ground arith)
settled_stays (completes e ∷ ms) u p h = settled_stays ms u (complete e p) (ground arith)

final_stays :
    (ms : List Move) (e : Option Error) (n : ℕ) (p : Progress)
    → Finishing true e n p
    → Finishing true e n (moves ms p)
unfolding moves
final_stays [] e n p h = h
final_stays (settles ∷ ms) e n p h = final_stays ms e n (mark_settled p) (ground arith)
final_stays (settles_unrun x ∷ ms) e n p h = final_stays ms e n (mark_unrun x p) (ground arith)
final_stays (completes x ∷ ms) e n p h = final_stays ms e n (complete x p) (ground arith)

settling_lem :
    (ms : List Move) (p : Progress)
    → Settling false none p
    → Settling (is_some (first_settle ms)) (flat (first_settle ms)) (moves ms p)
unfolding moves
settling_lem [] p h = h
settling_lem (settles ∷ ms) p h = settled_stays ms none (mark_settled p) (ground arith)
settling_lem (settles_unrun e ∷ ms) p h = settled_stays ms (some e) (mark_unrun e p) (ground arith)
settling_lem (completes e ∷ ms) p h = settling_lem ms (complete e p) (ground arith)

finishing_lem :
    (ms : List Move) (p : Progress)
    → Finishing false none 0 p
    → let c = first_completion ms in
      Finishing (is_some c) (flat c) (one_if (is_some c)) (moves ms p)
unfolding moves
finishing_lem [] p h = h
finishing_lem (settles ∷ ms) p h = finishing_lem ms (mark_settled p) (ground arith)
finishing_lem (settles_unrun e ∷ ms) p h = finishing_lem ms (mark_unrun e p) (ground arith)
finishing_lem (completes e ∷ ms) p h = final_stays ms e 1 (complete e p) (ground arith)

-- After any calls on a new job, its ticket is settled exactly if one of them settled it, and gives
-- the reason of the first that did; its delivery is over exactly if one completed it, with the
-- error of the first that did, and the context was cancelled and the callback run that one time.
pub moves_lem :
    (ms : List Move)
    → let p = moves ms started in
      let s = first_settle ms in
      let c = first_completion ms in
      (p.settled ≡ is_some s)
      × (p.unrun ≡ flat s)
      × (p.final ≡ is_some c)
      × (p.err ≡ flat c)
      × (p.cancelled ≡ is_some c)
      × (p.callbacks ≡ one_if (is_some c))
moves_lem ms =
    let s = settling_lem ms started (refl, refl) in
    let f = finishing_lem ms started (refl, refl, refl, refl) in (s.0, s.1, f.0, f.1, f.2, f.3)
