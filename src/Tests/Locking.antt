-- ===== src/Tests/Locking.antt =====
-- Two calls for one key: the first takes it, the second waits.
use asynx.Base.Dict
use asynx.Processor.KeyedLock.{
  begin_lock, Reachable, entry_of, Task, receive, KeyedLock, Phase, new_lock, waiting, goes_on,
  holding, starts, locks, receives,
}
use asynx.Base.{List, ℕ, ◌≤◌, ◌≡◌, true, ◌∷◌, [], none, ◌↔◌, some, nat_eqb, string_eq, String, refl}
use asynx.Processor.KeyedLock.Counting.{holders, users, strays}
use asynx.Processor.KeyedLock.Reaching.{exclusive}

abbrev first_begun : ℕ × KeyedLock
first_begun = begin_lock "order-1" new_lock

abbrev held_lock : KeyedLock
held_lock = receive (first_begun.0) (first_begun.1)

abbrev contended_lock : KeyedLock
contended_lock = (begin_lock "order-1" held_lock).1

abbrev first_call : Phase → Task
first_call p = record { key = "order-1"; entry = first_begun.0; phase = p }

abbrev contended : List Task
contended =
    record { key = "order-1"; entry = (begin_lock "order-1" held_lock).0; phase = waiting }
    ∷ first_call holding
    ∷ []

token_there : (first_begun.1.heap first_begun.0).token ≡ true
unfolding begin_lock entry_of new_lock
token_there = rw (Dict.get-empty {K = String} {V = ℕ} "order-1", entry_of) refl

contended-Reachable : Reachable contended_lock contended
contended-Reachable =
    goes_on held_lock contended_lock (first_call holding ∷ []) contended
      (goes_on (first_begun.1) held_lock (first_call waiting ∷ []) (first_call holding ∷ [])
        (goes_on new_lock (first_begun.1) [] (first_call waiting ∷ []) starts
          (locks new_lock [] "order-1"))
        (receives (first_begun.1) [] [] "order-1" (first_begun.0) token_there))
      (locks held_lock (first_call holding ∷ []) "order-1")

exclusive_example :
    (holders "order-1" contended ≤ 1)
    × (Dict.get contended_lock.entries "order-1" ≡ none ↔ users "order-1" contended ≡ 0)
    × ((a : ℕ)
        → Dict.get contended_lock.entries "order-1" ≡ some a
        → ((contended_lock.heap a).refs ≡ users "order-1" contended)
          × ((contended_lock.heap a).token ≡ nat_eqb (holders "order-1" contended) 0)
          × (strays "order-1" a contended ≡ 0))
exclusive_example = exclusive contended_lock contended "order-1" contended-Reachable
