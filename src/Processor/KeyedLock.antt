-- ===== src/Processor/KeyedLock.antt =====
-- internal/processor/exec/keyedlock.go: the lock of an aggregate. An entry is named by its address,
-- since those who wait for a key and those who hold it share one. A channel of capacity 1 is the
-- presence of its token. A `Step` is what one goroutine does at once: a section under the mutex, or
-- one operation on a channel.
pub mod Counting
mod Exclusion
mod Steps
mod Joining
pub mod Reaching
use asynx.Base.Dict
use asynx.Base.{
  ℕ, String, Option, Bool, true, false, some, none, List, [], ◌∷◌, ◌++◌, ◌≡◌, if◌then◌else◌, ◌+◌,
  ◌-◌, ◌==◌, string_eq, nat_eq,
}
use asynx.Base.Dict.{Dict}

pub record LockEntry : Type 0 where
  pub token : Bool
  pub refs : ℕ

-- `fresh` is an address that was not given out.
pub record KeyedLock : Type 0 where
  pub entries : Dict String ℕ
  pub heap : ℕ → LockEntry
  pub fresh : ℕ

unfoldable pub new_lock : KeyedLock
new_lock = record {
  entries = Dict.empty;
  heap = λ _. record { token = false; refs = 0 };
  fresh = 0;
}

abbrev pub write : ℕ → LockEntry → KeyedLock → KeyedLock
write a e k = record k { heap = λ b. if b == a then e else k.heap b }

-- The entry of the key, made with its token when it is missing.
unfoldable pub entry_of : String → KeyedLock → ℕ × KeyedLock
entry_of key k = elim (Dict.get k.entries key) [
  | some a ↦ (a, k)
  | none ↦ (
    k.fresh,
    write k.fresh (record { token = true; refs = 0 })
        (record k { entries = Dict.put k.entries key k.fresh; fresh = k.fresh + 1 }),
  )
]

abbrev pub count_ref : ℕ → KeyedLock → KeyedLock
count_ref a k = write a (record (k.heap a) { refs = (k.heap a).refs + 1 }) k

-- `<-e.ch` and `e.ch <- struct{}{}`; the first waits for a token, the second for room.
abbrev pub receive : ℕ → KeyedLock → KeyedLock
receive a k = write a (record (k.heap a) { token = false }) k

abbrev pub send : ℕ → KeyedLock → KeyedLock
send a k = write a (record (k.heap a) { token = true }) k

-- A count of 0 would turn negative in the source, which deletes nothing.
pub release : String → ℕ → KeyedLock → KeyedLock
release key a k =
    let k' = write a (record (k.heap a) { refs = (k.heap a).refs - 1 }) k in
    if (k.heap a).refs == 1 then record k' { entries = Dict.remove k.entries key } else k'

-- The first section of `Lock`.
unfoldable pub begin_lock : String → KeyedLock → ℕ × KeyedLock
begin_lock key k = let found = entry_of key k in (found.0, count_ref found.0 found.1)

-- The entry that the caller then holds, if the key was free.
pub try_lock : String → KeyedLock → Option ℕ × KeyedLock
try_lock key k =
    let found = entry_of key k in
    if (found.1.heap found.0).token
    then (some found.0, count_ref found.0 (receive found.0 found.1))
    else (none, found.1)

-- Where a call stands: at the `select`, before `unlock`, or before `release`.
pub data Phase : Type 0 where
  waiting holding leaving : Phase

pub record Task : Type 0 where
  pub key : String
  pub entry : ℕ
  pub phase : Phase

-- The calls under way after `TryLock`.
abbrev pub taken : String → Option ℕ → List Task → List Task
taken key none ts = ts
taken key (some a) ts = record { key = key; entry = a; phase = holding } ∷ ts

-- The lock with the calls under way. A context that is done before the first section changes nothing.
pub data Step : KeyedLock → List Task → KeyedLock → List Task → Type 0 where
  locks :
      (k : KeyedLock) (ts : List Task) (key : String)
      → Step k ts
          (begin_lock key k).1
          (record { key = key; entry = (begin_lock key k).0; phase = waiting } ∷ ts)
  gives_up :
      (k : KeyedLock) (before after : List Task) (key : String) (a : ℕ)
      → Step k
          (before ++ record { key = key; entry = a; phase = waiting } ∷ after)
          k
          (before ++ record { key = key; entry = a; phase = leaving } ∷ after)
  receives :
      (k : KeyedLock) (before after : List Task) (key : String) (a : ℕ)
      → (k.heap a).token ≡ true
      → Step k
          (before ++ record { key = key; entry = a; phase = waiting } ∷ after)
          (receive a k)
          (before ++ record { key = key; entry = a; phase = holding } ∷ after)
  unlocks :
      (k : KeyedLock) (before after : List Task) (key : String) (a : ℕ)
      → (k.heap a).token ≡ false
      → Step k
          (before ++ record { key = key; entry = a; phase = holding } ∷ after)
          (send a k)
          (before ++ record { key = key; entry = a; phase = leaving } ∷ after)
  releases :
      (k : KeyedLock) (before after : List Task) (key : String) (a : ℕ)
      → Step k
          (before ++ record { key = key; entry = a; phase = leaving } ∷ after)
          (release key a k)
          (before ++ after)
  tries :
      (k : KeyedLock) (ts : List Task) (key : String)
      → Step k ts (try_lock key k).1 (taken key (try_lock key k).0 ts)

-- The states that the lock comes to.
pub data Reachable : KeyedLock → List Task → Type 0 where
  starts : Reachable new_lock []
  goes_on :
      (k k' : KeyedLock) (ts ts' : List Task) → Reachable k ts → Step k ts k' ts' → Reachable k' ts'
