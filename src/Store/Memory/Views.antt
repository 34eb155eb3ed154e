-- ===== src/Store/Memory/Views.antt =====
-- The stream that a reader finds after a write to the map of streams.
use asynx.Base.{String, List, ◌≡◌, none, [], some, if◌then◌else◌, string_eq, ◌==◌, arith}
use asynx.Base.Dict
use asynx.Store.Memory.{Memory, entries_of, Entry}

module _ {ℓ} {B : Type ℓ} where
  pub entries_of-put :
      (s : Memory B) (id : String) (es : List (Entry B)) (j : String)
      → entries_of (record s { streams = Dict.put s.streams id es }) j
        ≡ (if id == j then es else entries_of s j)
  unfolding entries_of
  entries_of-put s id es j = ground (arith, Dict.get-put s.streams id j es)

  pub entries_of-remove :
      (s : Memory B) (id : String) (j : String)
      → entries_of (record s { streams = Dict.remove s.streams id }) j
        ≡ (if id == j then [] else entries_of s j)
  unfolding entries_of
  entries_of-remove s id j = ground (arith, Dict.get-remove s.streams id j)

  pub entries_of_missing :
      (s : Memory B) (id : String) → Dict.get s.streams id ≡ none → entries_of s id ≡ []
  unfolding entries_of
  entries_of_missing s id h = rw h

  pub entries_of_found :
      (s : Memory B) (id : String) (es : List (Entry B))
      → Dict.get s.streams id ≡ some es
      → entries_of s id ≡ es
  unfolding entries_of
  entries_of_found s id es h = rw h
