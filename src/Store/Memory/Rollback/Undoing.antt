-- ===== src/Store/Memory/Rollback/Undoing.antt =====
-- The undo log of a transaction: what each closure of it puts back.
use asynx.Base.{
  ℕ, String, ◌≡◌, refl, ap, ◌∙◌, false, List, [], ◌∷◌, ◌++◌, arith, if◌then◌else◌, ◌==◌, ==_refl,
  string_eq, nat_eq,
}
use asynx.Base.Dict
use asynx.Base.Dict.{Dict, dict_laws}
use asynx.Store.Memory.{
  Memory, MemoryTx, Undo, removes_entry, restores_stream, restores_deliveries, deletes_receipt,
  entries_of, remove_entry, run_undo, run_undos,
}
use asynx.Store.Memory.Slices.{
  Entry, binary_search, first_not_below, is_at_first, insert_at, delete_at,
}
use asynx.Store.Memory.Views.{entries_of-put}

-- What a reader of the store can see of it.
pub record SameContents {ℓ} {B : Type ℓ} (s t : Memory B) : Type ℓ where
  pub streams : (id : String) → entries_of s id ≡ entries_of t id
  pub receipts : (id : String) → Dict.get s.receipts id ≡ Dict.get t.receipts id
  pub deliveries : s.deliveries ≡ t.deliveries

module _ {ℓ} {B : Type ℓ} where
  pub SameContents-refl : (s : Memory B) → SameContents s s
  SameContents-refl s = record { streams = λ id. refl; receipts = λ id. refl; deliveries = refl }

  pub SameContents-trans :
      {s t u : Memory B} → SameContents s t → SameContents t u → SameContents s u
  SameContents-trans h k = record {
    streams = λ id. h.streams id ∙ k.streams id;
    receipts = λ id. h.receipts id ∙ k.receipts id;
    deliveries = h.deliveries ∙ k.deliveries;
  }

  -- The effect of `remove_entry` on one stream.
  without_version : ℕ → List (Entry B) → List (Entry B)
  without_version version es =
      let (i, found) = binary_search es version in if found then delete_at es i else es

  -- Removing the version that was just inserted gives the stream back.
  without_version-insert :
      (es : List (Entry B)) (e : Entry B)
      → is_at_first es e.version ≡ false
      → without_version e.version (insert_at es (first_not_below es e.version) e) ≡ es
  unfolding without_version first_not_below is_at_first insert_at delete_at
  without_version-insert [] e h = ground arith
  without_version-insert (x ∷ es) e h = ground (arith, without_version-insert es e)

  entries_of-remove_entry :
      (s : Memory B) (id : String) (version : ℕ) (j : String)
      → entries_of (remove_entry s id version) j
        ≡ (if id == j then without_version version (entries_of s id) else entries_of s j)
  unfolding entries_of remove_entry without_version
  entries_of-remove_entry s id version j = ground (
    arith,
    string_eq.beq_iff id j,
    Dict.get-put s.streams id j
        (delete_at (entries_of s id) (first_not_below (entries_of s id) version)),
  )

  remove_entry_rest :
      (s : Memory B) (id : String) (version : ℕ)
      → ((remove_entry s id version).receipts ≡ s.receipts)
        × ((remove_entry s id version).deliveries ≡ s.deliveries)
  unfolding remove_entry
  remove_entry_rest s id version = ground arith

  run_undo-SameContents :
      (u : Undo B) {s t : Memory B} → SameContents s t → SameContents (run_undo u s) (run_undo u t)
  unfolding run_undo
  run_undo-SameContents (removes_entry id version) {s} {t} h = record {
    streams = λ j.
        rw (entries_of-remove_entry s id version j, entries_of-remove_entry t id version j)
          (rw (h.streams id, h.streams j) refl);
    receipts = λ j.
        rw ((remove_entry_rest s id version).0, (remove_entry_rest t id version).0) (h.receipts j);
    deliveries =
        rw ((remove_entry_rest s id version).1, (remove_entry_rest t id version).1) h.deliveries;
  }
  run_undo-SameContents (restores_stream id old) {s} {t} h = record {
    streams =
        λ j. rw (entries_of-put s id old j, entries_of-put t id old j) (rw (h.streams j) refl);
    receipts = h.receipts;
    deliveries = h.deliveries;
  }
  run_undo-SameContents (restores_deliveries old) h = record {
    streams = h.streams;
    receipts = h.receipts;
    deliveries = refl;
  }
  run_undo-SameContents (deletes_receipt command_id) h = record {
    streams = h.streams;
    receipts = λ j. simp dict_laws (ground (arith, h.receipts j));
    deliveries = h.deliveries;
  }

  pub run_undos-SameContents :
      (us : List (Undo B)) {s t : Memory B}
      → SameContents s t
      → SameContents (run_undos us s) (run_undos us t)
  unfolding run_undos
  run_undos-SameContents [] h = h
  run_undos-SameContents (u ∷ us) h = run_undo-SameContents u (run_undos-SameContents us h)

  run_undos-append :
      (us : List (Undo B)) (u : Undo B) (s : Memory B)
      → run_undos (us ++ u ∷ []) s ≡ run_undos us (run_undo u s)
  unfolding run_undos
  run_undos-append [] u s = refl
  run_undos-append (v ∷ us) u s = ap (run_undo v) (run_undos-append us u s)

  -- The log of the second transaction takes its store back to where the log of the first does.
  abbrev pub Undoes : MemoryTx B → MemoryTx B → Type ℓ
  Undoes t' t = SameContents (run_undos t'.undo t'.store) (run_undos t.undo t.store)

  pub undoes_push :
      (us : List (Undo B)) (u : Undo B) (s' s : Memory B)
      → SameContents (run_undo u s') s
      → SameContents (run_undos (us ++ u ∷ []) s') (run_undos us s)
  undoes_push us u s' s h = rw (run_undos-append us u s') (run_undos-SameContents us h)

  -- Each write of the transaction is undone by the closure that it records.
  pub undo-insert_at :
      (s : Memory B) (id : String) (e : Entry B)
      → is_at_first (entries_of s id) e.version ≡ false
      → let es = insert_at (entries_of s id) (first_not_below (entries_of s id) e.version) e in
        SameContents
          (run_undo (removes_entry id e.version) (record s { streams = Dict.put s.streams id es }))
          s
  unfolding run_undo
  undo-insert_at s id e fresh =
      let es = insert_at (entries_of s id) (first_not_below (entries_of s id) e.version) e in
      let s' = record s { streams = Dict.put s.streams id es } in
      record {
        streams = λ j. ground (
          arith,
          entries_of-remove_entry s' id e.version j,
          entries_of-put s id es id,
          entries_of-put s id es j,
          ==_refl id,
          string_eq.beq_iff id j,
          without_version-insert (entries_of s id) e fresh,
        );
        receipts = λ j. rw (remove_entry_rest s' id e.version).0 refl;
        deliveries = (remove_entry_rest s' id e.version).1;
      }
