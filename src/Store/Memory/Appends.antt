-- ===== src/Store/Memory/Appends.antt =====
-- What `Append` of the store does to the records that readers find.
use asynx.Base.Dict
use asynx.Models.Errors.{note, sentinel, err_pipeline_failed}
use asynx.Store.Memory.{
  Memory, String, ℕ, Entry, Option, insert_at, entries_of, append, append_fresh, rollback,
  run_undos,
}
use asynx.Store.Memory.Transaction.{
  Outcome, append_one, failed, atomically, run_program, run_call, close_tx, committed,
}
use asynx.Store.Memory.Order.{IsOrdered}
use asynx.Store.Memory.Reads.{lookup_version, lookup-insert_at, is_at_first-lookup}
use asynx.Store.Memory.Slices.{is_at_first, first_not_below}
use asynx.Base.{
  ◌≡◌, false, none, if◌then◌else◌, string_eq, refl, ◌==◌, ◌&&◌, true, some, arith, ◌⊎◌,
  Option-cases, inl, nat_eq, ◌∙◌, ap, is_some, inr,
}
use asynx.Store.Memory.Views.{entries_of-put}

abbrev pub conflict : Outcome
conflict = failed (note (sentinel err_pipeline_failed) "version conflict")

module _ {ℓ} {B : Type ℓ} where
  abbrev pub record_at : Memory B → String → ℕ → Option B
  record_at s id version = lookup_version (entries_of s id) version

  -- The store after an append of a version that the stream does not hold.
  abbrev appended : Memory B → String → Entry B → Memory B
  appended s id e =
      let es = insert_at (entries_of s id) (first_not_below (entries_of s id) e.version) e in
      record s { streams = Dict.put s.streams id es }

  append_one-fresh :
      (s : Memory B) (id : String) (version : ℕ) (blob : B)
      → Dict.get s.err_on id ≡ none
      → is_at_first (entries_of s id) version ≡ false
      → append_one none s id version blob
        ≡ (committed, appended s id (record { version = version; blob = blob }))
  unfolding append_one atomically run_program run_call append append_fresh close_tx
  append_one-fresh s id version blob clear fresh =
      rw (clear, append) (rw (fresh, append_fresh) refl)

  append_one-found :
      (s : Memory B) (id : String) (version : ℕ) (blob : B)
      → Dict.get s.err_on id ≡ none
      → is_at_first (entries_of s id) version ≡ true
      → append_one none s id version blob ≡ (conflict, s)
  unfolding append_one atomically run_program run_call append append_fresh close_tx rollback
      run_undos
  append_one-found s id version blob clear found =
      rw (clear, append) (rw (found, append_fresh) refl)

  record_at-appended :
      (s : Memory B) (id : String) (e : Entry B) (j : String) (w : ℕ)
      → IsOrdered s
      → is_at_first (entries_of s id) e.version ≡ false
      → record_at (appended s id e) j w
        ≡ (if id == j && e.version == w then some e.blob else record_at s j w)
  record_at-appended s id e j w v fresh = ground (
    arith,
    entries_of-put s id
        (insert_at (entries_of s id) (first_not_below (entries_of s id) e.version) e) j,
    lookup-insert_at 0 (entries_of s id) e w (v.ascending id) fresh,
    string_eq.beq_iff id j,
  )

  -- Without a scheduled error, an append with a live context to an ordered store commits exactly
  -- when the stream holds no record of the version, and then every reader finds the new record and
  -- all the others unchanged; otherwise it fails with the version conflict and changes nothing.
  pub append_one_lem :
      (s : Memory B) (id : String) (version : ℕ) (blob : B)
      → IsOrdered s
      → Dict.get s.err_on id ≡ none
      → ((record_at s id version ≡ none)
          × ((append_one none s id version blob).0 ≡ committed)
          × ((j : String) (w : ℕ)
              → record_at (append_one none s id version blob).1 j w
                ≡ (if id == j && version == w then some blob else record_at s j w)))
        ⊎ ((old : B) × (record_at s id version ≡ some old)
            × (append_one none s id version blob ≡ (conflict, s)))
  append_one_lem s id version blob v clear = elim (Option-cases (record_at s id version)) [
    | inl absent ↦
        let fresh : is_at_first (entries_of s id) version ≡ false =
          is_at_first-lookup 0 version (entries_of s id) (v.ascending id) ∙ ap is_some absent in
        let e = append_one-fresh s id version blob clear fresh in
        inl (
          absent,
          ap (λ r. r.0) e,
          λ j w.
              rw e
                (record_at-appended s id (record { version = version; blob = blob }) j w v fresh),
        )
    | inr (old, present) ↦
        let found : is_at_first (entries_of s id) version ≡ true =
          is_at_first-lookup 0 version (entries_of s id) (v.ascending id) ∙ ap is_some present in
        inr (old, present, append_one-found s id version blob clear found)
  ]
