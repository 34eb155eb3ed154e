-- ===== src/EventStore/Marking.antt =====
-- The snapshots of an aggregate, against the stream that records its states (reader.go).
use asynx.Base.Dict
use asynx.Base.{
  ℕ, List, String, All, ◌≡◌, ◌≤◌, ◌++◌, some, inr, suc, Option-cases, inl, string_eq, ◌∷◌, arith,
  ==_refl, [], sym, refl, none, if◌then◌else◌, false, true, if_cases,
}
use asynx.Store.Snapshots
use asynx.Store.Snapshots.{Snapshots}
use asynx.EventStore.Codec.{Codec, Laws, SnapshotBlob, events_of}
use asynx.EventStore.Replayer.{Replayer, HydrateResult}
use asynx.EventStore.Writer.{World}
use asynx.Store.Memory.{Ctx, entries_of, Memory}
use asynx.EventStore.Reader.{
  write_auto_snapshot, save_upcasted, Saver, Ctxs, stream_holds, guarded, holds_lock, unguarded,
}
use asynx.Store.Memory.Slices.{Entry}
use asynx.EventStore.History.{Chain}
use asynx.Models.Errors.{Result-cases, ok}
use asynx.Store.Memory.Reads.{from_version}
use mathlib.Core.Path.{subst}
use mathlib.Core.List.{append-nil}

module _ {T J P D : Type 0} {c : Codec T J P D} (l : Laws c) (r : Replayer T) where
  -- The snapshot is the state at one of the versions of the stream.
  pub record Marks (es : List (Entry D)) (b : T) (n : ℕ) (snap : SnapshotBlob T) : Type 0 where
    pub before : List (Entry D)
    pub after : List (Entry D)
    pub splits : es ≡ before ++ after
    pub leads : Chain l r 1 r.zero_value before snap.state snap.version
    pub goes_on : Chain l r (suc snap.version) snap.state after b n

  -- Each readable snapshot of the aggregate is one of its states.
  abbrev pub Marked : Snapshots D → String → List (Entry D) → T → ℕ → Type 0
  Marked snaps agg es b n =
      (blob : D) (snap : SnapshotBlob T)
      → Dict.get snaps.snaps agg ≡ some blob
      → c.decode_snapshot blob ≡ ok snap
      → Marks es b n snap

  pub record Holds (w : World D) (agg : String) (b : T) (n : ℕ) : Type 0 where
    pub chain : Chain l r 1 r.zero_value (entries_of w.store (events_of agg)) b n
    pub marked : Marked w.snaps agg (entries_of w.store (events_of agg)) b n

  pub from_version_low :
      (v : ℕ) (xs ys : List (Entry D))
      → All (λ e. e.version ≤ v) xs
      → from_version (suc v) (xs ++ ys) ≡ from_version (suc v) ys
  from_version_low v [] ys h = refl
  from_version_low v (x ∷ xs) ys h = ground (arith, from_version_low v xs ys)

  put-Marked :
      (ctx : Ctx) (snaps : Snapshots D) (agg : String) (blob : D) (es : List (Entry D)) (b : T)
      (n : ℕ)
      → Marked snaps agg es b n
      → ((snap : SnapshotBlob T) → c.decode_snapshot blob ≡ ok snap → Marks es b n snap)
      → Marked (Snapshots.put ctx snaps agg blob).1 agg es b n
  unfolding Snapshots.put
  put-Marked (some e) snaps agg blob es b n m h = m
  put-Marked none snaps agg blob es b n m h = elim (Option-cases (Dict.get snaps.err_on agg)) [
    | inr (e, scheduled) ↦ rw (scheduled, Snapshots.put) m
    | inl clear ↦
        rw (clear, Snapshots.put)
          (λ blob' snap there read.
            h snap (ground (arith, Dict.get-put snaps.snaps agg agg blob, ==_refl agg)))
  ]

  same :
      {s snap : SnapshotBlob T} {blob : D}
      → c.decode_snapshot blob ≡ ok s
      → c.decode_snapshot blob ≡ ok snap
      → s ≡ snap
  same h k = cc (h, k)

  write_auto_snapshot-Marked :
      (ctx : Ctx) (snaps : Snapshots D) (agg : String) (es : List (Entry D)) (b : T) (n : ℕ)
      → Marked snaps agg es b n
      → Chain l r 1 r.zero_value es b n
      → Marked (write_auto_snapshot c r ctx snaps agg n b).1 agg es b n
  unfolding write_auto_snapshot
  write_auto_snapshot-Marked ctx snaps agg es b n m k =
      let s : SnapshotBlob T = record {
        version = n;
        schema_version = r.current_schema_version;
        state = b;
      } in
      elim (Result-cases (c.encode_snapshot s)) [
        | inr (e, bad) ↦ rw (bad, write_auto_snapshot) m
        | inl (blob, good) ↦
            rw (good, write_auto_snapshot)
              (put-Marked ctx snaps agg blob es b n m (λ snap read.
                subst (Marks es b n) (same (l.snapshot_read_back s blob good) read) (record {
                  before = es;
                  after = [];
                  splits = sym (append-nil es);
                  leads = k;
                  goes_on = (refl, refl);
                })))
      ]

  pub save_upcasted-Marked :
      (saver : Saver) (ctxs : Ctxs) (later : Memory D) (snaps : Snapshots D) (agg : String)
      (h : HydrateResult T) (id : String) (es : List (Entry D)) (b : T) (n : ℕ)
      → Marked snaps agg es b n
      → Chain l r 1 r.zero_value es b n
      → h.state ≡ b
      → h.last_version ≡ n
      → Marked (save_upcasted c r saver ctxs later snaps agg h id) agg es b n
  unfolding save_upcasted
  save_upcasted-Marked saver ctxs later snaps agg h id es b n m k state version = go saver
    where
      saved :
          Marked (write_auto_snapshot c r ctxs.at_put snaps agg h.last_version h.state).1 agg es b n
      saved = rw (state, version) (write_auto_snapshot-Marked ctxs.at_put snaps agg es b n m k)

      checked :
          Marked
            (if stream_holds c r ctxs.at_check later agg h.last_version id
              then (write_auto_snapshot c r ctxs.at_put snaps agg h.last_version h.state).1
              else snaps)
            agg
            es
            b
            n
      checked =
          if_cases (λ s. Marked s agg es b n)
            (stream_holds c r ctxs.at_check later agg h.last_version id) (λ _. saved) (λ _. m)

      go : (saver : Saver) → Marked (save_upcasted c r saver ctxs later snaps agg h id) agg es b n
      go holds_lock = saved
      go unguarded = checked
      go (guarded true) = checked
      go (guarded false) = m
