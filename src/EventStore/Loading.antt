-- ===== src/EventStore/Loading.antt =====
-- What a load returns, and the snapshots that it leaves, for a stream that records the states of
-- an aggregate (reader.go).
use asynx.Base.Dict
use native.Mathlib.Numerals.{add-one}
use asynx.Base.{
  ℕ, List, String, ◌≡◌, inr, suc, Option-cases, inl, string_eq, ◌∷◌, arith, [], sym, refl, none,
  is_empty, if◌then◌else◌, false, true, if_cases, ap, ◌+◌,
}
use asynx.Store.Snapshots
use asynx.Store.Snapshots.{Snapshots}
use asynx.EventStore.Codec.{Codec, Laws, SnapshotBlob, events_of, InternalEvent}
use asynx.EventStore.Replayer.{Replayer, hydrate, hydrate_events, HydrateResult, Progress}
use asynx.EventStore.Writer.{World}
use asynx.Store.Memory.{Ctx, entries_of, Memory, to_blobs, read_from}
use asynx.EventStore.Reader.{
  save_upcasted, Saver, Ctxs, hydrate_from, finish_load, last_event, Loaded, cold_path, warm_path,
  load,
}
use asynx.Store.Memory.Slices.{Entry}
use asynx.EventStore.History.{Chain, Decodes, Chain-Decodes, Chain-below, Chain-Above}
use asynx.Models.Errors.{Result-cases, ok}
use asynx.Store.Memory.Reads.{reads_lem, from_version_all}
use mathlib.Core.Path.{subst}
use asynx.Store.Memory.Order.{IsOrdered}
use asynx.EventStore.Marking.{Marked, Marks, Holds, save_upcasted-Marked, from_version_low}

module _ {T J P D : Type 0} {c : Codec T J P D} (l : Laws c) (r : Replayer T) where
  -- The result of hydrating the records of a chain.
  hydrate-Chain :
      (seed b : T) (j : J) (first n : ℕ) (es : List (Entry D))
      → c.marshal seed ≡ ok j
      → (d : Decodes l r (suc first) seed es b n)
      → (h : HydrateResult T) × (hydrate c r seed d.events ≡ ok h)
        × (h.state ≡ b)
        × (h.did_upcast ≡ true → h.last_version ≡ n)
  unfolding hydrate hydrate_events
  hydrate-Chain seed b j first n es good d = go d.events refl
    where
      go :
          (events : List InternalEvent)
          → d.events ≡ events
          → (h : HydrateResult T) × (hydrate c r seed events ≡ ok h)
            × (h.state ≡ b)
            × (h.did_upcast ≡ true → h.last_version ≡ n)
      go [] e = (
        record { state = seed; did_upcast = false; last_version = 0 },
        refl,
        (d.idle (ap is_empty e)).0,
        λ h. cc h,
      )
      go (evt ∷ events) e =
          let start : Progress J = record { state_json = j; upcasted = false; last_version = 0 } in
          let q = d.hydrated start (l.marshal_encodes seed j good) in
          (
            record {
              state = b;
              did_upcast = q.0.upcasted;
              last_version = if q.0.upcasted then q.0.last_version else 0;
            },
            rw
                (
                  good,
                  subst (λ x. hydrate_events c r x start ≡ ok q.0) e q.1,
                  l.unmarshal_encoded b q.0.state_json q.2,
                )
                refl,
            refl,
            λ up. rw up (q.3 (λ z. cc (e, z))),
          )

  hydrate_from-Chain :
      (saver : Saver) (ctxs : Ctxs) (later : Memory D) (snaps : Snapshots D) (agg : String)
      (seed b : T) (j : J) (first n : ℕ) (es all : List (Entry D))
      → c.marshal seed ≡ ok j
      → Chain l r (suc first) seed es b n
      → Chain l r 1 r.zero_value all b n
      → Marked l r snaps agg all b n
      → (snaps' : Snapshots D) × (hydrate_from c r saver ctxs later snaps agg first seed
            (to_blobs es)
          ≡ ok ((b, n), snaps'))
        × Marked l r snaps' agg all b n
  unfolding hydrate_from finish_load
  hydrate_from-Chain saver ctxs later snaps agg seed b j first n es all good chain full m =
      let d = Chain-Decodes l r first n seed b es chain in
      let q = hydrate-Chain seed b j first n es good d in go d q d.events refl
    where
      go :
          (d : Decodes l r (suc first) seed es b n)
          (q : (h : HydrateResult T) × (hydrate c r seed d.events ≡ ok h)
            × (h.state ≡ b)
            × (h.did_upcast ≡ true → h.last_version ≡ n))
          (events : List InternalEvent)
          → d.events ≡ events
          → (snaps' : Snapshots D) × (hydrate_from c r saver ctxs later snaps agg first seed
                (to_blobs es)
              ≡ ok ((b, n), snaps'))
            × Marked l r snaps' agg all b n
      go d (h, runs, state, version) [] e = (
        snaps,
        let same' : first ≡ n = omega (arith, (d.idle (ap is_empty e)).1) in
            rw (d.decoded, runs, e, state, same') refl,
        m,
      )
      go d (h, runs, state, version) (evt ∷ events) e = (
        if h.did_upcast
            then save_upcasted c r saver ctxs later snaps agg h (last_event evt events).id
            else snaps,
        let final : (last_event evt events).version ≡ n =
              subst (λ es. (last_event (record evt { version = first }) es).version ≡ n) e
                (d.ends (record evt { version = first }) (omega arith)) in
            rw (d.decoded, runs, e, state, final) refl,
        if_cases (λ s. Marked l r s agg all b n) h.did_upcast
            (λ up.
              save_upcasted-Marked l r saver ctxs later snaps agg h _ all b n m full state
                (version up))
            (λ _. m),
      )

  abbrev pub Clear : Ctxs → Type 0
  Clear ctxs = (ctxs.at_get ≡ none) × (ctxs.at_read ≡ none)

  -- The result of a load, and that its snapshots are states of the stream still.
  abbrev pub Finds : Loaded T D → String → List (Entry D) → T → ℕ → Type 0
  Finds q agg es b n = (q.result ≡ ok (b, n)) × Marked l r q.snaps agg es b n

  read-cold :
      (ctx : Ctx) (s : Memory D) (id : String) (b : T) (n : ℕ)
      → ctx ≡ none
      → IsOrdered s
      → Chain l r 1 r.zero_value (entries_of s id) b n
      → read_from ctx s id 1 ≡ ok (to_blobs (entries_of s id))
  read-cold ctx s id b n clear v k =
      rw
        (
          clear,
          (reads_lem s id 1 0 v).0,
          from_version_all 1 1 (entries_of s id) (omega arith)
              (Chain-Above l r 1 n r.zero_value b (entries_of s id) k),
        )
        refl

  read-warm :
      (ctx : Ctx) (s : Memory D) (id : String) (b : T) (n : ℕ) (snap : SnapshotBlob T)
      → ctx ≡ none
      → IsOrdered s
      → (m : Marks l r (entries_of s id) b n snap)
      → read_from ctx s id (snap.version + 1) ≡ ok (to_blobs m.after)
  read-warm ctx s id b n snap clear v m =
      let low = Chain-below l r 1 snap.version r.zero_value snap.state m.before m.leads in
      rw
        (
          clear,
          add-one snap.version,
          (reads_lem s id (suc snap.version) 0 v).0,
          m.splits,
          from_version_low l r snap.version m.before m.after low.1,
          from_version_all (suc snap.version) (suc snap.version) m.after (omega arith)
              (Chain-Above l r (suc snap.version) n snap.state b m.after m.goes_on),
        )
        refl

  pub get-clear :
      (ctx : Ctx) (snaps : Snapshots D) (agg : String)
      → ctx ≡ none
      → Snapshots.get ctx snaps agg ≡ ok (Dict.get snaps.snaps agg)
  unfolding Snapshots.get
  get-clear ctx snaps agg clear = rw clear refl

  to_blobs-nonempty :
      (a b : T) (n : ℕ) (es : List (Entry D))
      → Chain l r 1 a es b (suc n)
      → is_empty (to_blobs es) ≡ false
  unfolding to_blobs
  to_blobs-nonempty a b n [] (_, ends) = absurd (omega (arith, ends))
  to_blobs-nonempty a b n (e ∷ es) h = refl

  cold_path-Chain :
      (saver : Saver) (ctxs : Ctxs) (later : Memory D) (w : World D) (agg : String) (b : T) (n : ℕ)
      (j : J)
      → ctxs.at_read ≡ none
      → c.marshal r.zero_value ≡ ok j
      → IsOrdered w.store
      → Holds l r w agg b (suc n)
      → Finds
          (cold_path c r saver ctxs w.store later w.snaps agg)
          agg
          (entries_of w.store (events_of agg))
          b
          (suc n)
  unfolding cold_path
  cold_path-Chain saver ctxs later w agg b n j clear good v h =
      let es = entries_of w.store (events_of agg) in
      let q =
        hydrate_from-Chain saver ctxs later w.snaps agg r.zero_value b j 0 (suc n) es es good
          h.chain h.chain h.marked in
      let read = read-cold ctxs.at_read w.store (events_of agg) b (suc n) clear v h.chain in
      let e : cold_path c r saver ctxs w.store later w.snaps agg
          ≡ record { result = ok (b, suc n); snaps = q.0; corruptions = [] } =
        rw (read, to_blobs-nonempty r.zero_value b n es h.chain, q.1) refl in
      (ap (λ x. x.result) e, subst (λ x. Marked l r x.snaps agg es b (suc n)) (sym e) q.2)

  warm_path-Chain :
      (saver : Saver) (ctxs : Ctxs) (later : Memory D) (w : World D) (agg : String) (b : T) (n : ℕ)
      (snap : SnapshotBlob T) (j : J)
      → ctxs.at_read ≡ none
      → c.marshal snap.state ≡ ok j
      → IsOrdered w.store
      → Holds l r w agg b n
      → Marks l r (entries_of w.store (events_of agg)) b n snap
      → Finds
          (warm_path c r saver ctxs w.store later w.snaps agg snap)
          agg
          (entries_of w.store (events_of agg))
          b
          n
  unfolding warm_path
  warm_path-Chain saver ctxs later w agg b n snap j clear good v h m =
      let es = entries_of w.store (events_of agg) in
      let q =
        hydrate_from-Chain saver ctxs later w.snaps agg snap.state b j snap.version n m.after es
          good m.goes_on h.chain h.marked in
      let read = read-warm ctxs.at_read w.store (events_of agg) b n snap clear v m in
      let e : warm_path c r saver ctxs w.store later w.snaps agg snap
          ≡ record { result = ok (b, n); snaps = q.0; corruptions = [] } =
        rw (read, q.1) refl in
      (ap (λ x. x.result) e, subst (λ x. Marked l r x.snaps agg es b n) (sym e) q.2)

  -- Whatever saves the snapshot of an upcast state, and whether a snapshot is there, can be read or
  -- not: with a context that is live at its reads, a load of an aggregate with `n + 1` events
  -- returns the state after the last one and its version, and leaves no snapshot that is not one of
  -- the states of the stream.
  pub load_lem :
      (saver : Saver) (ctxs : Ctxs) (later : Memory D) (w : World D) (agg : String) (b : T) (n : ℕ)
      → ((a : T) → (j : J) × (c.marshal a ≡ ok j))
      → Clear ctxs
      → IsOrdered w.store
      → Holds l r w agg b (suc n)
      → Finds
          (load c r saver ctxs w.store later w.snaps agg)
          agg
          (entries_of w.store (events_of agg))
          b
          (suc n)
  unfolding load
  load_lem saver ctxs later w agg b n marshals (get_clear, read_clear) v h =
      let zero_document = marshals r.zero_value in
      let cold =
        cold_path-Chain saver ctxs later w agg b n zero_document.0 read_clear zero_document.1 v h in
      elim (Option-cases (Dict.get w.snaps.snaps agg)) [
        | inl missing ↦ rw (load, get-clear ctxs.at_get w.snaps agg get_clear, missing) cold
        | inr (blob, there) ↦ elim (Result-cases (c.decode_snapshot blob)) [
          | inr (e, bad) ↦ rw (load, get-clear ctxs.at_get w.snaps agg get_clear, there, bad) cold
          | inl (snap, good) ↦
              let document = marshals snap.state in
              rw (load, get-clear ctxs.at_get w.snaps agg get_clear, there, good)
                (warm_path-Chain saver ctxs later w agg b (suc n) snap document.0 read_clear
                  document.1 v h (h.marked blob snap there good))
        ]
      ]
