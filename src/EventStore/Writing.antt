-- ===== src/EventStore/Writing.antt =====
-- What a committed write makes of a stream that records the states of an aggregate.
use native.Mathlib.Numerals.{add-one}
use asynx.Base.Dict
use asynx.Base.{
  ℕ, List, String, All, ◌≡◌, ◌≤◌, Bool-cases, suc, false, ◌-◌, refl, ◌++◌, arith, inl, ◌∷◌, inr, [],
  none, ==_refl, string_eq, Option, sym, ◌∙◌,
}
use asynx.EventStore.Codec.{Codec, Laws, InternalEvent, SnapshotBlob, is_no_op, events_of}
use asynx.Store.Memory.Slices.{is_at_first, insert_at, first_not_below, Entry}
use asynx.EventStore.Replayer.{Replayer, upcast_internal_event, apply_patches_to_json, upcast_from}
use asynx.EventStore.Writer.{
  Stamp, TxHook, build_event, append_tx, run_hook, commit, WriteCtxs, World, Command, or_zero,
  wrote,
}
use asynx.EventStore.History.{Turns, Records, Chain-append, Chain-below}
use asynx.Models.Errors.{ok, Error}
use asynx.EventStore.Marking.{Marks, Holds}
use mathlib.Core.List.{append_assoc}
use asynx.Models.Records.{Event}
use asynx.Store.Memory.{append_fresh, MemoryTx, entries_of, append, Memory}
use asynx.Store.Memory.Transaction.{
  atomically, run_program, run_call, close_tx, committed, Program, calls, appends,
}
use asynx.Store.Memory.Views.{entries_of-put}
use mathlib.Core.Path.{subst}

module _ {D : Type 0} where
  -- A version above all of them goes to the end.
  append_last :
      (n : ℕ) (es : List (Entry D)) (e : Entry D)
      → All (λ x. x.version ≤ n) es
      → (is_at_first es (suc n) ≡ false)
        × (insert_at es (first_not_below es (suc n)) e ≡ es ++ e ∷ [])
  unfolding is_at_first insert_at first_not_below
  append_last n [] e h = (refl, refl)
  append_last n (x ∷ es) e (low, h) = ground (arith, append_last n es e h)

module _ {T J P D : Type 0} {c : Codec T J P D} (l : Laws c) (r : Replayer T) where
  -- What the library made of the two states.
  pub record Encoded (stamp : Stamp) (name : String) (n : ℕ) (a b : T) : Type 0 where
    pub patch : P
    pub patches : String
    pub blob : D
    pub compared : c.compare a b ≡ ok patch
    pub marshalled : c.marshal_patch patch ≡ ok patches
    pub encoded :
        c.encode_event (record {
          id = stamp.id;
          event_name = name;
          version = suc n;
          schema_version = r.current_schema_version;
          occurred_at = stamp.now;
          patches = patches;
        })
        ≡ ok blob

  upcast-current :
      (e : InternalEvent)
      → e.schema_version ≡ r.current_schema_version
      → upcast_internal_event c r e ≡ ok e
  unfolding upcast_internal_event upcast_from
  upcast-current e h =
      let z : r.current_schema_version - e.schema_version ≡ 0 = omega (arith, h) in rw z refl

  -- The diff of two states takes a document of the first to one of the second.
  Encoded-Turns :
      (stamp : Stamp) (name : String) (n : ℕ) (a b : T)
      → (x : Encoded stamp name n a b) → Turns l r x.patches a b
  unfolding apply_patches_to_json
  Encoded-Turns stamp name n a b x j h = elim (Bool-cases (is_no_op x.patches)) [
    | inl idle ↦
        (j, rw idle refl, l.same_document a b x.patch x.patches j x.compared x.marshalled idle h)
    | inr busy ↦
        let q = l.patched a b x.patch x.patches j x.compared x.marshalled busy h in
        (q.1, rw (busy, q.2, q.3) refl, q.4)
  ]

  pub Encoded-Records :
      (stamp : Stamp) (name : String) (n : ℕ) (a b : T)
      → (x : Encoded stamp name n a b)
      → Records l r (suc n) a (record { version = suc n; blob = x.blob }) b
  Encoded-Records stamp name n a b x =
      let e : InternalEvent = record {
        id = stamp.id;
        event_name = name;
        version = suc n;
        schema_version = r.current_schema_version;
        occurred_at = stamp.now;
        patches = x.patches;
      } in
      record {
        event = e;
        upcast = e;
        at_version = refl;
        decodes = l.event_read_back e x.blob x.encoded;
        numbered = refl;
        upcasts = upcast-current e refl;
        turns = Encoded-Turns stamp name n a b x;
      }

  Marks-append :
      (es : List (Entry D)) (a b : T) (n : ℕ) (e : Entry D) (snap : SnapshotBlob T)
      → Records l r (suc n) a e b
      → Marks l r es a n snap
      → Marks l r (es ++ e ∷ []) b (suc n) snap
  Marks-append es a b n e snap h m = record {
    before = m.before;
    after = m.after ++ e ∷ [];
    splits = rw m.splits (append_assoc m.before m.after (e ∷ []));
    leads = m.leads;
    goes_on = Chain-append l r (suc snap.version) n snap.state a b m.after e m.goes_on h;
  }

  -- The event of the write.
  abbrev pub event_for : Stamp → String → String → ℕ → T → T → Event T
  event_for stamp agg name n a b = record {
    id = stamp.id;
    aggregate_id = agg;
    event_name = name;
    version = suc n;
    schema_version = r.current_schema_version;
    occurred_at = stamp.now;
    aggregate = b;
    previous_aggregate = a;
  }

  -- After the event was appended to the store, the hook returns nil and leaves the aggregate's
  -- stream as it finds it.
  abbrev pub Quiet : Memory D → D → TxHook T D → Event T → Type 0
  Quiet s blob hook evt =
      let start : MemoryTx D = record { store = s; undo = [] } in
      let t = (append none start (events_of evt.aggregate_id) evt.version blob).1 in
      let q = run_program (run_hook c r hook evt none) t in
      (q.0 ≡ committed)
      × (entries_of q.1.store (events_of evt.aggregate_id)
          ≡ entries_of t.store (events_of evt.aggregate_id))

  build_event-Encoded :
      (stamp : Stamp) (agg name : String) (n : ℕ) (a b : T)
      → (x : Encoded stamp name n a b)
      → build_event c r stamp agg name n a b ≡ ok (x.blob, event_for stamp agg name n a b)
  unfolding build_event
  build_event-Encoded stamp agg name n a b x =
      rw (add-one n, x.compared, x.marshalled, x.encoded) refl

  append_fresh-last :
      (t : MemoryTx D) (id : String) (n : ℕ) (blob : D)
      → All (λ e. e.version ≤ n) (entries_of t.store id)
      → (append_fresh t id (suc n) blob).0 ≡ none
        × (entries_of (append_fresh t id (suc n) blob).1.store id
            ≡ entries_of t.store id ++ record { version = suc n; blob = blob } ∷ [])
  unfolding append_fresh
  append_fresh-last t id n blob low =
      let e : Entry D = record { version = suc n; blob = blob } in
      let q = append_last n (entries_of t.store id) e low in
      rw q.0 (
        refl,
        rw
            (
              entries_of-put t.store id
                  (insert_at (entries_of t.store id)
                    (first_not_below (entries_of t.store id) (suc n)) e)
                  id,
              ==_refl id,
            )
            q.1,
      )

  append-last :
      (s : Memory D) (id : String) (n : ℕ) (blob : D)
      → Dict.get s.err_on id ≡ none
      → All (λ e. e.version ≤ n) (entries_of s id)
      → let a = append none (record { store = s; undo = [] }) id (suc n) blob in
        (a.0 ≡ none)
        × (entries_of a.1.store id
            ≡ entries_of s id ++ record { version = suc n; blob = blob } ∷ [])
  unfolding append
  append-last s id n blob clear low =
      rw (clear, append) (append_fresh-last (record { store = s; undo = [] }) id n blob low)

  -- Append and then a continuation that returns nil and leaves the stream alone.
  append_then-committed :
      (s : Memory D) (id : String) (n : ℕ) (blob : D) (k : Option Error → Program D)
      → (let t = (append none (record { store = s; undo = [] }) id (suc n) blob).1 in
          ((run_program (k none) t).0 ≡ committed)
          × (entries_of (run_program (k none) t).1.store id ≡ entries_of t.store id))
      → Dict.get s.err_on id ≡ none
      → All (λ e. e.version ≤ n) (entries_of s id)
      → let q = atomically none (calls (appends none id (suc n) blob) k) s in
        (q.0 ≡ committed)
        × (entries_of q.1 id ≡ entries_of s id ++ record { version = suc n; blob = blob } ∷ [])
  unfolding atomically run_program run_call close_tx
  append_then-committed s id n blob k quiet clear low =
      let a = append none (record { store = s; undo = [] }) id (suc n) blob in
      let h = append-last s id n blob clear low in
      let p = run_program (k a.0) a.1 in
      let runs : p.0 ≡ committed =
        subst (λ o. (run_program (k o) a.1).0 ≡ committed) (sym h.0) quiet.0 in
      let keeps : entries_of p.1.store id ≡ entries_of a.1.store id =
        subst (λ o. entries_of (run_program (k o) a.1).1.store id ≡ entries_of a.1.store id)
          (sym h.0) quiet.1 in
      (
        runs,
        subst
            (λ o.
              entries_of (close_tx o p.1) id
              ≡ entries_of s id ++ record { version = suc n; blob = blob } ∷ [])
            (sym runs) (keeps ∙ h.1),
      )

  -- A write of an aggregate with `n` events, under the conditions that let it through: no scheduled
  -- error, the state encoded, and a hook that leaves the stream alone. It commits the event at
  -- `n + 1`, and the stores then hold the new state at that version.
  pub commit_lem :
      (ctxs : WriteCtxs) (stamp : Stamp) (w : World D) (cmd : Command T) (hook : TxHook T D)
      (current : Option T) (n : ℕ)
      → (ctxs.at_begin ≡ none) × (ctxs.at_append ≡ none)
      → Dict.get w.store.err_on (events_of cmd.aggregate_id) ≡ none
      → (x : Encoded stamp cmd.event_name n (or_zero c r current) (cmd.emit_event current))
      → Quiet w.store x.blob hook (
          event_for stamp cmd.aggregate_id cmd.event_name n
            (or_zero c r current)
            (cmd.emit_event current))
      → Holds l r w cmd.aggregate_id (or_zero c r current) n
      → let done = commit c r ctxs stamp w cmd hook current n in
        (done.0
          ≡ wrote (
              event_for stamp cmd.aggregate_id cmd.event_name n
                (or_zero c r current)
                (cmd.emit_event current)))
        × Holds l r done.1 cmd.aggregate_id (cmd.emit_event current) (suc n)
  unfolding commit append_tx
  commit_lem ctxs stamp w cmd hook current n (begins, appends') clear x quiet h =
      let a = or_zero c r current in
      let b = cmd.emit_event current in
      let id = events_of cmd.aggregate_id in
      let evt = event_for stamp cmd.aggregate_id cmd.event_name n a b in
      let built = build_event-Encoded stamp cmd.aggregate_id cmd.event_name n a b x in
      let low = (Chain-below l r 1 n r.zero_value a (entries_of w.store id) h.chain).1 in
      let e : Entry D = record { version = suc n; blob = x.blob } in
      let step = Encoded-Records stamp cmd.event_name n a b x in
      let q = append_then-committed w.store id n x.blob (run_hook c r hook evt) quiet clear low in
      let holds : Holds l r
          (record w {
            store = (atomically none (append_tx c r none hook (ok (x.blob, evt))) w.store).1;
          })
          cmd.aggregate_id b (suc n) =
        record {
          chain =
              rw q.1 (Chain-append l r 1 n r.zero_value a b (entries_of w.store id) e h.chain step);
          marked = λ blob snap there read. rw q.1 (
              Marks-append (entries_of w.store id) a b n e snap step
                (h.marked blob snap there read));
        } in
      (rw (begins, appends', built, q.0) refl, rw (begins, appends', built) holds)
