-- ===== src/EventStore/History.antt =====
-- A stream that records the states of an aggregate, and what the replayer makes of it.
use asynx.Base.{
  ℕ, String, List, ◌≡◌, suc, ◌≤◌, ◌∷◌, ◌++◌, All, [], arith, is_empty, sym, true, ap, ◌-◌, ◌||◌,
  refl, ltb,
}
use asynx.EventStore.Codec.{Codec, Laws, InternalEvent}
use asynx.EventStore.Replayer.{
  Replayer, apply_patches_to_json, hydrate_events, upcast_internal_event, Progress,
}
use asynx.Store.Memory.Slices.{Entry}
use asynx.EventStore.Reader.{deserialize_events, last_event}
use asynx.Store.Memory.Order.{Above}
use asynx.Models.Errors.{ok}
use asynx.Store.Memory.{to_blobs}
use mathlib.Core.Path.{subst}

module _ {T J P D : Type 0} {c : Codec T J P D} (l : Laws c) (r : Replayer T) where
  -- The patches take every document of the first state to one of the second.
  abbrev pub Turns : String → T → T → Type 0
  Turns patches a b =
      (j : J)
      → l.Encodes j a
      → (j' : J) × (apply_patches_to_json c r j patches ≡ ok j') × l.Encodes j' b

  -- The record holds an event of the version, and its patches, upcast, take the state on.
  pub record Records (version : ℕ) (a : T) (e : Entry D) (b : T) : Type 0 where
    pub event : InternalEvent
    pub upcast : InternalEvent
    pub at_version : e.version ≡ version
    pub decodes : c.decode_event e.blob ≡ ok event
    pub numbered : event.version ≡ version
    pub upcasts : upcast_internal_event c r event ≡ ok upcast
    pub turns : Turns upcast.patches a b

  -- The records lead from the state `a` to the state `b`, and from the version before `first` to
  -- `last`, without a gap.
  abbrev pub Chain : (first : ℕ) → T → List (Entry D) → T → (last : ℕ) → Type 0
  Chain first a [] b last = (a ≡ b) × (first ≡ suc last)
  Chain first a (e ∷ es) b last = (m : T) × Records first a e m × Chain (suc first) m es b last

  pub Chain-append :
      (first last : ℕ) (a b m : T) (es : List (Entry D)) (e : Entry D)
      → Chain first a es b last
      → Records (suc last) b e m
      → Chain first a (es ++ e ∷ []) m (suc last)
  Chain-append first last a b m [] e (same, ends) h = (
    m,
    subst (λ x. Records x a e m) (sym ends) (subst (λ x. Records (suc last) x e m) (sym same) h),
    (refl, ap suc ends),
  )
  Chain-append first last a b m (x ∷ es) e (k, step, rest) h =
      (k, step, Chain-append (suc first) last k b m es e rest h)

  pub Chain-Above :
      (first last : ℕ) (a b : T) (es : List (Entry D)) → Chain first a es b last → Above first es
  Chain-Above first last a b [] h = tt
  Chain-Above first last a b (e ∷ es) (m, step, rest) = (
    omega (arith, step.at_version),
    subst (λ v. Above (suc v) es) (sym step.at_version) (Chain-Above (suc first) last m b es rest),
  )

  -- The versions end with `last`.
  pub Chain-below :
      (first last : ℕ) (a b : T) (es : List (Entry D))
      → Chain first a es b last
      → (first ≤ suc last) × All (λ e. e.version ≤ last) es
  Chain-below first last a b [] (_, ends) = (omega arith, tt)
  Chain-below first last a b (e ∷ es) (m, step, rest) =
      let k = Chain-below (suc first) last m b es rest in
      (omega (arith, k.0), (omega (arith, k.0, step.at_version), k.1))

  -- What the reader decodes of a chain, and what the replayer makes of the events.
  pub record Decodes (first : ℕ) (a : T) (es : List (Entry D)) (b : T) (last : ℕ) : Type 0 where
    pub events : List InternalEvent
    pub decoded : deserialize_events c r (to_blobs es) ≡ ok events
    pub idle : is_empty events ≡ true → (a ≡ b) × (first ≡ suc last)
    pub as_empty : is_empty events ≡ is_empty es
    pub hydrated :
        (p : Progress J)
        → l.Encodes p.state_json a
        → (q : Progress J) × (hydrate_events c r events p ≡ ok q)
          × l.Encodes q.state_json b
          × ((is_empty events ≡ true → p.last_version ≡ first - 1) → q.last_version ≡ last)
    pub ends :
        (before : InternalEvent)
        → before.version ≡ first - 1
        → (last_event before events).version ≡ last

  pub Chain-Decodes :
      (first last : ℕ) (a b : T) (es : List (Entry D))
      → Chain (suc first) a es b last
      → Decodes (suc first) a es b last
  unfolding deserialize_events hydrate_events to_blobs
  Chain-Decodes first last a b [] (same, ends) = record {
    events = [];
    decoded = refl;
    idle = λ _. (same, ends);
    as_empty = refl;
    hydrated = λ p h.
        (p, refl, subst (λ x. l.Encodes p.state_json x) same h, λ e. omega (arith, ends, e refl));
    ends = λ before h. omega (arith, ends, h);
  }
  Chain-Decodes first last a b (e ∷ es) (m, step, rest) =
      let d = Chain-Decodes (suc first) last m b es rest in
      record {
        events = step.event ∷ d.events;
        decoded = rw (step.decodes, d.decoded) refl;
        idle = λ h. cc h;
        as_empty = refl;
        hydrated = λ p h.
            let t = step.turns p.state_json h in
            let q =
              d.hydrated
                (record {
                  state_json = t.0;
                  upcasted = p.upcasted || ltb step.event.schema_version r.current_schema_version;
                  last_version = step.event.version;
                })
                t.2 in
            (q.0, rw (step.upcasts, t.1) q.1, q.2, λ _. q.3 (λ _. omega (arith, step.numbered)));
        ends = λ before h. d.ends step.event (omega (arith, step.numbered));
      }
