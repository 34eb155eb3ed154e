-- ===== src/Processor/Recovery/Redelivering.antt =====
-- Every pending delivery of an aggregate is accounted for by its redelivery.
use asynx.Base.Dict
use asynx.Base.Dict.{Dict}
use asynx.Base.{
  List, [], ℕ, contains, map, ◌∷◌, ◌++◌, ◌≡◌, false, ap, ◌||◌, arith, refl, nat_eq, true, none,
  is_some, sym, some, ◌∙◌, Option, ==_refl, not, Bool, if_cases, Distinct, contains-append,
  Distinct-snoc,
}
use asynx.EventStore.Codec.{Codec}
use asynx.Models.Records.{Event}
use asynx.EventStore.Replayer.{Replayer}
use asynx.Processor.Recovery.{
  DeliveryPort, BacklogEnqueuer, is_named, enqueue_answered, enqueue, enqueue_each, Error,
}
use mathlib.Core.List.{append-nil, append_assoc}

abbrev pub versions : {T : Type 0} → List (Event T) → List ℕ
versions = map (λ e. e.version)

-- The members of the first list stand in the second, in the same order.
pub data InOrder {A : Type 0} : List A → List A → Type 0 where
  nothing : {ys : List A} → InOrder [] ys
  skips : {y : A} {xs ys : List A} → InOrder xs ys → InOrder xs (y ∷ ys)
  keeps : {x : A} {xs ys : List A} → InOrder xs ys → InOrder (x ∷ xs) (x ∷ ys)

versions-snoc :
    {T : Type 0} (evts : List (Event T)) (e : Event T)
    → versions (evts ++ e ∷ []) ≡ versions evts ++ e.version ∷ []
versions-snoc [] e = refl
versions-snoc (x ∷ evts) e = ap (λ vs. x.version ∷ vs) (versions-snoc evts e)

module _ {T J P D S : Type 0} (c : Codec T J P D) (r : Replayer T) (port : DeliveryPort T S) where
  -- What the enqueuer has done with the versions that it was given.
  pub record Split (start : Dict ℕ (Unit {0})) (e : BacklogEnqueuer T S) : Type 0 where
    pub covers :
        (v : ℕ) → is_named start v ≡ (is_named e.vanished v || contains v (versions e.taken))
    pub apart : (v : ℕ) → is_named e.vanished v ≡ true → contains v (versions e.taken) ≡ false
    pub once : Distinct (versions e.taken)

  taken-Split :
      (start : Dict ℕ (Unit {0})) (evt : Event T) (e : BacklogEnqueuer T S) (s : S)
      → is_named e.vanished evt.version ≡ true
      → Split start e
      → Split start (enqueue_answered c r port evt (none, s) e)
  taken-Split start evt e s there p = record {
    covers = λ v. rw (versions-snoc e.taken evt) (
        ground (
          arith,
          p.covers v,
          contains-append v (versions e.taken) (evt.version ∷ []),
          Dict.get-remove e.vanished evt.version v,
          there,
        ));
    apart = λ v h. rw (versions-snoc e.taken evt) (
        ground (
          arith,
          h,
          p.apart v,
          contains-append v (versions e.taken) (evt.version ∷ []),
          Dict.get-remove e.vanished evt.version v,
        ));
    once =
        rw (versions-snoc e.taken evt)
          (Distinct-snoc (versions e.taken) evt.version p.once (p.apart evt.version there));
  }

  abbrev is_idle : Event T → BacklogEnqueuer T S → Bool
  is_idle evt e = not (is_named e.vanished evt.version) || is_some e.err

  -- An enqueue leaves the enqueuer alone, or the dispatcher was asked and refused, or took the event.
  enqueue-cases {κ} :
      (P : BacklogEnqueuer T S → Type κ) (evt : Event T) (e : BacklogEnqueuer T S)
      → (is_idle evt e ≡ true → P e)
      → (is_idle evt e ≡ false
          → (x : Error) (s : S) → P (enqueue_answered c r port evt (some x, s) e))
      → (is_idle evt e ≡ false → (s : S) → P (enqueue_answered c r port evt (none, s) e))
      → P (enqueue c r port evt e)
  unfolding enqueue
  enqueue-cases P evt e left refused took =
      if_cases P (is_idle evt e) left (λ busy. answered busy (port.enqueue evt e.dispatcher))
    where
      answered :
          is_idle evt e ≡ false → (a : Option Error × S) → P (enqueue_answered c r port evt a e)
      answered busy (none, s) = took busy s
      answered busy (some x, s) = refused busy x s

  pub enqueue_each-Split :
      (start : Dict ℕ (Unit {0})) (evts : List (Event T)) (e : BacklogEnqueuer T S)
      → Split start e
      → Split start (enqueue_each c r port evts e)
  unfolding enqueue_each
  enqueue_each-Split start [] e p = p
  enqueue_each-Split start (evt ∷ evts) e p =
      enqueue_each-Split start evts (enqueue c r port evt e) (
        enqueue-cases (Split start) evt e (λ _. p)
          (λ _ x s. record { covers = p.covers; apart = p.apart; once = p.once })
          (λ busy s. taken-Split start evt e s (ground (arith, busy)) p))

  -- What is named after the events was named before.
  enqueue_each-shrinks :
      (evts : List (Event T)) (e : BacklogEnqueuer T S) (v : ℕ)
      → is_named (enqueue_each c r port evts e).vanished v ≡ true
      → is_named e.vanished v ≡ true
  unfolding enqueue_each
  enqueue_each-shrinks [] e v h = h
  enqueue_each-shrinks (evt ∷ evts) e v h =
      enqueue-cases (λ e'. is_named e'.vanished v ≡ true → is_named e.vanished v ≡ true) evt e
        (λ _ k. k) (λ _ x s k. k)
        (λ _ s k. ground (arith, k, Dict.get-remove e.vanished evt.version v))
        (enqueue_each-shrinks evts (enqueue c r port evt e) v h)

  enqueue_each-failed :
      (evts : List (Event T)) (e : BacklogEnqueuer T S)
      → is_some e.err ≡ true
      → is_some (enqueue_each c r port evts e).err ≡ true
  unfolding enqueue_each
  enqueue_each-failed [] e h = h
  enqueue_each-failed (evt ∷ evts) e h =
      enqueue_each-failed evts (enqueue c r port evt e)
        (enqueue-cases (λ e'. is_some e'.err ≡ true) evt e (λ _. h) (λ _ x s. refl) (λ _ s. h))

  -- Without an error, none of the events that the replay gave is still named.
  pub enqueue_each-exhausts :
      (evts : List (Event T)) (e : BacklogEnqueuer T S) (v : ℕ)
      → (enqueue_each c r port evts e).err ≡ none
      → is_named (enqueue_each c r port evts e).vanished v ≡ true
      → contains v (versions evts) ≡ false
  unfolding enqueue_each
  enqueue_each-exhausts [] e v fine h = refl
  enqueue_each-exhausts (evt ∷ evts) e v fine h =
      let e' = enqueue c r port evt e in
      let gone : is_some e'.err ≡ false → is_named e'.vanished evt.version ≡ false =
        enqueue-cases (λ q. is_some q.err ≡ false → is_named q.vanished evt.version ≡ false) evt e
          (λ idle f. ground (arith, idle, f)) (λ _ x s f. cc)
          (λ _ s f.
            ground
              (arith, Dict.get-remove e.vanished evt.version evt.version, ==_refl evt.version)) in
      let fine' : is_some e'.err ≡ false = ground (arith, fine, enqueue_each-failed evts e') in
      ground (
        arith,
        enqueue_each-exhausts evts e' v fine h,
        enqueue_each-shrinks evts e' v h,
        gone fine',
      )

  -- The events are taken in the order of the replay.
  pub enqueue_each-InOrder :
      (evts : List (Event T)) (e : BacklogEnqueuer T S)
      → (more : List (Event T)) × ((enqueue_each c r port evts e).taken ≡ e.taken ++ more)
        × InOrder more evts
  unfolding enqueue_each
  enqueue_each-InOrder [] e = ([], sym (append-nil e.taken), nothing)
  enqueue_each-InOrder (evt ∷ evts) e =
      let (more, eq, ordered) = enqueue_each-InOrder evts (enqueue c r port evt e) in
      enqueue-cases
        (λ e'.
          (enqueue_each c r port evts (enqueue c r port evt e)).taken ≡ e'.taken ++ more
          → (m : List (Event T)) × ((enqueue_each c r port evts (enqueue c r port evt e)).taken
              ≡ e.taken ++ m)
            × InOrder m (evt ∷ evts))
        evt e (λ _ k. (more, k, skips ordered)) (λ _ x s k. (more, k, skips ordered))
        (λ _ s k. (evt ∷ more, k ∙ append_assoc e.taken (evt ∷ []) more, keeps ordered)) eq

  -- What every Enqueue preserves holds of the dispatcher after the events.
  pub enqueue_each-keeps {κ} :
      (P : S → Type κ)
      → ((evt : Event T) (s : S) → P s → P (port.enqueue evt s).1)
      → (evts : List (Event T)) (e : BacklogEnqueuer T S) → P e.dispatcher
      → P (enqueue_each c r port evts e).dispatcher
  unfolding enqueue_each enqueue
  enqueue_each-keeps P step [] e h = h
  enqueue_each-keeps P step (evt ∷ evts) e h =
      enqueue_each-keeps P step evts (enqueue c r port evt e) (
        if_cases {A = BacklogEnqueuer T S} (λ e'. P e'.dispatcher) (is_idle evt e) (λ _. h)
          (λ _. answered (port.enqueue evt e.dispatcher) (step evt e.dispatcher h)))
    where
      answered : (a : Option Error × S) → P a.1 → P (enqueue_answered c r port evt a e).dispatcher
      answered (none, s) k = k
      answered (some x, s) k = k
