-- ===== src/Bus/Channel/Reaching.antt =====
-- The bus after any calls, against the list of its live subscriptions.
use asynx.Base.Dict
use asynx.Models.Errors.{Error}
use asynx.Base.{
  List, String, map, keep_if, [], All, not, ◌≡◌, none, some, sym, ◌==◌, ◌<◌, ap, string_eq, ◌∙◌,
  ◌++◌, ◌∷◌, Option, refl, suc, arith, ==_refl, if_cases, nat_eq,
}
use asynx.Bus.Channel.{
  ChannelBus, Regexps, Subscription, new_channel_bus, Subscribing, subscribe, ok, unsubscribe, Ctx,
  publish, publish_sync, handler_done, Error, close, index_with, Result, regex_matches,
}
use asynx.Bus.Index.Representing.{Represents, index_with-Represents, All-map}
use asynx.Bus.Channel.Publishing.{Alike, IsCached, regex_matches_lem}
use mathlib.Core.Path.{subst}

-- The live subscriptions with their ids, in the order of Subscribe.
abbrev pub Live : Type 0
Live = List (String × Subscription)

abbrev pub subs_of : Live → List Subscription
subs_of = map (λ p. p.1)

abbrev pub ended : String → Live → Live
ended id = keep_if (λ p. not (p.0 == id))

abbrev pub subscription_of : ChannelBus → String → Subscribing → Subscription
subscription_of b pattern s = record {
  identity = b.next;
  pattern = pattern;
  has_fallback = s.has_fallback;
  timeout = s.timeout;
}

module _ (x : Regexps) where
  -- The buses that calls reach, with what is live then. NewID makes an id that is not in use.
  pub data Reaches : ChannelBus → Live → Type 0 where
    started : Reaches new_channel_bus []
    subscribed :
        {b : ChannelBus} {live : Live} (id pattern : String) (s : Subscribing) (b' : ChannelBus)
        → Reaches b live
        → Dict.get b.subscriptions id ≡ none
        → subscribe x id pattern s b ≡ ok b'
        → Reaches b' (live ++ (id, subscription_of b pattern s) ∷ [])
    unsubscribed :
        {b : ChannelBus} {live : Live} (id : String)
        → Reaches b live
        → Reaches (unsubscribe x id b) (ended id live)
    published :
        {b : ChannelBus} {live : Live} (ctx : Ctx) (name : String)
        → Reaches b live
        → Reaches (publish x ctx name b).1 live
    published_sync :
        {b : ChannelBus} {live : Live} (ctx : Ctx) (name : String)
        → Reaches b live
        → Reaches (publish_sync x ctx name b).1 live
    handled : {b : ChannelBus} {live : Live} → Reaches b live → Reaches (handler_done b) live
    closed :
        {b : ChannelBus} {live : Live} (at_wait : Option Error)
        → Reaches b live
        → Reaches (close at_wait b).1 live

  pub record IsSound (b : ChannelBus) (live : Live) : Type 0 where
    pub represents : Represents x.is_exact b.idx (subs_of live)
    pub entries : All (λ p. Dict.get b.subscriptions p.0 ≡ some p.1) live
    pub older :
        (id : String) (sub : Subscription)
        → Dict.get b.subscriptions id ≡ some sub
        → sub.identity < b.next
    pub apart :
        (id : String) (sub : Subscription)
        → Dict.get b.subscriptions id ≡ some sub
        → (id' : String) (sub' : Subscription) → Dict.get b.subscriptions id' ≡ some sub'
        → sub.identity ≡ sub'.identity
        → id ≡ id'
    pub cached : IsCached x b

  -- A bus that differs in its caches only, or in what is not looked at.
  pub Alike-IsSound :
      (b b' : ChannelBus) (live : Live)
      → Alike x b b'
      → IsCached x b'
      → IsSound b live
      → IsSound b' live
  Alike-IsSound b b' live p c v = record {
    represents = subst (λ i. Represents x.is_exact i (subs_of live)) (sym p.idx) v.represents;
    entries =
        subst (λ d. All (λ q. Dict.get d q.0 ≡ some q.1) live) (sym p.subscriptions) v.entries;
    older = λ id sub h.
        subst (λ n. sub.identity < n) (sym p.next)
          (v.older id sub (ap (λ d. Dict.get d id) (sym p.subscriptions) ∙ h));
    apart = λ id sub h id' sub' h' e.
        v.apart id sub (ap (λ d. Dict.get d id) (sym p.subscriptions) ∙ h) id' sub'
          (ap (λ d. Dict.get d id') (sym p.subscriptions) ∙ h') e;
    cached = c;
  }

  pub added : ChannelBus → String → Subscription → ChannelBus
  added b id sub = record b {
    subscriptions = Dict.put b.subscriptions id sub;
    idx = index_with x.is_exact sub b.idx;
    next = suc b.next;
  }

  subs_of-snoc :
      (live : Live) (p : String × Subscription)
      → subs_of (live ++ p ∷ []) ≡ subs_of live ++ p.1 ∷ []
  subs_of-snoc [] p = refl
  subs_of-snoc (q ∷ live) p = ap (λ z. q.1 ∷ z) (subs_of-snoc live p)

  All-snoc {κ} :
      (P : String × Subscription → Type κ) (live : Live) (p : String × Subscription)
      → All P live
      → P p
      → All P (live ++ p ∷ [])
  All-snoc P [] p h k = (k, tt)
  All-snoc P (q ∷ live) p (h, hs) k = (h, All-snoc P live p hs k)

  pub added-IsSound :
      (b : ChannelBus) (live : Live) (id : String) (sub : Subscription)
      → IsSound b live
      → Dict.get b.subscriptions id ≡ none
      → sub.identity ≡ b.next
      → IsSound (added b id sub) (live ++ (id, sub) ∷ [])
  unfolding added
  added-IsSound b live id sub v fresh born = record {
    represents =
        subst (Represents x.is_exact (index_with x.is_exact sub b.idx))
          (sym (subs_of-snoc live (id, sub)))
          (index_with-Represents x.is_exact sub b.idx (subs_of live) v.represents);
    entries =
        All-snoc (λ p. Dict.get (Dict.put b.subscriptions id sub) p.0 ≡ some p.1) live (id, sub)
          (All-map live
            (λ p h.
              ground (
                arith,
                h,
                fresh,
                Dict.get-put b.subscriptions id p.0 sub,
                string_eq.beq_iff id p.0,
              ))
            v.entries)
          (ground (arith, Dict.get-put b.subscriptions id id sub, ==_refl id));
    older =
        Dict.put-cases (λ j s. s.identity < suc b.next) b.subscriptions id sub (omega (arith, born))
          (λ j s h. omega (arith, v.older j s h));
    apart =
        Dict.put-cases
          (λ j s.
            (k : String) (t : Subscription)
            → Dict.get (Dict.put b.subscriptions id sub) k ≡ some t
            → s.identity ≡ t.identity
            → j ≡ k)
          b.subscriptions id sub
          (Dict.put-cases (λ k t. sub.identity ≡ t.identity → id ≡ k) b.subscriptions id sub
            (λ _. refl) (λ k t h e. ground (arith, e, born, v.older k t h)))
          (λ j s h.
            Dict.put-cases (λ k t. s.identity ≡ t.identity → j ≡ k) b.subscriptions id sub
              (λ e. ground (arith, e, born, v.older j s h)) (λ k t g e. v.apart j s h k t g e));
    cached = record { compiled = v.cached.compiled; errors = v.cached.errors };
  }

  pub subscribed-added :
      (b b' : ChannelBus) (id pattern : String) (s : Subscribing)
      → subscribe x id pattern s b ≡ ok b'
      → b' ≡ added b id (subscription_of b pattern s)
  unfolding subscribe added
  subscribed-added b b' id pattern s =
      if_cases After (pattern == "") (λ _ h. cc h)
        (λ _.
          if_cases After (not s.has_handler) (λ _ h. cc h)
            (λ _. if_cases After b.closed (λ _ h. cc h) (λ _ h. cc h)))
    where
      After : Result ChannelBus → Type 0
      After q = q ≡ ok b' → b' ≡ added b id (subscription_of b pattern s)

  -- Publish and PublishSync change the caches only, and the count of handlers in flight.
  pub publish-Alike :
      (ctx : Ctx) (name : String) (b : ChannelBus)
      → IsCached x b
      → (Alike x b (publish x ctx name b).1 × IsCached x (publish x ctx name b).1)
        × (Alike x b (publish_sync x ctx name b).1 × IsCached x (publish_sync x ctx name b).1)
  unfolding publish publish_sync
  publish-Alike (some e) name b c =
      let same : Alike x b b = record {
        subscriptions = refl;
        idx = refl;
        closed = refl;
        next = refl;
      } in
      ((same, c), (same, c))
  publish-Alike none name b c =
      let (found, cached, alike) = regex_matches_lem x name b.idx.regex_subs b c in
      let b' = (regex_matches x name b.idx.regex_subs b).1 in
      let P : Result (List Subscription) × ChannelBus → Type 0 =
        λ q. Alike x b q.1 × IsCached x q.1 in
      (
        if_cases P b'.closed (λ _. (alike, cached))
            (λ _. (
              record {
                subscriptions = alike.subscriptions;
                idx = alike.idx;
                closed = alike.closed;
                next = alike.next;
              },
              record { compiled = cached.compiled; errors = cached.errors },
            )),
        if_cases P b'.closed (λ _. (alike, cached)) (λ _. (alike, cached)),
      )
