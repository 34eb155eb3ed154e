-- ===== src/Bus/Channel/Refining.antt =====
-- Publish and PublishSync against the live subscriptions.
use asynx.Base.Dict
use asynx.Bus.Channel.Reaching.{closed, started}
use asynx.Bus.Channel.{
  publish, publish_sync, Regexps, ChannelBus, String, Subscription, Bool, List, if◌then◌else◌,
  exact_subs_of, fail, Error, sentinel, err_bus_closed, ok, handler_done, regex_matches, close,
  Result,
}
use asynx.Bus.Channel.Reaching.{
  Live, Reaches, IsSound, subs_of, subscribed, subscription_of, subscribed-added, added-IsSound,
  unsubscribed, published, publish-Alike, Alike-IsSound, published_sync, handled, closed,
}
use asynx.Base.{keep_if, ◌≡◌, ◌&&◌, ◌∷◌, ◌++◌, arith, none, [], refl, ap, ◌∙◌, sym, true, false}
use asynx.Bus.Index.Representing.{is_for, is_regex}
use asynx.Bus.Channel.Publishing.{hits, regex_matches_lem}
use asynx.Bus.Channel.Leaving.{unsubscribe-IsSound}
use mathlib.Core.Path.{subst}

module _ (x : Regexps) where
  reached-IsSound : (b : ChannelBus) (live : Live) → Reaches x b live → IsSound x b live
  unfolding handler_done close
  reached-IsSound _ _ started = record {
    represents = record {
      exact =
          λ name. rw (Dict.get-empty {K = String} {V = List Subscription} name, exact_subs_of) refl;
      regex = refl;
    };
    entries = tt;
    older = λ id sub h. cc (h, Dict.get-empty {K = String} {V = Subscription} id);
    apart = λ id sub h. cc (h, Dict.get-empty {K = String} {V = Subscription} id);
    cached = record {
      compiled = λ p f h. cc (h, Dict.get-empty {K = String} {V = String → Bool} p);
      errors = λ p e h. cc (h, Dict.get-empty {K = String} {V = Error} p);
    };
  }
  reached-IsSound _ _ (subscribed {b} {live} id pattern s b' before fresh done) =
      subst (λ q. IsSound x q (live ++ (id, subscription_of b pattern s) ∷ []))
        (sym (subscribed-added x b b' id pattern s done))
        (added-IsSound x b live id (subscription_of b pattern s) (reached-IsSound b live before)
          fresh refl)
  reached-IsSound _ _ (unsubscribed {b} {live} id before) =
      unsubscribe-IsSound x b id live (reached-IsSound b live before)
  reached-IsSound _ _ (published {b} {live} ctx name before) =
      let v = reached-IsSound b live before in
      let p = publish-Alike x ctx name b v.cached in
      Alike-IsSound x b (publish x ctx name b).1 live p.0.0 p.0.1 v
  reached-IsSound _ _ (published_sync {b} {live} ctx name before) =
      let v = reached-IsSound b live before in
      let p = publish-Alike x ctx name b v.cached in
      Alike-IsSound x b (publish_sync x ctx name b).1 live p.1.0 p.1.1 v
  reached-IsSound _ _ (handled {b} {live} before) =
      let v = reached-IsSound b live before in
      Alike-IsSound x b (handler_done b) live
        (record { subscriptions = refl; idx = refl; closed = refl; next = refl })
        (record { compiled = v.cached.compiled; errors = v.cached.errors }) v
  reached-IsSound _ _ (closed {b} {live} at_wait before) =
      let v = reached-IsSound b live before in
      record {
        represents = v.represents;
        entries = v.entries;
        older = v.older;
        apart = v.apart;
        cached = record { compiled = v.cached.compiled; errors = v.cached.errors };
      }

  answered :
      (shut shut' : Bool) (subs subs' : List Subscription) (b b' : ChannelBus)
      → shut ≡ shut'
      → subs ≡ subs'
      → (if◌then◌else◌ {A = Result (List Subscription) × ChannelBus} shut
          (fail (sentinel err_bus_closed), b)
          (ok subs, b')).0
        ≡ (if shut' then fail (sentinel err_bus_closed) else ok subs')
  answered true shut' subs subs' b b' e same = rw (sym e) refl
  answered false shut' subs subs' b b' e same = rw (sym e) (ap ok same)

  -- The subscriptions that an event of the name goes to.
  abbrev pub recipients : String → Live → List Subscription
  recipients name live =
      keep_if (is_for x.is_exact name) (subs_of live)
      ++ keep_if (λ s. is_regex x.is_exact s && hits x name s) (subs_of live)

  keep_if-both :
      (p q : Subscription → Bool) (subs : List Subscription)
      → keep_if p (keep_if q subs) ≡ keep_if (λ s. q s && p s) subs
  keep_if-both p q [] = refl
  keep_if-both p q (s ∷ subs) = ground (arith, keep_if-both p q subs)

  -- After any calls, Publish and PublishSync with a live context start the handlers of the live
  -- subscriptions whose pattern is the name of the event, if the pattern has no metacharacters, or
  -- else matches it as a regular expression: the former first, and each kind in the order of
  -- Subscribe. What is live is what Subscribe accepted and Unsubscribe has not ended, whatever was
  -- published before; a pattern that does not compile matches nothing. On a closed bus they fail
  -- with ErrBusClosed.
  pub publish_refines :
      (b : ChannelBus) (live : Live) (name : String)
      → Reaches x b live
      → let answer =
          if b.closed then fail (sentinel err_bus_closed) else ok (recipients name live) in
        ((publish x none name b).0 ≡ answer) × ((publish_sync x none name b).0 ≡ answer)
  unfolding publish publish_sync
  publish_refines b live name reached =
      let v = reached-IsSound b live reached in
      let (found, cached, alike) = regex_matches_lem x name b.idx.regex_subs b v.cached in
      let same : exact_subs_of b.idx name ++ (regex_matches x name b.idx.regex_subs b).0
          ≡ recipients name live =
        ap (λ subs. subs ++ (regex_matches x name b.idx.regex_subs b).0) (v.represents.exact name)
        ∙ ap (λ subs. keep_if (is_for x.is_exact name) (subs_of live) ++ subs)
            (found
              ∙ ap (keep_if (hits x name)) v.represents.regex
              ∙ keep_if-both (hits x name) (is_regex x.is_exact) (subs_of live)) in
      let b' = (regex_matches x name b.idx.regex_subs b).1 in
      (
        answered b'.closed b.closed _ _ _ _ alike.closed same,
        answered b'.closed b.closed _ _ _ _ alike.closed same,
      )
