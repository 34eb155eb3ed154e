-- ===== src/Bus/Channel/Leaving.antt =====
-- Unsubscribe on the channel bus, against the list of its live subscriptions.
use asynx.Base.Dict
use asynx.Base.{
  String, [], All, not, ◌≡◌, none, some, sym, ◌==◌, string_eq, ◌∷◌, refl, arith, if_cases, false,
  nat_eq, Option-cases, inl, inr,
}
use asynx.Bus.Channel.{ChannelBus, Regexps, Subscription, unsubscribe, index_without}
use asynx.Bus.Index.Representing.{Represents, Owns, index_without-Represents}
use mathlib.Core.Path.{subst}
use asynx.Bus.Index.{without_sub}
use asynx.Bus.Channel.Reaching.{Live, subs_of, ended, IsSound}

module _ (x : Regexps) where
  remove-get :
      (d : Dict.Dict String Subscription) (id j : String) (s : Subscription)
      → Dict.get (Dict.remove d id) j ≡ some s
      → Dict.get d j ≡ some s
  remove-get d id j s h = ground (arith, h, Dict.get-remove d id j)

  All-ended {κ μ} :
      (P : String × Subscription → Type κ) (Q : String × Subscription → Type μ) (id : String)
      (live : Live)
      → ((p : String × Subscription) → P p → (p.0 == id) ≡ false → Q p)
      → All P live
      → All Q (ended id live)
  All-ended P Q id [] f h = tt
  All-ended P Q id (p ∷ live) f (h, hs) =
      let rest = All-ended P Q id live f hs in
      if_cases {A = Live} (All Q) (not (p.0 == id)) (λ other. (f p h (ground (arith, other)), rest))
        (λ _. rest)

  module _ (b : ChannelBus) (id : String) (sub : Subscription)
      (there : Dict.get b.subscriptions id ≡ some sub) where
    -- The identity and the id of the subscription go together.
    same_sub :
        (live : Live) (v : IsSound x b live) (p : String × Subscription)
        → Dict.get b.subscriptions p.0 ≡ some p.1
        → (p.0 == id) ≡ (p.1.identity == sub.identity)
    same_sub live v p h = ground (
      arith,
      h,
      there,
      v.apart p.0 p.1 h id sub there,
      string_eq.beq_iff p.0 id,
      nat_eq.beq_iff p.1.identity sub.identity,
    )

    subs_of-ended :
        (all live : Live)
        → IsSound x b all
        → All (λ p. Dict.get b.subscriptions p.0 ≡ some p.1) live
        → subs_of (ended id live) ≡ without_sub sub (subs_of live)
    unfolding without_sub
    subs_of-ended all [] v h = refl
    subs_of-ended all (p ∷ live) v (h, hs) =
        ground (arith, same_sub all v p h, subs_of-ended all live v hs)

    Owns-subs :
        (all live : Live)
        → IsSound x b all
        → All (λ p. Dict.get b.subscriptions p.0 ≡ some p.1) live
        → Owns x.is_exact sub (subs_of live)
    Owns-subs all [] v h = tt
    Owns-subs all (p ∷ live) v (h, hs) = (
      λ same. ground (
        arith,
        same,
        h,
        there,
        v.apart p.0 p.1 h id sub there,
        nat_eq.beq_iff p.1.identity sub.identity,
      ),
      Owns-subs all live v hs,
    )

    removed-IsSound :
        (live : Live)
        → IsSound x b live
        → IsSound x
            (record b {
              subscriptions = Dict.remove b.subscriptions id;
              idx = index_without x.is_exact sub b.idx;
            })
            (ended id live)
    removed-IsSound live v = record {
      represents =
          subst (Represents x.is_exact (index_without x.is_exact sub b.idx))
            (sym (subs_of-ended live live v v.entries))
            (index_without-Represents x.is_exact sub b.idx (subs_of live) v.represents
              (Owns-subs live live v v.entries));
      entries =
          All-ended (λ p. Dict.get b.subscriptions p.0 ≡ some p.1)
            (λ p. Dict.get (Dict.remove b.subscriptions id) p.0 ≡ some p.1) id live
            (λ p h other. ground (
              arith,
              h,
              other,
              Dict.get-remove b.subscriptions id p.0,
              string_eq.beq_iff id p.0,
              string_eq.beq_iff p.0 id,
            ))
            v.entries;
      older = λ j s h. v.older j s (remove-get b.subscriptions id j s h);
      apart = λ j s h k t g.
          v.apart j s (remove-get b.subscriptions id j s h) k t
            (remove-get b.subscriptions id k t g);
      cached = record { compiled = v.cached.compiled; errors = v.cached.errors };
    }

  none-ended :
      (b : ChannelBus) (id : String) (live : Live)
      → Dict.get b.subscriptions id ≡ none
      → All (λ p. Dict.get b.subscriptions p.0 ≡ some p.1) live
      → ended id live ≡ live
  none-ended b id [] missing h = refl
  none-ended b id (p ∷ live) missing (h, hs) =
      ground (arith, missing, h, string_eq.beq_iff p.0 id, none-ended b id live missing hs)

  pub unsubscribe-IsSound :
      (b : ChannelBus) (id : String) (live : Live)
      → IsSound x b live
      → IsSound x (unsubscribe x id b) (ended id live)
  unfolding unsubscribe
  unsubscribe-IsSound b id live v = elim (Option-cases (Dict.get b.subscriptions id)) [
    | inl missing ↦
        rw (missing, unsubscribe)
          (subst (IsSound x b) (sym (none-ended b id live missing v.entries)) v)
    | inr (sub, there) ↦ rw (there, unsubscribe) (removed-IsSound b id sub there live v)
  ]
