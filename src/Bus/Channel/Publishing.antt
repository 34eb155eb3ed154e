-- ===== src/Bus/Channel/Publishing.antt =====
-- A published event reaches the live subscriptions that its name matches: the cache of patterns.
use asynx.Base.Dict
use asynx.Bus.Channel.{
  Regexps, ChannelBus, String, get_compiled_pattern, Bool, Result, compiles, ok, Error, fail,
  Subscription, regex_matches, matches, matches_regex,
}
use asynx.Base.{
  Option-cases, ◌≡◌, some, inr, sym, inl, string_eq, refl, ◌∙◌, List, keep_if, ◌∷◌, [],
}

module _ (x : Regexps) where
  -- The caches hold what regexp.Compile gave.
  pub record IsCached (b : ChannelBus) : Type 0 where
    pub compiled :
        (pattern : String) (f : String → Bool)
        → Dict.get b.compiled_patterns pattern ≡ some f
        → x.compile pattern ≡ ok f
    pub errors :
        (pattern : String) (e : Error)
        → Dict.get b.pattern_errors pattern ≡ some e
        → x.compile pattern ≡ fail e

  -- Only the caches differ.
  pub record Alike (b b' : ChannelBus) : Type 0 where
    pub subscriptions : b'.subscriptions ≡ b.subscriptions
    pub idx : b'.idx ≡ b.idx
    pub closed : b'.closed ≡ b.closed
    pub next : b'.next ≡ b.next

  abbrev Compiled : String → ChannelBus → Result (String → Bool) × ChannelBus → Type 0
  Compiled pattern b q = (q.0 ≡ x.compile pattern) × IsCached q.1 × Alike b q.1

  compiles-IsCached :
      (pattern : String) (b : ChannelBus) (q : Result (String → Bool))
      → IsCached b
      → x.compile pattern ≡ q
      → Compiled pattern b (compiles x pattern q b)
  compiles-IsCached pattern b (ok f) c h = (
    sym h,
    record {
      compiled =
          Dict.put-cases (λ p g. x.compile p ≡ ok g) b.compiled_patterns pattern f h c.compiled;
      errors = c.errors;
    },
    record { subscriptions = refl; idx = refl; closed = refl; next = refl },
  )
  compiles-IsCached pattern b (fail e) c h = (
    sym h,
    record {
      compiled = c.compiled;
      errors = Dict.put-cases (λ p g. x.compile p ≡ fail g) b.pattern_errors pattern e h c.errors;
    },
    record { subscriptions = refl; idx = refl; closed = refl; next = refl },
  )

  get_compiled_pattern-Compiled :
      (pattern : String) (b : ChannelBus)
      → IsCached b
      → Compiled pattern b (get_compiled_pattern x pattern b)
  unfolding get_compiled_pattern
  get_compiled_pattern-Compiled pattern b c =
      let same : Alike b b = record {
        subscriptions = refl;
        idx = refl;
        closed = refl;
        next = refl;
      } in
      elim (Option-cases (Dict.get b.compiled_patterns pattern)) [
        | inr (f, there) ↦
            rw (there, get_compiled_pattern) (sym (c.compiled pattern f there), c, same)
        | inl missing ↦ elim (Option-cases (Dict.get b.pattern_errors pattern)) [
          | inr (e, there) ↦
              rw (missing, there, get_compiled_pattern) (sym (c.errors pattern e there), c, same)
          | inl unknown ↦
              rw (missing, unknown, get_compiled_pattern)
                (compiles-IsCached pattern b (x.compile pattern) c refl)
        ]
      ]

  Alike-trans : (a b d : ChannelBus) → Alike a b → Alike b d → Alike a d
  Alike-trans a b d p q = record {
    subscriptions = q.subscriptions ∙ p.subscriptions;
    idx = q.idx ∙ p.idx;
    closed = q.closed ∙ p.closed;
    next = q.next ∙ p.next;
  }

  -- Whether the pattern of a subscription compiles and matches the name.
  abbrev pub hits : String → Subscription → Bool
  hits name sub = matches x name (x.compile sub.pattern)

  -- The cache does not change which subscriptions match.
  pub regex_matches_lem :
      (name : String) (subs : List Subscription) (b : ChannelBus)
      → IsCached b
      → let q = regex_matches x name subs b in
        (q.0 ≡ keep_if (hits name) subs) × IsCached q.1 × Alike b q.1
  unfolding regex_matches matches_regex
  regex_matches_lem name [] b c =
      (refl, c, record { subscriptions = refl; idx = refl; closed = refl; next = refl })
  regex_matches_lem name (sub ∷ subs) b c =
      let (found, cached, alike) = get_compiled_pattern-Compiled sub.pattern b c in
      let b' = (get_compiled_pattern x sub.pattern b).1 in
      let (rest, cached', alike') = regex_matches_lem name subs b' cached in
      (
        rw (found, rest) refl,
        cached',
        Alike-trans b b' (regex_matches x name subs b').1 alike alike',
      )
