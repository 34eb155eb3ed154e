-- ===== src/Bus/Index/Representing.antt =====
-- An index against the list of the live subscriptions that it stands for.
use asynx.Base.Dict
use asynx.Base.{
  Bool, List, keep_if, All, String, ◌++◌, ◌≡◌, ◌∷◌, arith, true, ◌&&◌, not, [], Bool-cases, refl,
  ◌==◌, inr, string_eq, inl, nat_eq, false, ap, if◌then◌else◌, is_empty, ◌∙◌, if_cases, sym,
}
use asynx.Bus.Index.{
  Subscription, PublishIndex, index_with, exact_subs_of, without_sub, index_without,
}
use mathlib.Core.List.{append-nil}

module _ {ℓ} {A : Type ℓ} where
  keep_if-append :
      (p : A → Bool) (xs ys : List A) → keep_if p (xs ++ ys) ≡ keep_if p xs ++ keep_if p ys
  keep_if-append p [] ys = refl
  keep_if-append p (x ∷ xs) ys = ground (arith, keep_if-append p xs ys)

  keep_if_comm :
      (p q : A → Bool) (xs : List A) → keep_if p (keep_if q xs) ≡ keep_if q (keep_if p xs)
  keep_if_comm p q [] = refl
  keep_if_comm p q (x ∷ xs) = ground (arith, keep_if_comm p q xs)

  -- A test that passes nothing else than another one does.
  keep_if-absorbs :
      (p q : A → Bool) (xs : List A)
      → All (λ x. p x ≡ true → q x ≡ true) xs
      → keep_if p (keep_if q xs) ≡ keep_if p xs
  keep_if-absorbs p q [] h = refl
  keep_if-absorbs p q (x ∷ xs) (h, hs) = ground (arith, h, keep_if-absorbs p q xs hs)

  pub All-map {κ μ} :
      {P : A → Type κ} {Q : A → Type μ} (xs : List A) → ((x : A) → P x → Q x) → All P xs → All Q xs
  All-map [] f h = tt
  All-map (x ∷ xs) f (h, hs) = (f x h, All-map xs f hs)

is_empty-nil {ℓ} : {A : Type ℓ} (xs : List A) → is_empty xs ≡ true → xs ≡ []
is_empty-nil [] h = refl
is_empty-nil (x ∷ xs) h = cc h

abbrev pub is_for : (String → Bool) → String → Subscription → Bool
is_for is_exact name s = is_exact s.pattern && s.pattern == name

abbrev pub is_regex : (String → Bool) → Subscription → Bool
is_regex is_exact s = not (is_exact s.pattern)

module _ (is_exact : String → Bool) where
  pub record Represents (idx : PublishIndex) (live : List Subscription) : Type 0 where
    pub exact : (name : String) → exact_subs_of idx name ≡ keep_if (is_for is_exact name) live
    pub regex : idx.regex_subs ≡ keep_if (is_regex is_exact) live

  pub index_with-Represents :
      (sub : Subscription) (idx : PublishIndex) (live : List Subscription)
      → Represents idx live
      → Represents (index_with is_exact sub idx) (live ++ sub ∷ [])
  unfolding index_with
  index_with-Represents sub idx live p = elim (Bool-cases (is_exact sub.pattern)) [
    | inr wild ↦ record {
      exact = λ name. ground (
        arith,
        wild,
        p.exact name,
        keep_if-append (is_for is_exact name) live (sub ∷ []),
        append-nil (keep_if (is_for is_exact name) live),
      );
      regex = ground (arith, wild, p.regex, keep_if-append (is_regex is_exact) live (sub ∷ []));
    }
    | inl plain ↦ record {
      exact = λ name. ground (
        arith,
        plain,
        p.exact name,
        p.exact sub.pattern,
        keep_if-append (is_for is_exact name) live (sub ∷ []),
        append-nil (keep_if (is_for is_exact name) live),
        Dict.get-put idx.exact_subs sub.pattern name (exact_subs_of idx sub.pattern ++ sub ∷ []),
        string_eq.beq_iff sub.pattern name,
      );
      regex = ground (
        arith,
        plain,
        p.regex,
        keep_if-append (is_regex is_exact) live (sub ∷ []),
        append-nil (keep_if (is_regex is_exact) live),
      );
    }
  ]

  -- Only subscriptions of one pattern have the identity.
  abbrev pub Owns : Subscription → List Subscription → Type 0
  Owns sub = All (λ s. (s.identity == sub.identity) ≡ true → s.pattern ≡ sub.pattern)

  kept :
      (sub : Subscription) (live : List Subscription) (test : Subscription → Bool)
      → Owns sub live
      → ((s : Subscription) → s.pattern ≡ sub.pattern → test s ≡ false)
      → keep_if test (without_sub sub live) ≡ keep_if test live
  unfolding without_sub
  kept sub live test owns other =
      keep_if-absorbs test _ live
        (All-map live (λ s h passes. ground (arith, passes, other s, h)) owns)

  exact_subs_of-without :
      (sub : Subscription) (idx : PublishIndex) (name : String)
      → is_exact sub.pattern ≡ true
      → exact_subs_of (index_without is_exact sub idx) name ≡ (
          if sub.pattern == name
          then without_sub sub (exact_subs_of idx name)
          else exact_subs_of idx name)
  unfolding index_without
  exact_subs_of-without sub idx name plain =
      let rest = without_sub sub (exact_subs_of idx sub.pattern) in
      let others = Dict.remove idx.exact_subs sub.pattern in
      elim (Bool-cases (is_empty rest)) [
        | inl gone ↦ ground (
          arith,
          plain,
          gone,
          is_empty-nil rest gone,
          Dict.get-remove idx.exact_subs sub.pattern name,
          string_eq.beq_iff sub.pattern name,
        )
        | inr left ↦ ground (
          arith,
          plain,
          left,
          Dict.get-put others sub.pattern name rest,
          Dict.get-remove idx.exact_subs sub.pattern name,
          string_eq.beq_iff sub.pattern name,
        )
      ]

  pub index_without-Represents :
      (sub : Subscription) (idx : PublishIndex) (live : List Subscription)
      → Represents idx live
      → Owns sub live
      → Represents (index_without is_exact sub idx) (without_sub sub live)
  unfolding index_without without_sub
  index_without-Represents sub idx live p owns = elim (Bool-cases (is_exact sub.pattern)) [
    | inr wild ↦ record {
      exact = λ name. ground (
        arith,
        wild,
        p.exact name,
        kept sub live (is_for is_exact name) owns
            (λ s same. ground (arith, wild, ap is_exact same)),
      );
      regex = ground (
        arith,
        wild,
        p.regex,
        keep_if_comm (λ s. not (s.identity == sub.identity)) (is_regex is_exact) live,
      );
    }
    | inl plain ↦ record {
      exact = λ name.
          exact_subs_of-without sub idx name plain
          ∙ if_cases {A = List Subscription}
              (λ subs. subs ≡ keep_if (is_for is_exact name) (without_sub sub live))
              (sub.pattern == name)
              (λ same.
                ap (without_sub sub) (p.exact name)
                ∙ keep_if_comm (λ s. not (s.identity == sub.identity)) (is_for is_exact name) live)
              (λ differs.
                p.exact name
                ∙ sym (
                    kept sub live (is_for is_exact name) owns
                      (λ s same. ground (arith, differs, ap (λ q. q == name) same))));
      regex = ground (
        arith,
        plain,
        p.regex,
        kept sub live (is_regex is_exact) owns (λ s same. ground (arith, plain, ap is_exact same)),
      );
    }
  ]
