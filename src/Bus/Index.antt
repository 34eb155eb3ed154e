-- ===== src/Bus/Index.antt =====
-- internal/bus/utils/index.go and the records of internal/bus/models.
pub mod Representing
use asynx.Base.{none, some, [], string_eq}
use asynx.Base.Dict
use asynx.Base.Dict.{Dict}
use asynx.Base.{
  List, ℕ, String, keep_if, Bool, not, ◌==◌, if◌then◌else◌, ◌++◌, is_empty, nat_eq, ◌∷◌, string_eq,
  [],
}

-- `identity` tells two subscriptions apart, as their addresses do.
pub record Subscription : Type 0 where
  pub identity : ℕ
  pub pattern : String
  pub has_fallback : Bool
  pub timeout : ℕ

pub record PublishIndex : Type 0 where
  pub exact_subs : Dict String (List Subscription)
  pub regex_subs : List Subscription

abbrev pub exact_subs_of : PublishIndex → String → List Subscription
exact_subs_of idx pattern = elim (Dict.get idx.exact_subs pattern) [ none ↦ [] | some subs ↦ subs ]

unfoldable pub without_sub : Subscription → List Subscription → List Subscription
without_sub sub = keep_if (λ s. not (s.identity == sub.identity))

-- `is_exact` is IsExactPattern, regexp.QuoteMeta(pattern) == pattern.
module _ (is_exact : String → Bool) where
  pub index_with : Subscription → PublishIndex → PublishIndex
  index_with sub old =
      if not (is_exact sub.pattern)
      then record old { regex_subs = old.regex_subs ++ sub ∷ [] }
      else record old {
        exact_subs =
            Dict.put old.exact_subs sub.pattern (exact_subs_of old sub.pattern ++ sub ∷ []);
      }

  pub index_without : Subscription → PublishIndex → PublishIndex
  unfolding without_sub
  index_without sub old =
      if not (is_exact sub.pattern)
      then record old { regex_subs = without_sub sub old.regex_subs }
      else let rest = without_sub sub (exact_subs_of old sub.pattern) in
        let others = Dict.remove old.exact_subs sub.pattern in
        record old {
          exact_subs = if is_empty rest then others else Dict.put others sub.pattern rest;
        }
