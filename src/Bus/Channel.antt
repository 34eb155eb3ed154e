-- ===== src/Bus/Channel.antt =====
-- internal/bus/channel_bus.go. regexp.QuoteMeta and regexp.Compile are given by their results.
pub mod Leaving
pub mod Publishing
pub mod Reaching
pub mod Refining
use asynx.Base.Dict
use asynx.Base.Dict.{Dict}
use asynx.Base.{
  Bool, Option, ◌-◌, String, [], ℕ, false, List, true, some, ◌∷◌, if◌then◌else◌, string_eq, ◌++◌,
  none, ◌+◌, length, ◌==◌, not, suc,
}
use asynx.Bus.Index.{index_with, index_without, Subscription, PublishIndex, exact_subs_of}
use asynx.Store.Memory.{Ctx}
use asynx.Models.Errors.{
  Error, Result, ok, fail, sentinel, err_bus_closed, err_empty_pattern, err_nil_handler,
}

pub record Regexps : Type 0 where
  pub is_exact : String → Bool
  pub compile : String → Result (String → Bool)

-- `next` is the identity of the next subscription, `in_flight` the count of inFlightWg.
pub record ChannelBus : Type 0 where
  pub subscriptions : Dict String Subscription
  pub idx : PublishIndex
  pub closed : Bool
  pub in_flight : ℕ
  pub compiled_patterns : Dict String (String → Bool)
  pub pattern_errors : Dict String Error
  pub next : ℕ

abbrev pub new_channel_bus : ChannelBus
new_channel_bus = record {
  subscriptions = Dict.empty;
  idx = record { exact_subs = Dict.empty; regex_subs = [] };
  closed = false;
  in_flight = 0;
  compiled_patterns = Dict.empty;
  pattern_errors = Dict.empty;
  next = 0;
}

-- What Subscribe is given besides the pattern.
pub record Subscribing : Type 0 where
  pub has_handler : Bool
  pub has_fallback : Bool
  pub timeout : ℕ

module _ (x : Regexps) where
  -- `id` is the one that NewID makes.
  unfoldable pub subscribe : String → String → Subscribing → ChannelBus → Result ChannelBus
  subscribe id pattern s b =
      if pattern == ""
      then fail (sentinel err_empty_pattern)
      else if not s.has_handler
      then fail (sentinel err_nil_handler)
      else if b.closed
      then fail (sentinel err_bus_closed)
      else let sub : Subscription = record {
        identity = b.next;
        pattern = pattern;
        has_fallback = s.has_fallback;
        timeout = s.timeout;
      } in
        ok (record b {
          subscriptions = Dict.put b.subscriptions id sub;
          idx = index_with x.is_exact sub b.idx;
          next = suc b.next;
        })

  pub unsubscribe : String → ChannelBus → ChannelBus
  unsubscribe id b = elim (Dict.get b.subscriptions id) [
    | none ↦ b
    | some sub ↦ record b {
      subscriptions = Dict.remove b.subscriptions id;
      idx = index_without x.is_exact sub b.idx;
    }
  ]

  abbrev pub compiles :
      String → Result (String → Bool) → ChannelBus → Result (String → Bool) × ChannelBus
  compiles pattern (ok f) b =
      (ok f, record b { compiled_patterns = Dict.put b.compiled_patterns pattern f })
  compiles pattern (fail e) b =
      (fail e, record b { pattern_errors = Dict.put b.pattern_errors pattern e })

  pub get_compiled_pattern : String → ChannelBus → Result (String → Bool) × ChannelBus
  get_compiled_pattern pattern b = elim (Dict.get b.compiled_patterns pattern) [
    | some f ↦ (ok f, b)
    | none ↦ elim (Dict.get b.pattern_errors pattern) [
      | some e ↦ (fail e, b)
      | none ↦ compiles pattern (x.compile pattern) b
    ]
  ]

  abbrev pub matches : String → Result (String → Bool) → Bool
  matches name (ok f) = f name
  matches name (fail e) = false

  pub matches_regex : String → String → ChannelBus → Bool × ChannelBus
  unfolding get_compiled_pattern
  matches_regex name pattern b =
      let (compiled, b') = get_compiled_pattern pattern b in (matches name compiled, b')

  -- The loop over the subscriptions whose patterns have metacharacters.
  pub regex_matches : String → List Subscription → ChannelBus → List Subscription × ChannelBus
  unfolding matches_regex
  regex_matches name [] b = ([], b)
  regex_matches name (sub ∷ subs) b =
      let (hit, b') = matches_regex name sub.pattern b in
      let (rest, b'') = regex_matches name subs b' in (if hit then sub ∷ rest else rest, b'')

  -- The subscriptions whose handlers are started, in order; Publish counts them as in flight.
  pub publish : Ctx → String → ChannelBus → Result (List Subscription) × ChannelBus
  unfolding regex_matches
  publish (some e) name b = (fail e, b)
  publish none name b =
      let (by_regex, b') = regex_matches name b.idx.regex_subs b in
      let matched = exact_subs_of b.idx name ++ by_regex in
      if b'.closed
      then (fail (sentinel err_bus_closed), b')
      else (ok matched, record b' { in_flight = b'.in_flight + length matched })

  -- PublishSync waits for its own handlers, which are not counted.
  pub publish_sync : Ctx → String → ChannelBus → Result (List Subscription) × ChannelBus
  unfolding regex_matches
  publish_sync (some e) name b = (fail e, b)
  publish_sync none name b =
      let (by_regex, b') = regex_matches name b.idx.regex_subs b in
      if b'.closed
      then (fail (sentinel err_bus_closed), b')
      else (ok (exact_subs_of b.idx name ++ by_regex), b')

-- Done of a handler's job
pub handler_done : ChannelBus → ChannelBus
handler_done b = record b { in_flight = b.in_flight - 1 }

-- `at_wait` is the error of the context, if it ends before the handlers in flight.
unfoldable pub close : Option Error → ChannelBus → Option Error × ChannelBus
close at_wait b = (at_wait, record b { closed = true })
