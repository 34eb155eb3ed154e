-- ===== src/Tests/Publishing.antt =====
-- A subscription whose handler panics, and a bus with two subscriptions.
use asynx.Base.Dict
use asynx.Bus.Handlers.Fallbacks.{Handled}
use asynx.Bus.Channel.{
  subscribe, Regexps, Subscribing, ChannelBus, new_channel_bus, publish, publish_sync,
}
use asynx.Bus.Index.{index_with}
use asynx.Bus.Handlers.{HandlerJob, execute_handler}
use asynx.Bus.Channel.Reaching.{Reaches, subscription_of, subscribed, started, Live}
use asynx.Base.{true, ◌==◌, false, ◌∷◌, string_eq, some, [], none, ◌≡◌, refl}
use asynx.Bus.Handlers.Fallbacks.{execute_handler_lem}
use asynx.Models.Errors.{ok}
use asynx.Bus.Channel.Refining.{recipients, publish_refines}

-- With a timeout, the fallback of a handler that panics is not started.
abbrev timed_job : HandlerJob
timed_job = record {
  handler = record { panics = true; late = false };
  fallback = some (record { panics = false; late = false });
  timeout = 5000000000;
  wait_after_timeout = true;
}

execute_handler_lem_example : Handled timed_job (execute_handler timed_job)
execute_handler_lem_example = execute_handler_lem timed_job

-- Stand-ins for the library's two functions.
abbrev dots : Regexps
dots = record { is_exact = λ pattern. pattern == "created"; compile = λ pattern. ok (λ name. true) }

abbrev plain : Subscribing
plain = record { has_handler = true; has_fallback = false; timeout = 0 }

abbrev first_bus : ChannelBus
first_bus = record new_channel_bus {
  subscriptions = Dict.put Dict.empty "sub-1" (subscription_of new_channel_bus "created" plain);
  idx =
      index_with dots.is_exact (subscription_of new_channel_bus "created" plain)
        new_channel_bus.idx;
  next = 1;
}

first_bus-reached :
    Reaches dots first_bus (("sub-1", subscription_of new_channel_bus "created" plain) ∷ [])
unfolding subscribe
first_bus-reached =
    subscribed "sub-1" "created" plain first_bus started (Dict.get-empty "sub-1") refl

publish_refines_example :
    let live : Live = ("sub-1", subscription_of new_channel_bus "created" plain) ∷ [] in
    ((publish dots none "created" first_bus).0 ≡ ok (recipients dots "created" live))
    × ((publish_sync dots none "created" first_bus).0 ≡ ok (recipients dots "created" live))
publish_refines_example =
    publish_refines dots first_bus (("sub-1", subscription_of new_channel_bus "created" plain) ∷ [])
      "created" first_bus-reached
