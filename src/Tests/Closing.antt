-- ===== src/Tests/Closing.antt =====
-- A shutdown that begins while a command is in flight, and a configuration.
use asynx.Processor.Lifecycle.{
  sends_command, shuts_down, starts, goes_on, Lifecycle, Reaches, begin_send, begin_shutdown,
  new_lifecycle, begin_forget, is_under_way,
}
use asynx.Processor.Lifecycle.Closing.{IsOrderly, is_begun, shutdown_lem}
use asynx.Base.{◌≡◌, true, false, some, ◌∷◌, [], ◌<◌}
use asynx.Models.Errors.{sentinel, err_shutting_down}
use asynx.Processor.Config.{configure, with_shards, with_workers_per_shard, route}
use asynx.Processor.Config.Bounds.{IsUsable, configure_lem}

abbrev one_send : Lifecycle
one_send = (begin_send new_lifecycle).1

abbrev ending : Lifecycle
ending = (begin_shutdown one_send).1

ending-reached : Reaches ending
ending-reached =
    goes_on one_send ending (goes_on new_lifecycle one_send starts (sends_command new_lifecycle))
      (shuts_down one_send)

shutdown_lem_example :
    IsOrderly ending
    × (is_begun ending.shutdown ≡ true
        → (begin_send ending ≡ (false, ending))
          × (begin_forget ending ≡ (some (sentinel err_shutting_down), ending)))
    × (is_under_way ending.shutdown ≡ true → begin_shutdown ending ≡ (false, ending))
shutdown_lem_example = shutdown_lem ending ending-reached

configure_lem_example :
    let cfg = configure (with_shards 0 ∷ with_workers_per_shard 3 ∷ []) in
    IsUsable cfg × (route cfg.shards (111 ∷ 45 ∷ 49 ∷ []) < cfg.shards)
configure_lem_example =
    configure_lem (with_shards 0 ∷ with_workers_per_shard 3 ∷ []) (111 ∷ 45 ∷ 49 ∷ [])
