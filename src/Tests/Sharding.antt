-- ===== src/Tests/Sharding.antt =====
-- Two workers of a shard, and three commands of one aggregate.
use asynx.Base.{ℕ, List, ◌∷◌, []}
use asynx.Processor.Shard
use asynx.Processor.Shard.{CommandJob, Move, takes, finishes, moves}
use asynx.Processor.Shard.Alone.{IsAlone, moves-IsAlone}

abbrev order_command : ℕ → CommandJob
order_command identity = record { identity = identity; aggregate_id = "order-1" }

abbrev crowded : List Move
crowded =
    takes 0 (order_command 1)
    ∷ takes 1 (order_command 2)
    ∷ takes 1 (order_command 3)
    ∷ finishes 0
    ∷ []

moves-IsAlone_example : IsAlone (moves crowded (Shard.new 1))
moves-IsAlone_example = moves-IsAlone 1 crowded
