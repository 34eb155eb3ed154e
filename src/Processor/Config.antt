-- ===== src/Processor/Config.antt =====
-- The configuration of internal/processor/processor.go, and internal/processor/queue/router.go. An
-- int and a time.Duration are their bit patterns.
pub mod Bounds
use Prim.Native.Nat.{bit_xor, ℕ, ◌^◌}
use asynx.Base.{if◌then◌else◌, List, ◌^◌, Bool, ◌∷◌, ◌-◌, ◌%◌, ltb, [], ◌*◌, ◌&&◌}

pub record ProcessorConfig : Type 0 where
  pub shards : ℕ
  pub queue_depth : ℕ
  pub workers_per_shard : ℕ
  pub retry_initial : ℕ
  pub retry_max : ℕ
  pub max_attempts : ℕ

-- value > 0
abbrev pub is_positive : ℕ → Bool
is_positive value = ltb 0 value && ltb value (2 ^ 63)

-- The options that set a number; the others set a handler or an interface.
pub data ProcessorOpt : Type 0 where
  with_shards : ℕ → ProcessorOpt
  with_queue_depth : ℕ → ProcessorOpt
  with_workers_per_shard : ℕ → ProcessorOpt
  with_delivery_max_attempts : ℕ → ProcessorOpt
  with_delivery_retry : (initial max : ℕ) → ProcessorOpt

pub positive_or : (value fallback : ℕ) → ℕ
positive_or value fallback = if is_positive value then value else fallback

pub apply_opt : ProcessorOpt → ProcessorConfig → ProcessorConfig
unfolding positive_or
apply_opt (with_shards count) cfg = record cfg {
  shards = if is_positive count then count else cfg.shards;
}
apply_opt (with_queue_depth depth) cfg = record cfg {
  queue_depth = if is_positive depth then depth else cfg.queue_depth;
}
apply_opt (with_workers_per_shard count) cfg = record cfg {
  workers_per_shard = if is_positive count then count else cfg.workers_per_shard;
}
apply_opt (with_delivery_max_attempts n) cfg = record cfg {
  max_attempts = if is_positive n then n else cfg.max_attempts;
}
apply_opt (with_delivery_retry initial limit) cfg = record cfg {
  retry_initial = positive_or initial cfg.retry_initial;
  retry_max = positive_or limit cfg.retry_max;
}

pub apply_opts : List ProcessorOpt → ProcessorConfig → ProcessorConfig
unfolding apply_opt
apply_opts [] cfg = cfg
apply_opts (opt ∷ opts) cfg = apply_opts opts (apply_opt opt cfg)

-- The defaults; a queue depth of -1 stands for the number of workers.
abbrev pub default_config : ProcessorConfig
default_config = record {
  shards = 8;
  queue_depth = 2 ^ 64 - 1;
  workers_per_shard = 8;
  retry_initial = 100000000;
  retry_max = 30000000000;
  max_attempts = 20;
}

pub configure : List ProcessorOpt → ProcessorConfig
unfolding apply_opts
configure opts =
    let cfg = apply_opts opts default_config in
    if is_positive cfg.queue_depth then cfg else record cfg { queue_depth = cfg.workers_per_shard }

-- hash/fnv's New64a and Write, over the bytes of an id
pub sum64a : List ℕ → (hash : ℕ) → ℕ
sum64a [] hash = hash
sum64a (byte ∷ bytes) hash = sum64a bytes ((bit_xor hash byte * 1099511628211) % 2 ^ 64)

-- Router.Route; New panics on a count of zero.
pub route : (num_shards : ℕ) → (aggregate_id : List ℕ) → ℕ
unfolding sum64a
route num_shards aggregate_id = sum64a aggregate_id 14695981039346656037 % num_shards
