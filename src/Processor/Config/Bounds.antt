-- ===== src/Processor/Config/Bounds.antt =====
-- What any options leave of the configuration.
use asynx.Processor.Config.{
  ProcessorConfig, apply_opt, apply_opts, configure, is_positive, ℕ, positive_or, List, route,
  ProcessorOpt, with_shards, with_queue_depth, sum64a, with_workers_per_shard,
  with_delivery_max_attempts, with_delivery_retry, default_config,
}
use asynx.Base.{◌≡◌, true, ◌∷◌, ◌<◌, if◌then◌else◌, [], if_cases, ◌%◌, arith, refl}

pub record IsUsable (cfg : ProcessorConfig) : Type 0 where
  pub shards : is_positive cfg.shards ≡ true
  pub queue_depth : is_positive cfg.queue_depth ≡ true
  pub workers_per_shard : is_positive cfg.workers_per_shard ≡ true
  pub retry_initial : is_positive cfg.retry_initial ≡ true
  pub retry_max : is_positive cfg.retry_max ≡ true
  pub max_attempts : is_positive cfg.max_attempts ≡ true

-- A configuration before the default of the queue depth.
record IsSound (cfg : ProcessorConfig) : Type 0 where
  shards : is_positive cfg.shards ≡ true
  workers_per_shard : is_positive cfg.workers_per_shard ≡ true
  retry_initial : is_positive cfg.retry_initial ≡ true
  retry_max : is_positive cfg.retry_max ≡ true
  max_attempts : is_positive cfg.max_attempts ≡ true

chosen :
    (value fallback : ℕ)
    → is_positive fallback ≡ true
    → is_positive (if is_positive value then value else fallback) ≡ true
chosen value fallback h = if_cases (λ v. is_positive v ≡ true) (is_positive value) (λ p. p) (λ _. h)

apply_opt-IsSound :
    (opt : ProcessorOpt) (cfg : ProcessorConfig) → IsSound cfg → IsSound (apply_opt opt cfg)
unfolding apply_opt positive_or
apply_opt-IsSound (with_shards n) cfg v = record {
  shards = chosen n cfg.shards v.shards;
  workers_per_shard = v.workers_per_shard;
  retry_initial = v.retry_initial;
  retry_max = v.retry_max;
  max_attempts = v.max_attempts;
}
apply_opt-IsSound (with_queue_depth n) cfg v = record {
  shards = v.shards;
  workers_per_shard = v.workers_per_shard;
  retry_initial = v.retry_initial;
  retry_max = v.retry_max;
  max_attempts = v.max_attempts;
}
apply_opt-IsSound (with_workers_per_shard n) cfg v = record {
  shards = v.shards;
  workers_per_shard = chosen n cfg.workers_per_shard v.workers_per_shard;
  retry_initial = v.retry_initial;
  retry_max = v.retry_max;
  max_attempts = v.max_attempts;
}
apply_opt-IsSound (with_delivery_max_attempts n) cfg v = record {
  shards = v.shards;
  workers_per_shard = v.workers_per_shard;
  retry_initial = v.retry_initial;
  retry_max = v.retry_max;
  max_attempts = chosen n cfg.max_attempts v.max_attempts;
}
apply_opt-IsSound (with_delivery_retry a b) cfg v = record {
  shards = v.shards;
  workers_per_shard = v.workers_per_shard;
  retry_initial = chosen a cfg.retry_initial v.retry_initial;
  retry_max = chosen b cfg.retry_max v.retry_max;
  max_attempts = v.max_attempts;
}

apply_opts-IsSound :
    (opts : List ProcessorOpt) (cfg : ProcessorConfig) → IsSound cfg → IsSound (apply_opts opts cfg)
unfolding apply_opts
apply_opts-IsSound [] cfg v = v
apply_opts-IsSound (opt ∷ opts) cfg v =
    apply_opts-IsSound opts (apply_opt opt cfg) (apply_opt-IsSound opt cfg v)

-- Whatever the options, zero and negative values among them, the configuration has positive counts
-- of shards, of workers and of attempts, a positive queue depth and positive delays, and the router
-- sends every aggregate to one of the shards.
pub configure_lem :
    (opts : List ProcessorOpt) (aggregate_id : List ℕ)
    → let cfg = configure opts in IsUsable cfg × (route cfg.shards aggregate_id < cfg.shards)
unfolding configure route
configure_lem opts aggregate_id =
    let cfg = apply_opts opts default_config in
    let v = apply_opts-IsSound opts default_config (record {
      shards = refl;
      workers_per_shard = refl;
      retry_initial = refl;
      retry_max = refl;
      max_attempts = refl;
    }) in
    let usable : IsUsable (configure opts) =
      if_cases IsUsable (is_positive cfg.queue_depth)
        (λ deep. record {
          shards = v.shards;
          queue_depth = deep;
          workers_per_shard = v.workers_per_shard;
          retry_initial = v.retry_initial;
          retry_max = v.retry_max;
          max_attempts = v.max_attempts;
        })
        (λ _. record {
          shards = v.shards;
          queue_depth = v.workers_per_shard;
          workers_per_shard = v.workers_per_shard;
          retry_initial = v.retry_initial;
          retry_max = v.retry_max;
          max_attempts = v.max_attempts;
        }) in
    (usable, within (configure opts).shards usable.shards)
  where
    within : (n : ℕ) → is_positive n ≡ true → sum64a aggregate_id 14695981039346656037 % n < n
    within n h = omega (arith, positive n h)
      where
        positive : (n : ℕ) → is_positive n ≡ true → 0 < n
        positive n h = ground (arith, h)
