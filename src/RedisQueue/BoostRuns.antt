-- ===== src/RedisQueue/BoostRuns.antt =====
-- internal/infrastructure/cache/redis_queue_manager.go, `ApplyAntiStarvation`: what its runs do to the
-- score of one queued ad.
use home_work_ad_processor_g.Prelude.{ℕ, zero, suc, ◌≡◌, some, List, String, if◌then◌else◌, ℤ}
use home_work_ad_processor_g.Queue.{QueueConfig}
use home_work_ad_processor_g.Redis.{Redis, Laws, Reply}
use home_work_ad_processor_g.Redis.Sets.{score_of}
use home_work_ad_processor_g.RedisQueue.{Manager}
use home_work_ad_processor_g.RedisQueue.Boost.{
  needs_boost, boosted_score, boost_items, apply_anti_starvation,
}
use home_work_ad_processor_g.RedisQueue.OneScores.{OneScore}

module _ (r : Redis) (laws : Laws r) (id : String) where
  open r use {Store}
  open laws use {zset, Up}

  -- The ad stands in a shard with one score, on a server that is up.
  pub record Holds (w : ℤ) (s : Store) (j : ℕ) : Type 0 where
    pub up : Up s
    pub scored : score_of id (zset s j) ≡ some w
    pub alone : OneScore id w (zset s j)

  module _ (config : QueueConfig) (now : ℤ) where
    -- The score after one run.
    abbrev next : ℤ → ℤ
    next w = if needs_boost config now w then boosted_score now w else w

    shard_items : Store → ℕ → Store
    unfolding boost_items
    shard_items s i = elim (r.zrange s i) [
      | Reply.ok items ↦ boost_items r config now i s items
      | Reply.nil ↦ s
      | Reply.fail ↦ s
    ]

  -- `k` runs of `ApplyAntiStarvation` one after another.
  unfoldable pub apply_runs : Manager → ℤ → ℕ → Store → Store
  unfolding apply_anti_starvation
  apply_runs m now zero s = s
  apply_runs m now (suc k) s = apply_anti_starvation r m (apply_runs m now k s) now
