-- ===== src/RedisQueue/Boost.antt =====
-- `ApplyAntiStarvation` of internal/infrastructure/cache/redis_queue_manager.go. The clock is in
-- nanoseconds, as `time.Since` reads it.
use home_work_ad_processor_g.Prelude.{
  ℕ, zero, suc, Bool, ◌&&◌, List, [], ◌∷◌, if◌then◌else◌, ℤ, pos, ◌+ℤ◌, ◌-ℤ◌, ◌*ℤ◌, tdiv, ltb_ℤ,
}
use home_work_ad_processor_g.Ad.{priority_high, five_minutes}
use home_work_ad_processor_g.Queue.{QueueConfig}
use home_work_ad_processor_g.Redis.{Redis, Reply}
use home_work_ad_processor_g.Redis.Sets.{Z}
use home_work_ad_processor_g.RedisQueue.{Manager}
use home_work_ad_processor_g.RedisQueue.Score.{score_unit, max_time, score_priority, timestamp_part}

abbrev pub second : ℕ
second = 1_000_000_000

-- The age that a score stands for, in nanoseconds.
unfoldable pub age_of : ℤ → ℤ → ℤ
age_of score now = now -ℤ (pos max_time -ℤ timestamp_part score) *ℤ pos second

unfoldable pub needs_boost : QueueConfig → ℤ → ℤ → Bool
needs_boost config now score =
    ltb_ℤ config.max_wait_time (age_of score now) && ltb_ℤ (score_priority score) priority_high

-- The priority plus one for every five minutes of age, at most 5.
unfoldable pub boosted_priority : ℤ → ℤ → ℤ
boosted_priority now score =
    let new_priority = score_priority score +ℤ tdiv (age_of score now) five_minutes in
    if ltb_ℤ priority_high new_priority then priority_high else new_priority

unfoldable pub boosted_score : ℤ → ℤ → ℤ
boosted_score now score = boosted_priority now score *ℤ pos score_unit +ℤ timestamp_part score

module _ (r : Redis) where
  open r use {Store}

  unfoldable pub boost_one : QueueConfig → ℤ → ℕ → Store → Z → Store
  boost_one config now i s z =
      if needs_boost config now z.score
      then (r.zadd s i (record { member = z.member; score = boosted_score now z.score })).0
      else s

  -- The loop over the items of one shard, as they were read.
  unfoldable pub boost_items : QueueConfig → ℤ → ℕ → Store → List Z → Store
  boost_items config now i s [] = s
  boost_items config now i s (z ∷ zs) = boost_items config now i (boost_one config now i s z) zs

  -- The loop over `n` shards from the `i`-th on; a shard that cannot be read is passed over.
  unfoldable pub boost_shards : QueueConfig → ℤ → ℕ → ℕ → Store → Store
  unfolding boost_items
  boost_shards config now zero i s = s
  boost_shards config now (suc n) i s = boost_shards config now n (suc i) (elim (r.zrange s i) [
    | Reply.ok items ↦ boost_items config now i s items
    | Reply.nil ↦ s
    | Reply.fail ↦ s
  ])

  unfoldable pub apply_anti_starvation : Manager → Store → ℤ → Store
  unfolding boost_shards
  apply_anti_starvation m s now =
      if m.config.anti_starvation_enabled then boost_shards m.config now m.shard_count 0 s else s
