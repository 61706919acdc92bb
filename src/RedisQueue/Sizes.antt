-- ===== src/RedisQueue/Sizes.antt =====
-- `GetPosition`, `GetSize` and `GetSizeByPriority` of
-- internal/infrastructure/cache/redis_queue_manager.go.
use home_work_ad_processor_g.Prelude.{
  ℕ, zero, suc, ◌+◌, ◌-◌, ◌*◌, List, [], ◌∷◌, map, String, ℤ, pos, Result,
}
use home_work_ad_processor_g.Redis.{Redis, Reply}
use home_work_ad_processor_g.Redis.Sets.{closed, open_at, infinite}
use home_work_ad_processor_g.RedisQueue.{
  Manager, QueueError, not_in_queue, score_failed, size_failed,
}
use home_work_ad_processor_g.RedisQueue.Hash.{shard_of}
use home_work_ad_processor_g.RedisQueue.Score.{score_unit}

module _ (r : Redis) where
  open r use {Store}

  abbrev counted : Reply ℕ → ℕ
  counted (Reply.ok n) = n
  counted _ = 0

  -- The items above a score in `n` shards from the `i`-th on; a failed count adds nothing.
  unfoldable pub count_above : Store → ℤ → ℕ → ℕ → ℕ
  count_above s score zero i = 0
  count_above s score (suc n) i =
      counted (r.zcount s i (open_at score) infinite) + count_above s score n (suc i)

  unfoldable pub get_position : Manager → Store → String → Result QueueError ℕ
  unfolding count_above
  get_position m s ad_id = elim (r.zscore s (shard_of m.shard_count ad_id) ad_id) [
    | Reply.ok score ↦ Result.ok (count_above s score m.shard_count 0 + 1)
    | Reply.nil ↦ Result.err (not_in_queue ad_id)
    | Reply.fail ↦ Result.err score_failed
  ]

  unfoldable pub size_from : Store → ℕ → ℕ → ℕ → Result QueueError ℕ
  size_from s zero i total = Result.ok total
  size_from s (suc n) i total = elim (r.zcard s i) [
    | Reply.ok size ↦ size_from s n (suc i) (total + size)
    | Reply.nil ↦ size_from s n (suc i) total
    | Reply.fail ↦ Result.err (size_failed i)
  ]

  unfoldable pub get_size : Manager → Store → Result QueueError ℕ
  unfolding size_from
  get_size m s = size_from s m.shard_count 0 0

  -- The count of one priority level over `n` shards from the `i`-th on.
  unfoldable pub count_level : Store → ℕ → ℕ → ℕ → ℕ
  count_level s priority zero i = 0
  count_level s priority (suc n) i =
      counted (
        r.zcount s i (closed (pos (priority * score_unit)))
          (closed (pos ((priority + 1) * score_unit - 1))))
      + count_level s priority n (suc i)

  -- The map from the levels 1 to 5 to their sizes.
  unfoldable pub get_size_by_priority : Manager → Store → List (ℕ × ℕ)
  unfolding count_level
  get_size_by_priority m s =
      map (λ p. (p, count_level s p m.shard_count 0)) (1 ∷ 2 ∷ 3 ∷ 4 ∷ 5 ∷ [])
