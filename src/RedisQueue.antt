-- ===== src/RedisQueue.antt =====
-- internal/infrastructure/cache/redis_queue_manager.go: the sharded priority queue. Each operation
-- takes the server's state and gives it back; a clock reading is in Unix seconds.
pub mod Hash
pub mod Score
pub mod Exchange
pub mod Batch
pub mod TopItems
pub mod Mapping
pub mod Removal
pub mod BatchOutcome
pub mod Placement
pub mod SizeLaws
pub mod Rescore
pub mod Scores
pub mod Sizes
pub mod Boost
pub mod OneScores
pub mod BoostRuns
pub mod Dequeue
pub mod Configuration
use Prim.Native.String.{◌++◌ as concat}
use home_work_ad_processor_g.Prelude.{
  ℕ, zero, suc, ◌==◌, Bool, Option, none, some, List, [], ◌∷◌, String, if◌then◌else◌, ℤ, pos, ◌+ℤ◌,
  ◌*ℤ◌, ltb_ℤ, Result,
}
use home_work_ad_processor_g.Ad.{parse_ad_id}
use home_work_ad_processor_g.Queue.{QueueItem, QueueConfig, new_queue_item}
use home_work_ad_processor_g.Redis.{Redis, Reply}
use home_work_ad_processor_g.Redis.Sets.{Z}
use Hash.{shard_of}
use Score.{calculate_score, score_priority, timestamp_part, score_unit}

-- The same arrival time under another priority.
unfoldable pub rescore : ℤ → ℤ → ℤ
rescore new_priority score = new_priority *ℤ pos score_unit +ℤ timestamp_part score

pub data QueueError : Type 0 where
  enqueue_failed remove_failed invalid_ad_id score_failed update_failed : QueueError
  peek_failed range_failed size_failed : ℕ → QueueError
  not_in_queue : String → QueueError

pub record Manager : Type 0 where
  pub config : QueueConfig
  pub shard_count : ℕ

-- A text of the channel `queue:notifications`.
abbrev pub notification : String → String
notification id = concat "enqueued:" id

-- The candidate so far, with its shard.
abbrev pub better : List Z → ℕ → Option (Z × ℕ) → Option (Z × ℕ)
better [] i best = best
better (z ∷ _) i none = some (z, i)
better (z ∷ _) i (some (b, j)) = if ltb_ℤ b.score z.score then some (z, i) else some (b, j)

module _ (r : Redis) (uuid_ok : String → Bool) where
  open r use {Store}

  abbrev pub enqueued : String → Store × Reply (Unit {0}) → Store × Result QueueError (Unit {0})
  enqueued id (s, Reply.ok _) = (r.publish s (notification id), Result.ok tt)
  enqueued id (s, _) = (s, Result.err enqueue_failed)

  unfoldable pub enqueue : Manager → Store → String → ℤ → ℤ → Store × Result QueueError (Unit {0})
  enqueue m s ad_id priority now = enqueued ad_id (
      r.zadd s (shard_of m.shard_count ad_id)
        (record { member = ad_id; score = calculate_score priority now }))

  -- The loop of `Dequeue`, with `n` rounds left and the counter at `i`.
  unfoldable pub peek : Store → ℕ → ℕ → Option (Z × ℕ) → Result QueueError (Option (Z × ℕ))
  peek s zero i best = Result.ok best
  peek s (suc n) i best = elim (r.zrevrange s i (pos 0)) [
    | Reply.ok items ↦ peek s n (suc i) (better items i best)
    | Reply.nil ↦ peek s n (suc i) best
    | Reply.fail ↦ Result.err (peek_failed i)
  ]

  abbrev pub item_of : Z → ℤ → Option String → Result QueueError (Option QueueItem)
  item_of z now none = Result.err invalid_ad_id
  item_of z now (some id) = Result.ok (some (new_queue_item id (score_priority z.score) now))

  abbrev pub taken : Z → ℤ → Store × Reply ℕ → Store × Result QueueError (Option QueueItem)
  taken z now (s, Reply.ok _) = (s, item_of z now (parse_ad_id uuid_ok z.member))
  taken z now (s, _) = (s, Result.err remove_failed)

  abbrev pub take_best :
      Store → ℤ → Result QueueError (Option (Z × ℕ)) → Store × Result QueueError (Option QueueItem)
  take_best s now (Result.err e) = (s, Result.err e)
  take_best s now (Result.ok none) = (s, Result.ok none)
  take_best s now (Result.ok (some (z, i))) = taken z now (r.zrem s i (z.member ∷ []))

  unfoldable pub dequeue : Manager → Store → ℤ → Store × Result QueueError (Option QueueItem)
  unfolding peek
  dequeue m s now = take_best s now (peek s m.shard_count 0 none)

  abbrev pub updated : Store × Reply (Unit {0}) → Store × Result QueueError (Unit {0})
  updated (s, Reply.ok _) = (s, Result.ok tt)
  updated (s, _) = (s, Result.err update_failed)

  unfoldable pub update_priority :
      Manager → Store → String → ℤ → Store × Result QueueError (Unit {0})
  unfolding rescore
  update_priority m s ad_id new_priority =
      let k = shard_of m.shard_count ad_id in
      elim (r.zscore s k ad_id) [
        | Reply.ok score ↦
            updated (r.zadd s k (record { member = ad_id; score = rescore new_priority score }))
        | Reply.nil ↦ (s, Result.err (not_in_queue ad_id))
        | Reply.fail ↦ (s, Result.err score_failed)
      ]

  abbrev pub removed : String → Store × Reply ℕ → Store × Result QueueError (Unit {0})
  removed id (s, Reply.ok n) = (s, if n == 0 then Result.err (not_in_queue id) else Result.ok tt)
  removed id (s, _) = (s, Result.err remove_failed)

  unfoldable pub remove : Manager → Store → String → Store × Result QueueError (Unit {0})
  remove m s ad_id = removed ad_id (r.zrem s (shard_of m.shard_count ad_id) (ad_id ∷ []))
