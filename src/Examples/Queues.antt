-- ===== src/Examples/Queues.antt =====
-- The theorems on the queue manager at work.
use home_work_ad_processor_g.Prelude.{
  Bool-cases, inl, inr, ==_iff, ◌==◌, if◌then◌else◌, ltb_ℤ, ℕ, ◌+◌, ◌*◌, ◌<◌, ◌≡◌, ◌⊎◌, ◌↔◌, refl,
  none, List, [], ◌∷◌, arith, ℤ, pos, ◌<ℤ◌, count_if, Result, length, suc, All,
}
use Prim.Native.Nat.{min}
use home_work_ad_processor_g.Redis.Sets.{Z, IsDescending}
use home_work_ad_processor_g.Redis.Memory.{memory, memory_laws}
use home_work_ad_processor_g.RedisQueue.{dequeue, update_priority}
use home_work_ad_processor_g.RedisQueue.Hash.{
  codes, hash_codes, shard_of_hash, shard_of, shard_of-lt,
}
use home_work_ad_processor_g.RedisQueue.Score.{
  score_unit, exact_limit, calculate_score, calculate_score_order,
}
use home_work_ad_processor_g.RedisQueue.Batch.{dequeue_batch}
use home_work_ad_processor_g.RedisQueue.BatchOutcome.{ArePlaced, Batched}
use home_work_ad_processor_g.RedisQueue.Placement.{
  Call, batches, boosts, removes, run, run-IsSound, IsSound,
}
use home_work_ad_processor_g.RedisQueue.Dequeue.{Takes, dequeue-Takes}
use home_work_ad_processor_g.RedisQueue.Scores.{Sets, update_priority-Sets}
use home_work_ad_processor_g.RedisQueue.Sizes.{get_size, get_position, get_size_by_priority}
use home_work_ad_processor_g.RedisQueue.SizeLaws.{
  InLevels, sum_sizes, get_size-sum, get_position-ahead,
}
use home_work_ad_processor_g.RedisQueue.TopItems.{total}
use home_work_ad_processor_g.Examples.Data.{any_id, two_shards, two_queued, two_queued-IsSound}

abbrev more_calls : List Call
more_calls = boosts (pos 900_000_000_000) ∷ batches (pos 1) (pos 901) ∷ removes "ad-1" ∷ []

run-IsSound_example :
    IsSound memory memory_laws any_id 2
      (run memory memory_laws any_id two_shards two_queued more_calls)
run-IsSound_example =
    run-IsSound memory memory_laws any_id two_shards two_queued more_calls two_queued-IsSound

dequeue-Takes_example :
    (((j : ℕ) → j < 2 → two_queued j ≡ [])
      × (dequeue memory any_id two_shards two_queued (pos 105) ≡ (two_queued, Result.ok none)))
    ⊎ Takes memory memory_laws any_id 2 two_queued
        (pos 105)
        (dequeue memory any_id two_shards two_queued (pos 105))
dequeue-Takes_example =
    dequeue-Takes memory memory_laws any_id two_shards two_queued (pos 105) two_queued-IsSound.0

abbrev one_ad : ℕ → List Z
one_ad k = record { member = "ad-1"; score = calculate_score (pos 3) (pos 100) } ∷ []

one_ad-Up : (k : ℕ) → IsDescending (one_ad k)
one_ad-Up k = (tt, tt)

update_priority-Sets_example :
    Sets memory memory_laws any_id two_shards one_ad "ad-1"
      (calculate_score (pos 5) (pos 100))
      (update_priority memory any_id two_shards one_ad "ad-1" (pos 5))
update_priority-Sets_example =
    update_priority-Sets memory memory_laws any_id two_shards one_ad "ad-1" 3 5 100 (omega arith)
      one_ad-Up refl

calculate_score_order_example :
    (calculate_score (pos 5) (pos 100) <ℤ pos exact_limit)
    × (calculate_score (pos 3) (pos 99) <ℤ pos exact_limit)
    × (5 * score_unit < exact_limit)
    × (3 * score_unit < exact_limit)
    × ((calculate_score (pos 3) (pos 99) <ℤ calculate_score (pos 5) (pos 100))
        ↔ ((3 < 5) ⊎ ((◌≡◌ {A = ℕ} 3 5) × (100 < 99))))
calculate_score_order_example =
    calculate_score_order 5 3 100 99 (omega arith) (omega arith) (omega arith) (omega arith)

shard_of-lt_example :
    (shard_of_hash 10 (hash_codes 0 (codes "550e8400-e29b-41d4-a716-446655440000"))
      ≡ pos (shard_of 10 "550e8400-e29b-41d4-a716-446655440000"))
    × (shard_of 10 "550e8400-e29b-41d4-a716-446655440000" < 10)
shard_of-lt_example = shard_of-lt 10 "550e8400-e29b-41d4-a716-446655440000" (omega arith)

-- The ad with priority 1 under each key.
abbrev low_ad : ℕ → List Z
low_ad k = record { member = "ad-1"; score = calculate_score (pos 1) (pos 100) } ∷ []

-- One item of priority 3 under each key.
abbrev level_three : ℕ → List Z
level_three k = record { member = "ad-1"; score = pos (3 * score_unit + 7) } ∷ []

level_three-Up : (k : ℕ) → IsDescending (level_three k)
level_three-Up k = (tt, tt)

level_three-InLevels : (j : ℕ) → j < 2 → All InLevels (level_three j)
level_three-InLevels j h = ((omega arith, omega arith), tt)

get_size-sum_example :
    (get_size memory two_shards level_three
      ≡ Result.ok (sum_sizes (get_size_by_priority memory two_shards level_three)))
    × (get_size memory two_shards level_three ≡ Result.ok (total (λ j. length (level_three j)) 2 0))
get_size-sum_example =
    get_size-sum memory memory_laws any_id two_shards level_three level_three-Up
      level_three-InLevels

-- One ad in its own shard.
abbrev placed_one : ℕ → List Z
placed_one k = if shard_of 2 "ad-1" == k then level_three k else []

placed_one-Up : (k : ℕ) → IsDescending (placed_one k)
placed_one-Up k = elim (Bool-cases (shard_of 2 "ad-1" == k)) [
  | inl e ↦ rw e (level_three-Up k)
  | inr e ↦ rw e tt
]

placed_one-ArePlaced : ArePlaced memory memory_laws any_id 2 placed_one
placed_one-ArePlaced j h = elim (Bool-cases (shard_of 2 "ad-1" == j)) [
  | inl e ↦ rw e ((==_iff (shard_of 2 "ad-1") j).0 e, tt)
  | inr e ↦ rw e tt
]

get_position-ahead_example :
    (let ahead =
        total (λ j. count_if (λ z. ltb_ℤ (pos (3 * score_unit + 7)) z.score) (placed_one j)) 2 0 in
      (get_position memory two_shards placed_one "ad-1" ≡ Result.ok (ahead + 1))
      × ((k : ℕ) (now : ℤ)
          → (b : Batched memory memory_laws any_id two_shards placed_one k now
              (dequeue_batch memory any_id two_shards placed_one (pos (suc k)) now))
            × (count_if (λ z. ltb_ℤ (pos (3 * score_unit + 7)) z.score) b.top ≡ min (suc k) ahead)))
unfolding shard_of
get_position-ahead_example =
    get_position-ahead memory memory_laws any_id two_shards placed_one "ad-1"
      (pos (3 * score_unit + 7)) placed_one-Up placed_one-ArePlaced refl
