-- ===== src/RedisQueue/SizeLaws.antt =====
-- The sizes and positions that the queue manager reports agree with the queue.
use Prim.Native.Nat.{min}
use home_work_ad_processor_g.Prelude.{
  ℕ, zero, suc, ◌+◌, ◌-◌, ◌*◌, ◌<◌, ◌≡◌, refl, ap, ◌∙◌, Bool, some, List, [], ◌∷◌, String, arith, ℤ,
  pos, ◌≤ℤ◌, ◌<ℤ◌, length, count_if, ltb_ℤ, All, Result,
}
use home_work_ad_processor_g.Redis.{Redis, Laws}
use home_work_ad_processor_g.Redis.Sets.{Z, closed, open_at, infinite, in_bounds, score_of}
use home_work_ad_processor_g.RedisQueue.{Manager}
use home_work_ad_processor_g.RedisQueue.Hash.{shard_of}
use home_work_ad_processor_g.RedisQueue.Score.{score_unit}
use home_work_ad_processor_g.RedisQueue.Sizes.{
  count_above, count_level, size_from, get_position, get_size, get_size_by_priority,
}
use home_work_ad_processor_g.RedisQueue.TopItems.{scores_above, total}
use home_work_ad_processor_g.RedisQueue.BatchOutcome.{ArePlaced, Batched, dequeue_batch-Batched}
use home_work_ad_processor_g.RedisQueue.Batch.{dequeue_batch}

-- A score of a priority from 1 to 5 and an arrival up to the year 2286.
abbrev pub InLevels : Z → Type 0
InLevels z = (pos score_unit ≤ℤ z.score) × (z.score <ℤ pos (6 * score_unit))

abbrev at_level : ℕ → Z → Bool
at_level p z =
    in_bounds (closed (pos (p * score_unit))) (closed (pos ((p + 1) * score_unit - 1))) z.score

abbrev levels : List Z → ℕ
levels l =
    count_if (at_level 1) l
    + (count_if (at_level 2) l
        + (count_if (at_level 3) l + (count_if (at_level 4) l + count_if (at_level 5) l)))

levels-length : (l : List Z) → All InLevels l → levels l ≡ length l
levels-length [] h = refl
levels-length (z ∷ l) h = ground (arith, levels-length l h.1)

count_above_test :
    (x : ℤ) (l : List Z)
    → count_if (λ z. in_bounds (open_at x) infinite z.score) l ≡ count_if (scores_above x) l
count_above_test x [] = refl
count_above_test x (z ∷ l) = ground (arith, count_above_test x l)

-- The sum that the callers of `GetSizeByPriority` form.
abbrev pub sum_sizes : List (ℕ × ℕ) → ℕ
sum_sizes [] = 0
sum_sizes ((p, n) ∷ rest) = n + sum_sizes rest

module _ (r : Redis) (laws : Laws r) (uuid_ok : String → Bool) where
  open r use {Store}
  open laws use {zset, Up}

  count_level_lem :
      (s : Store) (p n i : ℕ)
      → Up s
      → count_level r s p n i ≡ total (λ j. count_if (at_level p) (zset s j)) n i
  unfolding count_level
  count_level_lem s p zero i up = refl
  count_level_lem s p (suc n) i up =
      rw
        (laws.zcount_lem s i (closed (pos (p * score_unit)))
          (closed (pos ((p + 1) * score_unit - 1))) up)
        (ap (λ k. count_if (at_level p) (zset s i) + k) (count_level_lem s p n (suc i) up))

  count_above_lem :
      (s : Store) (x : ℤ) (n i : ℕ)
      → Up s
      → count_above r s x n i ≡ total (λ j. count_if (scores_above x) (zset s j)) n i
  unfolding count_above
  count_above_lem s x zero i up = refl
  count_above_lem s x (suc n) i up =
      rw (laws.zcount_lem s i (open_at x) infinite up, count_above_test x (zset s i))
        (ap (λ k. count_if (scores_above x) (zset s i) + k) (count_above_lem s x n (suc i) up))

  size_from_lem :
      (s : Store) (n i t : ℕ)
      → Up s
      → size_from r s n i t ≡ Result.ok (t + total (λ j. length (zset s j)) n i)
  unfolding size_from
  size_from_lem s zero i t up = ap Result.ok (omega arith)
  size_from_lem s (suc n) i t up =
      rw (laws.zcard_lem s i up, size_from)
        (size_from_lem s n (suc i) (t + length (zset s i)) up ∙ ap Result.ok (omega arith))

  total_levels :
      (s : Store) (n i : ℕ)
      → ((j : ℕ) → j < i + n → All InLevels (zset s j))
      → total (λ j. count_if (at_level 1) (zset s j)) n i
          + (total (λ j. count_if (at_level 2) (zset s j)) n i
              + (total (λ j. count_if (at_level 3) (zset s j)) n i
                  + (total (λ j. count_if (at_level 4) (zset s j)) n i
                      + total (λ j. count_if (at_level 5) (zset s j)) n i)))
        ≡ total (λ j. length (zset s j)) n i
  total_levels s zero i h = refl
  total_levels s (suc n) i h = omega (
    arith,
    levels-length (zset s i) (h i (omega arith)),
    total_levels s n (suc i) (λ j k. h j (omega arith)),
  )

  -- On a server that is up, if every queued score comes from a priority from 1 to 5 and an arrival
  -- up to the year 2286, the sizes that `GetSizeByPriority` reports add up to the answer of
  -- `GetSize`, the number of items in all the shards.
  pub get_size-sum :
      (m : Manager) (s : Store)
      → Up s
      → ((j : ℕ) → j < m.shard_count → All InLevels (zset s j))
      → (get_size r m s ≡ Result.ok (sum_sizes (get_size_by_priority r m s)))
        × (get_size r m s ≡ Result.ok (total (λ j. length (zset s j)) m.shard_count 0))
  unfolding get_size get_size_by_priority
  get_size-sum m s up h =
      let n = m.shard_count in
      let e = size_from_lem s n 0 0 up in
      (
        e
            ∙ ap Result.ok (
                omega (
                  arith,
                  total_levels s n 0 (λ j k. h j (omega arith)),
                  count_level_lem s 1 n 0 up,
                  count_level_lem s 2 n 0 up,
                  count_level_lem s 3 n 0 up,
                  count_level_lem s 4 n 0 up,
                  count_level_lem s 5 n 0 up,
                )),
        e ∙ ap Result.ok (omega arith),
      )

  -- On a server that is up, with every item in its own shard, the position of a queued item is one
  -- more than the number of items of all the shards that score above it, and `DequeueBatch` of a
  -- positive size takes all of those, or is full of them.
  pub get_position-ahead :
      (m : Manager) (s : Store) (id : String) (x : ℤ)
      → Up s
      → ArePlaced r laws uuid_ok m.shard_count s
      → score_of id (zset s (shard_of m.shard_count id)) ≡ some x
      → (let ahead = total (λ j. count_if (λ z. ltb_ℤ x z.score) (zset s j)) m.shard_count 0 in
          (get_position r m s id ≡ Result.ok (ahead + 1))
          × ((k : ℕ) (now : ℤ)
              → (b : Batched r laws uuid_ok m s k now
                  (dequeue_batch r uuid_ok m s (pos (suc k)) now))
                × (count_if (λ z. ltb_ℤ x z.score) b.top ≡ min (suc k) ahead)))
  unfolding get_position
  get_position-ahead m s id x up placed e = (
    rw (laws.zscore_lem s (shard_of m.shard_count id) id up, e, get_position)
        (ap (λ n. Result.ok (n + 1)) (count_above_lem s x m.shard_count 0 up)),
    λ k now. let b = dequeue_batch-Batched r laws uuid_ok m s k now up placed in (b, b.best x),
  )
