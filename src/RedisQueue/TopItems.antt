-- ===== src/RedisQueue/TopItems.antt =====
-- `DequeueBatch` and `GetNext` select the best items of all the shards.
use Prim.Native.Nat.{min}
use home_work_ad_processor_g.Prelude.{
  ℕ, zero, suc, ◌+◌, ◌≤◌, ◌≡◌, refl, Bool, List, [], ◌∷◌, ◌++◌, String, arith, ℤ, pos, ◌-ℤ◌, ltb_ℤ,
  ◌≤ℤ◌, take, count_if, count_if-append, Result,
}
use home_work_ad_processor_g.Redis.{Redis, Laws}
use home_work_ad_processor_g.Redis.Sets.{Z, AtMost, IsDescending, range_to}
use home_work_ad_processor_g.RedisQueue.Batch.{map_to, collect}
use home_work_ad_processor_g.RedisQueue.Exchange.{
  exchange_sort, exchange_sort_lem, count_if-take-le,
}

-- The test of the items that score above `x`.
abbrev pub scores_above : ℤ → Z → Bool
scores_above x z = ltb_ℤ x z.score

none_above : (x t : ℤ) (l : List Z) → t ≤ℤ x → AtMost t l → count_if (scores_above x) l ≡ 0
none_above x t [] h a = refl
none_above x t (z ∷ l) h a = ground (arith, none_above x t l)

-- Of the first `k` items of a descending list, the ones above `x` are all of them or `k`.
count_if-take :
    (x : ℤ) (k : ℕ) (l : List Z)
    → IsDescending l
    → count_if (scores_above x) (take k l) ≡ min k (count_if (scores_above x) l)
count_if-take x zero l d = omega arith
count_if-take x (suc k) [] d = omega arith
count_if-take x (suc k) (z ∷ l) d =
    ground (arith, count_if-take x k l, none_above x z.score l, none_above x z.score (take k l))

AtMost-take : (s : ℤ) (k : ℕ) (l : List Z) → AtMost s l → AtMost s (take k l)
AtMost-take s zero l h = tt
AtMost-take s (suc k) [] h = tt
AtMost-take s (suc k) (z ∷ l) h = (h.0, AtMost-take s k l h.1)

take-IsDescending : (k : ℕ) (l : List Z) → IsDescending l → IsDescending (take k l)
take-IsDescending zero l d = tt
take-IsDescending (suc k) [] d = tt
take-IsDescending (suc k) (z ∷ l) d = (AtMost-take z.score k l d.0, take-IsDescending k l d.1)

-- A sum over `n` shards from the `i`-th on.
abbrev pub total : (ℕ → ℕ) → ℕ → ℕ → ℕ
total f zero i = 0
total f (suc n) i = f i + total f n (suc i)

total-min : (f : ℕ → ℕ) (k n i : ℕ) → min k (total (λ j. min k (f j)) n i) ≡ min k (total f n i)
total-min f k zero i = refl
total-min f k (suc n) i = omega (arith, total-min f k n (suc i))

pub stop_of_size : (k : ℕ) → pos (suc k) -ℤ pos 1 ≡ pos k
unfolding ◌-ℤ◌
stop_of_size k = ground arith

module _ (r : Redis) (laws : Laws r) (uuid_ok : String → Bool) where
  open r use {Store}
  open laws use {zset, Up}

  -- The loop that collects ends, and holds the first items of each shard.
  collect_lem :
      (s : Store) (stop : ℤ) (n i : ℕ) (items : List Z) (mapping : List (String × ℕ))
      → Up s
      → (out : List Z × List (String × ℕ)) × (collect r uuid_ok s stop n i items mapping
          ≡ Result.ok out)
        × ((p : Z → Bool)
            → count_if p out.0
              ≡ count_if p items + total (λ j. count_if p (range_to stop (zset s j))) n i)
  unfolding collect
  collect_lem s stop zero i items mapping up = ((items, mapping), refl, λ p. omega arith)
  collect_lem s stop (suc n) i items mapping up =
      let zs = range_to stop (zset s i) in
      let (out, e, c) = collect_lem s stop n (suc i) (items ++ zs) (map_to zs i mapping) up in
      rw (laws.zrevrange_lem s i stop up, collect)
        (out, e, λ p. omega (arith, c p, count_if-append p items zs))

  -- How many items of the queue score above `x`.
  abbrev pub queued_above : Store → ℕ → ℤ → ℕ
  queued_above s n x = total (λ j. count_if (scores_above x) (zset s j)) n 0

  total-take :
      (s : Store) (x : ℤ) (k n i : ℕ)
      → Up s
      → total (λ j. count_if (scores_above x) (range_to (pos k) (zset s j))) n i
        ≡ total (λ j. min (suc k) (count_if (scores_above x) (zset s j))) n i
  total-take s x k zero i up = refl
  total-take s x k (suc n) i up = omega (
    arith,
    count_if-take x (suc k) (zset s i) (laws.zset-IsDescending s i up),
    total-take s x k n (suc i) up,
  )

  total-take-le :
      (s : Store) (p : Z → Bool) (k n i : ℕ)
      → total (λ j. count_if p (range_to (pos k) (zset s j))) n i
        ≤ total (λ j. count_if p (zset s j)) n i
  total-take-le s p k zero i = omega arith
  total-take-le s p k (suc n) i =
      omega (arith, count_if-take-le p (suc k) (zset s i), total-take-le s p k n (suc i))

  -- The batch that `DequeueBatch` and `GetNext` choose before they parse the identifiers.
  pub chosen_lem :
      (s : Store) (k n : ℕ)
      → Up s
      → (out : List Z × List (String × ℕ)) × (collect r uuid_ok s (pos (suc k) -ℤ pos 1) n 0 [] []
          ≡ Result.ok out)
        × IsDescending (take (suc k) (exchange_sort out.0))
        × ((x : ℤ)
            → count_if (scores_above x) (take (suc k) (exchange_sort out.0))
              ≡ min (suc k) (queued_above s n x))
        × ((p : Z → Bool)
            → count_if p (take (suc k) (exchange_sort out.0))
              ≤ total (λ j. count_if p (zset s j)) n 0)
  chosen_lem s k n up =
      let (out, e, c) = collect_lem s (pos k) n 0 [] [] up in
      let (sorted, same) = exchange_sort_lem out.0 in
      rw (stop_of_size k) (
        out,
        e,
        take-IsDescending (suc k) (exchange_sort out.0) sorted,
        λ x. omega (
          arith,
          count_if-take x (suc k) (exchange_sort out.0) sorted,
          same (scores_above x),
          c (scores_above x),
          total-take s x k n 0 up,
          total-min (λ j. count_if (scores_above x) (zset s j)) (suc k) n 0,
        ),
        λ p. omega (
          arith,
          count_if-take-le p (suc k) (exchange_sort out.0),
          same p,
          c p,
          total-take-le s p k n 0,
        ),
      )
