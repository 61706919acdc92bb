-- ===== src/Redis.antt =====
-- What the queue manager and the cache use of the Redis client (github.com/redis/go-redis): the
-- commands are parameters, and `Laws` states their documented effect on sorted sets. A key
-- `queue:shard:i` is written as its number `i`.
pub mod Sets
pub mod Memory
pub mod Keys
use home_work_ad_processor_g.Prelude.{
  ℕ, ◌≡◌, Bool, List, [], ◌∷◌, String, ℤ, if◌then◌else◌, ◌==◌, count_if, length, Option,
}
use mathlib.Core.List.{reverse}
use Sets.{Z, Bound, in_bounds, range_to, score_of, listed, without, zinsert, IsDescending}

-- `nil` is `redis.Nil`; `fail` is any other error.
pub data Reply {ℓ} (A : Type ℓ) : Type ℓ where
  ok : A → Reply A
  nil : Reply A
  fail : Reply A

pub record Redis : Type 1 where
  pub Store : Type 0
  pub zadd : Store → ℕ → Z → Store × Reply (Unit {0})
  pub zrem : Store → ℕ → List String → Store × Reply ℕ
  pub zscore : Store → ℕ → String → Reply ℤ
  pub zrevrange : Store → ℕ → ℤ → Reply (List Z)  -- ZREVRANGE key 0 stop WITHSCORES
  pub zrange : Store → ℕ → Reply (List Z)  -- ZRANGE key 0 -1 WITHSCORES
  pub zcard : Store → ℕ → Reply ℕ
  pub zcount : Store → ℕ → Bound → Bound → Reply ℕ
  pub publish : Store → String → Store

abbrev pub lookup_reply : Option ℤ → Reply ℤ
lookup_reply Option.none = nil
lookup_reply (Option.some x) = ok x

-- What the commands do on a server that is up. `zset` is the sorted set under a key, highest score
-- first; `before` is the lexicographic order that breaks ties.
pub record Laws (r : Redis) : Type 1 where
  pub zset : r.Store → ℕ → List Z
  pub before : String → String → Bool
  pub Up : r.Store → Type 0
  pub zset-IsDescending : (s : r.Store) (k : ℕ) → Up s → IsDescending (zset s k)
  pub zrevrange_lem :
      (s : r.Store) (k : ℕ) (stop : ℤ) → Up s → r.zrevrange s k stop ≡ ok (range_to stop (zset s k))
  pub zrange_lem : (s : r.Store) (k : ℕ) → Up s → r.zrange s k ≡ ok (reverse (zset s k))
  pub zcard_lem : (s : r.Store) (k : ℕ) → Up s → r.zcard s k ≡ ok (length (zset s k))
  pub zcount_lem :
      (s : r.Store) (k : ℕ) (lo hi : Bound)
      → Up s
      → r.zcount s k lo hi ≡ ok (count_if (λ z. in_bounds lo hi z.score) (zset s k))
  pub zscore_lem :
      (s : r.Store) (k : ℕ) (m : String)
      → Up s
      → r.zscore s k m ≡ lookup_reply (score_of m (zset s k))
  pub zadd_ok : (s : r.Store) (k : ℕ) (z : Z) → Up s → (r.zadd s k z).1 ≡ ok tt
  pub zadd-Up : (s : r.Store) (k : ℕ) (z : Z) → Up s → Up (r.zadd s k z).0
  pub zset-zadd :
      (s : r.Store) (k : ℕ) (z : Z) (j : ℕ)
      → Up s
      → zset (r.zadd s k z).0 j
        ≡ (if k == j then zinsert before z (without (z.member ∷ []) (zset s k)) else zset s j)
  pub zrem_ok :
      (s : r.Store) (k : ℕ) (ms : List String)
      → Up s
      → (r.zrem s k ms).1 ≡ ok (count_if (λ z. listed z.member ms) (zset s k))
  pub zrem-Up : (s : r.Store) (k : ℕ) (ms : List String) → Up s → Up (r.zrem s k ms).0
  pub zset-zrem :
      (s : r.Store) (k : ℕ) (ms : List String) (j : ℕ)
      → Up s
      → zset (r.zrem s k ms).0 j ≡ (if k == j then without ms (zset s k) else zset s j)
  pub zset-publish : (s : r.Store) (t : String) (j : ℕ) → Up s → zset (r.publish s t) j ≡ zset s j
  pub publish-Up : (s : r.Store) (t : String) → Up s → Up (r.publish s t)
