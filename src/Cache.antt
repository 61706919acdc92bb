-- ===== src/Cache.antt =====
-- internal/infrastructure/cache/high_performance_cache.go: the cache of two levels. The first level is
-- a Go map, as an association list; a walk over it takes its order, which Go leaves open. The second
-- level is the Redis client, and JSON is a parameter. The clock is an argument of each call. The locks
-- are left out: a call is one step.
pub mod Levels
pub mod Batches
pub mod Eviction
pub mod Bounded
pub mod Runs
pub mod Items
pub mod History
pub mod KeptBatches
pub mod FirstLevel
pub mod Replay
pub mod Hits
pub mod Deletion
pub mod Counting
pub mod BoundedBatches
pub mod Answers
pub mod Invalidation
use home_work_ad_processor_g.Prelude.{
  ℕ, ◌+◌, ◌-◌, ◌*◌, ◌/◌, ◌==◌, ltb, Bool, true, not, Option, none, some, List, [], ◌∷◌, String,
  if◌then◌else◌, ℤ, ◌+ℤ◌, ltb_ℤ, insert, delete,
}
use home_work_ad_processor_g.Ad.{Ad}

pub record CacheConfig : Type 0 where
  pub l1_ttl : ℤ
  pub l2_ttl : ℤ
  pub l1_max_items : ℕ
  pub enable_l1 : Bool
  pub enable_l2 : Bool
  pub batch_size : ℕ
  pub prefetch_count : ℕ

-- The configuration of `NewHighPerformanceCache` when it is given none.
abbrev pub default_config : CacheConfig
default_config = record {
  l1_ttl = ℤ.pos 60_000_000_000;
  l2_ttl = ℤ.pos 600_000_000_000;
  l1_max_items = 10_000;
  enable_l1 = true;
  enable_l2 = true;
  batch_size = 100;
  prefetch_count = 50;
}

pub record CacheStats : Type 0 where
  pub l1_hits : ℕ
  pub l1_misses : ℕ
  pub l2_hits : ℕ
  pub l2_misses : ℕ
  pub db_hits : ℕ

pub record CacheItem : Type 0 where
  pub cached : Ad
  pub expires_at : ℤ

pub data CacheError : Type 0 where
  not_found_in_cache marshal_failed l2_failed loader_failed : CacheError

-- `json.Marshal` of an ad and `json.Unmarshal` into one.
pub record Json : Type 0 where
  pub marshal : Ad → Option String
  pub unmarshal : String → Option Ad

-- "ad:%s".
unfoldable pub ad_key : String → String
ad_key id = String.◌∷◌ "a" (String.◌∷◌ "d" (String.◌∷◌ ":" id))

-- `CacheStats` as the five methods change it.
abbrev pub record_l1_hit : CacheStats → CacheStats
record_l1_hit s = record s { l1_hits = s.l1_hits + 1 }

abbrev pub record_l1_miss : CacheStats → CacheStats
record_l1_miss s = record s { l1_misses = s.l1_misses + 1 }

abbrev pub record_l2_hit : CacheStats → CacheStats
record_l2_hit s = record s { l2_hits = s.l2_hits + 1 }

abbrev pub record_l2_miss : CacheStats → CacheStats
record_l2_miss s = record s { l2_misses = s.l2_misses + 1 }

abbrev pub record_db_hit : CacheStats → CacheStats
record_db_hit s = record s { db_hits = s.db_hits + 1 }

-- `ResetStats`.
abbrev pub no_stats : CacheStats
no_stats = record { l1_hits = 0; l1_misses = 0; l2_hits = 0; l2_misses = 0; db_hits = 0 }

-- `CalculateHitRatio`: the numerator and the denominator of the quotient, or none for 0.
unfoldable pub calculate_hit_ratio : CacheStats → Option (ℕ × ℕ)
calculate_hit_ratio s =
    let total_hits = s.l1_hits + s.l2_hits in
    let total_requests = total_hits + s.db_hits in
    if total_requests == 0 then none else some (total_hits, total_requests)

-- The first walk of `setL1`: it counts, but not above the limit.
unfoldable pub count_up_to : ℕ → ℕ → List (String × CacheItem) → ℕ
count_up_to limit size [] = size
count_up_to limit size (item ∷ items) =
    let rest = count_up_to limit (size + 1) items in if ltb (size + 1) limit then rest else size + 1

-- The second walk: it deletes an item and goes on while `size - 1` is at least `keep`.
unfoldable pub evict : ℕ → ℕ → List (String × CacheItem) → List (String × CacheItem)
evict keep size [] = []
evict keep size (item ∷ items) =
    let rest = evict keep (size - 1) items in if ltb keep size then rest else items

-- `setL1`.
unfoldable pub set_l1 :
    CacheConfig → ℤ → String → Ad → ℤ → List (String × CacheItem) → List (String × CacheItem)
unfolding count_up_to evict
set_l1 config now key a ttl l1 =
    let size = count_up_to config.l1_max_items 0 l1 in
    let kept =
      if ltb size config.l1_max_items then l1 else evict (config.l1_max_items * 9 / 10) size l1 in
    insert key (record { cached = a; expires_at = now +ℤ ttl }) kept

-- `time.Now().Before(cached.ExpiresAt)`.
abbrev pub fresh : ℤ → CacheItem → Bool
fresh now item = ltb_ℤ now item.expires_at

-- The keys that `CleanupExpired` collects: `now.After(item.ExpiresAt)`.
abbrev pub expired_keys : ℤ → List (String × CacheItem) → List String
expired_keys now [] = []
expired_keys now ((key, item) ∷ items) =
    let rest = expired_keys now items in if ltb_ℤ item.expires_at now then key ∷ rest else rest

abbrev pub delete_all : List String → List (String × CacheItem) → List (String × CacheItem)
delete_all [] items = items
delete_all (key ∷ keys) items = delete_all keys (delete key items)

-- `CleanupExpired` on the first level.
unfoldable pub cleanup_expired :
    CacheConfig → ℤ → List (String × CacheItem) → List (String × CacheItem)
cleanup_expired config now l1 =
    if not config.enable_l1 then l1 else delete_all (expired_keys now l1) l1
