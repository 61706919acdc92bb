-- ===== src/Cache/Eviction.antt =====
-- internal/infrastructure/cache/high_performance_cache.go: the size of the first level when an item
-- is set, and what the eviction leaves.
use home_work_ad_processor_g.Prelude.{
  ℕ, suc, ◌+◌, ◌-◌, ◌*◌, ◌/◌, ◌≤◌, ◌<◌, ◌≡◌, ltb, false, List, [], ◌∷◌, String, if◌then◌else◌,
  length, ℤ, insert, delete, arith, ◌+ℤ◌, ap,
}
use home_work_ad_processor_g.Ad.{Ad}
use home_work_ad_processor_g.Cache.{
  CacheConfig, CacheItem, count_up_to, evict, set_l1, expired_keys, delete_all, cleanup_expired,
}

pub length-delete :
    (key : String) (items : List (String × CacheItem)) → length (delete key items) ≤ length items
unfolding delete
length-delete key [] = omega arith
length-delete key ((name, item) ∷ items) = let rest = length-delete key items in ground arith

pub length-delete_all :
    (keys : List String) (items : List (String × CacheItem))
    → length (delete_all keys items) ≤ length items
length-delete_all [] items = omega arith
length-delete_all (key ∷ keys) items =
    omega (arith, length-delete_all keys (delete key items), length-delete key items)

length-insert :
    (key : String) (item : CacheItem) (items : List (String × CacheItem))
    → length (insert key item items) ≤ suc (length items)
unfolding insert
length-insert key item items = omega (arith, length-delete key items)

-- The walk that counts is exact up to the limit.
count_up_to_lem :
    (limit size : ℕ) (items : List (String × CacheItem))
    → size + length items ≤ limit
    → count_up_to limit size items ≡ size + length items
unfolding count_up_to
count_up_to_lem limit size [] h = omega arith
count_up_to_lem limit size (item ∷ items) h =
    let rest = count_up_to_lem limit (size + 1) items (omega (arith, h)) in ground arith

length-evict :
    (keep size : ℕ) (items : List (String × CacheItem))
    → length (evict keep size items) ≤ length items - 1
unfolding evict
length-evict keep size [] = omega arith
length-evict keep size (item ∷ items) =
    let rest = length-evict keep (size - 1) items in ground arith

-- A full level is cut to less than nine tenths of the limit.
evict_lem :
    (keep : ℕ) (items : List (String × CacheItem))
    → 0 < keep
    → length (evict keep (length items) items) + 1 ≤ keep
unfolding evict
evict_lem keep [] p = omega arith
evict_lem keep (item ∷ items) p =
    let rest = evict_lem keep items p in
    let less : suc (length items) - 1 ≡ length items = omega arith in
    let same = ap (λ n. length (evict keep n items)) less in ground arith

counted :
    (limit : ℕ) (items : List (String × CacheItem))
    → length items ≤ limit
    → count_up_to limit 0 items ≡ length items
counted limit items h = omega (arith, count_up_to_lem limit 0 items (omega (arith, h)))

-- What `setL1` keeps of the level.
abbrev kept : CacheConfig → List (String × CacheItem) → List (String × CacheItem)
unfolding count_up_to evict
kept config l1 =
    let size = count_up_to config.l1_max_items 0 l1 in
    if ltb size config.l1_max_items then l1 else evict (config.l1_max_items * 9 / 10) size l1

kept_lem :
    (config : CacheConfig) (l1 : List (String × CacheItem))
    → 0 < config.l1_max_items
    → length l1 ≤ config.l1_max_items
    → length (kept config l1) + 1 ≤ config.l1_max_items
unfolding kept
kept_lem config l1 p h =
    let size = counted config.l1_max_items l1 h in
    let cut =
      length-evict (config.l1_max_items * 9 / 10) (count_up_to config.l1_max_items 0 l1) l1 in
    ground arith

pub set_l1-bound :
    (config : CacheConfig) (now : ℤ) (key : String) (a : Ad) (ttl : ℤ)
    (l1 : List (String × CacheItem))
    → 0 < config.l1_max_items
    → length l1 ≤ config.l1_max_items
    → length (set_l1 config now key a ttl l1) ≤ config.l1_max_items
unfolding set_l1 kept
set_l1-bound config now key a ttl l1 p h = omega (
  arith,
  length-insert key (record { cached = a; expires_at = now +ℤ ttl }) (kept config l1),
  kept_lem config l1 p h,
)

-- A level that is full is cut when it is set: of a limit of at least two, at most nine tenths stay,
-- the new item among them.
set_l1_evicts :
    (config : CacheConfig) (now : ℤ) (key : String) (a : Ad) (ttl : ℤ)
    (l1 : List (String × CacheItem))
    → 1 < config.l1_max_items
    → length l1 ≡ config.l1_max_items
    → length (set_l1 config now key a ttl l1) ≤ config.l1_max_items * 9 / 10
unfolding set_l1 kept
set_l1_evicts config now key a ttl l1 p h =
    let limit = config.l1_max_items in
    let size = counted limit l1 (omega (arith, h)) in
    let same =
      ap
        (λ n. length (
          insert key (record { cached = a; expires_at = now +ℤ ttl })
            (if ltb n limit then l1 else evict (limit * 9 / 10) n l1)))
        size in
    let put =
      length-insert key (record { cached = a; expires_at = now +ℤ ttl })
        (evict (limit * 9 / 10) (length l1) l1) in
    let cut = evict_lem (limit * 9 / 10) l1 (omega arith) in
    let full : ltb (length l1) limit ≡ false = ground arith in
    rw (same, full) (omega (arith, put, cut))

pub length-cleanup_expired :
    (config : CacheConfig) (now : ℤ) (l1 : List (String × CacheItem))
    → length (cleanup_expired config now l1) ≤ length l1
unfolding cleanup_expired
length-cleanup_expired config now l1 =
    let all = length-delete_all (expired_keys now l1) l1 in ground arith
