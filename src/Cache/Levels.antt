-- ===== src/Cache/Levels.antt =====
-- internal/infrastructure/cache/high_performance_cache.go: the operations on one ad, on both levels.
use home_work_ad_processor_g.Prelude.{
  Option, none, some, List, [], ◌∷◌, String, if◌then◌else◌, ℤ, Result, ok, err, lookup, delete,
}
use home_work_ad_processor_g.Ad.{Ad}
use home_work_ad_processor_g.Redis.{Reply}
use home_work_ad_processor_g.Redis.Keys.{KeyValue}
use home_work_ad_processor_g.Cache.{
  CacheConfig, CacheStats, CacheItem, CacheError, not_found_in_cache, marshal_failed, l2_failed,
  Json, ad_key, record_l1_hit, record_l1_miss, record_l2_hit, record_l2_miss, record_db_hit, set_l1,
  fresh,
}

module _ (kv : KeyValue) where
  -- `HighPerformanceCache`.
  pub record Cache : Type 0 where
    pub l1 : List (String × CacheItem)
    pub l2 : kv.Store
    pub stats : CacheStats

module _ (kv : KeyValue) (json : Json) (config : CacheConfig) where
  -- The first level on its own, for one key: an ad, or nothing and the expired item deleted.
  abbrev pub l1_found : Cache kv → ℤ → String → Option CacheItem → Cache kv × Option Ad
  l1_found c now key none = (record c { stats = record_l1_miss c.stats }, none)
  l1_found c now key (some item) =
      if fresh now item
      then (record c { stats = record_l1_hit c.stats }, some item.cached)
      else (record c { l1 = delete key c.l1; stats = record_l1_miss c.stats }, none)

  unfoldable pub load_l1 : Cache kv → ℤ → String → Cache kv × Option Ad
  load_l1 c now key = if config.enable_l1 then l1_found c now key (lookup key c.l1) else (c, none)

  -- What `GetAd` and `GetAdBatch` do with an ad that the second level has: it goes into the first.
  abbrev pub promoted : Cache kv → ℤ → String → Ad → Cache kv
  promoted c now key a = record c {
    l1 = if config.enable_l1 then set_l1 config now key a config.l1_ttl c.l1 else c.l1;
    stats = record_l2_hit c.stats;
  }

  abbrev pub l2_missed : Cache kv → Cache kv
  l2_missed c = record c { stats = record_l2_miss c.stats }

  abbrev pub parsed : Cache kv → ℤ → String → Option Ad → Cache kv × Option Ad
  parsed c now key none = (l2_missed c, none)
  parsed c now key (some a) = (promoted c now key a, some a)

  abbrev pub l2_found : Cache kv → ℤ → String → Reply String → Cache kv × Option Ad
  l2_found c now key (Reply.ok text) = parsed c now key (json.unmarshal text)
  l2_found c now key Reply.nil = (l2_missed c, none)
  l2_found c now key Reply.fail = (l2_missed c, none)

  unfoldable pub load_l2 : Cache kv → ℤ → String → Cache kv × Option Ad
  load_l2 c now key =
      if config.enable_l2 then l2_found c now key (kv.get c.l2 now key) else (c, none)

  abbrev pub or_db : Cache kv × Option Ad → Cache kv × Result CacheError Ad
  or_db (c, some a) = (c, ok a)
  or_db (c, none) = (record c { stats = record_db_hit c.stats }, err not_found_in_cache)

  abbrev pub or_l2 : ℤ → String → Cache kv × Option Ad → Cache kv × Result CacheError Ad
  or_l2 now key (c, some a) = (c, ok a)
  or_l2 now key (c, none) = or_db (load_l2 c now key)

  -- `GetAd`.
  unfoldable pub get_ad : Cache kv → ℤ → String → Cache kv × Result CacheError Ad
  get_ad c now id = or_l2 now (ad_key id) (load_l1 c now (ad_key id))

  abbrev pub stored_l1 : Cache kv → ℤ → Ad → Cache kv
  stored_l1 c now a = record c {
    l1 = if config.enable_l1 then set_l1 config now (ad_key a.id) a config.l1_ttl c.l1 else c.l1;
  }

  abbrev pub set_in_l1 :
      Cache kv → ℤ → Ad → kv.Store × Reply (Unit {0}) → Cache kv × Result CacheError (Unit {0})
  set_in_l1 c now a (l2, Reply.ok done) = (stored_l1 (record c { l2 = l2 }) now a, ok tt)
  set_in_l1 c now a (l2, Reply.nil) = (record c { l2 = l2 }, err l2_failed)
  set_in_l1 c now a (l2, Reply.fail) = (record c { l2 = l2 }, err l2_failed)

  abbrev pub set_in_l2 : Cache kv → ℤ → Ad → Option String → Cache kv × Result CacheError (Unit {0})
  set_in_l2 c now a none = (c, err marshal_failed)
  set_in_l2 c now a (some text) =
      set_in_l1 c now a (kv.set c.l2 now (ad_key a.id) text config.l2_ttl)

  -- `SetAd`.
  unfoldable pub set_ad : Cache kv → ℤ → Ad → Cache kv × Result CacheError (Unit {0})
  set_ad c now a =
      if config.enable_l2 then set_in_l2 c now a (json.marshal a) else (stored_l1 c now a, ok tt)

  abbrev pub deleted_l2 :
      Cache kv → kv.Store × Reply (Unit {0}) → Cache kv × Result CacheError (Unit {0})
  deleted_l2 c (l2, Reply.ok done) = (record c { l2 = l2 }, ok tt)
  deleted_l2 c (l2, Reply.nil) = (record c { l2 = l2 }, err l2_failed)
  deleted_l2 c (l2, Reply.fail) = (record c { l2 = l2 }, err l2_failed)

  -- `DeleteAd`.
  unfoldable pub delete_ad : Cache kv → String → Cache kv × Result CacheError (Unit {0})
  delete_ad c id =
      let key = ad_key id in
      let c1 = record c { l1 = if config.enable_l1 then delete key c.l1 else c.l1 } in
      if config.enable_l2 then deleted_l2 c1 (kv.del c1.l2 (key ∷ [])) else (c1, ok tt)
