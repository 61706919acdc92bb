-- ===== src/Cache/Bounded.antt =====
-- internal/infrastructure/cache/high_performance_cache.go: the first level never holds more items than
-- the configuration allows.
use home_work_ad_processor_g.Prelude.{
  ◌≤◌, ◌<◌, Bool, true, false, Option, none, some, List, [], ◌∷◌, String, if◌then◌else◌, length, ℤ,
  ok, delete, lookup, arith,
}
use home_work_ad_processor_g.Ad.{Ad}
use home_work_ad_processor_g.Redis.{Reply}
use home_work_ad_processor_g.Redis.Keys.{KeyValue}
use home_work_ad_processor_g.Cache.{CacheConfig, CacheItem, Json, ad_key, set_l1}
use home_work_ad_processor_g.Cache.Eviction.{length-delete, set_l1-bound}
use home_work_ad_processor_g.Cache.Levels.{
  Cache, load_l1, l1_found, parsed, load_l2, l2_found, get_ad, or_l2, or_db, set_in_l2, stored_l1,
  set_in_l1, set_ad, deleted_l2, delete_ad,
}

module _ (kv : KeyValue) (json : Json) (config : CacheConfig) (p : 0 < config.l1_max_items) where
  -- The first level is within its limit.
  abbrev pub Bounded : Cache kv → Type 0
  Bounded c = length c.l1 ≤ config.l1_max_items

  pub set_if :
      (l1 : List (String × CacheItem)) (now : ℤ) (key : String) (a : Ad)
      → length l1 ≤ config.l1_max_items
      → length (if config.enable_l1 then set_l1 config now key a config.l1_ttl l1 else l1)
        ≤ config.l1_max_items
  set_if l1 now key a h =
      let set = set_l1-bound config now key a config.l1_ttl l1 p h in ground arith

  pub load_l1-Bounded :
      (c : Cache kv) (now : ℤ) (key : String)
      → Bounded c
      → Bounded (load_l1 kv json config c now key).0
  unfolding load_l1
  load_l1-Bounded c now key h = go config.enable_l1 (lookup key c.l1)
    where
      go :
          (b : Bool) (o : Option CacheItem)
          → Bounded (if b then l1_found kv json config c now key o else (c, none)).0
      go false o = h
      go true none = h
      go true (some item) = let gone = length-delete key c.l1 in ground (arith, h)

  parsed-Bounded :
      (c : Cache kv) (now : ℤ) (key : String) (o : Option Ad)
      → Bounded c
      → Bounded (parsed kv json config c now key o).0
  parsed-Bounded c now key none h = h
  parsed-Bounded c now key (some a) h = set_if c.l1 now key a h

  load_l2-Bounded :
      (c : Cache kv) (now : ℤ) (key : String)
      → Bounded c
      → Bounded (load_l2 kv json config c now key).0
  unfolding load_l2
  load_l2-Bounded c now key h = go config.enable_l2 (kv.get c.l2 now key)
    where
      go :
          (b : Bool) (r : Reply String)
          → Bounded (if b then l2_found kv json config c now key r else (c, none)).0
      go false r = h
      go true Reply.nil = h
      go true Reply.fail = h
      go true (Reply.ok text) = parsed-Bounded c now key (json.unmarshal text) h

  or_db-Bounded :
      (out : Cache kv × Option Ad) → Bounded out.0 → Bounded (or_db kv json config out).0
  or_db-Bounded (c, some a) h = h
  or_db-Bounded (c, none) h = h

  pub get_ad-Bounded :
      (c : Cache kv) (now : ℤ) (id : String)
      → Bounded c
      → Bounded (get_ad kv json config c now id).0
  unfolding get_ad
  get_ad-Bounded c now id h =
      go (load_l1 kv json config c now (ad_key id)) (load_l1-Bounded c now (ad_key id) h)
    where
      go :
          (out : Cache kv × Option Ad)
          → Bounded out.0
          → Bounded (or_l2 kv json config now (ad_key id) out).0
      go (c1, some a) k = k
      go (c1, none) k =
          or_db-Bounded (load_l2 kv json config c1 now (ad_key id))
            (load_l2-Bounded c1 now (ad_key id) k)

  pub set_ad-Bounded :
      (c : Cache kv) (now : ℤ) (a : Ad) → Bounded c → Bounded (set_ad kv json config c now a).0
  unfolding set_ad
  set_ad-Bounded c now a h = go config.enable_l2 (json.marshal a)
    where
      stored : (l2 : kv.Store) → Bounded (stored_l1 kv json config (record c { l2 = l2 }) now a)
      stored l2 = set_if c.l1 now (ad_key a.id) a h

      put : (out : kv.Store × Reply (Unit {0})) → Bounded (set_in_l1 kv json config c now a out).0
      put (l2, Reply.ok done) = set_if c.l1 now (ad_key a.id) a h
      put (l2, Reply.nil) = h
      put (l2, Reply.fail) = h

      go :
          (b : Bool) (o : Option String)
          → Bounded
              (if b
                then set_in_l2 kv json config c now a o
                else (stored_l1 kv json config c now a, ok tt)).0
      go false o = set_if c.l1 now (ad_key a.id) a h
      go true none = h
      go true (some text) = put (kv.set c.l2 now (ad_key a.id) text config.l2_ttl)

  pub delete_ad-Bounded :
      (c : Cache kv) (id : String) → Bounded c → Bounded (delete_ad kv json config c id).0
  unfolding delete_ad
  delete_ad-Bounded c id h = go config.enable_l2 (kv.del c.l2 (ad_key id ∷ []))
    where
      c1 : Cache kv
      c1 = record c { l1 = if config.enable_l1 then delete (ad_key id) c.l1 else c.l1 }

      less : Bounded c1
      less = let gone = length-delete (ad_key id) c.l1 in ground (arith, h)

      go :
          (b : Bool) (out : kv.Store × Reply (Unit {0}))
          → Bounded (if b then deleted_l2 kv json config c1 out else (c1, ok tt)).0
      go false out = less
      go true (l2, Reply.ok done) = less
      go true (l2, Reply.nil) = less
      go true (l2, Reply.fail) = less
