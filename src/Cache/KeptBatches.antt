-- ===== src/Cache/KeptBatches.antt =====
-- internal/infrastructure/cache/high_performance_cache.go, `GetAdBatch` and `InvalidatePattern` with the
-- first level alone: no item comes into the cache.
use home_work_ad_processor_g.Prelude.{
  ap, sym, subst, Bool, true, false, not, Option, none, some, List, [], ◌∷◌, String, ℕ, ◌≡◌,
  if◌then◌else◌, map, All, ℤ, ok, lookup, delete,
}
use home_work_ad_processor_g.Ad.{Ad}
use home_work_ad_processor_g.Redis.Keys.{KeyValue}
use home_work_ad_processor_g.Cache.{
  CacheConfig, CacheItem, Json, ad_key, fresh, record_l1_hit, record_l1_miss,
}
use home_work_ad_processor_g.Cache.Items.{All-weaken}
use home_work_ad_processor_g.Cache.Levels.{Cache, load_l1, l1_found}
use home_work_ad_processor_g.Cache.Batches.{
  Batch, after_l1, batch_l1, replied, asked_l2, get_ad_batch, matched, invalidate_pattern,
}

module _ (kv : KeyValue) (json : Json) (config : CacheConfig)
    (P : String × CacheItem → Type 0) where
  abbrev AllIn : Cache kv → Type 0
  AllIn c = All P c.l1

  found-All :
      (c : Cache kv) (now : ℤ) (key : String) (o : Option CacheItem)
      → AllIn c
      → AllIn (l1_found kv json config c now key o).0
  found-All c now key none h = h
  found-All c now key (some item) h = go (fresh now item)
    where
      out : Bool → Cache kv × Option Ad
      out b =
          if b
          then (record c { stats = record_l1_hit c.stats }, some item.cached)
          else (record c { l1 = delete key c.l1; stats = record_l1_miss c.stats }, none)

      go : (b : Bool) → AllIn (out b).0
      go true = h
      go false = All-weaken P key c.l1 h

  load_l1-All :
      (c : Cache kv) (now : ℤ) (key : String) → AllIn c → AllIn (load_l1 kv json config c now key).0
  unfolding load_l1
  load_l1-All c now key h = go config.enable_l1
    where
      go :
          (b : Bool)
          → AllIn (if b then l1_found kv json config c now key (lookup key c.l1) else (c, none)).0
      go true = found-All c now key (lookup key c.l1) h
      go false = h

  after_l1-All :
      (id : String) (out : Cache kv × Option Ad) (rest : Cache kv → Cache kv × Batch)
      → AllIn out.0
      → ((c : Cache kv) → AllIn c → AllIn (rest c).0)
      → AllIn (after_l1 kv json config id out rest).0
  after_l1-All id (c, some a) rest h k = k c h
  after_l1-All id (c, none) rest h k = k c h

  batch_l1-All :
      (c : Cache kv) (now : ℤ) (ids : List String)
      → AllIn c
      → AllIn (batch_l1 kv json config c now ids).0
  unfolding batch_l1
  batch_l1-All c now [] h = h
  batch_l1-All c now (id ∷ ids) h =
      after_l1-All id (load_l1 kv json config c now (ad_key id))
        (λ c1. batch_l1 kv json config c1 now ids) (load_l1-All c now (ad_key id) h)
        (λ c1 k. batch_l1-All c1 now ids k)

  asked_l2-All :
      (now : ℤ) (c : Cache kv) (b : Batch) (ids : List String)
      → config.enable_l2 ≡ false
      → AllIn c
      → AllIn (asked_l2 kv json config now (c, b) ids).0
  asked_l2-All now c b [] off h = h
  asked_l2-All now c b (id ∷ ids) off h =
      subst
        (λ l2.
          AllIn
            (if l2
              then replied kv json config c now b (kv.mget c.l2 now (map ad_key (id ∷ ids)))
              else (c, b)).0)
        (sym off) h

  pub get_ad_batch-All :
      (c : Cache kv) (now : ℤ) (ids : List String)
      → config.enable_l2 ≡ false
      → AllIn c
      → AllIn (get_ad_batch kv json config c now ids).0
  unfolding get_ad_batch
  get_ad_batch-All c now ids off h = go config.enable_l1
    where
      none_found : Batch
      none_found = record { found = []; missing = ids; failed = false }

      go :
          (l1 : Bool)
          → AllIn
              (let (c1, b) = if l1 then batch_l1 kv json config c now ids else (c, none_found) in
                asked_l2 kv json config now (c1, b) b.missing).0
      go true = asked_l2-All now _ _ _ off (batch_l1-All c now ids h)
      go false = asked_l2-All now c none_found ids off h

  pub invalidate_pattern-off :
      (fuel : ℕ) (c : Cache kv) (now : ℤ) (pattern : String)
      → config.enable_l2 ≡ false
      → invalidate_pattern kv json config fuel c now pattern ≡ some (c, ok tt)
  unfolding invalidate_pattern
  invalidate_pattern-off fuel c now pattern off =
      ap
        (λ b.
          if not b
          then some (c, ok tt)
          else matched kv json config fuel c (kv.keys c.l2 now pattern))
        off
