-- ===== src/Cache/Batches.antt =====
-- internal/infrastructure/cache/high_performance_cache.go: the operations on many ads.
use home_work_ad_processor_g.Prelude.{
  ℕ, zero, suc, Bool, true, false, not, Option, none, some, List, [], ◌∷◌, ◌++◌, map, String,
  if◌then◌else◌, take, drop, ℤ, Result, ok, err,
}
use home_work_ad_processor_g.Ad.{Ad}
use home_work_ad_processor_g.Redis.{Reply}
use home_work_ad_processor_g.Redis.Keys.{KeyValue}
use home_work_ad_processor_g.Cache.{
  CacheConfig, CacheError, l2_failed, loader_failed, Json, ad_key, delete_all,
}
use home_work_ad_processor_g.Cache.Levels.{Cache, load_l1, promoted, l2_missed, stored_l1}

-- The answer of `GetAdBatch`: the ads that are there, the identifiers of the others, and an error.
pub record Batch : Type 0 where
  pub found : List Ad
  pub missing : List String
  pub failed : Bool

module _ (kv : KeyValue) (json : Json) (config : CacheConfig) where
  -- The commands of the pipeline of `SetAdBatch`; an ad that is not marshalled is skipped.
  abbrev pub marshalled : List Ad → List (String × String)
  marshalled [] = []
  marshalled (a ∷ ads) =
      let rest = marshalled ads in
      elim (json.marshal a) [ none ↦ rest | some text ↦ (ad_key a.id, text) ∷ rest ]

  -- `setL1` of each ad in turn.
  abbrev pub stored_all : Cache kv → ℤ → List Ad → Cache kv
  stored_all c now [] = c
  stored_all c now (a ∷ ads) = stored_all (stored_l1 kv json config c now a) now ads

  abbrev pub executed :
      Cache kv → ℤ → List Ad → kv.Store × Reply (Unit {0}) → Cache kv × Result CacheError (Unit {0})
  executed c now ads (l2, Reply.ok done) = (stored_all (record c { l2 = l2 }) now ads, ok tt)
  executed c now ads (l2, Reply.nil) = (record c { l2 = l2 }, err l2_failed)
  executed c now ads (l2, Reply.fail) = (record c { l2 = l2 }, err l2_failed)

  -- `SetAdBatch`.
  unfoldable pub set_ad_batch : Cache kv → ℤ → List Ad → Cache kv × Result CacheError (Unit {0})
  set_ad_batch c now [] = (c, ok tt)
  set_ad_batch c now (a ∷ ads) =
      if config.enable_l2
      then executed c now (a ∷ ads) (kv.exec c.l2 now (marshalled (a ∷ ads)) config.l2_ttl)
      else (stored_all c now (a ∷ ads), ok tt)

  -- What the first level makes of one identifier, before those that follow.
  abbrev pub after_l1 :
      String → Cache kv × Option Ad → (Cache kv → Cache kv × Batch) → Cache kv × Batch
  after_l1 id (c, some a) rest = let (c1, b) = rest c in (c1, record b { found = a ∷ b.found })
  after_l1 id (c, none) rest = let (c1, b) = rest c in (c1, record b { missing = id ∷ b.missing })

  -- The loop of `GetAdBatch` over the first level.
  unfoldable pub batch_l1 : Cache kv → ℤ → List String → Cache kv × Batch
  batch_l1 c now [] = (c, record { found = []; missing = []; failed = false })
  batch_l1 c now (id ∷ ids) =
      after_l1 id (load_l1 kv json config c now (ad_key id)) (λ c1. batch_l1 c1 now ids)

  -- The text of a result that is not nil, parsed.
  abbrev pub parse_result : Option String → Option Ad
  parse_result none = none
  parse_result (some text) = json.unmarshal text

  abbrev pub after_l2 :
      Cache kv → ℤ → String → Option Ad → (Cache kv → Cache kv × Batch) → Cache kv × Batch
  after_l2 c now id (some a) rest =
      let (c1, b) = rest (promoted kv json config c now (ad_key id) a) in
      (c1, record b { found = a ∷ b.found })
  after_l2 c now id none rest =
      let (c1, b) = rest (l2_missed kv json config c) in (c1, record b { missing = id ∷ b.missing })

  -- The loop of `GetAdBatch` over the results of MGET.
  unfoldable pub batch_l2 : Cache kv → ℤ → List String → List (Option String) → Cache kv × Batch
  batch_l2 c now [] results = (c, record { found = []; missing = []; failed = false })
  batch_l2 c now (id ∷ ids) [] = (c, record { found = []; missing = []; failed = false })
  batch_l2 c now (id ∷ ids) (result ∷ results) =
      after_l2 c now id (parse_result result) (λ c1. batch_l2 c1 now ids results)

  abbrev pub joined : Batch → Cache kv × Batch → Cache kv × Batch
  joined b (c, later) = (c, record later { found = b.found ++ later.found })

  abbrev pub replied : Cache kv → ℤ → Batch → Reply (List (Option String)) → Cache kv × Batch
  replied c now b (Reply.ok results) = joined b (batch_l2 c now b.missing results)
  replied c now b Reply.nil = (c, record b { failed = true })
  replied c now b Reply.fail = (c, record b { failed = true })

  abbrev pub asked_l2 : ℤ → Cache kv × Batch → List String → Cache kv × Batch
  asked_l2 now (c, b) [] = (c, b)
  asked_l2 now (c, b) (id ∷ ids) =
      if config.enable_l2
      then replied c now b (kv.mget c.l2 now (map ad_key (id ∷ ids)))
      else (c, b)

  -- `GetAdBatch`.
  unfoldable pub get_ad_batch : Cache kv → ℤ → List String → Cache kv × Batch
  get_ad_batch c now ids =
      let (c1, b) =
        if config.enable_l1
        then batch_l1 c now ids
        else (c, record { found = []; missing = ids; failed = false }) in
      asked_l2 now (c1, b) b.missing

  -- The batches of `InvalidatePattern`: none when the fuel runs out.
  abbrev pub dropped :
      Cache kv
      → List String
      → kv.Store × Reply (Unit {0})
      → (Cache kv → Option (Cache kv × Result CacheError (Unit {0})))
      → Option (Cache kv × Result CacheError (Unit {0}))
  dropped c batch (l2, Reply.ok done) rest =
      rest (record c { l1 = if config.enable_l1 then delete_all batch c.l1 else c.l1; l2 = l2 })
  dropped c batch (l2, Reply.nil) rest = some (record c { l2 = l2 }, err l2_failed)
  dropped c batch (l2, Reply.fail) rest = some (record c { l2 = l2 }, err l2_failed)

  unfoldable pub delete_batches :
      ℕ → Cache kv → List String → Option (Cache kv × Result CacheError (Unit {0}))
  delete_batches fuel c [] = some (c, ok tt)
  delete_batches zero c (key ∷ keys) = none
  delete_batches (suc fuel) c (key ∷ keys) =
      let batch = take config.batch_size (key ∷ keys) in
      dropped c batch (kv.del c.l2 batch)
        (λ c1. delete_batches fuel c1 (drop config.batch_size (key ∷ keys)))

  abbrev pub matched :
      ℕ → Cache kv → Reply (List String) → Option (Cache kv × Result CacheError (Unit {0}))
  matched fuel c (Reply.ok keys) = delete_batches fuel c keys
  matched fuel c Reply.nil = some (c, err l2_failed)
  matched fuel c Reply.fail = some (c, err l2_failed)

  -- `InvalidatePattern`.
  unfoldable pub invalidate_pattern :
      ℕ → Cache kv → ℤ → String → Option (Cache kv × Result CacheError (Unit {0}))
  invalidate_pattern fuel c now pattern =
      if not config.enable_l2 then some (c, ok tt) else matched fuel c (kv.keys c.l2 now pattern)

  abbrev pub loaded : Cache kv → ℤ → Option (List Ad) → Cache kv × Result CacheError (Unit {0})
  loaded c now none = (c, err loader_failed)
  loaded c now (some ads) = set_ad_batch c now ads

  abbrev pub prefetched :
      ℤ
      → (List String → Option (List Ad))
      → Cache kv × Batch
      → List String
      → Cache kv × Result CacheError (Unit {0})
  prefetched now loader (c, b) [] = (c, ok tt)
  prefetched now loader (c, b) (id ∷ ids) = loaded c now (loader (id ∷ ids))

  -- `PrefetchAds`; the loader is a function of the caller.
  unfoldable pub prefetch_ads :
      Cache kv
      → ℤ
      → List String
      → (List String → Option (List Ad))
      → Cache kv × Result CacheError (Unit {0})
  prefetch_ads c now [] loader = (c, ok tt)
  prefetch_ads c now (id ∷ ids) loader =
      let (c1, b) = get_ad_batch c now (id ∷ ids) in
      if b.failed then (c1, err l2_failed) else prefetched now loader (c1, b) b.missing

  -- `WarmupCache`.
  unfoldable pub warmup_cache :
      Cache kv → ℤ → (ℕ → Option (List Ad)) → Cache kv × Result CacheError (Unit {0})
  warmup_cache c now loader = loaded c now (loader config.prefetch_count)
