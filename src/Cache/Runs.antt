-- ===== src/Cache/Runs.antt =====
-- internal/infrastructure/cache/high_performance_cache.go: over any sequence of its operations the
-- first level stays within its limit.
use home_work_ad_processor_g.Prelude.{
  ℕ, zero, suc, ◌<◌, Bool, true, false, not, Option, none, some, List, [], ◌∷◌, String,
  if◌then◌else◌, take, drop, ℤ, Result, ok, err, arith,
}
use home_work_ad_processor_g.Ad.{Ad}
use home_work_ad_processor_g.Redis.{Reply}
use home_work_ad_processor_g.Redis.Keys.{KeyValue}
use home_work_ad_processor_g.Cache.{
  CacheConfig, CacheError, l2_failed, Json, delete_all, cleanup_expired,
}
use home_work_ad_processor_g.Cache.Levels.{Cache, get_ad, set_ad, delete_ad}
use home_work_ad_processor_g.Cache.Batches.{
  Batch, set_ad_batch, get_ad_batch, dropped, delete_batches, matched, invalidate_pattern, loaded,
  prefetched, prefetch_ads, warmup_cache,
}
use home_work_ad_processor_g.Cache.Eviction.{length-delete_all, length-cleanup_expired}
use home_work_ad_processor_g.Cache.Bounded.{
  Bounded, get_ad-Bounded, set_ad-Bounded, delete_ad-Bounded,
}
use home_work_ad_processor_g.Cache.BoundedBatches.{set_ad_batch-Bounded, get_ad_batch-Bounded}

-- A call of the cache; `fuel` bounds the batches of `InvalidatePattern`.
pub data Operation : Type 0 where
  get : String → Operation
  set : Ad → Operation
  delete_one : String → Operation
  get_batch : List String → Operation
  set_batch : List Ad → Operation
  invalidate : ℕ → String → Operation
  prefetch : List String → (List String → Option (List Ad)) → Operation
  warmup : (ℕ → Option (List Ad)) → Operation
  cleanup : Operation

module _ (kv : KeyValue) (json : Json) (config : CacheConfig) where
  -- A call that does not come back leaves the cache at its start.
  abbrev pub invalidated : Cache kv → Option (Cache kv × Result CacheError (Unit {0})) → Cache kv
  invalidated c none = c
  invalidated c (some out) = out.0

  -- What a call leaves.
  unfoldable pub apply : Cache kv → ℤ → Operation → Cache kv
  apply c now (get id) = (get_ad kv json config c now id).0
  apply c now (set a) = (set_ad kv json config c now a).0
  apply c now (delete_one id) = (delete_ad kv json config c id).0
  apply c now (get_batch ids) = (get_ad_batch kv json config c now ids).0
  apply c now (set_batch ads) = (set_ad_batch kv json config c now ads).0
  apply c now (invalidate fuel pattern) =
      invalidated c (invalidate_pattern kv json config fuel c now pattern)
  apply c now (prefetch ids loader) = (prefetch_ads kv json config c now ids loader).0
  apply c now (warmup loader) = (warmup_cache kv json config c now loader).0
  apply c now cleanup = record c { l1 = cleanup_expired config now c.l1 }

  -- The calls one after another, each at its time.
  unfoldable pub run : Cache kv → List (ℤ × Operation) → Cache kv
  run c [] = c
  run c ((now, op) ∷ ops) = run (apply c now op) ops

module _ (kv : KeyValue) (json : Json) (config : CacheConfig) (p : 0 < config.l1_max_items) where
  abbrev Small : Cache kv → Type 0
  Small c = Bounded kv json config p c

  abbrev IfDone : Option (Cache kv × Result CacheError (Unit {0})) → Type 0
  IfDone none = Unit
  IfDone (some out) = Small out.0

  IfDone-Small :
      (c : Cache kv) (o : Option (Cache kv × Result CacheError (Unit {0})))
      → Small c
      → IfDone o
      → Small (invalidated kv json config c o)
  IfDone-Small c none h k = h
  IfDone-Small c (some out) h k = k

  dropped-Small :
      (c : Cache kv) (batch : List String) (out : kv.Store × Reply (Unit {0}))
      (rest : Cache kv → Option (Cache kv × Result CacheError (Unit {0})))
      → Small c
      → ((c1 : Cache kv) → Small c1 → IfDone (rest c1))
      → IfDone (dropped kv json config c batch out rest)
  dropped-Small c batch (l2, Reply.ok done) rest h k =
      k (record c { l1 = if config.enable_l1 then delete_all batch c.l1 else c.l1; l2 = l2 })
        (let less = length-delete_all batch c.l1 in ground (arith, h))
  dropped-Small c batch (l2, Reply.nil) rest h k = h
  dropped-Small c batch (l2, Reply.fail) rest h k = h

  delete_batches-IfDone :
      (fuel : ℕ) (c : Cache kv) (keys : List String)
      → Small c
      → IfDone (delete_batches kv json config fuel c keys)
  unfolding delete_batches
  delete_batches-IfDone fuel c [] h = h
  delete_batches-IfDone zero c (key ∷ keys) h = tt
  delete_batches-IfDone (suc fuel) c (key ∷ keys) h =
      dropped-Small c (take config.batch_size (key ∷ keys))
        (kv.del c.l2 (take config.batch_size (key ∷ keys)))
        (λ c1. delete_batches kv json config fuel c1 (drop config.batch_size (key ∷ keys))) h
        (λ c1 k. delete_batches-IfDone fuel c1 (drop config.batch_size (key ∷ keys)) k)

  invalidate_pattern-IfDone :
      (fuel : ℕ) (c : Cache kv) (now : ℤ) (pattern : String)
      → Small c
      → IfDone (invalidate_pattern kv json config fuel c now pattern)
  unfolding invalidate_pattern
  invalidate_pattern-IfDone fuel c now pattern h = go config.enable_l2 (kv.keys c.l2 now pattern)
    where
      go :
          (b : Bool) (r : Reply (List String))
          → IfDone (if not b then some (c, ok tt) else matched kv json config fuel c r)
      go false r = h
      go true (Reply.ok keys) = delete_batches-IfDone fuel c keys h
      go true Reply.nil = h
      go true Reply.fail = h

  loaded-Small :
      (c : Cache kv) (now : ℤ) (o : Option (List Ad))
      → Small c
      → Small (loaded kv json config c now o).0
  loaded-Small c now none h = h
  loaded-Small c now (some ads) h = set_ad_batch-Bounded kv json config p c now ads h

  prefetch_ads-Small :
      (c : Cache kv) (now : ℤ) (ids : List String) (loader : List String → Option (List Ad))
      → Small c
      → Small (prefetch_ads kv json config c now ids loader).0
  unfolding prefetch_ads
  prefetch_ads-Small c now [] loader h = h
  prefetch_ads-Small c now (id ∷ ids) loader h =
      go (get_ad_batch kv json config c now (id ∷ ids))
        (get_ad_batch-Bounded kv json config p c now (id ∷ ids) h)
    where
      missing :
          (c1 : Cache kv) (b : Batch) (l : List String)
          → Small c1
          → Small (prefetched kv json config now loader (c1, b) l).0
      missing c1 b [] k = k
      missing c1 b (m ∷ l) k = loaded-Small c1 now (loader (m ∷ l)) k

      fails :
          (b : Bool) (out rest : Cache kv × Result CacheError (Unit {0}))
          → Small out.0
          → Small rest.0
          → Small (if b then out else rest).0
      fails true out rest k l = k
      fails false out rest k l = l

      go :
          (out : Cache kv × Batch)
          → Small out.0
          → Small
              (let (c1, b) = out in
                if b.failed
                then (c1, Result.err l2_failed)
                else prefetched kv json config now loader (c1, b) b.missing).0
      go (c1, b) k = fails b.failed (c1, err l2_failed) _ k (missing c1 b b.missing k)

  apply-Small :
      (c : Cache kv) (now : ℤ) (op : Operation) → Small c → Small (apply kv json config c now op)
  unfolding apply warmup_cache
  apply-Small c now (get id) h = get_ad-Bounded kv json config p c now id h
  apply-Small c now (set a) h = set_ad-Bounded kv json config p c now a h
  apply-Small c now (delete_one id) h = delete_ad-Bounded kv json config p c id h
  apply-Small c now (get_batch ids) h = get_ad_batch-Bounded kv json config p c now ids h
  apply-Small c now (set_batch ads) h = set_ad_batch-Bounded kv json config p c now ads h
  apply-Small c now (invalidate fuel pattern) h =
      IfDone-Small c (invalidate_pattern kv json config fuel c now pattern) h
        (invalidate_pattern-IfDone fuel c now pattern h)
  apply-Small c now (prefetch ids loader) h = prefetch_ads-Small c now ids loader h
  apply-Small c now (warmup loader) h = loaded-Small c now (loader config.prefetch_count) h
  apply-Small c now cleanup h = omega (arith, length-cleanup_expired config now c.l1, h)

  -- With a limit of at least one item, no sequence of calls of the cache brings its first level above
  -- the limit, whatever Redis and the loaders answer.
  pub run-Bounded :
      (c : Cache kv) (ops : List (ℤ × Operation))
      → Bounded kv json config p c
      → Bounded kv json config p (run kv json config c ops)
  unfolding run
  run-Bounded c [] h = h
  run-Bounded c ((now, op) ∷ ops) h =
      run-Bounded (apply kv json config c now op) ops (apply-Small c now op h)
