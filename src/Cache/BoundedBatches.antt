-- ===== src/Cache/BoundedBatches.antt =====
-- internal/infrastructure/cache/high_performance_cache.go: the operations on many ads keep the first level
-- within its limit.
use home_work_ad_processor_g.Prelude.{
  ◌<◌, Bool, true, false, Option, none, some, List, [], ◌∷◌, map, String, if◌then◌else◌, ℤ, ok,
}
use home_work_ad_processor_g.Ad.{Ad}
use home_work_ad_processor_g.Redis.{Reply}
use home_work_ad_processor_g.Redis.Keys.{KeyValue}
use home_work_ad_processor_g.Cache.{CacheConfig, Json, ad_key}
use home_work_ad_processor_g.Cache.Levels.{Cache, load_l1, promoted, l2_missed, stored_l1}
use home_work_ad_processor_g.Cache.Batches.{
  Batch, stored_all, executed, marshalled, set_ad_batch, after_l1, batch_l1, parse_result, after_l2,
  batch_l2, replied, asked_l2, get_ad_batch,
}
use home_work_ad_processor_g.Cache.Bounded.{Bounded, set_if, load_l1-Bounded}

module _ (kv : KeyValue) (json : Json) (config : CacheConfig) (p : 0 < config.l1_max_items) where
  pub stored_all-Bounded :
      (c : Cache kv) (now : ℤ) (ads : List Ad)
      → Bounded kv json config p c
      → Bounded kv json config p (stored_all kv json config c now ads)
  stored_all-Bounded c now [] h = h
  stored_all-Bounded c now (a ∷ ads) h =
      stored_all-Bounded (stored_l1 kv json config c now a) now ads
        (set_if kv json config p c.l1 now (ad_key a.id) a h)

  pub set_ad_batch-Bounded :
      (c : Cache kv) (now : ℤ) (ads : List Ad)
      → Bounded kv json config p c
      → Bounded kv json config p (set_ad_batch kv json config c now ads).0
  unfolding set_ad_batch
  set_ad_batch-Bounded c now [] h = h
  set_ad_batch-Bounded c now (a ∷ ads) h =
      go config.enable_l2 (kv.exec c.l2 now (marshalled kv json config (a ∷ ads)) config.l2_ttl)
    where
      go :
          (b : Bool) (out : kv.Store × Reply (Unit {0}))
          → Bounded kv json config p
              (if b
                then executed kv json config c now (a ∷ ads) out
                else (stored_all kv json config c now (a ∷ ads), ok tt)).0
      go false out = stored_all-Bounded c now (a ∷ ads) h
      go true (l2, Reply.ok done) = stored_all-Bounded (record c { l2 = l2 }) now (a ∷ ads) h
      go true (l2, Reply.nil) = h
      go true (l2, Reply.fail) = h

  after_l1-Bounded :
      (id : String) (out : Cache kv × Option Ad) (rest : Cache kv → Cache kv × Batch)
      → Bounded kv json config p out.0
      → ((c : Cache kv) → Bounded kv json config p c → Bounded kv json config p (rest c).0)
      → Bounded kv json config p (after_l1 kv json config id out rest).0
  after_l1-Bounded id (c, some a) rest h k = k c h
  after_l1-Bounded id (c, none) rest h k = k c h

  batch_l1-Bounded :
      (c : Cache kv) (now : ℤ) (ids : List String)
      → Bounded kv json config p c
      → Bounded kv json config p (batch_l1 kv json config c now ids).0
  unfolding batch_l1
  batch_l1-Bounded c now [] h = h
  batch_l1-Bounded c now (id ∷ ids) h =
      after_l1-Bounded id (load_l1 kv json config c now (ad_key id))
        (λ c1. batch_l1 kv json config c1 now ids)
        (load_l1-Bounded kv json config p c now (ad_key id) h)
        (λ c1 k. batch_l1-Bounded c1 now ids k)

  after_l2-Bounded :
      (c : Cache kv) (now : ℤ) (id : String) (o : Option Ad) (rest : Cache kv → Cache kv × Batch)
      → Bounded kv json config p c
      → ((c1 : Cache kv) → Bounded kv json config p c1 → Bounded kv json config p (rest c1).0)
      → Bounded kv json config p (after_l2 kv json config c now id o rest).0
  after_l2-Bounded c now id none rest h k = k (l2_missed kv json config c) h
  after_l2-Bounded c now id (some a) rest h k =
      k (promoted kv json config c now (ad_key id) a)
        (set_if kv json config p c.l1 now (ad_key id) a h)

  batch_l2-Bounded :
      (c : Cache kv) (now : ℤ) (ids : List String) (results : List (Option String))
      → Bounded kv json config p c
      → Bounded kv json config p (batch_l2 kv json config c now ids results).0
  unfolding batch_l2
  batch_l2-Bounded c now [] results h = h
  batch_l2-Bounded c now (id ∷ ids) [] h = h
  batch_l2-Bounded c now (id ∷ ids) (r ∷ results) h =
      after_l2-Bounded c now id (parse_result kv json config r)
        (λ c1. batch_l2 kv json config c1 now ids results) h
        (λ c1 k. batch_l2-Bounded c1 now ids results k)

  asked_l2-Bounded :
      (now : ℤ) (c : Cache kv) (b : Batch) (ids : List String)
      → Bounded kv json config p c
      → Bounded kv json config p (asked_l2 kv json config now (c, b) ids).0
  asked_l2-Bounded now c b [] h = h
  asked_l2-Bounded now c b (id ∷ ids) h =
      go config.enable_l2 (kv.mget c.l2 now (map ad_key (id ∷ ids)))
    where
      go :
          (l2 : Bool) (r : Reply (List (Option String)))
          → Bounded kv json config p (if l2 then replied kv json config c now b r else (c, b)).0
      go false r = h
      go true (Reply.ok results) = batch_l2-Bounded c now b.missing results h
      go true Reply.nil = h
      go true Reply.fail = h

  pub get_ad_batch-Bounded :
      (c : Cache kv) (now : ℤ) (ids : List String)
      → Bounded kv json config p c
      → Bounded kv json config p (get_ad_batch kv json config c now ids).0
  unfolding get_ad_batch
  get_ad_batch-Bounded c now ids h = go config.enable_l1
    where
      none_found : Batch
      none_found = record { found = []; missing = ids; failed = false }

      go :
          (l1 : Bool)
          → Bounded kv json config p
              (let (c1, b) = if l1 then batch_l1 kv json config c now ids else (c, none_found) in
                asked_l2 kv json config now (c1, b) b.missing).0
      go true = asked_l2-Bounded now _ _ _ (batch_l1-Bounded c now ids h)
      go false = asked_l2-Bounded now c none_found ids h
