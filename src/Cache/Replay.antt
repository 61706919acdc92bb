-- ===== src/Cache/Replay.antt =====
-- internal/infrastructure/cache/high_performance_cache.go: with the first level alone, an ad that is
-- found is the one that was set last, and not too long ago.
use home_work_ad_processor_g.Prelude.{
  ◌≡◌, refl, sym, ap, ◌∙◌, subst, Bool, true, false, Option, none, some, List, [], ◌∷◌, String,
  if◌then◌else◌, All, ℤ, ◌+ℤ◌, ◌<ℤ◌, ok, lookup, delete, arith, ok-injective,
}
use home_work_ad_processor_g.Ad.{Ad}
use home_work_ad_processor_g.Redis.Keys.{KeyValue}
use home_work_ad_processor_g.Cache.{
  CacheConfig, CacheItem, Json, ad_key, fresh, expired_keys, cleanup_expired, record_l1_hit,
  record_l1_miss,
}
use home_work_ad_processor_g.Cache.Items.{All-delete_all, lookup-All}
use home_work_ad_processor_g.Cache.History.{
  Memory, Call, get, set, set_batch, delete_one, get_batch, invalidate, warmup, cleanup,
  remember_loaded, remember, remember_all, note, replay, Genuine, set_l1-Genuine, delete-Genuine,
}
use home_work_ad_processor_g.Cache.Levels.{Cache, or_db, stored_l1, get_ad, set_ad, delete_ad}
use home_work_ad_processor_g.Cache.Batches.{
  stored_all, set_ad_batch, get_ad_batch, invalidate_pattern, loaded, warmup_cache,
}
use home_work_ad_processor_g.Cache.KeptBatches.{get_ad_batch-All, invalidate_pattern-off}
use home_work_ad_processor_g.Cache.Runs.{invalidated}
use home_work_ad_processor_g.Cache.FirstLevel.{
  get_ad_on, stored_on, set_ad_on, got-All, set_batch_on, delete_on, cleanup_on, got,
}

fresh_lem : (now : ℤ) (item : CacheItem) → fresh now item ≡ true → now <ℤ item.expires_at
fresh_lem now item h = ground arith

module _ (kv : KeyValue) (json : Json) (config : CacheConfig) where
  -- What a call leaves.
  unfoldable pub perform : Cache kv → ℤ → Call → Cache kv
  perform c now (get id) = (get_ad kv json config c now id).0
  perform c now (set a) = (set_ad kv json config c now a).0
  perform c now (set_batch ads) = (set_ad_batch kv json config c now ads).0
  perform c now (delete_one id) = (delete_ad kv json config c id).0
  perform c now (get_batch ids) = (get_ad_batch kv json config c now ids).0
  perform c now (invalidate fuel pattern) =
      invalidated kv json config c (invalidate_pattern kv json config fuel c now pattern)
  perform c now (warmup loader) = (warmup_cache kv json config c now loader).0
  perform c now cleanup = record c { l1 = cleanup_expired config now c.l1 }

  unfoldable pub perform_all : Cache kv → List (ℤ × Call) → Cache kv
  perform_all c [] = c
  perform_all c ((now, call) ∷ calls) = perform_all (perform c now call) calls

  abbrev pub Follows : Cache kv → Memory → Type 0
  Follows c m = All (Genuine config m) c.l1

module _ (kv : KeyValue) (json : Json) (config : CacheConfig) (on : config.enable_l1 ≡ true)
    (off : config.enable_l2 ≡ false) where
  stored-Follows :
      (c : Cache kv) (m : Memory) (now : ℤ) (a : Ad)
      → Follows kv json config c m
      → Follows kv json config (stored_l1 kv json config c now a) (remember m now a)
  stored-Follows c m now a h =
      subst (All (Genuine config (remember m now a)))
        (sym (stored_on kv json config on off c now a)) (set_l1-Genuine config m now a c.l1 h)

  stored_all-Follows :
      (c : Cache kv) (m : Memory) (now : ℤ) (ads : List Ad)
      → Follows kv json config c m
      → Follows kv json config (stored_all kv json config c now ads) (remember_all m now ads)
  stored_all-Follows c m now [] h = h
  stored_all-Follows c m now (a ∷ ads) h =
      stored_all-Follows (stored_l1 kv json config c now a) (remember m now a) now ads
        (stored-Follows c m now a h)

  loaded-Follows :
      (c : Cache kv) (m : Memory) (now : ℤ) (o : Option (List Ad))
      → Follows kv json config c m
      → Follows kv json config (loaded kv json config c now o).0 (remember_loaded m now o)
  loaded-Follows c m now none h = h
  loaded-Follows c m now (some ads) h =
      subst (λ out. All (Genuine config (remember_all m now ads)) out.0.l1)
        (sym (set_batch_on kv json config on off c now ads)) (stored_all-Follows c m now ads h)

  perform-Follows :
      (c : Cache kv) (m : Memory) (now : ℤ) (call : Call)
      → Follows kv json config c m
      → Follows kv json config
          (perform kv json config c now call)
          (note config.prefetch_count m now call)
  unfolding perform warmup_cache
  perform-Follows c m now (get id) h =
      subst (λ out. All (Genuine config m) out.0.l1)
        (sym (get_ad_on kv json config on off c now id))
        (got-All kv json config on off (Genuine config m) c now (ad_key id)
          (lookup (ad_key id) c.l1) h)
  perform-Follows c m now (set a) h =
      subst (λ out. All (Genuine config (remember m now a)) out.0.l1)
        (sym (set_ad_on kv json config on off c now a)) (stored-Follows c m now a h)
  perform-Follows c m now (set_batch ads) h =
      subst (λ out. All (Genuine config (remember_all m now ads)) out.0.l1)
        (sym (set_batch_on kv json config on off c now ads)) (stored_all-Follows c m now ads h)
  perform-Follows c m now (delete_one id) h =
      subst (All (Genuine config (note config.prefetch_count m now (delete_one id))))
        (sym (delete_on kv json config on off c id)) (delete-Genuine config m id c.l1 h)
  perform-Follows c m now (get_batch ids) h =
      get_ad_batch-All kv json config (Genuine config m) c now ids off h
  perform-Follows c m now (invalidate fuel pattern) h =
      subst (λ o. All (Genuine config m) (invalidated kv json config c o).l1)
        (sym (invalidate_pattern-off kv json config (Genuine config m) fuel c now pattern off)) h
  perform-Follows c m now (warmup loader) h =
      loaded-Follows c m now (loader config.prefetch_count) h
  perform-Follows c m now cleanup h =
      subst (All (Genuine config m)) (sym (cleanup_on kv json config on off now c.l1))
        (All-delete_all (Genuine config m) (expired_keys now c.l1) c.l1 h)

  perform_all-Follows :
      (c : Cache kv) (m : Memory) (calls : List (ℤ × Call))
      → Follows kv json config c m
      → Follows kv json config
          (perform_all kv json config c calls)
          (replay config.prefetch_count m calls)
  unfolding perform_all
  perform_all-Follows c m [] h = h
  perform_all-Follows c m ((now, call) ∷ calls) h =
      perform_all-Follows (perform kv json config c now call)
        (note config.prefetch_count m now call) calls (perform-Follows c m now call h)

  hit :
      (c : Cache kv) (now : ℤ) (key : String) (o : Option CacheItem) (a : Ad)
      → (got kv json config on off c now key o).1 ≡ ok a
      → (item : CacheItem) × (o ≡ some item) × (fresh now item ≡ true) × (item.cached ≡ a)
  hit c now key none a h = absurd cc
  hit c now key (some item) a h = go (fresh now item) refl h
    where
      go :
          (b : Bool)
          → fresh now item ≡ b
          → (or_db kv json config (
              if b
              then (record c { stats = record_l1_hit c.stats }, some item.cached)
              else (record c { l1 = delete key c.l1; stats = record_l1_miss c.stats }, none))).1
            ≡ ok a
          → (item1 : CacheItem) × (some item ≡ some item1)
            × (fresh now item1 ≡ true)
            × (item1.cached ≡ a)
      go true e k = (item, refl, e, ok-injective k)
      go false e k = absurd cc

  -- With the first level alone, an ad that `GetAd` finds after any sequence of the cache's operations
  -- other than `PrefetchAds` is the one that was set last for that identifier, by `SetAd`,
  -- `SetAdBatch` or `WarmupCache`, and not deleted since by `DeleteAd`, and its time to live is not
  -- over.
  pub get_ad-replay :
      (c : Cache kv) (calls : List (ℤ × Call)) (now : ℤ) (id : String) (a : Ad)
      → c.l1 ≡ []
      → (get_ad kv json config (perform_all kv json config c calls) now id).1 ≡ ok a
      → (at : ℤ) × (replay config.prefetch_count (λ key. none) calls id ≡ some (a, at))
        × (now <ℤ (at +ℤ config.l1_ttl))
  get_ad-replay c calls now id a empty h =
      let c1 = perform_all kv json config c calls in
      let m = replay config.prefetch_count (λ key. none) calls in
      let start : Follows kv json config c (λ key. none) =
        subst (All (Genuine config (λ key. none))) (sym empty) tt in
      let all = perform_all-Follows c (λ key. none) calls start in
      let (item, e, is_fresh, same) =
        hit c1 now (ad_key id) (lookup (ad_key id) c1.l1) a
          (sym (ap (λ out. out.1) (get_ad_on kv json config on off c1 now id)) ∙ h) in
      let (at, kept, expires) =
        lookup-All (Genuine config m) (ad_key id) c1.l1 item all e id refl in
      (
        at,
        kept ∙ ap (λ x. some (x, at)) same,
        subst (λ x. now <ℤ x) expires (fresh_lem now item is_fresh),
      )
