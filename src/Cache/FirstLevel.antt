-- ===== src/Cache/FirstLevel.antt =====
-- internal/infrastructure/cache/high_performance_cache.go: the operations with the first level alone.
use home_work_ad_processor_g.Prelude.{
  ◌≡◌, refl, ap, ◌∙◌, Bool, true, false, not, Option, none, some, List, [], ◌∷◌, String,
  if◌then◌else◌, All, ℤ, Result, ok, lookup, delete,
}
use home_work_ad_processor_g.Ad.{Ad}
use home_work_ad_processor_g.Redis.Keys.{KeyValue}
use home_work_ad_processor_g.Cache.{
  CacheConfig, CacheItem, CacheError, Json, ad_key, set_l1, fresh, expired_keys, delete_all,
  cleanup_expired, record_l1_hit, record_l1_miss,
}
use home_work_ad_processor_g.Cache.Items.{All-weaken}
use home_work_ad_processor_g.Cache.Levels.{
  Cache, load_l1, l1_found, load_l2, l2_found, or_l2, or_db, stored_l1, set_in_l2, get_ad, set_ad,
  deleted_l2, delete_ad,
}
use home_work_ad_processor_g.Cache.Batches.{stored_all, executed, marshalled, set_ad_batch}

module _ (kv : KeyValue) (json : Json) (config : CacheConfig) (on : config.enable_l1 ≡ true)
    (off : config.enable_l2 ≡ false) where
  load_l2_off :
      (c : Cache kv) (now : ℤ) (key : String) → load_l2 kv json config c now key ≡ (c, none)
  unfolding load_l2
  load_l2_off c now key =
      ap (λ b. if b then l2_found kv json config c now key (kv.get c.l2 now key) else (c, none)) off

  load_l1_on :
      (c : Cache kv) (now : ℤ) (key : String)
      → load_l1 kv json config c now key ≡ l1_found kv json config c now key (lookup key c.l1)
  unfolding load_l1
  load_l1_on c now key =
      ap (λ b. if b then l1_found kv json config c now key (lookup key c.l1) else (c, none)) on

  -- `GetAd` from the first level alone.
  abbrev pub got : Cache kv → ℤ → String → Option CacheItem → Cache kv × Result CacheError Ad
  got c now key o = or_db kv json config (l1_found kv json config c now key o)

  or_l2_off :
      (now : ℤ) (key : String) (out : Cache kv × Option Ad)
      → or_l2 kv json config now key out ≡ or_db kv json config out
  or_l2_off now key (c, some a) = refl
  or_l2_off now key (c, none) = ap (or_db kv json config) (load_l2_off c now key)

  pub get_ad_on :
      (c : Cache kv) (now : ℤ) (id : String)
      → get_ad kv json config c now id ≡ got c now (ad_key id) (lookup (ad_key id) c.l1)
  unfolding get_ad
  get_ad_on c now id =
      or_l2_off now (ad_key id) (load_l1 kv json config c now (ad_key id))
      ∙ ap (or_db kv json config) (load_l1_on c now (ad_key id))

  pub stored_on :
      (c : Cache kv) (now : ℤ) (a : Ad)
      → (stored_l1 kv json config c now a).l1 ≡ set_l1 config now (ad_key a.id) a config.l1_ttl c.l1
  stored_on c now a =
      ap (λ b. if b then set_l1 config now (ad_key a.id) a config.l1_ttl c.l1 else c.l1) on

  pub set_ad_on :
      (c : Cache kv) (now : ℤ) (a : Ad)
      → set_ad kv json config c now a ≡ (stored_l1 kv json config c now a, ok tt)
  unfolding set_ad
  set_ad_on c now a =
      ap
        (λ b.
          if b
          then set_in_l2 kv json config c now a (json.marshal a)
          else (stored_l1 kv json config c now a, ok tt))
        off

  pub got-All :
      (P : String × CacheItem → Type 0) (c : Cache kv) (now : ℤ) (key : String)
      (o : Option CacheItem)
      → All P c.l1
      → All P (got c now key o).0.l1
  got-All P c now key none h = h
  got-All P c now key (some item) h = go (fresh now item)
    where
      go :
          (b : Bool)
          → All P
              (or_db kv json config (
                if b then (record c { stats = record_l1_hit c.stats }, some item.cached) else (
                  record c { l1 = delete key c.l1; stats = record_l1_miss c.stats },
                  none,
                ))).0.l1
      go true = h
      go false = All-weaken P key c.l1 h

  pub set_batch_on :
      (c : Cache kv) (now : ℤ) (ads : List Ad)
      → set_ad_batch kv json config c now ads ≡ (stored_all kv json config c now ads, ok tt)
  unfolding set_ad_batch
  set_batch_on c now [] = refl
  set_batch_on c now (a ∷ ads) =
      ap
        (λ b.
          if b
          then executed kv json config c now (a ∷ ads)
              (kv.exec c.l2 now (marshalled kv json config (a ∷ ads)) config.l2_ttl)
          else (stored_all kv json config c now (a ∷ ads), ok tt))
        off

  pub delete_on :
      (c : Cache kv) (id : String) → (delete_ad kv json config c id).0.l1 ≡ delete (ad_key id) c.l1
  unfolding delete_ad
  delete_on c id =
      let key = ad_key id in
      let c1 = record c { l1 = if config.enable_l1 then delete key c.l1 else c.l1 } in
      ap
        (λ b.
          (if b then deleted_l2 kv json config c1 (kv.del c1.l2 (key ∷ [])) else (c1, ok tt)).0.l1)
        off
      ∙ ap (λ b. if b then delete key c.l1 else c.l1) on

  pub cleanup_on :
      (now : ℤ) (l1 : List (String × CacheItem))
      → cleanup_expired config now l1 ≡ delete_all (expired_keys now l1) l1
  unfolding cleanup_expired
  cleanup_on now l1 = ap (λ b. if not b then l1 else delete_all (expired_keys now l1) l1) on
