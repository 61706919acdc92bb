-- ===== src/Cache/Hits.antt =====
-- internal/infrastructure/cache/high_performance_cache.go: what `GetAd` answers after a `SetAd`.
use home_work_ad_processor_g.Prelude.{
  ◌≡◌, refl, ap, ◌∙◌, Bool, true, false, Option, none, some, List, String, if◌then◌else◌, ℤ, ◌+ℤ◌,
  ◌<ℤ◌, ok, lookup, delete, lookup-insert, str_refl, arith,
}
use home_work_ad_processor_g.Ad.{Ad}
use home_work_ad_processor_g.Redis.{Reply}
use home_work_ad_processor_g.Redis.Keys.{KeyValue}
use home_work_ad_processor_g.Cache.{
  CacheConfig, CacheItem, Json, ad_key, set_l1, fresh, record_l1_hit, record_l1_miss,
}
use home_work_ad_processor_g.Cache.Levels.{
  Cache, load_l1, l1_found, or_l2, stored_l1, set_in_l1, set_in_l2, get_ad, set_ad,
}

module _ (kv : KeyValue) (json : Json) (config : CacheConfig) where
  abbrev fresh_item : ℤ → Ad → CacheItem
  fresh_item now a = record { cached = a; expires_at = now +ℤ config.l1_ttl }

  lookup-set_l1 :
      (now : ℤ) (a : Ad) (l1 : List (String × CacheItem))
      → lookup (ad_key a.id) (set_l1 config now (ad_key a.id) a config.l1_ttl l1)
        ≡ some (fresh_item now a)
  unfolding set_l1
  lookup-set_l1 now a l1 =
      lookup-insert (ad_key a.id) (ad_key a.id) (fresh_item now a) _
      ∙ rw (str_refl (ad_key a.id)) refl

  -- What `SetAd` leaves in the first level when it succeeds.
  set_ad_l1 :
      (c : Cache kv) (now : ℤ) (a : Ad)
      → (set_ad kv json config c now a).1 ≡ ok tt
      → (set_ad kv json config c now a).0.l1
        ≡ (if config.enable_l1 then set_l1 config now (ad_key a.id) a config.l1_ttl c.l1 else c.l1)
  unfolding set_ad
  set_ad_l1 c now a h = go config.enable_l2 (json.marshal a) h
    where
      put :
          (out : kv.Store × Reply (Unit {0}))
          → (set_in_l1 kv json config c now a out).1 ≡ ok tt
          → (set_in_l1 kv json config c now a out).0.l1 ≡ (
              if config.enable_l1
              then set_l1 config now (ad_key a.id) a config.l1_ttl c.l1
              else c.l1)
      put (l2, Reply.ok done) k = refl
      put (l2, Reply.nil) k = absurd cc
      put (l2, Reply.fail) k = absurd cc

      go :
          (b : Bool) (o : Option String)
          → (if b
              then set_in_l2 kv json config c now a o
              else (stored_l1 kv json config c now a, ok tt)).1
            ≡ ok tt
          → (if b
              then set_in_l2 kv json config c now a o
              else (stored_l1 kv json config c now a, ok tt)).0.l1
            ≡ (if config.enable_l1
                then set_l1 config now (ad_key a.id) a config.l1_ttl c.l1
                else c.l1)
      go false o k = refl
      go true none k = absurd cc
      go true (some text) k = put (kv.set c.l2 now (ad_key a.id) text config.l2_ttl) k

  l1_hit :
      (c : Cache kv) (now : ℤ) (key : String) (item : CacheItem)
      → config.enable_l1 ≡ true
      → lookup key c.l1 ≡ some item
      → fresh now item ≡ true
      → load_l1 kv json config c now key
        ≡ (record c { stats = record_l1_hit c.stats }, some item.cached)
  unfolding load_l1
  l1_hit c now key item on e f =
      ap (λ b. if b then l1_found kv json config c now key (lookup key c.l1) else (c, none)) on
      ∙ ap (l1_found kv json config c now key) e
      ∙ ap
          (λ b.
            if b
            then (record c { stats = record_l1_hit c.stats }, some item.cached)
            else (record c { l1 = delete key c.l1; stats = record_l1_miss c.stats }, none))
          f

  -- With the first level on, a `GetAd` that directly follows a `SetAd` of the same ad which succeeded,
  -- with no other call between the two and within the time to live, answers with that very ad,
  -- whatever Redis does, counts a hit and changes nothing else.
  pub get_ad-set_ad :
      (c : Cache kv) (a : Ad) (now later : ℤ)
      → config.enable_l1 ≡ true
      → (set_ad kv json config c now a).1 ≡ ok tt
      → later <ℤ (now +ℤ config.l1_ttl)
      → (let c1 = (set_ad kv json config c now a).0 in
          get_ad kv json config c1 later a.id
          ≡ (record c1 { stats = record_l1_hit c1.stats }, ok a))
  unfolding get_ad
  get_ad-set_ad c a now later on h before =
      let c1 = (set_ad kv json config c now a).0 in
      let key = ad_key a.id in
      let put =
        set_ad_l1 c now a h
        ∙ ap (λ b. if b then set_l1 config now key a config.l1_ttl c.l1 else c.l1) on in
      let found = ap (lookup key) put ∙ lookup-set_l1 now a c.l1 in
      let young : fresh later (fresh_item now a) ≡ true = ground arith in
      ap (or_l2 kv json config later key) (l1_hit c1 later key (fresh_item now a) on found young)
