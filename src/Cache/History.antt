-- ===== src/Cache/History.antt =====
-- internal/infrastructure/cache/high_performance_cache.go: the first level on its own against a map
-- without bound or expiry, that remembers the ad set last for each identifier and when.
use home_work_ad_processor_g.Prelude.{
  ℕ, ◌*◌, ◌/◌, ◌≡◌, refl, sym, ap, ◌∙◌, Bool, true, false, Option, none, some, List, [], ◌∷◌,
  String, str_eq, if◌then◌else◌, All, All-map, ℤ, ◌+ℤ◌, ltb, insert, delete, str_refl, str_ne,
}
use home_work_ad_processor_g.Ad.{Ad}
use home_work_ad_processor_g.Cache.{CacheConfig, CacheItem, ad_key, evict, count_up_to, set_l1}
use home_work_ad_processor_g.Cache.Items.{All-delete, All-evict}

-- What was set last for an identifier, and when.
abbrev pub Memory : Type 0
Memory = String → Option (Ad × ℤ)

-- The calls that are compared, all but `PrefetchAds`; `fuel` bounds the batches of
-- `InvalidatePattern`.
pub data Call : Type 0 where
  get : String → Call
  set : Ad → Call
  set_batch : List Ad → Call
  delete_one : String → Call
  get_batch : List String → Call
  invalidate : ℕ → String → Call
  warmup : (ℕ → Option (List Ad)) → Call
  cleanup : Call

abbrev pub remember : Memory → ℤ → Ad → Memory
remember m now a id = if str_eq a.id id then some (a, now) else m id

abbrev pub remember_all : Memory → ℤ → List Ad → Memory
remember_all m now [] = m
remember_all m now (a ∷ ads) = remember_all (remember m now a) now ads

-- What the loader of `WarmupCache` gives is set, if it gives anything.
abbrev pub remember_loaded : Memory → ℤ → Option (List Ad) → Memory
remember_loaded m now none = m
remember_loaded m now (some ads) = remember_all m now ads

module _ (prefetch_count : ℕ) where
  -- What a call does to the map.
  abbrev pub note : Memory → ℤ → Call → Memory
  note m now (get id) = m
  note m now (set a) = remember m now a
  note m now (set_batch ads) = remember_all m now ads
  note m now (delete_one gone) = λ id. if str_eq gone id then none else m id
  note m now (get_batch ids) = m
  note m now (invalidate fuel pattern) = m
  note m now (warmup loader) = remember_loaded m now (loader prefetch_count)
  note m now cleanup = m

  abbrev pub replay : Memory → List (ℤ × Call) → Memory
  replay m [] = m
  replay m ((now, call) ∷ calls) = replay (note m now call) calls

ad_key-injective : (x y : String) → ad_key x ≡ ad_key y → x ≡ y
unfolding ad_key
ad_key-injective x y h = cc

-- An item is the ad that was set last under its key, until its time to live is over.
abbrev pub Genuine : CacheConfig → Memory → String × CacheItem → Type 0
Genuine config m (key, item) =
    (id : String)
    → key ≡ ad_key id
    → (at : ℤ) × (m id ≡ some (item.cached, at)) × (item.expires_at ≡ at +ℤ config.l1_ttl)

module _ (config : CacheConfig) where
  pub set_l1-Genuine :
      (m : Memory) (now : ℤ) (a : Ad) (l1 : List (String × CacheItem))
      → All (Genuine config m) l1
      → All (Genuine config (remember m now a)) (set_l1 config now (ad_key a.id) a config.l1_ttl l1)
  unfolding set_l1 insert
  set_l1-Genuine m now a l1 h = (
    λ id is_key.
        let same : a.id ≡ id = ad_key-injective a.id id is_key in
        (now, rw (same, str_refl id) refl, refl),
    All-map _ _ (delete (ad_key a.id) _)
        (λ e (genuine, ne) id is_key.
          let other : str_eq a.id id ≡ false =
            str_ne a.id id (λ same. ne (is_key ∙ ap ad_key (sym same))) in
          rw other (genuine id is_key))
        (All-delete (Genuine config m) (ad_key a.id) _ kept),
  )
    where
      size : ℕ
      size = count_up_to config.l1_max_items 0 l1

      cut :
          (b : Bool)
          → All (Genuine config m) (if b then l1 else evict (config.l1_max_items * 9 / 10) size l1)
      cut true = h
      cut false = All-evict (Genuine config m) (config.l1_max_items * 9 / 10) size l1 h

      kept : All (Genuine config m) (
          if ltb size config.l1_max_items then l1 else evict (config.l1_max_items * 9 / 10) size l1)
      kept = cut (ltb size config.l1_max_items)

  pub delete-Genuine :
      (m : Memory) (gone : String) (l1 : List (String × CacheItem))
      → All (Genuine config m) l1
      → All (Genuine config (λ id. if str_eq gone id then none else m id)) (delete (ad_key gone) l1)
  delete-Genuine m gone l1 h =
      All-map _ _ (delete (ad_key gone) l1)
        (λ e (genuine, ne) id is_key.
          let other : str_eq gone id ≡ false =
            str_ne gone id (λ same. ne (is_key ∙ ap ad_key (sym same))) in
          rw other (genuine id is_key))
        (All-delete (Genuine config m) (ad_key gone) l1 h)
