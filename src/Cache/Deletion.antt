-- ===== src/Cache/Deletion.antt =====
-- internal/infrastructure/cache/high_performance_cache.go: what `GetAd` answers after a `DeleteAd`.
use home_work_ad_processor_g.Prelude.{
  ◌≡◌, refl, sym, ap, ◌∙◌, subst, Bool, true, false, Option, none, some, [], ◌∷◌, String,
  if◌then◌else◌, ℤ, ok, err, lookup, delete, lookup-delete, str_refl,
}
use home_work_ad_processor_g.Ad.{Ad}
use home_work_ad_processor_g.Redis.{Reply}
use home_work_ad_processor_g.Redis.Keys.{KeyValue, KeyLaws, text_reply}
use home_work_ad_processor_g.Cache.{CacheConfig, CacheItem, not_found_in_cache, Json, ad_key}
use home_work_ad_processor_g.Cache.Levels.{
  Cache, load_l1, l1_found, load_l2, l2_found, or_l2, or_db, get_ad, deleted_l2, delete_ad,
}

module _ (kv : KeyValue) (laws : KeyLaws kv) (json : Json) (config : CacheConfig) where
  -- Nothing under the key in a level that is on.
  abbrev L1Lacks : Cache kv → String → Type 0
  L1Lacks c key = config.enable_l1 ≡ true → lookup key c.l1 ≡ none

  abbrev L2Lacks : kv.Store → ℤ → String → Type 0
  L2Lacks s now key = config.enable_l2 ≡ true → laws.Up s × (laws.content s now key ≡ none)

  l1_miss :
      (c : Cache kv) (now : ℤ) (key : String)
      → L1Lacks c key
      → ((load_l1 kv json config c now key).1 ≡ none)
        × ((load_l1 kv json config c now key).0.l2 ≡ c.l2)
  unfolding load_l1
  l1_miss c now key lacks = go config.enable_l1 (lookup key c.l1) lacks
    where
      go :
          (b : Bool) (o : Option CacheItem)
          → (b ≡ true → o ≡ none)
          → ((if b then l1_found kv json config c now key o else (c, none)).1 ≡ none)
            × ((if b then l1_found kv json config c now key o else (c, none)).0.l2 ≡ c.l2)
      go false o k = (refl, refl)
      go true none k = (refl, refl)
      go true (some item) k = let bad = k refl in absurd cc

  l2_miss :
      (c : Cache kv) (now : ℤ) (key : String)
      → L2Lacks c.l2 now key
      → (load_l2 kv json config c now key).1 ≡ none
  unfolding load_l2
  l2_miss c now key lacks =
      go config.enable_l2 (kv.get c.l2 now key)
        (λ b. laws.get_lem c.l2 now key (lacks b).0 ∙ ap text_reply (lacks b).1)
    where
      go :
          (b : Bool) (r : Reply String)
          → (b ≡ true → r ≡ Reply.nil)
          → (if b then l2_found kv json config c now key r else (c, none)).1 ≡ none
      go false r k = refl
      go true Reply.nil k = refl
      go true Reply.fail k = refl
      go true (Reply.ok text) k = let bad = k refl in absurd cc

  missing :
      (out : Cache kv × Option Ad)
      → out.1 ≡ none
      → (or_db kv json config out).1 ≡ err not_found_in_cache
  missing (c, none) h = refl
  missing (c, some a) h = absurd cc

  get_miss :
      (c : Cache kv) (now : ℤ) (id : String)
      → L1Lacks c (ad_key id)
      → L2Lacks c.l2 now (ad_key id)
      → (get_ad kv json config c now id).1 ≡ err not_found_in_cache
  unfolding get_ad
  get_miss c now id l1 l2 =
      let (none1, same) = l1_miss c now (ad_key id) l1 in
      go (load_l1 kv json config c now (ad_key id)) none1
        (subst (λ s. L2Lacks s now (ad_key id)) (sym same) l2)
    where
      go :
          (out : Cache kv × Option Ad)
          → out.1 ≡ none
          → L2Lacks out.0.l2 now (ad_key id)
          → (or_l2 kv json config now (ad_key id) out).1 ≡ err not_found_in_cache
      go (c1, some a) e k = absurd cc
      go (c1, none) e k =
          missing (load_l2 kv json config c1 now (ad_key id)) (l2_miss c1 now (ad_key id) k)

  -- What `DeleteAd` leaves on a server that is up.
  deleted :
      (c : Cache kv) (id : String)
      → laws.Up c.l2
      → (now : ℤ)
      → ((delete_ad kv json config c id).1 ≡ ok tt)
        × L1Lacks (delete_ad kv json config c id).0 (ad_key id)
        × L2Lacks (delete_ad kv json config c id).0.l2 now (ad_key id)
  unfolding delete_ad
  deleted c id up now = go config.enable_l2 (kv.del c.l2 (ad_key id ∷ [])) refl
    where
      key : String
      key = ad_key id

      c1 : Cache kv
      c1 = record c { l1 = if config.enable_l1 then delete key c.l1 else c.l1 }

      gone : L1Lacks c1 key
      gone on =
          ap (λ b. lookup key (if b then delete key c.l1 else c.l1)) on
          ∙ lookup-delete key key c.l1
          ∙ rw (str_refl key) refl

      go :
          (b : Bool) (out : kv.Store × Reply (Unit {0}))
          → kv.del c.l2 (key ∷ []) ≡ out
          → ((if b then deleted_l2 kv json config c1 out else (c1, ok tt)).1 ≡ ok tt)
            × L1Lacks (if b then deleted_l2 kv json config c1 out else (c1, ok tt)).0 key
            × (b ≡ true
                → laws.Up (if b then deleted_l2 kv json config c1 out else (c1, ok tt)).0.l2
                  × (laws.content
                        (if b then deleted_l2 kv json config c1 out else (c1, ok tt)).0.l2
                        now
                        key
                      ≡ none))
      go false out e = (refl, gone, λ b. absurd cc)
      go true (l2, Reply.ok done) e = (
        refl,
        gone,
        λ b. (
          subst (λ o. laws.Up o.0) e (laws.del-Up c.l2 (key ∷ []) up),
          ap (λ o. laws.content o.0 now key) (sym e)
              ∙ laws.content-del c.l2 key [] now key up
              ∙ ap (λ t. if (if t then true else false) then none else laws.content c.l2 now key)
                  (str_refl key),
        ),
      )
      go true (l2, Reply.nil) e =
          let good : Reply.nil ≡ Reply.ok tt = ap (λ o. o.1) (sym e) ∙ laws.del_ok c.l2 key [] up in
          absurd cc
      go true (l2, Reply.fail) e =
          let good : Reply.fail ≡ Reply.ok tt =
            ap (λ o. o.1) (sym e) ∙ laws.del_ok c.l2 key [] up in
          absurd cc

  -- On a server that is up, `DeleteAd` succeeds, and until the ad is set again `GetAd` finds it in
  -- neither level.
  get_ad-delete_ad :
      (c : Cache kv) (id : String) (now : ℤ)
      → laws.Up c.l2
      → ((delete_ad kv json config c id).1 ≡ ok tt)
        × ((get_ad kv json config (delete_ad kv json config c id).0 now id).1
            ≡ err not_found_in_cache)
  get_ad-delete_ad c id now up =
      let (done, l1, l2) = deleted c id up now in
      (done, get_miss (delete_ad kv json config c id).0 now id l1 l2)
