-- ===== src/Cache/Invalidation.antt =====
-- internal/infrastructure/cache/high_performance_cache.go, `InvalidatePattern`: the loop over the batches
-- ends, and the keys that matched are in neither level.
use home_work_ad_processor_g.Prelude.{
  ℕ, zero, suc, ◌-◌, ◌≤◌, ◌<◌, ◌≡◌, refl, sym, ap, ◌∙◌, subst, true, not, Option, none, some, List,
  [], ◌∷◌, String, if◌then◌else◌, length, take, drop, ℤ, Result, ok, lookup, delete, lookup-delete,
  arith,
}
use home_work_ad_processor_g.Redis.{Reply}
use home_work_ad_processor_g.Redis.Keys.{KeyValue, KeyLaws, among}
use home_work_ad_processor_g.Cache.{CacheConfig, CacheItem, CacheError, Json, delete_all}
use home_work_ad_processor_g.Cache.Levels.{Cache}
use home_work_ad_processor_g.Cache.Batches.{dropped, delete_batches, matched, invalidate_pattern}

take-cons : (n : ℕ) (x : String) (xs : List String) → 0 < n → take n (x ∷ xs) ≡ x ∷ take (n - 1) xs
take-cons zero x xs p = absurd (omega arith)
take-cons (suc n) x xs p = ap (λ k. x ∷ take k xs) (omega arith)

drop-cons_pos : (n : ℕ) (x : String) (xs : List String) → 0 < n → drop n (x ∷ xs) ≡ drop (n - 1) xs
drop-cons_pos zero x xs p = absurd (omega arith)
drop-cons_pos (suc n) x xs p = ap (λ k. drop k xs) (omega arith)

length-drop_le : (n : ℕ) (xs : List String) → length (drop n xs) ≤ length xs
length-drop_le zero xs = omega arith
length-drop_le (suc n) [] = omega arith
length-drop_le (suc n) (x ∷ xs) = omega (arith, length-drop_le n xs)

-- A key of a list is in its first part or in the rest.
among-cut {ℓ} :
    {A : Type ℓ} (key : String) (n : ℕ) (xs : List String) (y n1 : A)
    → (if among key (drop n xs) then y else if among key (take n xs) then y else n1)
      ≡ (if among key xs then y else n1)
among-cut key zero xs y n1 = ground arith
among-cut key (suc n) [] y n1 = refl
among-cut key (suc n) (x ∷ xs) y n1 = let later = among-cut key n xs y n1 in ground arith

lookup-delete_all :
    (key : String) (keys : List String) (items : List (String × CacheItem))
    → lookup key (delete_all keys items) ≡ (if among key keys then none else lookup key items)
lookup-delete_all key [] items = refl
lookup-delete_all key (k ∷ keys) items =
    let later = lookup-delete_all key keys (delete k items) in
    let here = lookup-delete k key items in ground arith

module _ (kv : KeyValue) (laws : KeyLaws kv) (json : Json) (config : CacheConfig) where
  -- `c1` is `c` without the keys.
  pub record Without (c c1 : Cache kv) (keys : List String) : Type 0 where
    pub up : laws.Up c1.l2
    pub l1_cut :
        config.enable_l1 ≡ true
        → (key : String) → lookup key c1.l1 ≡ (if among key keys then none else lookup key c.l1)
    pub l2_cut :
        (now : ℤ) (key : String)
        → laws.content c1.l2 now key ≡ (if among key keys then none else laws.content c.l2 now key)
    pub stats_kept : c1.stats ≡ c.stats

  -- The cache after one batch.
  abbrev cut : Cache kv → List String → Cache kv
  cut c batch = record c {
    l1 = if config.enable_l1 then delete_all batch c.l1 else c.l1;
    l2 = (kv.del c.l2 batch).0;
  }

  dropped_ok :
      (c : Cache kv) (batch : List String)
      (rest : Cache kv → Option (Cache kv × Result CacheError (Unit {0})))
      (out : kv.Store × Reply (Unit {0}))
      → kv.del c.l2 batch ≡ out
      → out.1 ≡ Reply.ok tt
      → dropped kv json config c batch out rest ≡ rest (cut c batch)
  dropped_ok c batch rest (l2, Reply.ok done) e h =
      ap
        (λ o.
          rest
            (record c { l1 = if config.enable_l1 then delete_all batch c.l1 else c.l1; l2 = o.0 }))
        (sym e)
  dropped_ok c batch rest (l2, Reply.nil) e h = absurd cc
  dropped_ok c batch rest (l2, Reply.fail) e h = absurd cc

  cut-Without :
      (c : Cache kv) (k : String) (keys : List String)
      → laws.Up c.l2
      → Without c (cut c (k ∷ keys)) (k ∷ keys)
  cut-Without c k keys up = record {
    up = laws.del-Up c.l2 (k ∷ keys) up;
    l1_cut = λ on key.
        ap (λ b. lookup key (if b then delete_all (k ∷ keys) c.l1 else c.l1)) on
        ∙ lookup-delete_all key (k ∷ keys) c.l1;
    l2_cut = λ now key. laws.content-del c.l2 k keys now key up;
    stats_kept = refl;
  }

  Without-cut :
      (c c1 c2 : Cache kv) (n : ℕ) (keys : List String)
      → Without c c1 (take n keys)
      → Without c1 c2 (drop n keys)
      → Without c c2 keys
  Without-cut c c1 c2 n keys first later = record {
    up = later.up;
    l1_cut = λ on key.
        later.l1_cut on key
        ∙ ap (λ x. if among key (drop n keys) then none else x) (first.l1_cut on key)
        ∙ among-cut key n keys none (lookup key c.l1);
    l2_cut = λ now key.
        later.l2_cut now key
        ∙ ap (λ x. if among key (drop n keys) then none else x) (first.l2_cut now key)
        ∙ among-cut key n keys none (laws.content c.l2 now key);
    stats_kept = later.stats_kept ∙ first.stats_kept;
  }

  delete_batches_lem :
      (fuel : ℕ) (c : Cache kv) (keys : List String)
      → 0 < config.batch_size
      → laws.Up c.l2
      → length keys ≤ fuel
      → (c1 : Cache kv) × (delete_batches kv json config fuel c keys ≡ some (c1, ok tt))
        × Without c c1 keys
  unfolding delete_batches
  delete_batches_lem fuel c [] p up h = (
    c,
    refl,
    record { up = up; l1_cut = λ on key. refl; l2_cut = λ now key. refl; stats_kept = refl },
  )
  delete_batches_lem zero c (k ∷ keys) p up h = absurd (omega (arith, h))
  delete_batches_lem (suc fuel) c (k ∷ keys) p up h =
      let n = config.batch_size in
      let batch = take n (k ∷ keys) in
      let is_batch = take-cons n k keys p in
      let done : (kv.del c.l2 batch).1 ≡ Reply.ok tt =
        ap (λ b. (kv.del c.l2 b).1) is_batch ∙ laws.del_ok c.l2 k (take (n - 1) keys) up in
      let first : Without c (cut c batch) batch =
        subst (λ b. Without c (cut c b) b) (sym is_batch)
          (cut-Without c k (take (n - 1) keys) up) in
      let shorter : length (drop n (k ∷ keys)) ≤ fuel =
        subst (λ l. length l ≤ fuel) (sym (drop-cons_pos n k keys p))
          (omega (arith, length-drop_le (n - 1) keys, h)) in
      let (c2, e, later) =
        delete_batches_lem fuel (cut c batch) (drop n (k ∷ keys)) p first.up shorter in
      (
        c2,
        dropped_ok c batch (λ c1. delete_batches kv json config fuel c1 (drop n (k ∷ keys)))
              (kv.del c.l2 batch) refl done
            ∙ e,
        Without-cut c (cut c batch) c2 n (k ∷ keys) first later,
      )

  -- On a server that is up, with batches of at least one key, the loop of `InvalidatePattern` ends
  -- after at most as many rounds as there are keys, without an error, and then both levels are what
  -- they were without the keys that matched the pattern.
  pub invalidate_pattern-Without :
      (fuel : ℕ) (c : Cache kv) (now : ℤ) (pattern : String) (keys : List String)
      → config.enable_l2 ≡ true
      → 0 < config.batch_size
      → laws.Up c.l2
      → kv.keys c.l2 now pattern ≡ Reply.ok keys
      → length keys ≤ fuel
      → (c1 : Cache kv) × (invalidate_pattern kv json config fuel c now pattern ≡ some (c1, ok tt))
        × Without c c1 keys
  unfolding invalidate_pattern
  invalidate_pattern-Without fuel c now pattern keys on p up matching h =
      let (c1, e, without) = delete_batches_lem fuel c keys p up h in
      (
        c1,
        ap
              (λ b.
                if not b
                then some (c, ok tt)
                else matched kv json config fuel c (kv.keys c.l2 now pattern))
              on
            ∙ ap (matched kv json config fuel c) matching
            ∙ e,
        without,
      )
