-- ===== src/Cache/Counting.antt =====
-- internal/infrastructure/cache/high_performance_cache.go, `GetAdBatch`: what each of its two loops answers
-- and counts.
use home_work_ad_processor_g.Prelude.{
  All, All-map, Bool-cases, inl, inr, str_eq, str_refl, eq_iff, ℕ, suc, ◌+◌, ◌≡◌, refl, sym, ap,
  ◌∙◌, subst, Bool, true, false, Option, none, some, List, [], ◌∷◌, String, if◌then◌else◌, length,
  ℤ, lookup, delete, arith,
}
use home_work_ad_processor_g.Ad.{Ad}
use home_work_ad_processor_g.Redis.Keys.{KeyValue, among}
use home_work_ad_processor_g.Cache.{
  CacheConfig, CacheStats, CacheItem, Json, ad_key, fresh, record_l1_hit, record_l1_miss,
}
use home_work_ad_processor_g.Cache.Levels.{Cache, load_l1, l1_found, promoted, l2_missed}
use home_work_ad_processor_g.Cache.Batches.{
  Batch, after_l1, batch_l1, parse_result, after_l2, batch_l2,
}

abbrev pub add_l1 : CacheStats → ℕ → ℕ → CacheStats
add_l1 s hits misses = record s { l1_hits = s.l1_hits + hits; l1_misses = s.l1_misses + misses }

abbrev pub add_l2 : CacheStats → ℕ → ℕ → CacheStats
add_l2 s hits misses = record s { l2_hits = s.l2_hits + hits; l2_misses = s.l2_misses + misses }

-- All of the identifiers are among the others.
abbrev pub AllAmong : List String → List String → Type 0
AllAmong xs ids = All (λ x. among x ids ≡ true) xs

among-cons : (x id : String) (ids : List String) → among x ids ≡ true → among x (id ∷ ids) ≡ true
among-cons x id ids h = elim (Bool-cases (str_eq id x)) [
  | inl e ↦ rw e refl
  | inr e ↦ rw (e, h) refl
]

AllAmong-cons :
    (xs : List String) (id : String) (ids : List String) → AllAmong xs ids → AllAmong xs (id ∷ ids)
AllAmong-cons xs id ids h =
    All-map (λ x. among x ids ≡ true) (λ x. among x (id ∷ ids) ≡ true) xs
      (λ x e. among-cons x id ids e) h

among-AllAmong :
    (x : String) (xs ids : List String) → AllAmong xs ids → among x xs ≡ true → among x ids ≡ true
among-AllAmong x [] ids h e = absurd cc
among-AllAmong x (y ∷ xs) ids h e = elim (Bool-cases (str_eq y x)) [
  | inl same ↦ subst (λ z. among z ids ≡ true) ((eq_iff y x).0 same) h.0
  | inr other ↦
      among-AllAmong x xs ids h.1 (sym (ap (λ b. if b then true else among x xs) other) ∙ e)
]

pub AllAmong-trans : (xs ys ids : List String) → AllAmong xs ys → AllAmong ys ids → AllAmong xs ids
AllAmong-trans xs ys ids h k =
    All-map (λ x. among x ys ≡ true) (λ x. among x ids ≡ true) xs
      (λ x e. among-AllAmong x ys ids k e) h

-- A walk answers each identifier once, and the statistics count the answers.
pub record Counted (add : CacheStats → ℕ → ℕ → CacheStats) (ids : List String)
    (before after : CacheStats) (b : Batch) : Type 0 where
  pub fine : b.failed ≡ false
  pub missing_asked : AllAmong b.missing ids
  pub all : length b.found + length b.missing ≡ length ids
  pub counted : after ≡ add before (length b.found) (length b.missing)

Counted-found :
    (add : CacheStats → ℕ → ℕ → CacheStats) (id : String) (a : Ad) (ids : List String)
    (before s after : CacheStats) (b : Batch)
    → (s ≡ add before 1 0)
    → ((h m : ℕ) → add (add before 1 0) h m ≡ add before (suc h) m)
    → Counted add ids s after b
    → Counted add (id ∷ ids) before after (record b { found = a ∷ b.found })
Counted-found add id a ids before s after b e assoc k = record {
  fine = k.fine;
  missing_asked = AllAmong-cons b.missing id ids k.missing_asked;
  all = omega (arith, k.all);
  counted =
      k.counted
      ∙ ap (λ x. add x (length b.found) (length b.missing)) e
      ∙ assoc (length b.found) (length b.missing);
}

Counted-missing :
    (add : CacheStats → ℕ → ℕ → CacheStats) (id : String) (ids : List String)
    (before s after : CacheStats) (b : Batch)
    → (s ≡ add before 0 1)
    → ((h m : ℕ) → add (add before 0 1) h m ≡ add before h (suc m))
    → Counted add ids s after b
    → Counted add (id ∷ ids) before after (record b { missing = id ∷ b.missing })
Counted-missing add id ids before s after b e assoc k = record {
  fine = k.fine;
  missing_asked = (
    ap (λ t. if t then true else among id ids) (str_refl id),
    AllAmong-cons b.missing id ids k.missing_asked,
  );
  all = omega (arith, k.all);
  counted =
      k.counted
      ∙ ap (λ x. add x (length b.found) (length b.missing)) e
      ∙ assoc (length b.found) (length b.missing);
}

stats_eq :
    (s t : CacheStats)
    → s.l1_hits ≡ t.l1_hits
    → s.l1_misses ≡ t.l1_misses
    → s.l2_hits ≡ t.l2_hits
    → s.l2_misses ≡ t.l2_misses
    → s.db_hits ≡ t.db_hits
    → s ≡ t
stats_eq s t a b c d e = cc

module _ (kv : KeyValue) (json : Json) (config : CacheConfig) where
  l1_step :
      (id : String) (ids : List String) (c : Cache kv) (now : ℤ) (key : String)
      (rest : Cache kv → Cache kv × Batch) (o : Option CacheItem)
      → ((c1 : Cache kv) → Counted add_l1 ids c1.stats (rest c1).0.stats (rest c1).1)
      → (let out = after_l1 kv json config id (l1_found kv json config c now key o) rest in
          Counted add_l1 (id ∷ ids) c.stats out.0.stats out.1)
  l1_step id ids c now key rest none k =
      let c1 = record c { stats = record_l1_miss c.stats } in
      Counted-missing add_l1 id ids c.stats c1.stats (rest c1).0.stats (rest c1).1
        (stats_eq _ _ (omega arith) refl refl refl refl)
        (λ h m. stats_eq _ _ (omega arith) (omega arith) refl refl refl) (k c1)
  l1_step id ids c now key rest (some item) k = go (fresh now item)
    where
      go :
          (b : Bool)
          → (let out =
                after_l1 kv json config id
                  (if b
                    then (record c { stats = record_l1_hit c.stats }, some item.cached)
                    else (record c { l1 = delete key c.l1; stats = record_l1_miss c.stats }, none))
                  rest in
              Counted add_l1 (id ∷ ids) c.stats out.0.stats out.1)
      go true =
          let c1 = record c { stats = record_l1_hit c.stats } in
          Counted-found add_l1 id item.cached ids c.stats c1.stats (rest c1).0.stats (rest c1).1
            (stats_eq _ _ refl (omega arith) refl refl refl)
            (λ h m. stats_eq _ _ (omega arith) (omega arith) refl refl refl) (k c1)
      go false =
          let c1 = record c { l1 = delete key c.l1; stats = record_l1_miss c.stats } in
          Counted-missing add_l1 id ids c.stats c1.stats (rest c1).0.stats (rest c1).1
            (stats_eq _ _ (omega arith) refl refl refl refl)
            (λ h m. stats_eq _ _ (omega arith) (omega arith) refl refl refl) (k c1)

  load_l1_on :
      (c : Cache kv) (now : ℤ) (key : String)
      → config.enable_l1 ≡ true
      → load_l1 kv json config c now key ≡ l1_found kv json config c now key (lookup key c.l1)
  unfolding load_l1
  load_l1_on c now key on =
      ap (λ b. if b then l1_found kv json config c now key (lookup key c.l1) else (c, none)) on

  -- The first level leaves the second alone.
  load_l1-l2 :
      (c : Cache kv) (now : ℤ) (key : String) → (load_l1 kv json config c now key).0.l2 ≡ c.l2
  unfolding load_l1
  load_l1-l2 c now key = go config.enable_l1 (lookup key c.l1)
    where
      go :
          (b : Bool) (o : Option CacheItem)
          → (if b then l1_found kv json config c now key o else (c, none)).0.l2 ≡ c.l2
      go false o = refl
      go true none = refl
      go true (some item) = ground arith

  pub batch_l1-l2 :
      (c : Cache kv) (now : ℤ) (ids : List String) → (batch_l1 kv json config c now ids).0.l2 ≡ c.l2
  unfolding batch_l1
  batch_l1-l2 c now [] = refl
  batch_l1-l2 c now (id ∷ ids) =
      go (load_l1 kv json config c now (ad_key id)) (λ c1. batch_l1-l2 c1 now ids)
      ∙ load_l1-l2 c now (ad_key id)
    where
      go :
          (out : Cache kv × Option Ad)
          → ((c1 : Cache kv) → (batch_l1 kv json config c1 now ids).0.l2 ≡ c1.l2)
          → (after_l1 kv json config id out (λ c1. batch_l1 kv json config c1 now ids)).0.l2
            ≡ out.0.l2
      go (c1, none) k = k c1
      go (c1, some a) k = k c1

  pub batch_l1-Counted :
      (c : Cache kv) (now : ℤ) (ids : List String)
      → config.enable_l1 ≡ true
      → (let out = batch_l1 kv json config c now ids in
          Counted add_l1 ids c.stats out.0.stats out.1)
  unfolding batch_l1
  batch_l1-Counted c now [] on = record {
    fine = refl;
    missing_asked = tt;
    all = omega arith;
    counted = stats_eq _ _ (omega arith) (omega arith) refl refl refl;
  }
  batch_l1-Counted c now (id ∷ ids) on =
      subst
        (λ found.
          let out = after_l1 kv json config id found (λ c1. batch_l1 kv json config c1 now ids) in
          Counted add_l1 (id ∷ ids) c.stats out.0.stats out.1)
        (sym (load_l1_on c now (ad_key id) on))
        (l1_step id ids c now (ad_key id) (λ c1. batch_l1 kv json config c1 now ids)
          (lookup (ad_key id) c.l1) (λ c1. batch_l1-Counted c1 now ids on))

  pub batch_l2-Counted :
      (c : Cache kv) (now : ℤ) (ids : List String) (results : List (Option String))
      → length results ≡ length ids
      → (let out = batch_l2 kv json config c now ids results in
          Counted add_l2 ids c.stats out.0.stats out.1)
  unfolding batch_l2
  batch_l2-Counted c now [] results h = record {
    fine = refl;
    missing_asked = tt;
    all = omega arith;
    counted = stats_eq _ _ refl refl (omega arith) (omega arith) refl;
  }
  batch_l2-Counted c now (id ∷ ids) [] h = absurd (omega (arith, h))
  batch_l2-Counted c now (id ∷ ids) (r ∷ results) h =
      go (parse_result kv json config r)
        (λ c1. batch_l2-Counted c1 now ids results (omega (arith, h)))
    where
      rest : Cache kv → Cache kv × Batch
      rest c1 = batch_l2 kv json config c1 now ids results

      go :
          (o : Option Ad)
          → ((c1 : Cache kv) → Counted add_l2 ids c1.stats (rest c1).0.stats (rest c1).1)
          → (let out = after_l2 kv json config c now id o rest in
              Counted add_l2 (id ∷ ids) c.stats out.0.stats out.1)
      go none k =
          let c1 = l2_missed kv json config c in
          Counted-missing add_l2 id ids c.stats c1.stats (rest c1).0.stats (rest c1).1
            (stats_eq _ _ refl refl (omega arith) refl refl)
            (λ a b. stats_eq _ _ refl refl (omega arith) (omega arith) refl) (k c1)
      go (some a) k =
          let c1 = promoted kv json config c now (ad_key id) a in
          Counted-found add_l2 id a ids c.stats c1.stats (rest c1).0.stats (rest c1).1
            (stats_eq _ _ refl refl refl (omega arith) refl)
            (λ a b. stats_eq _ _ refl refl (omega arith) (omega arith) refl) (k c1)
