-- ===== src/Cache/Answers.antt =====
-- internal/infrastructure/cache/high_performance_cache.go, `GetAdBatch`: each identifier is answered
-- once, and what the statistics count.
use home_work_ad_processor_g.Prelude.{
  suc, ◌+◌, ◌≡◌, refl, sym, ap, ◌∙◌, subst, true, false, List, [], ◌∷◌, map, String, if◌then◌else◌,
  length, length-append, ℤ, arith,
}
use home_work_ad_processor_g.Redis.Keys.{KeyValue, KeyLaws}
use home_work_ad_processor_g.Cache.{CacheConfig, CacheStats, Json, ad_key}
use home_work_ad_processor_g.Cache.Levels.{Cache}
use home_work_ad_processor_g.Cache.Batches.{
  Batch, batch_l1, batch_l2, replied, asked_l2, get_ad_batch,
}
use home_work_ad_processor_g.Cache.Counting.{
  AllAmong, AllAmong-trans, add_l1, Counted, batch_l1-l2, batch_l1-Counted, batch_l2-Counted,
}

-- The answer of `GetAdBatch`: every identifier is either answered by an ad or given back, and the
-- statistics count each of them, but none as a read of the database.
pub record Answered (ids : List String) (before after : CacheStats) (b : Batch) : Type 0 where
  pub fine : b.failed ≡ false
  pub missing_asked : AllAmong b.missing ids
  pub all : length b.found + length b.missing ≡ length ids
  pub l1_asked : after.l1_hits + after.l1_misses ≡ before.l1_hits + before.l1_misses + length ids
  pub hits : after.l1_hits + after.l2_hits ≡ before.l1_hits + before.l2_hits + length b.found
  pub misses : after.l2_misses ≡ before.l2_misses + length b.missing
  pub db_kept : after.db_hits ≡ before.db_hits

length-map {ℓ κ} :
    {A : Type ℓ} {B : Type κ} (f : A → B) (xs : List A) → length (map f xs) ≡ length xs
length-map f [] = refl
length-map f (x ∷ xs) = ap suc (length-map f xs)

fields :
    {s t : CacheStats}
    → s ≡ t
    → (s.l1_hits ≡ t.l1_hits)
      × (s.l1_misses ≡ t.l1_misses)
      × (s.l2_hits ≡ t.l2_hits)
      × (s.l2_misses ≡ t.l2_misses)
      × (s.db_hits ≡ t.db_hits)
fields e = (
  ap (λ s. s.l1_hits) e,
  ap (λ s. s.l1_misses) e,
  ap (λ s. s.l2_hits) e,
  ap (λ s. s.l2_misses) e,
  ap (λ s. s.db_hits) e,
)

module _ (kv : KeyValue) (laws : KeyLaws kv) (json : Json) (config : CacheConfig) where
  both-Answered :
      (ids : List String) (before : CacheStats) (c1 : Cache kv) (b : Batch) (now : ℤ)
      → config.enable_l2 ≡ true
      → laws.Up c1.l2
      → Counted add_l1 ids before c1.stats b
      → (missing : List String) → b.missing ≡ missing
      → (let out = asked_l2 kv json config now (c1, b) missing in
          Answered ids before out.0.stats out.1)
  both-Answered ids before c1 b now on up first [] e =
      let none_missing : length b.missing ≡ 0 = ap length e in
      let (h1, m1, h2, m2, d) = fields first.counted in
      record {
        fine = first.fine;
        missing_asked = first.missing_asked;
        all = first.all;
        l1_asked = omega (arith, h1, m1, first.all);
        hits = omega (arith, h1, h2);
        misses = omega (arith, m2, none_missing);
        db_kept = d;
      }
  both-Answered ids before c1 b now on up first (id ∷ rest) e =
      let results = map (laws.content c1.l2 now) (map ad_key (id ∷ rest)) in
      let same : length results ≡ length b.missing =
        length-map (laws.content c1.l2 now) (map ad_key (id ∷ rest))
        ∙ length-map ad_key (id ∷ rest)
        ∙ ap length (sym e) in
      let second = batch_l2-Counted kv json config c1 now b.missing results same in
      let later = batch_l2 kv json config c1 now b.missing results in
      let out_is =
        ap
          (λ t.
            if t
            then replied kv json config c1 now b (kv.mget c1.l2 now (map ad_key (id ∷ rest)))
            else (c1, b))
          on
        ∙ ap (replied kv json config c1 now b)
            (laws.mget_lem c1.l2 now (map ad_key (id ∷ rest)) up) in
      let (h1, m1, h2, m2, d) = fields first.counted in
      let (k1, n1, k2, n2, d2) = fields second.counted in
      subst (λ out. Answered ids before out.0.stats out.1) (sym out_is)
        (record {
          fine = second.fine;
          missing_asked =
              AllAmong-trans later.1.missing b.missing ids second.missing_asked first.missing_asked;
          all = omega (arith, length-append b.found later.1.found, first.all, second.all);
          l1_asked = omega (arith, h1, m1, k1, n1, first.all);
          hits = omega (arith, h1, h2, k1, k2, length-append b.found later.1.found);
          misses = omega (arith, m2, n2);
          db_kept = d2 ∙ d;
        })

  -- With both levels on and a server that is up, `GetAdBatch` gives no error, the identifiers missing
  -- are among those asked for, and with the ads found they are as many. The first level
  -- counts a hit or a miss for each that was asked for, both levels together a hit for each ad found,
  -- and the second a miss for each one missing; none is counted as a read of the database.
  pub get_ad_batch-Answered :
      (c : Cache kv) (now : ℤ) (ids : List String)
      → config.enable_l1 ≡ true
      → config.enable_l2 ≡ true
      → laws.Up c.l2
      → (let out = get_ad_batch kv json config c now ids in Answered ids c.stats out.0.stats out.1)
  unfolding get_ad_batch
  get_ad_batch-Answered c now ids on on2 up =
      let (c1, b) = batch_l1 kv json config c now ids in
      let walk =
        ap
          (λ t.
            let (c2, b2) =
              if t
              then batch_l1 kv json config c now ids
              else (c, record { found = []; missing = ids; failed = false }) in
            asked_l2 kv json config now (c2, b2) b2.missing)
          on in
      subst (λ out. Answered ids c.stats out.0.stats out.1) (sym walk)
        (both-Answered ids c.stats c1 b now on2
          (subst laws.Up (sym (batch_l1-l2 kv json config c now ids)) up)
          (batch_l1-Counted kv json config c now ids on) b.missing refl)
