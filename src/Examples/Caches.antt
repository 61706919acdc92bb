-- ===== src/Examples/Caches.antt =====
-- The theorems on the cache and on the stored configuration at work, on a server in memory.
use mathlib.Core.List.{map}
use home_work_ad_processor_g.Prelude.{
  lookup, delete, insert, ◌≡◌, refl, false, Option, none, some, List, [], ◌∷◌, String, str_eq,
  if◌then◌else◌, ℤ, pos, arith, ok, ◌+ℤ◌, ◌<ℤ◌,
}
use home_work_ad_processor_g.Duration.{seconds}
use home_work_ad_processor_g.Ad.{Ad}
use home_work_ad_processor_g.Redis.{Reply}
use home_work_ad_processor_g.Redis.Keys.{KeyValue, KeyLaws, text_reply, alive, among}
use home_work_ad_processor_g.Cache.{
  ad_key, set_l1, CacheConfig, Json, no_stats, default_config, record_l1_hit,
}
use home_work_ad_processor_g.Cache.Levels.{Cache, load_l1, get_ad, set_ad, delete_ad}
use home_work_ad_processor_g.Cache.Batches.{get_ad_batch, invalidate_pattern}
use home_work_ad_processor_g.Cache.Runs
use home_work_ad_processor_g.Cache.Runs.{Operation, run-Bounded}
use home_work_ad_processor_g.Cache.Bounded.{Bounded}
use home_work_ad_processor_g.Cache.Batches.{batch_l1, warmup_cache, set_ad_batch}
use home_work_ad_processor_g.Cache.History
use home_work_ad_processor_g.Cache.History.{replay}
use home_work_ad_processor_g.Cache.Replay.{perform, perform_all, get_ad-replay}
use home_work_ad_processor_g.Cache.Hits.{get_ad-set_ad}
use home_work_ad_processor_g.Cache.Invalidation.{Without, invalidate_pattern-Without}
use home_work_ad_processor_g.Cache.Answers.{Answered, get_ad_batch-Answered}
use home_work_ad_processor_g.RedisQueue.Configuration.{
  update_config, get_config, in_seconds, config_key, HasInts, get_config-update_config,
}
use home_work_ad_processor_g.Examples.Data.{puzzle, config, two_shards}

abbrev Texts : Type 0
Texts = ℤ → String → Option String

abbrev set_text : Texts → ℤ → String → String → ℤ → Texts
set_text s now k v ttl t key =
    if str_eq k key then if alive now ttl t then some v else none else s t key

abbrev set_texts : Texts → ℤ → List (String × String) → ℤ → Texts
set_texts s now [] ttl = s
set_texts s now ((k, v) ∷ rest) ttl = set_texts (set_text s now k v ttl) now rest ttl

-- A server that matches two keys with every pattern.
abbrev texts : KeyValue
texts = record {
  Store = Texts;
  get = λ s now k. text_reply (s now k);
  set = λ s now k v ttl. (set_text s now k v ttl, Reply.ok tt);
  mget = λ s now ks. Reply.ok (map (s now) ks);
  del = λ s ks. (λ t key. if among key ks then none else s t key, Reply.ok tt);
  keys = λ s now pattern. Reply.ok ("ad:ad-1" ∷ "ad:ad-2" ∷ []);
  exec = λ s now pairs ttl. (set_texts s now pairs ttl, Reply.ok tt);
}

abbrev texts_laws : KeyLaws texts
texts_laws = record {
  Up = λ s. Unit;
  content = λ s now key. s now key;
  get_lem = λ s now k up. refl;
  mget_lem = λ s now ks up. refl;
  set_ok = λ s now k v ttl up. refl;
  set-Up = λ s now k v ttl up. tt;
  content-set = λ s now k v ttl t key up. refl;
  del-Up = λ s ks up. tt;
  del_ok = λ s k ks up. refl;
  content-del = λ s k ks t key up. refl;
}

abbrev no_texts : Texts
no_texts now key = none

-- JSON of an ad: all fields are private, so that an empty object is all there is.
abbrev json : Json
json = record { marshal = λ a. some "{}"; unmarshal = λ s. some (record puzzle { id = "" }) }

abbrev both_levels : CacheConfig
both_levels = record default_config { l1_max_items = 2; batch_size = 1 }

abbrev first_level : CacheConfig
first_level = record default_config { l1_max_items = 2; enable_l2 = false }

abbrev empty_cache : Cache texts
empty_cache = record { l1 = []; l2 = no_texts; stats = no_stats }

abbrev named : String → Ad
named id = record puzzle { id = id }

abbrev operations : List (ℤ × Operation)
operations =
    (pos 0, Operation.set (named "ad-1"))
    ∷ (pos 1, Operation.set (named "ad-2"))
    ∷ (pos 2, Operation.set (named "ad-3"))
    ∷ (pos 3, Operation.get "ad-2")
    ∷ []

run-Bounded_example :
    Bounded texts json both_levels
      (omega arith)
      (Runs.run texts json both_levels empty_cache operations)
run-Bounded_example =
    run-Bounded texts json both_levels (omega arith) empty_cache operations (omega arith)

abbrev calls : List (ℤ × History.Call)
calls =
    (pos 0, History.set puzzle)
    ∷ (pos 1, History.set (named "ad-2"))
    ∷ (pos 2, History.delete_one "ad-2")
    ∷ (pos 3, History.warmup (λ n. some (named "ad-3" ∷ [])))
    ∷ (pos 4, History.get_batch ("ad-3" ∷ "ad-4" ∷ []))
    ∷ []

get_ad-replay_example :
    (at : ℤ) × (replay first_level.prefetch_count (λ key. none) calls "ad-1" ≡ some (puzzle, at))
    × (pos 5 <ℤ (at +ℤ first_level.l1_ttl))
unfolding get_ad load_l1 lookup perform_all perform delete_ad delete set_ad set_l1 insert ad_key
    ◌+ℤ◌ get_ad_batch batch_l1 warmup_cache set_ad_batch
get_ad-replay_example =
    get_ad-replay texts json first_level refl refl empty_cache calls (pos 5) "ad-1" puzzle refl
      found
  where
    found :
        (get_ad texts json first_level
          (perform_all texts json first_level empty_cache calls)
          (pos 5)
          "ad-1").1
        ≡ ok puzzle
    found = refl

get_ad-set_ad_example :
    (let c1 = (set_ad texts json both_levels empty_cache (pos 0) puzzle).0 in
      get_ad texts json both_levels c1 (pos 7) "ad-1"
      ≡ (record c1 { stats = record_l1_hit c1.stats }, ok puzzle))
unfolding set_ad ◌+ℤ◌
get_ad-set_ad_example =
    get_ad-set_ad texts json both_levels empty_cache puzzle (pos 0) (pos 7) refl refl (omega arith)

abbrev filled : Cache texts
filled = (set_ad texts json both_levels empty_cache (pos 0) puzzle).0

invalidate_pattern-Without_example :
    (c1 : Cache texts) × (invalidate_pattern texts json both_levels 2 filled (pos 1) "ad:*"
      ≡ some (c1, ok tt))
    × Without texts texts_laws json both_levels filled c1 ("ad:ad-1" ∷ "ad:ad-2" ∷ [])
invalidate_pattern-Without_example =
    invalidate_pattern-Without texts texts_laws json both_levels 2 filled (pos 1) "ad:*"
      ("ad:ad-1" ∷ "ad:ad-2" ∷ []) refl (omega arith) tt refl (omega arith)

get_ad_batch-Answered_example :
    (let out = get_ad_batch texts json both_levels filled (pos 1) ("ad-1" ∷ "ad-2" ∷ []) in
      Answered ("ad-1" ∷ "ad-2" ∷ []) filled.stats out.0.stats out.1)
get_ad_batch-Answered_example =
    get_ad_batch-Answered texts texts_laws json both_levels filled (pos 1) ("ad-1" ∷ "ad-2" ∷ [])
      refl refl tt

config-HasInts : HasInts config
unfolding seconds
config-HasInts = record {
  wait = omega arith;
  workers = omega arith;
  batch = omega arith;
  timeout = omega arith;
}

get_config-update_config_example :
    (let s1 = (update_config texts two_shards no_texts (pos 0) config).1 in
      get_config texts two_shards s1 (pos 9) ≡ ok (in_seconds config))
    × (no_texts (pos 9) config_key ≡ none
        → get_config texts two_shards no_texts (pos 9) ≡ ok config)
get_config-update_config_example =
    get_config-update_config texts texts_laws two_shards two_shards no_texts (pos 0) (pos 9) config
      tt config-HasInts
