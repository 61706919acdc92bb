-- ===== src/Redis/Memory.antt =====
-- A server in memory, on which the examples run.
use mathlib.Core.List.{reverse}
use home_work_ad_processor_g.Prelude.{
  ℕ, refl, Bool, false, List, [], ◌∷◌, String, ◌==◌, if◌then◌else◌, length, count_if, arith,
}
use home_work_ad_processor_g.Redis.Sets.{
  Z, without, zinsert, range_to, score_of, in_bounds, listed, IsDescending, without-IsDescending,
  zinsert-IsDescending,
}
use home_work_ad_processor_g.Redis.{Redis, Laws, ok, lookup_reply}

abbrev Sets : Type 0
Sets = ℕ → List Z

abbrev pub tie : String → String → Bool
tie a b = false

abbrev pub write : (ℕ → List Z) → ℕ → List Z → ℕ → List Z
write s k l j = if k == j then l else s j

abbrev pub memory : Redis
memory = record {
  Store = ℕ → List Z;
  zadd = λ s k z. (write s k (zinsert tie z (without (z.member ∷ []) (s k))), ok tt);
  zrem = λ s k ms. (write s k (without ms (s k)), ok (count_if (λ z. listed z.member ms) (s k)));
  zscore = λ s k m. lookup_reply (score_of m (s k));
  zrevrange = λ s k stop. ok (range_to stop (s k));
  zrange = λ s k. ok (reverse (s k));
  zcard = λ s k. ok (length (s k));
  zcount = λ s k lo hi. ok (count_if (λ z. in_bounds lo hi z.score) (s k));
  publish = λ s t. s;
}

abbrev pub AllDescending : (ℕ → List Z) → Type 0
AllDescending s = (k : ℕ) → IsDescending (s k)

write-IsDescending :
    (s : Sets) (k : ℕ) (l : List Z) → AllDescending s → IsDescending l → AllDescending (write s k l)
write-IsDescending s k l h d j = ground (arith, h j)

pub zadd-AllDescending :
    (s : ℕ → List Z) (k : ℕ) (z : Z) → AllDescending s → AllDescending (memory.zadd s k z).0
zadd-AllDescending s k z h = write-IsDescending s k _ h (
    zinsert-IsDescending tie z (without (z.member ∷ []) (s k))
      (without-IsDescending (z.member ∷ []) (s k) (h k)))

pub zrem-AllDescending :
    (s : ℕ → List Z) (k : ℕ) (ms : List String)
    → AllDescending s
    → AllDescending (memory.zrem s k ms).0
zrem-AllDescending s k ms h = write-IsDescending s k _ h (without-IsDescending ms (s k) (h k))

abbrev pub memory_laws : Laws memory
memory_laws = record {
  zset = λ s k. s k;
  before = tie;
  Up = AllDescending;
  zset-IsDescending = λ s k h. h k;
  zrevrange_lem = λ s k stop h. refl;
  zrange_lem = λ s k h. refl;
  zcard_lem = λ s k h. refl;
  zcount_lem = λ s k lo hi h. refl;
  zscore_lem = λ s k m h. refl;
  zadd_ok = λ s k z h. refl;
  zadd-Up = zadd-AllDescending;
  zset-zadd = λ s k z j h. refl;
  zrem_ok = λ s k ms h. refl;
  zrem-Up = zrem-AllDescending;
  zset-zrem = λ s k ms j h. refl;
  zset-publish = λ s t j h. refl;
  publish-Up = λ s t h. h;
}
