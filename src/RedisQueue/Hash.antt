-- ===== src/RedisQueue/Hash.antt =====
-- The hash that places an ad in a shard. An `int` is 64 bits wide: a hash is its bit pattern below
-- 2^64, and `signed` is the integer that it stands for.
use Prim.Native.Char.{code}
use native.Mathlib.Nat.{mod-lt}
use home_work_ad_processor_g.Prelude.{
  ℕ, suc, ◌+◌, ◌-◌, ◌*◌, ◌%◌, ◌<◌, ◌≡◌, sym, ap, ◌∙◌, subst, List, [], ◌∷◌, String, arith,
  if◌then◌else◌, ltb, ℤ, pos, negsuc, sub_ℕ, ltb_ℤ, ◌-ℤ◌,
}

abbrev pub word : ℕ
word = 18_446_744_073_709_551_616

abbrev pub half_word : ℕ
half_word = 9_223_372_036_854_775_808

-- `for _, c := range id`: the code points of a text.
abbrev pub codes : String → List ℕ
codes String.[] = []
codes (String.◌∷◌ c s) = code c ∷ codes s

-- `int(c) + ((hash << 5) - hash)`.
unfoldable pub hash_step : ℕ → ℕ → ℕ
hash_step h c = (c + (h * 32 % word + word - h)) % word

unfoldable pub hash_codes : ℕ → List ℕ → ℕ
unfolding hash_step
hash_codes h [] = h
hash_codes h (c ∷ cs) = hash_codes (hash_step h c) cs

-- The integer of a bit pattern.
unfoldable pub signed : ℕ → ℤ
signed h = if ltb h half_word then pos h else sub_ℕ h word

-- `%` of Go: the sign of the dividend.
unfoldable pub tmod : ℤ → ℕ → ℤ
tmod (pos n) d = pos (n % d)
tmod (negsuc n) d = sub_ℕ 0 (suc n % d)

-- `shard := hash % n; if shard < 0 { shard = -shard }`.
unfoldable pub shard_of_hash : ℕ → ℕ → ℤ
unfolding tmod signed ◌-ℤ◌
shard_of_hash n h =
    let shard = tmod (signed h) n in if ltb_ℤ shard (pos 0) then pos 0 -ℤ shard else shard

-- The shards by number, of which the loops visit the first `n`. A negative number stands for a key
-- beyond those, which no loop visits.
abbrev pub shard_index : ℕ → ℤ → ℕ
shard_index n (pos k) = k
shard_index n (negsuc k) = n + k

-- `getShardKey`: the number in `queue:shard:%d`. A shard count of 0 panics in Go and is left out.
unfoldable pub shard_of : ℕ → String → ℕ
unfolding shard_of_hash hash_codes
shard_of n id = shard_index n (shard_of_hash n (hash_codes 0 (codes id)))

-- `-hash` in 64 bits: the least integer is its own negative.
unfoldable pub negate : ℕ → ℕ
negate h = (word - h) % word

-- `hashAdID`: the bit pattern that it returns.
unfoldable pub hash_ad_id_of : ℕ → ℕ
unfolding negate signed
hash_ad_id_of h = if ltb_ℤ (signed h) (pos 0) then negate h else h

unfoldable pub hash_ad_id : String → ℤ
unfolding hash_ad_id_of hash_codes
hash_ad_id id = signed (hash_ad_id_of (hash_codes 0 (codes id)))

hash_step-lt : (h c : ℕ) → hash_step h c < word
unfolding hash_step
hash_step-lt h c = omega arith

pub hash_codes-lt : (h : ℕ) (cs : List ℕ) → h < word → hash_codes h cs < word
unfolding hash_codes
hash_codes-lt h [] k = k
hash_codes-lt h (c ∷ cs) k = hash_codes-lt (hash_step h c) cs (hash_step-lt h c)

-- The distance of a hash from 0.
abbrev pub magnitude : ℕ → ℕ
magnitude h = if ltb h half_word then h else word - h

pub shard_of_hash-eq : (n h : ℕ) → 0 < n → h < word → shard_of_hash n h ≡ pos (magnitude h % n)
unfolding shard_of_hash
shard_of_hash-eq n h p q = ground arith

-- With at least one shard, the number that the hash of an identifier gives is that of a shard which
-- the loops of the queue manager visit, from 0 up to the shard count, whatever the 64-bit hash wraps
-- around to; none is negative.
pub shard_of-lt :
    (n : ℕ) (id : String)
    → 0 < n
    → (shard_of_hash n (hash_codes 0 (codes id)) ≡ pos (shard_of n id)) × (shard_of n id < n)
unfolding shard_of
shard_of-lt n id p =
    let h = hash_codes 0 (codes id) in
    let e = shard_of_hash-eq n h p (hash_codes-lt 0 (codes id) (omega arith)) in
    (
      e ∙ ap (λ k. pos (shard_index n k)) (sym e),
      subst (λ k. shard_index n k < n) (sym e) (omega (arith, mod-lt (magnitude h) p)),
    )
