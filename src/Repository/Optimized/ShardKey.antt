-- ===== src/Repository/Optimized/ShardKey.antt =====
-- internal/infrastructure/persistence/optimized_postgres_repository.go, `getShardKey`, against the
-- function of the same name of the queue manager.
use home_work_ad_processor_g.Prelude.{
  ℕ, ◌≡◌, ◌≢◌, sym, ap, ◌∙◌, ◌≤◌, ◌<◌, ◌%◌, String, if◌then◌else◌, ltb, pos, sub_ℕ, negsuc, ◌-◌,
  refl, ◌==◌, ◌⊎◌, inl, inr, true, false, Bool-cases, arith,
}
use home_work_ad_processor_g.RedisQueue.Hash.{
  shard_index, codes, hash_codes, signed, tmod, hash_ad_id_of, negate, shard_of, half_word, word,
  magnitude, shard_of_hash-eq, hash_codes-lt,
}
use home_work_ad_processor_g.Repository.Optimized.{get_shard_key}

-- The 64-bit hash of an identifier.
abbrev pub hash_of : String → ℕ
unfolding hash_codes
hash_of id = hash_codes 0 (codes id)

ltb-ge : (a b : ℕ) → b ≤ a → ltb a b ≡ false
ltb-ge a b p = ground arith

signed_hash : (h : ℕ) → h < word → h ≢ half_word → signed (hash_ad_id_of h) ≡ pos (magnitude h)
unfolding signed hash_ad_id_of negate
signed_hash h q ne = ground arith

least_hash : signed (hash_ad_id_of half_word) ≡ negsuc (half_word - 1)
unfolding signed hash_ad_id_of negate
least_hash = refl

-- The two shard keys of an identifier agree, but for one hash: the least 64-bit integer, which is
-- its own negative. There the key of the repository is the negative of the remainder of 2^63.
pub get_shard_key-shard_of :
    (n : ℕ) (id : String)
    → 2 ≤ n
    → get_shard_key n id
      ≡ (if hash_of id == half_word then sub_ℕ 0 (half_word % n) else pos (shard_of n id))
unfolding get_shard_key shard_of tmod
get_shard_key-shard_of n id p = go (Bool-cases (hash_of id == half_word))
  where
    h : ℕ
    h = hash_of id

    small : h < word
    small = hash_codes-lt 0 (codes id) (omega arith)

    large : get_shard_key n id ≡ tmod (signed (hash_ad_id_of h)) n
    large = ap (λ b. if b then pos 0 else tmod (signed (hash_ad_id_of h)) n) (ltb-ge n 2 p)

    go :
        (h == half_word ≡ true) ⊎ (h == half_word ≡ false)
        → get_shard_key n id
          ≡ (if h == half_word then sub_ℕ 0 (half_word % n) else pos (shard_of n id))
    go (inl e) =
        let least : h ≡ half_word = ground arith in
        rw e (
          large ∙ ap (λ x. tmod (signed (hash_ad_id_of x)) n) least ∙ ap (λ x. tmod x n) least_hash)
    go (inr e) = rw e (
        large
        ∙ ap (λ x. tmod x n) (signed_hash h small (λ eq. absurd (ground arith)))
        ∙ ap (λ x. pos (shard_index n x)) (sym (shard_of_hash-eq n h (omega arith) small)))
