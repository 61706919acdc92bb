-- ===== src/RedisQueue/Mapping.antt =====
-- The map from members to shards that `DequeueBatch` builds while it collects.
use home_work_ad_processor_g.Prelude.{
  ℕ, zero, suc, ◌+◌, ◌<◌, ◌≡◌, sym, subst, Bool, true, false, Option, none, some, List, [], ◌∷◌,
  ◌++◌, String, eq_iff, arith, pos, All, All-append, Result, ok-injective, take,
}
use home_work_ad_processor_g.Redis.{Redis, Laws}
use home_work_ad_processor_g.Redis.Sets.{Z}
use home_work_ad_processor_g.RedisQueue.Batch.{map_to, shard_in, collect}

module _ (place : String → ℕ) where
  -- Every entry names the shard of its member.
  abbrev pub IsRight : List (String × ℕ) → Type 0
  IsRight = All (λ (e : String × ℕ). e.1 ≡ place e.0)

  abbrev pub IsPlaced : ℕ → List Z → Type 0
  IsPlaced i = All (λ (z : Z). place z.member ≡ i)

  pub shard_in-IsRight :
      (mapping : List (String × ℕ)) (m : String) (i : ℕ)
      → IsRight mapping
      → shard_in mapping m ≡ some i
      → i ≡ place m
  shard_in-IsRight [] m i h e = cc
  shard_in-IsRight ((k, j) ∷ mapping) m i h e =
      ground (arith, eq_iff k m, shard_in-IsRight mapping m i h.1)

  map_to-IsRight :
      (zs : List Z) (i : ℕ) (mapping : List (String × ℕ))
      → IsPlaced i zs
      → IsRight mapping
      → IsRight (map_to zs i mapping)
  map_to-IsRight [] i mapping p h = h
  map_to-IsRight (z ∷ zs) i mapping p h =
      map_to-IsRight zs i ((z.member, i) ∷ mapping) p.1 (sym p.0, h)

  IsPlaced-take : (i k : ℕ) (l : List Z) → IsPlaced i l → IsPlaced i (take k l)
  IsPlaced-take i zero l h = tt
  IsPlaced-take i (suc k) [] h = tt
  IsPlaced-take i (suc k) (z ∷ l) h = (h.0, IsPlaced-take i k l h.1)

abbrev pub is_known : Option ℕ → Bool
is_known none = false
is_known (some _) = true

-- Every item has an entry.
abbrev pub AreKnown : List (String × ℕ) → List Z → Type 0
AreKnown mapping = All (λ (z : Z). is_known (shard_in mapping z.member) ≡ true)

map_to_keeps :
    (zs : List Z) (i : ℕ) (mapping : List (String × ℕ)) (m : String)
    → is_known (shard_in mapping m) ≡ true
    → is_known (shard_in (map_to zs i mapping) m) ≡ true
map_to_keeps [] i mapping m h = h
map_to_keeps (z ∷ zs) i mapping m h = map_to_keeps zs i ((z.member, i) ∷ mapping) m (ground arith)

AreKnown-map_to_old :
    (zs : List Z) (i : ℕ) (mapping : List (String × ℕ)) (l : List Z)
    → AreKnown mapping l
    → AreKnown (map_to zs i mapping) l
AreKnown-map_to_old zs i mapping [] h = tt
AreKnown-map_to_old zs i mapping (z ∷ l) h =
    (map_to_keeps zs i mapping z.member h.0, AreKnown-map_to_old zs i mapping l h.1)

AreKnown-map_to_new :
    (zs : List Z) (i : ℕ) (mapping : List (String × ℕ)) → AreKnown (map_to zs i mapping) zs
AreKnown-map_to_new [] i mapping = tt
AreKnown-map_to_new (z ∷ zs) i mapping = (
  map_to_keeps zs i ((z.member, i) ∷ mapping) z.member (ground (arith, eq_iff z.member z.member)),
  AreKnown-map_to_new zs i ((z.member, i) ∷ mapping),
)

module _ (r : Redis) (laws : Laws r) (uuid_ok : String → Bool) (place : String → ℕ) where
  open r use {Store}
  open laws use {zset, Up}

  -- The finished map knows every item collected, and its shard.
  pub collect_mapping :
      (s : Store) (k n i top : ℕ) (items : List Z) (mapping : List (String × ℕ))
      {out : List Z × List (String × ℕ)}
      → Up s
      → ((j : ℕ) → j < top → IsPlaced place j (zset s j))
      → i + n ≡ top
      → IsRight place mapping
      → AreKnown mapping items
      → collect r uuid_ok s (pos k) n i items mapping ≡ Result.ok out
      → IsRight place out.1 × AreKnown out.1 out.0
  unfolding collect
  collect_mapping s k zero i top items mapping {out} up p e h a c =
      subst (λ o. IsRight place o.1 × AreKnown o.1 o.0) (ok-injective c) (h, a)
  collect_mapping s k (suc n) i top items mapping {out} up p e h a c =
      let zs = take (suc k) (zset s i) in
      collect_mapping s k n (suc i) top (items ++ zs) (map_to zs i mapping) up p (omega arith)
        (map_to-IsRight place zs i mapping
          (IsPlaced-take place i (suc k) (zset s i) (p i (omega arith))) h)
        (All-append _ items zs (AreKnown-map_to_old zs i mapping items a)
          (AreKnown-map_to_new zs i mapping))
        (rw (laws.zrevrange_lem s i (pos k) up, collect) at c)
