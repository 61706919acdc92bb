-- ===== src/RedisQueue/Removal.antt =====
-- `DequeueBatch` takes the chosen items out of their shards, and no others.
use home_work_ad_processor_g.Prelude.{
  ℕ, ◌≡◌, refl, sym, ap, ◌∙◌, inl, inr, Bool, Bool-cases, ==_iff, true, false, ◌&&◌, ◌||◌, Option,
  none, some, List, [], ◌∷◌, ◌++◌, String, str_eq, eq_iff, arith, if◌then◌else◌, ◌==◌, All,
}
use home_work_ad_processor_g.Ad.{parse_ad_id}
use home_work_ad_processor_g.Redis.{Redis, Laws}
use home_work_ad_processor_g.Redis.Sets.{Z, listed, without}
use home_work_ad_processor_g.RedisQueue.Batch.{shard_in, append_member, to_remove, remove_groups}
use home_work_ad_processor_g.RedisQueue.Mapping.{IsRight, IsPlaced, AreKnown, is_known}

-- The members to take from shard `j`.
abbrev group_of : ℕ → List (ℕ × List String) → List String
group_of j [] = []
group_of j ((i, ms) ∷ groups) = let rest = group_of j groups in if i == j then ms ++ rest else rest

listed-append :
    (x : String) (ms ns : List String) → listed x (ms ++ ns) ≡ (listed x ms || listed x ns)
listed-append x [] ns = refl
listed-append x (m ∷ ms) ns = ground (arith, listed-append x ms ns)

abbrev stands_at : Option ℕ → ℕ → Bool
stands_at none j = false
stands_at (some i) j = i == j

stands_at-place :
    (place : String → ℕ) (mapping : List (String × ℕ)) (m : String)
    → IsRight place mapping
    → is_known (shard_in mapping m) ≡ true
    → stands_at (shard_in mapping m) (place m) ≡ true
stands_at-place place [] m h k = cc
stands_at-place place ((n, i) ∷ mapping) m h k =
    ground (arith, eq_iff n m, stands_at-place place mapping m h.1)

listed-append_member :
    (x m : String) (o : Option ℕ) (j : ℕ) (groups : List (ℕ × List String))
    → listed x (group_of j (append_member o m groups))
      ≡ (listed x (group_of j groups) || (stands_at o j && str_eq m x))
listed-append_member x m none j groups = ground arith
listed-append_member x m (some i) j [] = ground arith
listed-append_member x m (some i) j ((k, ms) ∷ groups) = ground (
  arith,
  listed-append_member x m (some i) j groups,
  listed-append x ms (m ∷ []),
  listed-append x ms (group_of j groups),
  listed-append x ms (group_of j (append_member (some i) m groups)),
  listed-append x (ms ++ m ∷ []) (group_of j groups),
)

without-nil : (l : List Z) → without [] l ≡ l
without-nil [] = refl
without-nil (z ∷ l) = ap (◌∷◌ z) (without-nil l)

without-without :
    (ms ns : List String) (l : List Z) → without ns (without ms l) ≡ without (ms ++ ns) l
without-without ms ns [] = refl
without-without ms ns (z ∷ l) =
    ground (arith, without-without ms ns l, listed-append z.member ms ns)

without-congr :
    (ms ns : List String) (l : List Z)
    → All (λ (z : Z). listed z.member ms ≡ listed z.member ns) l
    → without ms l ≡ without ns l
without-congr ms ns [] h = refl
without-congr ms ns (z ∷ l) h = ground (arith, without-congr ms ns l)

module _ (r : Redis) (uuid_ok : String → Bool) where
  -- The members whose identifier parses.
  unfoldable pub taken_members : List Z → List String
  taken_members [] = []
  taken_members (z ∷ zs) =
      let rest = taken_members zs in if uuid_ok z.member then z.member ∷ rest else rest

  listed-to_remove :
      (place : String → ℕ) (mapping : List (String × ℕ)) (top : List Z) (x : String) (j : ℕ)
      (groups : List (ℕ × List String))
      → IsRight place mapping
      → AreKnown mapping top
      → place x ≡ j
      → listed x (group_of j (to_remove r uuid_ok mapping top groups))
        ≡ (listed x (group_of j groups) || listed x (taken_members top))
  unfolding to_remove taken_members parse_ad_id
  listed-to_remove place mapping [] x j groups h a e = ground arith
  listed-to_remove place mapping (z ∷ top) x j groups h a e = ground (
    arith,
    eq_iff z.member x,
    listed-append_member x z.member (shard_in mapping z.member) j groups,
    stands_at-place place mapping z.member h,
    listed-to_remove place mapping top x j groups h a.1 e,
    listed-to_remove place mapping top x j
        (append_member (shard_in mapping z.member) z.member groups) h a.1 e,
  )

  module _ (laws : Laws r) where
    open r use {Store}
    open laws use {zset, Up}

    remove_groups_lem :
        (s : Store) (groups : List (ℕ × List String)) (j : ℕ)
        → Up s
        → zset (remove_groups r uuid_ok s groups) j ≡ without (group_of j groups) (zset s j)
    unfolding remove_groups
    remove_groups_lem s [] j up = sym (without-nil (zset s j))
    remove_groups_lem s ((i, ms) ∷ groups) j up =
        remove_groups_lem (r.zrem s i ms).0 groups j (laws.zrem-Up s i ms up)
        ∙ ap (without (group_of j groups)) (laws.zset-zrem s i ms j up)
        ∙ elim (Bool-cases (i == j)) [
          | inl e ↦ rw (e, (==_iff i j).0 e) (without-without ms (group_of j groups) (zset s j))
          | inr e ↦ rw e
        ]

    -- With every item in its own shard, the removals of a batch leave each shard without exactly
    -- the members that the batch took.
    pub remove_groups-to_remove :
        (s : Store) (place : String → ℕ) (mapping : List (String × ℕ)) (top : List Z) (j : ℕ)
        → Up s
        → IsRight place mapping
        → AreKnown mapping top
        → IsPlaced place j (zset s j)
        → zset (remove_groups r uuid_ok s (to_remove r uuid_ok mapping top [])) j
          ≡ without (taken_members top) (zset s j)
    remove_groups-to_remove s place mapping top j up right known placed =
        remove_groups_lem s (to_remove r uuid_ok mapping top []) j up
        ∙ without-congr _ _ (zset s j) (agree (zset s j) placed)
      where
        agree :
            (l : List Z)
            → IsPlaced place j l
            → All
                (λ (z : Z).
                  listed z.member (group_of j (to_remove r uuid_ok mapping top []))
                  ≡ listed z.member (taken_members top))
                l
        agree [] p = tt
        agree (z ∷ l) p =
            (listed-to_remove place mapping top z.member j [] right known p.0, agree l p.1)
