-- ===== src/Repository/Optimized/Health.antt =====
-- internal/infrastructure/persistence/optimized_postgres_repository.go: the counts of
-- `GetHealthStats` add up.
use home_work_ad_processor_g.Prelude.{
  ℕ, ◌+◌, ◌==◌, ◌≡◌, refl, ◌∙◌, subst, Bool, true, false, not, none, List, [], ◌∷◌, ◌++◌,
  if◌then◌else◌, length, count_if, Result, ok, ok-injective, values, arith,
}
use home_work_ad_processor_g.Ad.{AdStatus, queued, processing, completed, failed, same_status}
use home_work_ad_processor_g.Repository.Optimized.{
  ShardedRow, Cluster, query_failed, database, source_of,
}
use home_work_ad_processor_g.Repository.Optimized.Queries.{
  group_of, group_by_status, PoolStats, DatabaseStats, get_health_stats,
}

-- The number of ads that the statistics count.
abbrev pub total : List (AdStatus × ℕ) → ℕ
total [] = 0
total ((status, n) ∷ groups) = n + total groups

total-append : (xs ys : List (AdStatus × ℕ)) → total (xs ++ ys) ≡ total xs + total ys
total-append [] ys = omega arith
total-append ((s, n) ∷ xs) ys = omega (arith, total-append xs ys)

counted_total : (status : AdStatus) (n : ℕ) → total (if n == 0 then [] else (status, n) ∷ []) ≡ n
counted_total status n = ground arith

total_group :
    (status : AdStatus) (rows : List ShardedRow)
    → total (group_of status rows) ≡ count_if (λ row. same_status row.columns.status status) rows
unfolding same_status
total_group status rows =
    counted_total status (count_if (λ row. same_status row.columns.status status) rows)

abbrev count_of : AdStatus → List ShardedRow → ℕ
unfolding same_status
count_of status rows = count_if (λ row. same_status row.columns.status status) rows

counts_sum :
    (rows : List ShardedRow)
    → count_of queued rows
        + count_of processing rows
        + count_of completed rows
        + count_of failed rows
      ≡ length rows
unfolding same_status
counts_sum [] = refl
counts_sum (row ∷ rows) = let later = counts_sum rows in ground arith

total_four :
    (q p c f : List (AdStatus × ℕ))
    → total (q ++ p ++ c ++ f) ≡ total q + total p + total c + total f
total_four q p c f =
    omega (arith, total-append (q ++ p ++ c) f, total-append (q ++ p) c, total-append q p)

groups_total : (rows : List ShardedRow) → total (group_by_status rows) ≡ length rows
unfolding group_by_status
groups_total rows =
    total_four (group_of queued rows) (group_of processing rows) (group_of completed rows)
      (group_of failed rows)
    ∙ rw
        (
          total_group queued rows,
          total_group processing rows,
          total_group completed rows,
          total_group failed rows,
        )
        (counts_sum rows)

-- The counts by status of `GetHealthStats` add up to the number of all ads.
get_health_stats_total :
    (c : Cluster) (now : ℕ) (pool : PoolStats) (stats : DatabaseStats)
    → get_health_stats c now pool ≡ ok stats
    → total stats.ads_by_status ≡ stats.total_ads
unfolding get_health_stats
get_health_stats_total c now pool stats h = go (database c (source_of none now c)).reachable h
  where
    rows : List ShardedRow
    rows = values (database c (source_of none now c)).rows

    go :
        (up : Bool)
        → (if not up
            then Result.err query_failed
            else ok (record {
              total_ads = length rows;
              ads_by_status = group_by_status rows;
              connections = pool;
            }))
          ≡ ok stats
        → total stats.ads_by_status ≡ stats.total_ads
    go false k = absurd cc
    go true k =
        let e = ok-injective k in
        subst (λ x. total x.ads_by_status ≡ x.total_ads) e (groups_total rows)
