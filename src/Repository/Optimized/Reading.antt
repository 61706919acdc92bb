-- ===== src/Repository/Optimized/Reading.antt =====
-- internal/infrastructure/persistence/optimized_postgres_repository.go: how a row becomes an ad, and
-- `FindByID`.
use home_work_ad_processor_g.Prelude.{
  ℕ, not, Option, none, some, List, [], ◌∷◌, String, if◌then◌else◌, pos, ◌*ℤ◌, Result, ok, err,
  ◌>>=◌, lookup,
}
use home_work_ad_processor_g.Ad.{Ad, parse_ad_id, reconstruct_ad}
use home_work_ad_processor_g.Repository.Postgres.{AdRow}
use home_work_ad_processor_g.Duration.{second}
use home_work_ad_processor_g.Repository.Optimized.{
  ShardedRow, Cluster, Driver, DbError, query_failed, invalid_ad_id, database, source_of,
  get_read_db,
}

module _ (driver : Driver) where
  -- `buildAd`: the text of the audience is its only member, and the version is always 1.
  unfoldable pub build_ad : AdRow → Result DbError Ad
  unfolding parse_ad_id reconstruct_ad
  build_ad row = elim (parse_ad_id driver.uuid_ok row.ad_id) [
    | none ↦ err invalid_ad_id
    | some id ↦ ok (
        reconstruct_ad id row.title row.game_family (row.target_audience ∷ []) row.priority
          (row.max_wait_time *ℤ pos second) row.status row.created_at row.processing_started_at
          row.processed_at 1)
  ]

  -- `scanAd`: no row is no ad and no error.
  unfoldable pub scan_ad : Option ShardedRow → Result DbError (Option Ad)
  unfolding build_ad
  scan_ad none = ok none
  scan_ad (some row) = build_ad row.columns >>= λ a. ok (some a)

  -- `FindByID`.
  unfoldable pub find_by_id : Cluster → ℕ → String → Result DbError (Option Ad)
  unfolding scan_ad get_read_db
  find_by_id c now id =
      let d = database c (source_of c.read_stmt now c) in
      if not d.reachable then err query_failed else scan_ad (lookup id d.rows)

  -- `scanAdFromRows`.
  abbrev scan_ad_from_rows : ShardedRow → Result DbError Ad
  scan_ad_from_rows row = build_ad row.columns

  -- `for rows.Next()`: a row that is no ad is skipped.
  unfoldable pub scan_ads : List ShardedRow → List Ad
  unfolding build_ad
  scan_ads [] = []
  scan_ads (row ∷ rows) = elim (scan_ad_from_rows row) [
    | err e ↦ scan_ads rows
    | ok a ↦ a ∷ scan_ads rows
  ]
