-- ===== src/Repository/Optimized/Queries.antt =====
-- internal/infrastructure/persistence/optimized_postgres_repository.go: the searches, the health
-- statistics and `Close`.
use home_work_ad_processor_g.Prelude.{
  ℕ, ◌==◌, Bool, true, false, not, Option, none, some, List, [], ◌∷◌, ◌++◌, String, str_eq,
  if◌then◌else◌, length, take, drop, keep_if, count_if, ℤ, pos, pos_part, leb_ℤ, ltb_ℤ, Result, ok,
  err, values,
}
use home_work_ad_processor_g.Ad.{Ad, AdStatus, queued, processing, completed, failed, same_status}
use home_work_ad_processor_g.Repository.Optimized.{
  ShardedRow, Cluster, Driver, DbError, query_failed, prepare_failed, bad_status, negative_limit,
  database, source_of, get_read_db, read_status,
}
use home_work_ad_processor_g.Repository.Optimized.Reading.{scan_ads}

abbrev pub contains : List String → String → Bool
contains [] id = false
contains (other ∷ ids) id = let rest = contains ids id in if str_eq other id then true else rest

-- `ORDER BY created_at DESC`.
abbrev pub place_by_newest : ShardedRow → List ShardedRow → List ShardedRow
place_by_newest row [] = row ∷ []
place_by_newest row (other ∷ rows) =
    let rest = place_by_newest row rows in
    if leb_ℤ other.columns.created_at row.columns.created_at
    then row ∷ other ∷ rows
    else other ∷ rest

unfoldable pub order_by_newest : List ShardedRow → List ShardedRow
order_by_newest [] = []
order_by_newest (row ∷ rows) = place_by_newest row (order_by_newest rows)

-- `LIMIT $2 OFFSET $3`.
abbrev pub page : ℕ → ℕ → List ShardedRow → List ShardedRow
page limit offset rows = take limit (drop offset rows)

unfoldable pub with_status : AdStatus → List (String × ShardedRow) → List ShardedRow
unfolding same_status
with_status status rows = keep_if (λ row. same_status row.columns.status status) (values rows)

-- The rows of one status, and how many there are.
abbrev pub group_of : AdStatus → List ShardedRow → List (AdStatus × ℕ)
unfolding same_status
group_of status rows =
    let n = count_if (λ row. same_status row.columns.status status) rows in
    if n == 0 then [] else (status, n) ∷ []

-- `GROUP BY status`.
unfoldable pub group_by_status : List ShardedRow → List (AdStatus × ℕ)
unfolding same_status
group_by_status rows =
    group_of queued rows
    ++ group_of processing rows
    ++ group_of completed rows
    ++ group_of failed rows

pub record PoolStats : Type 0 where
  pub open_connections : ℕ
  pub in_use : ℕ
  pub idle : ℕ

pub record DatabaseStats : Type 0 where
  pub total_ads : ℕ
  pub ads_by_status : List (AdStatus × ℕ)
  pub connections : PoolStats

-- `GetHealthStats`; the statistics of the connection pool are an argument.
unfoldable pub get_health_stats : Cluster → ℕ → PoolStats → Result DbError DatabaseStats
unfolding get_read_db group_by_status
get_health_stats c now pool =
    let d = database c (source_of none now c) in
    if not d.reachable
    then err query_failed
    else ok (record {
      total_ads = length (values d.rows);
      ads_by_status = group_by_status (values d.rows);
      connections = pool;
    })

-- `prepareStatements`, with the clock at each of its two calls of `getReadDB`. A prepared read
-- goes to the database that it was prepared on from then on.
unfoldable pub prepare_statements : Cluster → ℕ → ℕ → Result DbError Cluster
unfolding get_read_db
prepare_statements c now1 now2 =
    let read = get_read_db now1 (length c.read_replicas) in
    let batch = get_read_db now2 (length c.read_replicas) in
    if not c.db.reachable
    then err prepare_failed
    else if not (database c read).reachable
    then err prepare_failed
    else if not (database c batch).reachable
    then err prepare_failed
    else ok (record c { read_stmt = some read; batch_stmt = some batch })

module _ (driver : Driver) where
  -- `FindByIDBatch`.
  unfoldable pub find_by_id_batch : Cluster → ℕ → List String → Result DbError (List Ad)
  unfolding scan_ads get_read_db
  find_by_id_batch c now [] = ok []
  find_by_id_batch c now (id ∷ ids) =
      let d = database c (source_of c.batch_stmt now c) in
      if not d.reachable
      then err query_failed
      else ok
          (scan_ads driver (keep_if (λ row. contains (id ∷ ids) row.columns.ad_id) (values d.rows)))

  -- A text that is none of the four statuses is an error for a column of the type ad_status, and the
  -- status of no row for a column of text.
  abbrev pub status_page :
      List (String × ShardedRow) → Option AdStatus → ℤ → ℤ → Result DbError (List Ad)
  unfolding scan_ads order_by_newest with_status
  status_page rows none limit offset =
      if driver.status_enum
      then err bad_status
      else if ltb_ℤ limit (pos 0)
      then err negative_limit
      else if ltb_ℤ offset (pos 0)
      then err negative_limit
      else ok []
  status_page rows (some status) limit offset =
      if ltb_ℤ limit (pos 0)
      then err negative_limit
      else if ltb_ℤ offset (pos 0)
      then err negative_limit
      else ok (
          scan_ads driver
            (page (pos_part limit) (pos_part offset) (order_by_newest (with_status status rows))))

  -- `FindByStatus`.
  unfoldable pub find_by_status : Cluster → ℕ → String → ℤ → ℤ → Result DbError (List Ad)
  unfolding scan_ads get_read_db order_by_newest with_status
  find_by_status c now status limit offset =
      let d = database c (source_of none now c) in
      if not d.reachable
      then err query_failed
      else status_page d.rows (read_status status) limit offset

-- A prepared statement with what its `Close` answers: nothing, or the text of an error. An error
-- is kept with the name of its statement, as in "write statement: %v".
abbrev pub close_one : String → Option (Option String) → List (String × String)
close_one name none = []
close_one name (some none) = []
close_one name (some (some message)) = (name, message) ∷ []

-- `Close`: the errors that it joins with ", "; none means that it succeeds.
unfoldable pub close_errors :
    Option (Option String)
    → Option (Option String)
    → Option (Option String)
    → Option (Option String)
    → List (String × String)
close_errors write read batch update =
    close_one "write statement" write
    ++ close_one "read statement" read
    ++ close_one "batch statement" batch
    ++ close_one "update statement" update
