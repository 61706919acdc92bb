-- ===== src/Repository/Optimized/Updates.antt =====
-- internal/infrastructure/persistence/optimized_postgres_repository.go: `UpdateStatus` and
-- `UpdateStatusBatch`.
use home_work_ad_processor_g.Prelude.{
  not, Option, none, some, List, [], ◌∷◌, String, if◌then◌else◌, ℤ, Result, ok, err, lookup, insert,
}
use home_work_ad_processor_g.Ad.{AdStatus}
use home_work_ad_processor_g.Repository.Optimized.{
  ShardedRow, Cluster, Driver, DbError, unavailable, bad_status, refused, begin_failed,
  update_failed, read_status, times_of, committed,
}

-- The row after `SET status = $2, processing_started_at = $3, processed_at = $4`.
unfoldable pub with_times : ShardedRow → AdStatus → ℤ → ShardedRow
unfolding times_of
with_times row status now =
    let (started, processed) = times_of status now in
    record row {
      columns = record row.columns {
        status = status;
        processing_started_at = started;
        processed_at = processed;
      };
    }

module _ (driver : Driver) where
  abbrev pub set_row :
      List (String × ShardedRow)
      → String
      → AdStatus
      → ℤ
      → Option ShardedRow
      → Result DbError (List (String × ShardedRow))
  unfolding with_times
  set_row rows id status now none = ok rows
  set_row rows id status now (some row) =
      let new_row = with_times row status now in
      if not (driver.accepts new_row.columns) then err refused else ok (insert id new_row rows)

  -- The rows hold one of the four statuses, as a column of the type ad_status does; a column of text
  -- would take any other text too.
  abbrev pub set_known :
      List (String × ShardedRow)
      → String
      → ℤ
      → Option AdStatus
      → Result DbError (List (String × ShardedRow))
  unfolding with_times
  set_known rows id now none = err bad_status
  set_known rows id now (some status) = set_row rows id status now (lookup id rows)

  -- One execution of the UPDATE.
  unfoldable pub set_status :
      List (String × ShardedRow) → String → String → ℤ → Result DbError (List (String × ShardedRow))
  unfolding with_times
  set_status rows id status now = set_known rows id now (read_status status)

  -- `UpdateStatus`, at the clock `now`.
  unfoldable pub update_status : Cluster → String → String → ℤ → Cluster × Result DbError (Unit {0})
  unfolding set_status
  update_status c id status now =
      if not c.db.reachable
      then (c, err unavailable)
      else committed c (set_status c.db.rows id status (driver.kept now))

  -- The loop of `UpdateStatusBatch`; the order of a Go map is one of its orders.
  unfoldable pub set_statuses :
      List (String × ShardedRow)
      → List (String × String)
      → ℤ
      → Result DbError (List (String × ShardedRow))
  unfolding set_status
  set_statuses rows [] now = ok rows
  set_statuses rows ((id, status) ∷ updates) now = elim (set_status rows id status now) [
    | err e ↦ err (update_failed id e)
    | ok rows1 ↦ set_statuses rows1 updates now
  ]

  unfoldable pub update_status_batch :
      Cluster → List (String × String) → ℤ → Cluster × Result DbError (Unit {0})
  unfolding set_statuses
  update_status_batch c [] now = (c, ok tt)
  update_status_batch c (u ∷ updates) now =
      if not c.db.reachable
      then (c, err begin_failed)
      else committed c (set_statuses c.db.rows (u ∷ updates) (driver.kept now))
