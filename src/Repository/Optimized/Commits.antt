-- ===== src/Repository/Optimized/Commits.antt =====
-- internal/infrastructure/persistence/optimized_postgres_repository.go: what a statement that took place
-- leaves.
use home_work_ad_processor_g.Prelude.{
  ◌≡◌, refl, Bool, true, false, not, List, String, if◌then◌else◌, Result, ok, err,
}
use home_work_ad_processor_g.Repository.Optimized.{
  ShardedRow, Cluster, DbError, unavailable, committed,
}

-- A statement on the primary that gives no error has left the rows that it made.
pub guarded_left :
    (c : Cluster) (up : Bool) (r : Result DbError (List (String × ShardedRow)))
    → (if not up then (c, Result.err unavailable) else committed c r).1 ≡ ok tt
    → (rows : List (String × ShardedRow)) × (r ≡ ok rows)
      × ((if not up then (c, Result.err unavailable) else committed c r).0
          ≡ record c { db = record c.db { rows = rows } })
guarded_left c true (ok rows) h = (rows, refl, refl)
guarded_left c true (err e) h = absurd cc
guarded_left c false r h = absurd cc
