-- ===== src/Repository/Optimized.antt =====
-- internal/infrastructure/persistence/optimized_postgres_repository.go: the statements of the
-- repository as functions on the table `ads` of a primary and of its read replicas. What the
-- driver makes of an argument of type `[]string`, the type UUID and the constraints of the table are
-- parameters. A transaction that is rolled back leaves the primary as it was.
pub mod Reading
pub mod Queries
pub mod Updates
pub mod Commits
pub mod Saving
pub mod Health
pub mod ShardKey
pub mod Statuses
use home_work_ad_processor_g.Prelude.{
  ℕ, zero, suc, ◌%◌, ◌==◌, Bool, not, Option, none, some, List, [], ◌∷◌, String, str_eq,
  if◌then◌else◌, length, ℤ, pos, tdiv, Result, ok, err, lookup, insert, ltb,
}
use home_work_ad_processor_g.Duration.{seconds}
use home_work_ad_processor_g.Ad.{Ad, AdStatus, queued, processing, completed, failed}
use home_work_ad_processor_g.Repository.Postgres.{AdRow}
use home_work_ad_processor_g.RedisQueue.Hash.{codes, hash_codes, signed, tmod, hash_ad_id_of}

-- A row with its shard key, the number that `%d` prints.
pub record ShardedRow : Type 0 where
  pub columns : AdRow
  pub shard_key : ℤ

pub record Database : Type 0 where
  pub reachable : Bool
  pub rows : List (String × ShardedRow)

-- Where a read goes.
pub data Source : Type 0 where
  primary : Source
  replica : ℕ → Source

-- The repository with its databases; `read_stmt` and `batch_stmt` are where the two prepared reads
-- were prepared, if they were.
pub record Cluster : Type 0 where
  pub db : Database
  pub read_replicas : List Database
  pub read_stmt : Option Source
  pub batch_stmt : Option Source
  pub shard_count : ℕ

pub data DbError : Type 0 where
  unavailable unsupported refused bad_status negative_limit : DbError
  begin_failed query_failed prepare_failed invalid_ad_id : DbError
  insert_failed update_failed : String → DbError → DbError

-- What the driver and the table do: the text that an argument of type `[]string` becomes, which is none
-- where database/sql refuses one, as it does with lib/pq; `uuid.Parse`; what a column of type
-- TIMESTAMPTZ keeps of a time in nanoseconds (its whole microseconds); whether the column `status` is of
-- the type ad_status, as in migrations/, or of text, as in deployments/docker/init-db.sql; and whether
-- the table's types and constraints accept a row.
pub record Driver : Type 0 where
  pub bind : List String → Option String
  pub uuid_ok : String → Bool
  pub kept : ℤ → ℤ
  pub status_enum : Bool
  pub accepts : AdRow → Bool

-- `getReadDB`: the clock, in nanoseconds since 1970, chooses the replica.
unfoldable pub get_read_db : ℕ → ℕ → Source
get_read_db now replicas = if replicas == 0 then primary else replica (now % replicas)

abbrev pub nth : ℕ → List Database → Database → Database
nth n [] fallback = fallback
nth zero (d ∷ ds) fallback = d
nth (suc n) (d ∷ ds) fallback = nth n ds fallback

abbrev pub database : Cluster → Source → Database
database c primary = c.db
database c (replica n) = nth n c.read_replicas c.db

-- Where a prepared statement reads, or else what the clock chooses.
abbrev pub source_of : Option Source → ℕ → Cluster → Source
source_of (some s) now c = s
source_of none now c = get_read_db now (length c.read_replicas)

-- `getShardKey`: the sign is dropped before the remainder is taken.
unfoldable pub get_shard_key : ℕ → String → ℤ
unfolding signed tmod hash_ad_id_of hash_codes
get_shard_key shard_count id =
    if ltb shard_count 2
    then pos 0
    else tmod (signed (hash_ad_id_of (hash_codes 0 (codes id)))) shard_count

-- The status that a text names.
abbrev pub read_status : String → Option AdStatus
read_status s =
    if str_eq s "queued"
    then some queued
    else if str_eq s "processing"
    then some processing
    else if str_eq s "completed"
    then some completed
    else if str_eq s "failed"
    then some failed
    else none

-- The two times of `switch status`.
unfoldable pub times_of : AdStatus → ℤ → Option ℤ × Option ℤ
times_of queued now = (none, none)
times_of processing now = (some now, none)
times_of completed now = (none, some now)
times_of failed now = (none, some now)

abbrev pub inserted :
    Ad
    → Result DbError (List (String × ShardedRow))
    → (List (String × ShardedRow) → Result DbError (List (String × ShardedRow)))
    → Result DbError (List (String × ShardedRow))
inserted a (err e) rest = err (insert_failed a.id e)
inserted a (ok rows) rest = rest rows

abbrev pub committed :
    Cluster → Result DbError (List (String × ShardedRow)) → Cluster × Result DbError (Unit {0})
committed c (ok rows) = (record c { db = record c.db { rows = rows } }, ok tt)
committed c (err e) = (c, err e)

-- ON CONFLICT … DO UPDATE SET: the six columns that are named.
unfoldable pub updated_row : ShardedRow → ShardedRow → ShardedRow
updated_row old excluded = record old {
  columns = record old.columns {
    title = excluded.columns.title;
    game_family = excluded.columns.game_family;
    target_audience = excluded.columns.target_audience;
    priority = excluded.columns.priority;
    max_wait_time = excluded.columns.max_wait_time;
    status = excluded.columns.status;
  };
}

abbrev pub merged : ShardedRow → Option ShardedRow → ShardedRow
unfolding updated_row
merged row none = row
merged row (some old) = updated_row old row

module _ (driver : Driver) where
  -- The values of the INSERT; the other columns take the defaults of the table.
  unfoldable pub row_of : ℕ → Ad → String → ShardedRow
  unfolding get_shard_key seconds
  row_of shard_count a audience = record {
    columns = record {
      ad_id = a.id;
      title = a.title;
      game_family = a.game_family;
      target_audience = audience;
      priority = a.priority;
      created_at = driver.kept a.created_at;
      max_wait_time = seconds a.max_wait_time;
      status = a.status;
      processing_started_at = none;
      processed_at = none;
      version = 1;
    };
    shard_key = get_shard_key shard_count a.id;
  }

  abbrev pub upserted :
      List (String × ShardedRow) → ShardedRow → Result DbError (List (String × ShardedRow))
  upserted rows row =
      let new_row = merged row (lookup row.columns.ad_id rows) in
      if not (driver.accepts row.columns)
      then err refused
      else if not (driver.accepts new_row.columns)
      then err refused
      else ok (insert row.columns.ad_id new_row rows)

  abbrev pub bound :
      List (String × ShardedRow)
      → ℕ
      → Ad
      → Option String
      → Result DbError (List (String × ShardedRow))
  unfolding row_of
  bound rows shard_count a none = err unsupported
  bound rows shard_count a (some audience) = upserted rows (row_of shard_count a audience)

  -- One execution of the INSERT.
  unfoldable pub put_ad :
      ℕ → List (String × ShardedRow) → Ad → Result DbError (List (String × ShardedRow))
  unfolding row_of updated_row
  put_ad shard_count rows a = bound rows shard_count a (driver.bind a.target_audience)

  -- `Save`.
  unfoldable pub save : Cluster → Ad → Cluster × Result DbError (Unit {0})
  unfolding put_ad
  save c a =
      if not c.db.reachable
      then (c, err unavailable)
      else committed c (put_ad c.shard_count c.db.rows a)

  -- The loop of `SaveBatch`, within the transaction.
  unfoldable pub put_ads :
      ℕ → List (String × ShardedRow) → List Ad → Result DbError (List (String × ShardedRow))
  unfolding put_ad
  put_ads shard_count rows [] = ok rows
  put_ads shard_count rows (a ∷ ads) =
      inserted a (put_ad shard_count rows a) (λ rows1. put_ads shard_count rows1 ads)

  unfoldable pub save_batch : Cluster → List Ad → Cluster × Result DbError (Unit {0})
  unfolding put_ads
  save_batch c [] = (c, ok tt)
  save_batch c (a ∷ ads) =
      if not c.db.reachable
      then (c, err begin_failed)
      else committed c (put_ads c.shard_count c.db.rows (a ∷ ads))
