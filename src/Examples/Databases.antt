-- ===== src/Examples/Databases.antt =====
-- The theorems on the sharded PostgreSQL repository at work: a primary with one ad, one replica, and a
-- driver that writes a list of texts as JSON.
use home_work_ad_processor_g.Prelude.{
  ◌*ℤ◌, tdiv, true, ◌≡◌, refl, none, some, [], ◌∷◌, List, if◌then◌else◌, pos, lookup, insert, sub_ℕ,
  ◌%◌, ◌==◌, arith,
}
use home_work_ad_processor_g.Ad.{Ad, AdStatus}
use home_work_ad_processor_g.Repository.Postgres.{AdRow}
use home_work_ad_processor_g.RedisQueue.Hash.{shard_of, half_word}
use home_work_ad_processor_g.Repository.Optimized.{
  ShardedRow, Database, Cluster, Driver, save_batch, get_shard_key, times_of,
}
use home_work_ad_processor_g.Repository.Optimized.Updates.{update_status, set_status, with_times}
use home_work_ad_processor_g.Repository.Optimized.Saving.{
  save_all, all_or_nothing, save_batch-save_all,
}
use home_work_ad_processor_g.Repository.Optimized.Statuses.{update_status_forgets}
use home_work_ad_processor_g.Repository.Optimized.ShardKey.{hash_of, get_shard_key-shard_of}
use home_work_ad_processor_g.Examples.Data.{any_id, puzzle}
use home_work_ad_processor_g.Examples.Coding.{write}

abbrev driver : Driver
driver = record {
  bind = λ l. some (write l);
  uuid_ok = any_id;
  kept = λ t. tdiv t 1_000 *ℤ pos 1_000;
  status_enum = true;
  accepts = λ row. true;
}

abbrev columns : AdRow
columns = record {
  ad_id = "ad-1";
  title = "Puzzle";
  game_family = "Casual";
  target_audience = write ("18-34" ∷ []);
  priority = pos 2;
  created_at = pos 5;
  max_wait_time = pos 600;
  status = AdStatus.queued;
  processing_started_at = none;
  processed_at = none;
  version = 1;
}

abbrev row : ShardedRow
row = record { columns = columns; shard_key = pos 0 }

abbrev one_row : Database
one_row = record { reachable = true; rows = ("ad-1", row) ∷ [] }

abbrev empty : Database
empty = record { reachable = true; rows = [] }

abbrev cluster : Cluster
cluster = record {
  db = one_row;
  read_replicas = empty ∷ [];
  read_stmt = none;
  batch_stmt = none;
  shard_count = 1;
}

abbrev ads : List Ad
ads = record puzzle { id = "ad-2" } ∷ puzzle ∷ []

save_batch-save_all_example :
    save_batch driver cluster ads ≡ all_or_nothing cluster (save_all driver cluster ads)
save_batch-save_all_example = save_batch-save_all driver cluster ads refl

update_status_forgets_example :
    (let c1 = (update_status driver cluster "ad-1" "processing" (pos 20_000)).0 in
      lookup "ad-1" (update_status driver c1 "ad-1" "completed" (pos 30_000)).0.db.rows)
    ≡ some (record row {
      columns = record columns {
        status = AdStatus.completed;
        processing_started_at = none;
        processed_at = some (driver.kept (pos 30_000));
      };
    })
unfolding update_status set_status with_times lookup insert times_of
update_status_forgets_example =
    update_status_forgets driver cluster "ad-1" row (pos 20_000) (pos 30_000) refl (refl, refl)

get_shard_key-shard_of_example :
    get_shard_key 4 "ad-1"
    ≡ (if hash_of "ad-1" == half_word then sub_ℕ 0 (half_word % 4) else pos (shard_of 4 "ad-1"))
get_shard_key-shard_of_example = get_shard_key-shard_of 4 "ad-1" (omega arith)
