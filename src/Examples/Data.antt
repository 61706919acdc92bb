-- ===== src/Examples/Data.antt =====
-- The data of the examples: a queue manager with two shards, a Redis server in memory with two queued
-- ads, and an ad.
use home_work_ad_processor_g.Prelude.{ℕ, Bool, true, none, List, [], ◌∷◌, String, pos}
use home_work_ad_processor_g.Ad.{Ad, AdStatus}
use home_work_ad_processor_g.Queue.{QueueConfig}
use home_work_ad_processor_g.Redis.Sets.{Z}
use home_work_ad_processor_g.Redis.Memory.{memory, memory_laws, AllDescending}
use home_work_ad_processor_g.RedisQueue.{Manager}
use home_work_ad_processor_g.RedisQueue.Placement.{Call, enqueues, run, run-IsSound, IsSound}

abbrev pub any_id : String → Bool
any_id id = true

abbrev pub config : QueueConfig
config = record {
  anti_starvation_enabled = true;
  max_wait_time = pos 600_000_000_000;
  worker_count = pos 2;
  batch_size = pos 2;
  processing_timeout = pos 30;
}

abbrev pub two_shards : Manager
two_shards = record { config = config; shard_count = 2 }

abbrev pub empty_queue : ℕ → List Z
empty_queue k = []

pub empty_queue-Up : AllDescending empty_queue
empty_queue-Up k = tt

abbrev pub two_calls : List Call
two_calls = enqueues "ad-1" (pos 3) (pos 100) ∷ enqueues "ad-2" (pos 5) (pos 101) ∷ []

abbrev pub two_queued : ℕ → List Z
two_queued = run memory memory_laws any_id two_shards empty_queue two_calls

pub empty_queue-IsSound : IsSound memory memory_laws any_id 2 empty_queue
empty_queue-IsSound = (empty_queue-Up, λ j h. tt)

pub two_queued-IsSound : IsSound memory memory_laws any_id 2 two_queued
two_queued-IsSound =
    run-IsSound memory memory_laws any_id two_shards empty_queue two_calls empty_queue-IsSound

abbrev pub puzzle : Ad
puzzle = record {
  id = "ad-1";
  title = "Puzzle";
  game_family = "Casual";
  target_audience = "18-34" ∷ [];
  priority = pos 2;
  max_wait_time = pos 600_000_000_000;
  status = AdStatus.queued;
  created_at = pos 0;
  processing_started_at = none;
  processed_at = none;
  queue_position = none;
  version = 1;
}
