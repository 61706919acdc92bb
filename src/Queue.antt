-- ===== src/Queue.antt =====
-- internal/domain/queue/queue.go: the queue item, its domain score and the queue's configuration.
-- `calculateScore` of this file is a `float64`, priority * 10^6 + unix / 10^9. The model keeps it
-- exact, multiplied by 10^9. A timestamp is in Unix seconds, as the score reads it.
pub mod Order
use home_work_ad_processor_g.Prelude.{Bool, String, ℤ, pos, ◌+ℤ◌, ◌*ℤ◌}

pub record QueueItem : Type 0 where
  pub ad_id : String
  pub priority : ℤ
  pub timestamp : ℤ
  pub score : ℤ

-- 10^9 times the source's score.
unfoldable pub calculate_score : ℤ → ℤ → ℤ
calculate_score priority timestamp = priority *ℤ pos 1_000_000_000_000_000 +ℤ timestamp

unfoldable pub new_queue_item : String → ℤ → ℤ → QueueItem
new_queue_item ad_id priority timestamp = record {
  ad_id = ad_id;
  priority = priority;
  timestamp = timestamp;
  score = calculate_score priority timestamp;
}

unfoldable pub update_item_priority : QueueItem → ℤ → QueueItem
update_item_priority q new_priority = record q {
  priority = new_priority;
  score = calculate_score new_priority q.timestamp;
}

-- Durations in nanoseconds.
pub record QueueConfig : Type 0 where
  pub anti_starvation_enabled : Bool
  pub max_wait_time : ℤ
  pub worker_count : ℤ
  pub batch_size : ℤ
  pub processing_timeout : ℤ
