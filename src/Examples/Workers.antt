-- ===== src/Examples/Workers.antt =====
-- The theorems on the processor at work.
use home_work_ad_processor_g.Prelude.{
  ℕ, ◌<◌, ◌≡◌, refl, arith, Bool, false, List, [], ◌∷◌, pos, lookup, insert, replicate,
}
use home_work_ad_processor_g.Ad.{Ad, AdStatus}
use home_work_ad_processor_g.Queue.{QueueItem}
use home_work_ad_processor_g.Redis.Sets.{without}
use home_work_ad_processor_g.Redis.Memory.{memory, memory_laws}
use home_work_ad_processor_g.RedisQueue.Batch.{dequeue_batch, queue_items}
use home_work_ad_processor_g.RedisQueue.Removal.{taken_members}
use home_work_ad_processor_g.RedisQueue.BatchOutcome.{Batched}
use home_work_ad_processor_g.Repository.Memory.{
  AdMap, Keyed, find_by_id, save-Keyed, memory_ads, memory_ads_laws,
}
use home_work_ad_processor_g.Processor.{Channel, process_ad}
use home_work_ad_processor_g.Processor.Distribution.{waiting, WithinCapacity}
use home_work_ad_processor_g.Processor.Polling.{poll, poll_busy_loses}
use home_work_ad_processor_g.Processor.Processing.{Processed, process_ad-Processed}
use home_work_ad_processor_g.Examples.Data.{
  any_id, two_shards, two_queued, two_queued-IsSound, puzzle,
}

abbrev item : QueueItem
item = record { ad_id = "ad-9"; priority = pos 3; timestamp = pos 90; score = pos 3 }

-- One worker with one free place, and one with none.
abbrev nearly_full : List Channel
nearly_full = replicate 9 item ∷ replicate 10 item ∷ []

abbrev full : List Channel
full = replicate 10 item ∷ replicate 10 item ∷ []

full-WithinCapacity : WithinCapacity full
full-WithinCapacity = (omega arith, (omega arith, tt))

poll_busy_loses_example :
    (b : Batched memory memory_laws any_id two_shards two_queued 1
      (pos 105)
      (dequeue_batch memory any_id two_shards two_queued (pos 2) (pos 105)))
    × ((j : ℕ)
        → j < 2
        → (poll memory any_id two_shards (pos 2) (pos 105) two_queued full).0 j
          ≡ without (taken_members memory any_id b.top) (two_queued j))
    × ((p : QueueItem → Bool)
        → waiting p (poll memory any_id two_shards (pos 2) (pos 105) two_queued full).1.0
          ≡ waiting p full)
    × ((poll memory any_id two_shards (pos 2) (pos 105) two_queued full).1.1
        ≡ queue_items memory any_id (pos 105) b.top)
poll_busy_loses_example =
    poll_busy_loses memory memory_laws any_id two_shards 1 (pos 105) two_queued full
      two_queued-IsSound.0 two_queued-IsSound.1 full-WithinCapacity refl

abbrev stored : AdMap
stored = ("ad-1", puzzle) ∷ []

stored-Keyed : Keyed stored
unfolding insert lookup
stored-Keyed = save-Keyed [] puzzle (λ id a e. cc)

process_ad-Processed_example :
    Processed
      (memory_ads (pos 0))
      (memory_ads_laws (pos 0))
      puzzle
      stored
      false
      (process_ad (memory_ads (pos 0)) stored "ad-1" (pos 10) false (pos 14))
unfolding find_by_id lookup
process_ad-Processed_example =
    process_ad-Processed (memory_ads (pos 0)) (memory_ads_laws (pos 0)) stored "ad-1" puzzle
      (pos 10) false (pos 14) stored-Keyed refl refl

abbrev finished : Ad
finished = record puzzle { status = AdStatus.completed }
