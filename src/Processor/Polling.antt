-- ===== src/Processor/Polling.antt =====
-- cmd/ad-processor/main.go, `pollQueue`: one tick takes a batch off the queue and hands it out.
use home_work_ad_processor_g.Prelude.{
  ℕ, suc, ◌<◌, ◌≡◌, refl, Bool, List, [], ◌∷◌, String, ℤ, pos, arith, Result, ok, err, ok-injective,
  subst,
}
use home_work_ad_processor_g.Queue.{QueueItem}
use home_work_ad_processor_g.Redis.{Redis, Laws}
use home_work_ad_processor_g.Redis.Sets.{without}
use home_work_ad_processor_g.RedisQueue.{Manager, QueueError}
use home_work_ad_processor_g.RedisQueue.Batch.{dequeue_batch, queue_items}
use home_work_ad_processor_g.RedisQueue.Removal.{taken_members}
use home_work_ad_processor_g.RedisQueue.BatchOutcome.{ArePlaced, Batched, dequeue_batch-Batched}
use home_work_ad_processor_g.Processor.{Channel, distribute_items}
use home_work_ad_processor_g.Processor.Distribution.{
  waiting, free, WithinCapacity, Handed, distribute_items-Handed,
}

module _ (r : Redis) (uuid_ok : String → Bool) where
  open r use {Store}

  abbrev pub polled :
      List Channel
      → Store × Result QueueError (List QueueItem)
      → Store × (List Channel × List QueueItem)
  polled cs (s, err e) = (s, (cs, []))
  polled cs (s, ok []) = (s, (cs, []))
  polled cs (s, ok (item ∷ items)) = (s, distribute_items (item ∷ items) cs)

  -- The queue, the channels and the skipped items after one tick; `batch_size` is the configured
  -- size and `now` the clock of the queue manager.
  unfoldable pub poll :
      Manager → ℤ → ℤ → Store → List Channel → Store × (List Channel × List QueueItem)
  poll m batch_size now s cs = polled cs (dequeue_batch r uuid_ok m s batch_size now)

module _ (r : Redis) (laws : Laws r) (uuid_ok : String → Bool) where
  open r use {Store}
  open laws use {zset, Up}

  polled-Handed :
      (cs : List Channel) (items : List QueueItem) (p : Store × Result QueueError (List QueueItem))
      → p.1 ≡ ok items
      → WithinCapacity cs
      → ((polled r uuid_ok cs p).0 ≡ p.0) × Handed items cs (polled r uuid_ok cs p).1
  unfolding distribute_items
  polled-Handed cs items (s, err e) h w = cc
  polled-Handed cs items (s, ok []) h w =
      (refl, subst (λ l. Handed l cs (cs, [])) (ok-injective h) (distribute_items-Handed [] cs w))
  polled-Handed cs items (s, ok (i ∷ is)) h w = (
    refl,
    subst (λ l. Handed l cs (distribute_items (i ∷ is) cs)) (ok-injective h)
        (distribute_items-Handed (i ∷ is) cs w),
  )

  pub poll_lem :
      (m : Manager) (k : ℕ) (now : ℤ) (s : Store) (cs : List Channel)
      → Up s
      → ArePlaced r laws uuid_ok m.shard_count s
      → WithinCapacity cs
      → (b : Batched r laws uuid_ok m s k now (dequeue_batch r uuid_ok m s (pos (suc k)) now))
        × ((poll r uuid_ok m (pos (suc k)) now s cs).0
            ≡ (dequeue_batch r uuid_ok m s (pos (suc k)) now).0)
        × Handed (queue_items r uuid_ok now b.top) cs (poll r uuid_ok m (pos (suc k)) now s cs).1
  unfolding poll
  poll_lem m k now s cs up placed w =
      let b = dequeue_batch-Batched r laws uuid_ok m s k now up placed in
      let (same, handed) =
        polled-Handed cs (queue_items r uuid_ok now b.top)
          (dequeue_batch r uuid_ok m s (pos (suc k)) now) b.answered w in
      (b, same, handed)

  -- With every channel filled to its capacity of ten, one tick on a server that is up, with every item in its own shard,
  -- removes a batch from the queue and gives none of it to a worker: every taken item is skipped.
  pub poll_busy_loses :
      (m : Manager) (k : ℕ) (now : ℤ) (s : Store) (cs : List Channel)
      → Up s
      → ArePlaced r laws uuid_ok m.shard_count s
      → WithinCapacity cs
      → free cs ≡ 0
      → (b : Batched r laws uuid_ok m s k now (dequeue_batch r uuid_ok m s (pos (suc k)) now))
        × ((j : ℕ)
            → j < m.shard_count
            → zset (poll r uuid_ok m (pos (suc k)) now s cs).0 j
              ≡ without (taken_members r uuid_ok b.top) (zset s j))
        × ((p : QueueItem → Bool)
            → waiting p (poll r uuid_ok m (pos (suc k)) now s cs).1.0 ≡ waiting p cs)
        × ((poll r uuid_ok m (pos (suc k)) now s cs).1.1 ≡ queue_items r uuid_ok now b.top)
  poll_busy_loses m k now s cs up placed w full =
      let (b, same, handed) = poll_lem m k now s cs up placed w in
      (
        b,
        λ j h. rw same (b.left j h),
        λ p. omega (arith, (rw full at (handed.counted p))),
        rw full at handed.skipped,
      )
