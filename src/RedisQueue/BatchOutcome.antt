-- ===== src/RedisQueue/BatchOutcome.antt =====
-- What `DequeueBatch` takes, answers and leaves, and that `GetNext` foretells it.
use Prim.Native.Nat.{min}
use home_work_ad_processor_g.Prelude.{
  ℕ, suc, ◌<◌, ◌≤◌, ◌≡◌, refl, ap, Bool, List, [], String, arith, ℤ, pos, take, count_if, Result,
}
use home_work_ad_processor_g.Queue.{QueueItem}
use home_work_ad_processor_g.Redis.{Redis, Laws}
use home_work_ad_processor_g.Redis.Sets.{Z, IsDescending, without}
use home_work_ad_processor_g.RedisQueue.{Manager, QueueError}
use home_work_ad_processor_g.RedisQueue.Hash.{shard_of}
use home_work_ad_processor_g.RedisQueue.Batch.{
  shard_in, queue_items, next_items, dequeue_batch, get_next,
}
use home_work_ad_processor_g.RedisQueue.Exchange.{exchange_sort, All-take-exchange_sort}
use home_work_ad_processor_g.RedisQueue.TopItems.{
  scores_above, queued_above, total, chosen_lem, stop_of_size,
}
use home_work_ad_processor_g.RedisQueue.Mapping.{IsPlaced, is_known, collect_mapping}
use home_work_ad_processor_g.RedisQueue.Removal.{taken_members, remove_groups-to_remove}

module _ (r : Redis) (laws : Laws r) (uuid_ok : String → Bool) where
  open r use {Store}
  open laws use {zset, Up}

  -- Every queued item stands in the shard that its identifier hashes to.
  abbrev pub ArePlaced : ℕ → Store → Type 0
  ArePlaced n s = (j : ℕ) → j < n → IsPlaced (shard_of n) j (zset s j)

  -- The batch `top` is in descending order, for every score it has as many items above that score
  -- as the whole queue has, or its full size, and it is made of items of the shards: no test of members
  -- and scores passes on more of its items than on items of the queue.
  pub record Batched (m : Manager) (s : Store) (k : ℕ) (now : ℤ)
      (out : Store × Result QueueError (List QueueItem)) : Type 0 where
    pub top : List Z
    pub descending : IsDescending top
    pub best :
        (x : ℤ)
        → count_if (scores_above x) top
          ≡ min (suc k) (queued_above r laws uuid_ok s m.shard_count x)
    pub genuine :
        (p : Z → Bool) → count_if p top ≤ total (λ j. count_if p (zset s j)) m.shard_count 0
    pub answered : out.1 ≡ Result.ok (queue_items r uuid_ok now top)
    pub foretold :
        get_next r uuid_ok m s (pos (suc k)) now ≡ Result.ok (queue_items r uuid_ok now top)
    pub left :
        (j : ℕ)
        → j < m.shard_count
        → zset out.0 j ≡ without (taken_members r uuid_ok top) (zset s j)

  pub dequeue_batch-Batched :
      (m : Manager) (s : Store) (k : ℕ) (now : ℤ)
      → Up s
      → ArePlaced m.shard_count s
      → Batched m s k now (dequeue_batch r uuid_ok m s (pos (suc k)) now)
  unfolding dequeue_batch get_next
  dequeue_batch-Batched m s k now up placed =
      let (out, e, descending, best, genuine) = chosen_lem r laws uuid_ok s k m.shard_count up in
      let e' = (rw (stop_of_size k) at e) in
      let (right, known) =
        collect_mapping r laws uuid_ok (shard_of m.shard_count) s k m.shard_count 0 m.shard_count []
          [] up placed (omega arith) tt tt e' in
      rw e (record {
        top = take (suc k) (exchange_sort out.0);
        descending = descending;
        best = best;
        genuine = genuine;
        answered = refl;
        foretold = ap (next_items r uuid_ok (pos (suc k)) now) e;
        left = λ j h.
            remove_groups-to_remove r uuid_ok laws s (shard_of m.shard_count) out.1
              (take (suc k) (exchange_sort out.0)) j up right
              (All-take-exchange_sort (λ z. is_known (shard_in out.1 z.member)) (suc k) out.0 known)
              (placed j h);
      })
