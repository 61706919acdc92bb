-- ===== src/RedisQueue/Placement.antt =====
-- Every operation of the queue manager keeps each item in the shard of its identifier, which is
-- where the later operations look for it.
use mathlib.Core.List.{reverse}
use home_work_ad_processor_g.Prelude.{
  ℕ, zero, suc, ◌+◌, ◌<◌, ◌≡◌, refl, ◌∙◌, inl, inr, Bool, Bool-cases, ==_iff, true, false, Option,
  none, some, List, [], ◌∷◌, String, arith, if◌then◌else◌, ◌==◌, ℤ, All, All-keep_if, All-reverse,
  Result,
}
use home_work_ad_processor_g.Queue.{QueueConfig}
use home_work_ad_processor_g.Redis.{Redis, Laws, Reply}
use home_work_ad_processor_g.Redis.Sets.{Z, zinsert, without}
use home_work_ad_processor_g.RedisQueue.{
  Manager, enqueue, dequeue, remove, update_priority, enqueued, taken, take_best, updated, removed,
  QueueError, rescore,
}
use home_work_ad_processor_g.RedisQueue.Hash.{shard_of}
use home_work_ad_processor_g.RedisQueue.Batch.{remove_groups, finish_batch, dequeue_batch}
use home_work_ad_processor_g.RedisQueue.Boost.{
  needs_boost, boosted_score, boost_one, boost_items, boost_shards, apply_anti_starvation,
}
use home_work_ad_processor_g.RedisQueue.Mapping.{IsPlaced}

-- A call of an operation that writes to the server.
pub data Call : Type 0 where
  enqueues : String → ℤ → ℤ → Call
  dequeues : ℤ → Call
  batches : ℤ → ℤ → Call
  updates : String → ℤ → Call
  removes : String → Call
  boosts : ℤ → Call

pub All-zinsert :
    (P : Z → Type 0) (before : String → String → Bool) (z : Z) (l : List Z)
    → P z
    → All P l
    → All P (zinsert before z l)
All-zinsert P before z [] h k = (h, tt)
All-zinsert P before z (y ∷ l) h k = ground (arith, All-zinsert P before z l)

module _ (r : Redis) (laws : Laws r) (uuid_ok : String → Bool) where
  open r use {Store}
  open laws use {zset, Up}

  -- The server after the call.
  unfoldable pub step : Manager → Store → Call → Store
  step m s (enqueues id priority now) = (enqueue r uuid_ok m s id priority now).0
  step m s (dequeues now) = (dequeue r uuid_ok m s now).0
  step m s (batches size now) = (dequeue_batch r uuid_ok m s size now).0
  step m s (updates id priority) = (update_priority r uuid_ok m s id priority).0
  step m s (removes id) = (remove r uuid_ok m s id).0
  step m s (boosts now) = apply_anti_starvation r m s now

  unfoldable pub run : Manager → Store → List Call → Store
  unfolding step
  run m s [] = s
  run m s (c ∷ cs) = run m (step m s c) cs

  abbrev pub IsSound : ℕ → Store → Type 0
  IsSound n s = Up s × ((j : ℕ) → j < n → IsPlaced (shard_of n) j (zset s j))

  zadd-IsSound :
      (n : ℕ) (s : Store) (k : ℕ) (z : Z)
      → IsSound n s
      → shard_of n z.member ≡ k
      → IsSound n (r.zadd s k z).0
  zadd-IsSound n s k z (up, placed) e =
      (laws.zadd-Up s k z up, λ j h. rw (laws.zset-zadd s k z j up) (at j h))
    where
      at :
          (j : ℕ)
          → j < n
          → IsPlaced (shard_of n) j (
              if k == j
              then zinsert laws.before z (without (z.member ∷ []) (zset s k))
              else zset s j)
      at j h = elim (Bool-cases (k == j)) [
        | inl q ↦
            rw (q, (==_iff k j).0 q)
              (All-zinsert _ laws.before z _ (e ∙ (==_iff k j).0 q)
                (All-keep_if _ _ (zset s j) (placed j h)))
        | inr q ↦ rw q (placed j h)
      ]

  zrem-IsSound :
      (n : ℕ) (s : Store) (k : ℕ) (ms : List String) → IsSound n s → IsSound n (r.zrem s k ms).0
  zrem-IsSound n s k ms (up, placed) =
      (laws.zrem-Up s k ms up, λ j h. rw (laws.zset-zrem s k ms j up) (at j h))
    where
      at :
          (j : ℕ)
          → j < n
          → IsPlaced (shard_of n) j (if k == j then without ms (zset s k) else zset s j)
      at j h = elim (Bool-cases (k == j)) [
        | inl q ↦ rw (q, (==_iff k j).0 q) (All-keep_if _ _ (zset s j) (placed j h))
        | inr q ↦ rw q (placed j h)
      ]

  publish-IsSound : (n : ℕ) (s : Store) (t : String) → IsSound n s → IsSound n (r.publish s t)
  publish-IsSound n s t (up, placed) =
      (laws.publish-Up s t up, λ j h. rw (laws.zset-publish s t j up) (placed j h))

  enqueued-IsSound :
      (n : ℕ) (id : String) (p : Store × Reply (Unit {0}))
      → IsSound n p.0
      → IsSound n (enqueued r uuid_ok id p).0
  enqueued-IsSound n id (s, Reply.ok _) h = publish-IsSound n s _ h
  enqueued-IsSound n id (s, Reply.nil) h = h
  enqueued-IsSound n id (s, Reply.fail) h = h

  taken-IsSound :
      (n : ℕ) (z : Z) (now : ℤ) (p : Store × Reply ℕ)
      → IsSound n p.0
      → IsSound n (taken r uuid_ok z now p).0
  taken-IsSound n z now (s, Reply.ok _) h = h
  taken-IsSound n z now (s, Reply.nil) h = h
  taken-IsSound n z now (s, Reply.fail) h = h

  take_best-IsSound :
      (n : ℕ) (s : Store) (now : ℤ) (b : Result QueueError (Option (Z × ℕ)))
      → IsSound n s
      → IsSound n (take_best r uuid_ok s now b).0
  take_best-IsSound n s now (Result.err e) h = h
  take_best-IsSound n s now (Result.ok none) h = h
  take_best-IsSound n s now (Result.ok (some (z, i))) h =
      taken-IsSound n z now (r.zrem s i (z.member ∷ [])) (zrem-IsSound n s i (z.member ∷ []) h)

  remove_groups-IsSound :
      (n : ℕ) (s : Store) (groups : List (ℕ × List String))
      → IsSound n s
      → IsSound n (remove_groups r uuid_ok s groups)
  unfolding remove_groups
  remove_groups-IsSound n s [] h = h
  remove_groups-IsSound n s ((i, ms) ∷ groups) h =
      remove_groups-IsSound n (r.zrem s i ms).0 groups (zrem-IsSound n s i ms h)

  finish_batch-IsSound :
      (n : ℕ) (s : Store) (size now : ℤ) (c : Result QueueError (List Z × List (String × ℕ)))
      → IsSound n s
      → IsSound n (finish_batch r uuid_ok s size now c).0
  finish_batch-IsSound n s size now (Result.err e) h = h
  finish_batch-IsSound n s size now (Result.ok (items, mapping)) h = remove_groups-IsSound n s _ h

  updated-IsSound :
      (n : ℕ) (p : Store × Reply (Unit {0})) → IsSound n p.0 → IsSound n (updated r uuid_ok p).0
  updated-IsSound n (s, Reply.ok _) h = h
  updated-IsSound n (s, Reply.nil) h = h
  updated-IsSound n (s, Reply.fail) h = h

  update_priority-IsSound :
      (m : Manager) (s : Store) (id : String) (priority : ℤ)
      → IsSound m.shard_count s
      → IsSound m.shard_count (update_priority r uuid_ok m s id priority).0
  unfolding update_priority
  update_priority-IsSound m s id priority h = cases (r.zscore s (shard_of m.shard_count id) id) refl
    where
      cases :
          (q : Reply ℤ)
          → r.zscore s (shard_of m.shard_count id) id ≡ q
          → IsSound m.shard_count (update_priority r uuid_ok m s id priority).0
      cases (Reply.ok x) e =
          rw (e, update_priority)
            (updated-IsSound m.shard_count _ (
              zadd-IsSound m.shard_count s (shard_of m.shard_count id)
                (record { member = id; score = rescore priority x }) h refl))
      cases Reply.nil e = rw (e, update_priority) h
      cases Reply.fail e = rw (e, update_priority) h

  removed-IsSound :
      (n : ℕ) (id : String) (p : Store × Reply ℕ)
      → IsSound n p.0
      → IsSound n (removed r uuid_ok id p).0
  removed-IsSound n id (s, Reply.ok _) h = h
  removed-IsSound n id (s, Reply.nil) h = h
  removed-IsSound n id (s, Reply.fail) h = h

  if-IsSound :
      (n : ℕ) (b : Bool) (s t : Store) → IsSound n s → IsSound n t → IsSound n (if b then s else t)
  if-IsSound n true s t h k = h
  if-IsSound n false s t h k = k

  boost_one-IsSound :
      (config : QueueConfig) (now : ℤ) (n i : ℕ) (s : Store) (z : Z)
      → shard_of n z.member ≡ i
      → IsSound n s
      → IsSound n (boost_one r config now i s z)
  unfolding boost_one
  boost_one-IsSound config now n i s z p h =
      if-IsSound n (needs_boost config now z.score) _ s
        (zadd-IsSound n s i (record { member = z.member; score = boosted_score now z.score }) h p) h

  boost_items-IsSound :
      (config : QueueConfig) (now : ℤ) (n i : ℕ) (s : Store) (zs : List Z)
      → IsPlaced (shard_of n) i zs
      → IsSound n s
      → IsSound n (boost_items r config now i s zs)
  unfolding boost_items
  boost_items-IsSound config now n i s [] p h = h
  boost_items-IsSound config now n i s (z ∷ zs) p h =
      boost_items-IsSound config now n i (boost_one r config now i s z) zs p.1
        (boost_one-IsSound config now n i s z p.0 h)

  boost_shards-IsSound :
      (config : QueueConfig) (now : ℤ) (n k i : ℕ) (s : Store)
      → i + k ≡ n
      → IsSound n s
      → IsSound n (boost_shards r config now k i s)
  unfolding boost_shards
  boost_shards-IsSound config now n zero i s e h = h
  boost_shards-IsSound config now n (suc k) i s e h =
      rw (laws.zrange_lem s i h.0, boost_shards)
        (boost_shards-IsSound config now n k (suc i) _ (omega arith) (
          boost_items-IsSound config now n i s (reverse (zset s i))
            (All-reverse _ (zset s i) (h.1 i (omega arith))) h))

  step-IsSound :
      (m : Manager) (s : Store) (c : Call)
      → IsSound m.shard_count s
      → IsSound m.shard_count (step m s c)
  unfolding step enqueue dequeue dequeue_batch remove apply_anti_starvation
  step-IsSound m s (enqueues id priority now) h =
      enqueued-IsSound m.shard_count id _ (zadd-IsSound m.shard_count s _ _ h refl)
  step-IsSound m s (dequeues now) h = take_best-IsSound m.shard_count s now _ h
  step-IsSound m s (batches size now) h = finish_batch-IsSound m.shard_count s size now _ h
  step-IsSound m s (updates id priority) h = update_priority-IsSound m s id priority h
  step-IsSound m s (removes id) h =
      removed-IsSound m.shard_count id _ (zrem-IsSound m.shard_count s _ (id ∷ []) h)
  step-IsSound m s (boosts now) h =
      if-IsSound m.shard_count m.config.anti_starvation_enabled _ s
        (boost_shards-IsSound m.config now m.shard_count m.shard_count 0 s (omega arith) h) h

  -- From a server that is up with every item in its own shard, any sequence of operations of the
  -- queue manager leads to such a server again.
  pub run-IsSound :
      (m : Manager) (s : Store) (cs : List Call)
      → IsSound m.shard_count s
      → IsSound m.shard_count (run m s cs)
  unfolding run
  run-IsSound m s [] h = h
  run-IsSound m s (c ∷ cs) h = run-IsSound m (step m s c) cs (step-IsSound m s c h)
