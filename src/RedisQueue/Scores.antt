-- ===== src/RedisQueue/Scores.antt =====
-- `Enqueue`, `UpdatePriority` and `Remove` seen through the scores of the queued members.
use home_work_ad_processor_g.Prelude.{
  ℕ, ◌≤◌, ◌≡◌, refl, ap, ◌∙◌, Bool, ◌&&◌, Option, none, some, String, str_eq, if◌then◌else◌, ◌==◌,
  ==_iff, Bool-cases, inl, inr, ℤ, pos, Result,
}
use home_work_ad_processor_g.Redis.{Redis, Laws, Reply}
use home_work_ad_processor_g.Redis.Sets.{Z, score_of}
use home_work_ad_processor_g.RedisQueue.{
  Manager, QueueError, enqueue, enqueued, update_priority, updated, notification,
}
use home_work_ad_processor_g.RedisQueue.Hash.{shard_of}
use home_work_ad_processor_g.RedisQueue.Score.{max_time, calculate_score}
use home_work_ad_processor_g.RedisQueue.Rescore.{rescore-calculate_score, score_of-zadd}

module _ (r : Redis) (laws : Laws r) (uuid_ok : String → Bool) where
  open r use {Store}
  open laws use {zset, Up}

  -- The score of a member in a shard.
  abbrev pub score_at : Store → ℕ → String → Option ℤ
  score_at s j x = score_of x (zset s j)

  pub score_at-zadd :
      (s : Store) (k : ℕ) (z : Z) (j : ℕ) (x : String)
      → Up s
      → score_at (r.zadd s k z).0 j x
        ≡ (if k == j && str_eq z.member x then some z.score else score_at s j x)
  score_at-zadd s k z j x up = rw (laws.zset-zadd s k z j up) (elim (Bool-cases (k == j)) [
    | inl e ↦ rw (e, (==_iff k j).0 e) (score_of-zadd laws.before z x (zset s j))
    | inr e ↦ rw e
  ])

  enqueued_lem :
      (id : String) (p : Store × Reply (Unit {0}))
      → p.1 ≡ Reply.ok tt
      → enqueued r uuid_ok id p ≡ (r.publish p.0 (notification id), Result.ok tt)
  enqueued_lem id (s, Reply.ok u) e = refl
  enqueued_lem id (s, Reply.nil) e = cc
  enqueued_lem id (s, Reply.fail) e = cc

  pub updated_lem :
      (p : Store × Reply (Unit {0})) → p.1 ≡ Reply.ok tt → updated r uuid_ok p ≡ (p.0, Result.ok tt)
  updated_lem (s, Reply.ok u) e = refl
  updated_lem (s, Reply.nil) e = cc
  updated_lem (s, Reply.fail) e = cc

  -- An operation succeeds, leaves the server up, and has set the score of one member in its shard.
  abbrev pub Sets : Manager → Store → String → ℤ → Store × Result QueueError (Unit {0}) → Type 0
  Sets m s id score out =
      (out.1 ≡ Result.ok tt)
      × Up out.0
      × ((j : ℕ) (x : String)
          → score_at out.0 j x ≡ (
              if shard_of m.shard_count id == j && str_eq id x then some score else score_at s j x))

  -- On a server that is up, `Enqueue` sets the score of the ad in its shard to that of its priority
  -- and the clock, and leaves every other score of every shard.
  pub enqueue-Sets :
      (m : Manager) (s : Store) (id : String) (priority now : ℤ)
      → Up s
      → Sets m s id (calculate_score priority now) (enqueue r uuid_ok m s id priority now)
  unfolding enqueue
  enqueue-Sets m s id priority now up =
      let k = shard_of m.shard_count id in
      let z : Z = record { member = id; score = calculate_score priority now } in
      rw (enqueued_lem id (r.zadd s k z) (laws.zadd_ok s k z up)) (
        refl,
        laws.publish-Up _ (notification id) (laws.zadd-Up s k z up),
        λ j x.
            ap (score_of x) (laws.zset-publish _ (notification id) j (laws.zadd-Up s k z up))
            ∙ score_at-zadd s k z j x up,
      )

  -- On a server that is up, `UpdatePriority` of an ad that was queued at `t` with priority `p`
  -- leaves the queue with the scores that `Enqueue` at `t` with the new priority would have left:
  -- the ad keeps its arrival, and every other score of every shard stays.
  pub update_priority-Sets :
      (m : Manager) (s : Store) (id : String) (p q t : ℕ)
      → t ≤ max_time
      → Up s
      → score_at s (shard_of m.shard_count id) id ≡ some (calculate_score (pos p) (pos t))
      → Sets m s id (calculate_score (pos q) (pos t)) (update_priority r uuid_ok m s id (pos q))
  unfolding update_priority
  update_priority-Sets m s id p q t h up e =
      let k = shard_of m.shard_count id in
      let z : Z = record { member = id; score = calculate_score (pos q) (pos t) } in
      rw
        (
          laws.zscore_lem s k id up,
          e,
          update_priority,
          rescore-calculate_score p q t h,
          updated_lem (r.zadd s k z) (laws.zadd_ok s k z up),
        )
        (refl, laws.zadd-Up s k z up, λ j x. score_at-zadd s k z j x up)

  -- On a server that is up, `UpdatePriority` of an ad that is not in the shard of its identifier is
  -- refused, and the queue stays as it was.
  pub update_priority_missing :
      (m : Manager) (s : Store) (id : String) (priority : ℤ)
      → Up s
      → score_at s (shard_of m.shard_count id) id ≡ none
      → update_priority r uuid_ok m s id priority ≡ (s, Result.err (QueueError.not_in_queue id))
  unfolding update_priority
  update_priority_missing m s id priority up e =
      rw (laws.zscore_lem s (shard_of m.shard_count id) id up, e, update_priority)
