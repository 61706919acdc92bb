-- ===== src/Service/Repriority.antt =====
-- internal/application/service/ad_service.go, `ChangePriorityForGameFamily` and
-- `ChangePriorityForOlderAds`: what is counted and what is left alone.
use home_work_ad_processor_g.Prelude.{
  ◌==◌, ℕ, suc, ◌-ℤ◌, ◌+◌, not, count_if_cong, ◌≡◌, refl, sym, ap, ◌∙◌, String, List, [], ◌∷◌, ℤ,
  Result, ok, err, Bool, true, false, if◌then◌else◌, Option, none, some, count_if, inl, inr,
  Bool-cases, str_eq, eq_iff, subst, arith,
}
use home_work_ad_processor_g.Ad.{Ad, is_valid}
use home_work_ad_processor_g.Redis.{Redis}
use home_work_ad_processor_g.Redis
use home_work_ad_processor_g.RedisQueue.{Manager, QueueError, rescore, update_priority}
use home_work_ad_processor_g.Redis.Sets.{Z}
use home_work_ad_processor_g.RedisQueue.Hash.{shard_of}
use home_work_ad_processor_g.RedisQueue.Scores.{
  score_at, score_at-zadd, updated_lem, update_priority_missing,
}
use home_work_ad_processor_g.Repository.{Repository, RepoError}
use home_work_ad_processor_g.Service.Moves.{
  Moved, moved, moved-none_listed, moved-moved, rescored-Moved, absent-Moved,
}
use home_work_ad_processor_g.Service.{
  ServiceError, State, queued_ids, update_queue, invalid_priority, find_failed, update_failed,
  change_ids, change_found, counted_after, change_priority_for_older_ads,
}

abbrev pub is_some {ℓ} : {A : Type ℓ} → Option A → Bool
is_some none = false
is_some (some a) = true

module _ (repo : Repository) (r : Redis) (laws : Redis.Laws r) (uuid_ok : String → Bool)
    (m : Manager) where
  -- Whether an ad is in its shard.
  abbrev pub is_in_queue : r.Store → String → Bool
  is_in_queue q id = is_some (score_at r laws uuid_ok q (shard_of m.shard_count id) id)

  -- What one change of priority does, by what the queue holds.
  record Changed (q : r.Store) (p : ℤ) (id : String) (out : r.Store × Result QueueError (Unit {0}))
      : Type 0 where
    up : laws.Up out.0
    same : (x : String) → is_in_queue out.0 x ≡ is_in_queue q x
    scores : Moved r laws uuid_ok m q p (id ∷ []) out.0
    counted : elim out.1 as (λ x. ℕ) [ ok _ ↦ 1 | err _ ↦ 0 ] ≡ (if is_in_queue q id then 1 else 0)

  same_members :
      (q : r.Store) (id x : String) (score new_score : ℤ)
      → laws.Up q
      → score_at r laws uuid_ok q (shard_of m.shard_count id) id ≡ some score
      → is_in_queue
          (r.zadd q (shard_of m.shard_count id) (record { member = id; score = new_score })).0
          x
        ≡ is_in_queue q x
  same_members q id x score new_score up e =
      rw
        (score_at-zadd r laws uuid_ok q (shard_of m.shard_count id)
          (record { member = id; score = new_score }) (shard_of m.shard_count x) x up)
        (elim (Bool-cases (str_eq id x)) [
          | inl same ↦
              let here =
                subst (λ y. score_at r laws uuid_ok q (shard_of m.shard_count y) y ≡ some score)
                  ((eq_iff id x).0 same) e in
              rw (same, here) (ground arith)
          | inr other ↦ rw other (ground arith)
        ])

  update_one :
      (q : r.Store) (id : String) (p : ℤ)
      → laws.Up q
      → Changed q p id (update_priority r uuid_ok m q id p)
  unfolding update_priority
  update_one q id p up = go (score_at r laws uuid_ok q (shard_of m.shard_count id) id) refl
    where
      go :
          (o : Option ℤ)
          → score_at r laws uuid_ok q (shard_of m.shard_count id) id ≡ o
          → Changed q p id (update_priority r uuid_ok m q id p)
      go none e = rw (update_priority_missing r laws uuid_ok m q id p up e) (record {
        up = up;
        same = λ x. refl;
        scores = absent-Moved r laws uuid_ok m q p id e;
        counted = rw e refl;
      })
      go (some score) e =
          let k = shard_of m.shard_count id in
          let z : Z = record { member = id; score = rescore p score } in
          rw
            (
              update_priority,
              laws.zscore_lem q k id up,
              e,
              updated_lem r laws uuid_ok (r.zadd q k z) (laws.zadd_ok q k z up),
            )
            (record {
              up = laws.zadd-Up q k z up;
              same = λ x. same_members q id x score (rescore p score) up e;
              scores = λ j x.
                  score_at-zadd r laws uuid_ok q k z j x up
                  ∙ rescored-Moved r laws uuid_ok m q p id (some score) e j x;
              counted = rw e refl;
            })

  counted_step :
      (result : Result QueueError (Unit {0})) (n : ℕ)
      → elim result as (λ x. ℕ) [ ok _ ↦ suc n | err _ ↦ n ]
        ≡ elim result as (λ x. ℕ) [ ok _ ↦ 1 | err _ ↦ 0 ] + n
  counted_step (ok u) n = omega arith
  counted_step (err e) n = omega arith

  -- The loop over the queue counts the identifiers that are in the queue, on a server that is up,
  -- keeps the same ads in the queue, and replaces the priority in the scores of the listed ones.
  pub update_queue_lem :
      (q : r.Store) (ids : List String) (p : ℤ)
      → laws.Up q
      → ((update_queue repo r uuid_ok m q ids p).1 ≡ count_if (is_in_queue q) ids)
        × laws.Up (update_queue repo r uuid_ok m q ids p).0
        × ((x : String) → is_in_queue (update_queue repo r uuid_ok m q ids p).0 x ≡ is_in_queue q x)
        × Moved r laws uuid_ok m q p ids (update_queue repo r uuid_ok m q ids p).0
  unfolding update_queue
  update_queue_lem q [] p up = (
    refl,
    up,
    λ x. refl,
    λ j x. moved-none_listed (shard_of m.shard_count x == j) p x (score_at r laws uuid_ok q j x),
  )
  update_queue_lem q (id ∷ ids) p up =
      let first = update_one q id p up in
      let (count, up2, same, scores) =
        update_queue_lem (update_priority r uuid_ok m q id p).0 ids p first.up in
      let later =
        count_if_cong (is_in_queue (update_priority r uuid_ok m q id p).0) (is_in_queue q) ids
          first.same in
      (
        counted_step (update_priority r uuid_ok m q id p).1 _
            ∙ rw (first.counted, count, later) (ground arith),
        up2,
        λ x. same x ∙ first.same x,
        λ j x.
            let own = shard_of m.shard_count x == j in
            scores j x
            ∙ ap (moved own p ids x) (first.scores j x)
            ∙ moved-moved own p id ids x (score_at r laws uuid_ok q j x),
      )

  abbrev Outcome : Type 0
  Outcome = State repo r uuid_ok m × Result ServiceError ℕ

  -- The repository after the batch, which is not called for no ad.
  abbrev pub BatchDone : repo.Store → List String → ℤ → repo.Store → Type 0
  BatchDone s [] p s1 = s1 ≡ s
  BatchDone s (id ∷ ids) p s1 = repo.update_priority_batch s (id ∷ ids) p ≡ (s1, ok tt)

  -- The answer and the stores after a change of the priority of the found ads.
  abbrev pub Repriority : repo.Store → r.Store → ℤ → Result RepoError (List Ad) → Outcome → Type 0
  Repriority s q p found (out, err (invalid_priority _)) = (is_valid p ≡ false) × (out ≡ (s, q))
  Repriority s q p found (out, err (find_failed e)) = (found ≡ err e) × (out ≡ (s, q))
  Repriority s q p found (out, err (update_failed e)) = out.1 ≡ q
  Repriority s q p found (out, err _) = ⊥
  Repriority s q p found (out, ok n) =
      (is_valid p ≡ true)
      × ((ads : List Ad) × (found ≡ ok ads)
          × (n ≡ count_if (is_in_queue q) (queued_ids ads))
          × BatchDone s (queued_ids ads) p out.0
          × ((x : String) → is_in_queue out.1 x ≡ is_in_queue q x)
          × Moved r laws uuid_ok m q p (queued_ids ads) out.1)

  by_ids :
      (s : repo.Store) (q : r.Store) (ads : List Ad) (ids : List String) (p : ℤ)
      → laws.Up q
      → is_valid p ≡ true
      → queued_ids ads ≡ ids
      → Repriority s q p (ok ads) (change_ids repo r uuid_ok m (s, q) ids p)
  by_ids s q ads [] p up valid e = (
    valid,
    (
      ads,
      refl,
      ap (count_if (is_in_queue q)) (sym e),
      subst (λ l. BatchDone s l p s) (sym e) refl,
      λ x. refl,
      subst (λ l. Moved r laws uuid_ok m q p l q) (sym e)
          (λ j x. moved-none_listed (shard_of m.shard_count x == j) p x _),
    ),
  )
  by_ids s q ads (id ∷ ids) p up valid e = by_batch (repo.update_priority_batch s (id ∷ ids) p) refl
    where
      by_batch :
          (b : repo.Store × Result RepoError (Unit {0}))
          → repo.update_priority_batch s (id ∷ ids) p ≡ b
          → Repriority s q p (ok ads) (counted_after repo r uuid_ok m q (id ∷ ids) p b)
      by_batch (s1, err x) h = refl
      by_batch (s1, ok u) h =
          let (count, up2, same, scores) = update_queue_lem q (id ∷ ids) p up in
          (
            valid,
            (
              ads,
              refl,
              count ∙ ap (count_if (is_in_queue q)) (sym e),
              subst (λ l. BatchDone s l p s1) (sym e) h,
              same,
              subst
                  (λ l.
                    Moved r laws uuid_ok m q p l (update_queue repo r uuid_ok m q (id ∷ ids) p).0)
                  (sym e) scores,
            ),
          )

  by_valid :
      (s : repo.Store) (q : r.Store) (p : ℤ) (found : Result RepoError (List Ad))
      → laws.Up q
      → Repriority s q p found (
          if not (is_valid p)
          then ((s, q), err (invalid_priority p))
          else change_found repo r uuid_ok m (s, q) p found)
  by_valid s q p found up = go (is_valid p) found refl
    where
      go :
          (b : Bool) (found : Result RepoError (List Ad))
          → is_valid p ≡ b
          → Repriority s q p found (
              if not b
              then ((s, q), err (invalid_priority p))
              else change_found repo r uuid_ok m (s, q) p found)
      go false found h = (h, refl)
      go true (err e) h = (refl, refl)
      go true (ok ads) h = by_ids s q ads (queued_ids ads) p up h refl

  -- `ChangePriorityForOlderAds` with the queue up: an invalid priority or a failed search for the ads
  -- older than the given duration changes nothing, a failed batch leaves the queue as it was, and
  -- otherwise the batch has taken place for the queued ads that were found, the answer counts those
  -- of them that stand in the queue, the same ads stand in the queue as before, and the scores of all
  -- shards are what they were, but that the new priority has replaced the old one in the score of each
  -- of those ads in its shard.
  change_priority_for_older_ads-Repriority :
      (s : repo.Store) (q : r.Store) (now older_than p : ℤ)
      → laws.Up q
      → Repriority s q p
          (repo.find_older_than s (now -ℤ older_than))
          (change_priority_for_older_ads repo r uuid_ok m (s, q) now older_than p)
  unfolding change_priority_for_older_ads
  change_priority_for_older_ads-Repriority s q now older_than p up =
      by_valid s q p (repo.find_older_than s (now -ℤ older_than)) up
