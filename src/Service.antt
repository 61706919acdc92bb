-- ===== src/Service.antt =====
-- internal/application/service/ad_service.go: the service for ads, on a repository of ads and on the
-- queue manager. The two stores are a pair; fresh identifiers and the readings of the clock are
-- arguments, in nanoseconds for the ads and in Unix seconds for the queue.
pub mod Creation
pub mod Moves
pub mod Repriority
use home_work_ad_processor_g.Prelude.{
  ℕ, suc, ◌+◌, Bool, not, Option, none, some, List, [], ◌∷◌, map, String, if◌then◌else◌, keep_if, ℤ,
  pos, negsuc, ◌+ℤ◌, ◌-ℤ◌, ◌*ℤ◌, Result, ok, err,
}
use home_work_ad_processor_g.Ad.{
  Ad, AdStatus, AdError, priority_normal, is_valid, is_queued, parse_ad_id, wait_time,
}
use home_work_ad_processor_g.Ad
use home_work_ad_processor_g.Queue.{QueueItem}
use home_work_ad_processor_g.Redis.{Redis}
use home_work_ad_processor_g.RedisQueue.{Manager, QueueError, enqueue, update_priority}
use home_work_ad_processor_g.RedisQueue.Sizes.{get_position, get_size_by_priority}
use home_work_ad_processor_g.RedisQueue.Batch.{get_next}
use home_work_ad_processor_g.Repository.{Repository, RepoError}

pub record CreateAdRequest : Type 0 where
  pub title : String
  pub game_family : String
  pub target_audience : List String
  pub priority : Option ℤ
  pub max_wait_time : Option ℤ

pub record CreateAdResponse : Type 0 where
  pub ad_id : String
  pub status : AdStatus
  pub priority : ℤ
  pub position : ℤ
  pub estimated_process_time : ℤ

pub record GetAdStatusResponse : Type 0 where
  pub ad_id : String
  pub title : String
  pub game_family : String
  pub status : AdStatus
  pub priority : ℤ
  pub position : Option ℕ
  pub wait_time : ℤ
  pub created_at : ℤ
  pub processed_at : Option ℤ

pub data ServiceError : Type 0 where
  create_failed : AdError → ServiceError
  save_failed find_failed update_failed : RepoError → ServiceError
  enqueue_failed : QueueError → ServiceError
  invalid_id : ServiceError
  invalid_priority : ℤ → ServiceError

abbrev pub second : ℤ
second = pos 1_000_000_000

abbrev pub priority_of : CreateAdRequest → ℤ
priority_of req = elim req.priority [ none ↦ priority_normal | some p ↦ p ]

-- Five minutes, or the given number of seconds.
abbrev pub wait_of : CreateAdRequest → ℤ
wait_of req = elim req.max_wait_time [ none ↦ pos 300_000_000_000 | some w ↦ w *ℤ second ]

abbrev pub position_or_default : Result QueueError ℕ → ℤ
position_or_default (ok n) = pos n
position_or_default (err e) = negsuc 0

abbrev pub position_if_known : Result QueueError ℕ → Option ℕ
position_if_known (ok n) = some n
position_if_known (err e) = none

-- The filter of both loops over the found ads.
abbrev pub queued_ids : List Ad → List String
queued_ids ads = map (λ (a : Ad). a.id) (keep_if (λ (a : Ad). is_queued a.status) ads)

module _ (repo : Repository) (r : Redis) (uuid_ok : String → Bool) (m : Manager) where
  abbrev pub State : Type 0
  State = repo.Store × r.Store

  abbrev pub responded :
      repo.Store
      → Ad
      → ℤ
      → r.Store × Result QueueError (Unit {0})
      → State × Result ServiceError CreateAdResponse
  responded s a later (q, err e) = ((s, q), err (enqueue_failed e))
  responded s a later (q, ok _) =
      let position = position_or_default (get_position r m q a.id) in
      (
        (s, q),
        ok (record {
          ad_id = a.id;
          status = a.status;
          priority = a.priority;
          position = position;
          estimated_process_time = later +ℤ (position *ℤ pos 3) *ℤ second;
        }),
      )

  abbrev pub queued_after :
      r.Store
      → Ad
      → ℤ
      → ℤ
      → repo.Store × Result RepoError (Unit {0})
      → State × Result ServiceError CreateAdResponse
  queued_after q a unix later (s, err e) = ((s, q), err (save_failed e))
  queued_after q a unix later (s, ok _) =
      responded s a later (enqueue r uuid_ok m q a.id a.priority unix)

  abbrev pub saved_after :
      State → ℤ → ℤ → Result AdError Ad → State × Result ServiceError CreateAdResponse
  saved_after (s, q) unix later (err e) = ((s, q), err (create_failed e))
  saved_after (s, q) unix later (ok a) = queued_after q a unix later (repo.save s a)

  -- `CreateAd`, with the clock at the creation, at the enqueueing and at the end.
  unfoldable pub create_ad :
      State → CreateAdRequest → String → ℤ → ℤ → ℤ → State × Result ServiceError CreateAdResponse
  create_ad state req id now unix later = saved_after state unix later (
      Ad.create_ad id now req.title req.game_family req.target_audience (priority_of req)
        (wait_of req))

  abbrev pub status_of : r.Store → ℤ → Ad → GetAdStatusResponse
  status_of q now a = record {
    ad_id = a.id;
    title = a.title;
    game_family = a.game_family;
    status = a.status;
    priority = a.priority;
    position = if is_queued a.status then position_if_known (get_position r m q a.id) else none;
    wait_time = wait_time a now;
    created_at = a.created_at;
    processed_at = a.processed_at;
  }

  abbrev pub status_found :
      r.Store → ℤ → Result RepoError Ad → Result ServiceError GetAdStatusResponse
  status_found q now (err e) = err (find_failed e)
  status_found q now (ok a) = ok (status_of q now a)

  abbrev pub status_parsed : State → ℤ → Option String → Result ServiceError GetAdStatusResponse
  status_parsed (s, q) now none = err invalid_id
  status_parsed (s, q) now (some id) = status_found q now (repo.find_by_id s id)

  -- `GetAdStatus`.
  unfoldable pub get_ad_status : State → String → ℤ → Result ServiceError GetAdStatusResponse
  unfolding parse_ad_id
  get_ad_status state ad_id now = status_parsed state now (parse_ad_id uuid_ok ad_id)

  -- The loop over the queue: an error is passed over and not counted.
  unfoldable pub update_queue : r.Store → List String → ℤ → r.Store × ℕ
  update_queue q [] new_priority = (q, 0)
  update_queue q (id ∷ ids) new_priority =
      let (q1, result) = update_priority r uuid_ok m q id new_priority in
      let (q2, count) = update_queue q1 ids new_priority in
      (q2, elim result as (λ x. ℕ) [ ok _ ↦ suc count | err _ ↦ count ])

  abbrev pub counted_after :
      r.Store
      → List String
      → ℤ
      → repo.Store × Result RepoError (Unit {0})
      → State × Result ServiceError ℕ
  counted_after q ids new_priority (s, err e) = ((s, q), err (update_failed e))
  counted_after q ids new_priority (s, ok _) =
      let (q1, count) = update_queue q ids new_priority in ((s, q1), ok count)

  abbrev pub change_ids : State → List String → ℤ → State × Result ServiceError ℕ
  change_ids (s, q) [] new_priority = ((s, q), ok 0)
  change_ids (s, q) (id ∷ ids) new_priority =
      counted_after q (id ∷ ids) new_priority (repo.update_priority_batch s (id ∷ ids) new_priority)

  abbrev pub change_found : State → ℤ → Result RepoError (List Ad) → State × Result ServiceError ℕ
  change_found state new_priority (err e) = (state, err (find_failed e))
  change_found state new_priority (ok ads) = change_ids state (queued_ids ads) new_priority

  -- `ChangePriorityForGameFamily`.
  unfoldable pub change_priority_for_game_family :
      State → String → ℤ → State × Result ServiceError ℕ
  unfolding update_queue is_valid
  change_priority_for_game_family (s, q) game_family new_priority =
      if not (is_valid new_priority)
      then ((s, q), err (invalid_priority new_priority))
      else change_found (s, q) new_priority (repo.find_by_game_family s game_family)

  -- `ChangePriorityForOlderAds`.
  unfoldable pub change_priority_for_older_ads : State → ℤ → ℤ → ℤ → State × Result ServiceError ℕ
  unfolding update_queue is_valid
  change_priority_for_older_ads (s, q) now older_than new_priority =
      if not (is_valid new_priority)
      then ((s, q), err (invalid_priority new_priority))
      else change_found (s, q) new_priority (repo.find_older_than s (now -ℤ older_than))

  -- `GetQueueDistribution`, `GetNextAds` and `GetWaitingAds` pass on what they are given.
  unfoldable pub get_queue_distribution : State → List (ℕ × ℕ)
  get_queue_distribution (s, q) = get_size_by_priority r m q

  unfoldable pub get_next_ads : State → ℤ → ℤ → Result QueueError (List QueueItem)
  get_next_ads (s, q) count now = get_next r uuid_ok m q count now

  unfoldable pub get_waiting_ads : State → ℤ → ℤ → Result RepoError (List Ad)
  get_waiting_ads (s, q) now waited = repo.find_older_than s (now -ℤ waited)
