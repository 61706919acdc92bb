-- ===== src/Handlers/Ads.antt =====
-- internal/interfaces/http/handlers/ad_handler.go: the handlers for ads and for the queue, on the
-- service. `ShouldBindJSON` gives a request or nothing, and `validator.Struct` is a parameter.
use home_work_ad_processor_g.Prelude.{
  prefixed, ℕ, ◌+◌, Bool, not, Option, none, some, List, [], ◌∷◌, String, str_eq, if◌then◌else◌,
  length, ℤ, Result, ok, err,
}
use home_work_ad_processor_g.Queue.{QueueItem}
use home_work_ad_processor_g.Redis.{Redis}
use home_work_ad_processor_g.RedisQueue.{Manager, QueueError}
use home_work_ad_processor_g.Repository.{Repository}
use home_work_ad_processor_g.Service.{
  CreateAdRequest, CreateAdResponse, GetAdStatusResponse, ServiceError, State, invalid_id,
  find_failed, create_ad, get_ad_status, get_queue_distribution, get_next_ads,
}
use home_work_ad_processor_g.Handlers.{
  Response, replied, problem, status_ok, status_created, status_bad_request, status_not_found,
  status_internal_server_error, bounded_query,
}

-- The texts of the errors of `AdService`; `detail` is the text of the error that is wrapped.
abbrev pub service_error_text : (ServiceError → String) → ServiceError → String
service_error_text detail invalid_id = prefixed "invalid ad ID: " (detail invalid_id)
service_error_text detail (find_failed e) = prefixed "failed to find ad: " (detail (find_failed e))
service_error_text detail e = detail e

pub record QueueStats : Type 0 where
  pub distribution : List (ℕ × ℕ)
  pub total : ℕ

pub record NextAds : Type 0 where
  pub next_ads : List QueueItem
  pub count : ℕ

-- `for _, count := range distribution`.
unfoldable pub sum_counts : List (ℕ × ℕ) → ℕ
sum_counts [] = 0
sum_counts ((priority, n) ∷ rest) = n + sum_counts rest

module _ (repo : Repository) (r : Redis) (uuid_ok : String → Bool) (m : Manager) where
  abbrev pub created :
      State repo r uuid_ok m × Result ServiceError CreateAdResponse
      → State repo r uuid_ok m × Response CreateAdResponse
  created (state, err e) = (state, problem status_internal_server_error "Failed to create ad")
  created (state, ok response) = (state, replied status_created response)

  -- `CreateAd`, with the identifier and the three readings of the clock of the service.
  unfoldable pub create_ad_handler :
      (CreateAdRequest → Bool)
      → State repo r uuid_ok m
      → Option CreateAdRequest
      → String
      → ℤ
      → ℤ
      → ℤ
      → State repo r uuid_ok m × Response CreateAdResponse
  unfolding create_ad
  create_ad_handler valid state none id now unix later =
      (state, problem status_bad_request "Invalid request format")
  create_ad_handler valid state (some req) id now unix later =
      if not (valid req)
      then (state, problem status_bad_request "Validation failed")
      else created (create_ad repo r uuid_ok m state req id now unix later)

  abbrev pub status_found :
      (ServiceError → String)
      → Result ServiceError GetAdStatusResponse
      → Response GetAdStatusResponse
  status_found detail (ok response) = replied status_ok response
  status_found detail (err e) =
      if str_eq (service_error_text detail e) "ad not found"
      then problem status_not_found "Ad not found"
      else problem status_internal_server_error "Failed to get ad status"

  -- `GetAdStatus`.
  unfoldable pub get_ad_status_handler :
      (ServiceError → String) → State repo r uuid_ok m → String → ℤ → Response GetAdStatusResponse
  unfolding get_ad_status
  get_ad_status_handler detail state ad_id now =
      if str_eq ad_id ""
      then problem status_bad_request "Ad ID is required"
      else status_found detail (get_ad_status repo r uuid_ok m state ad_id now)

  -- `GetQueueStats`; `GetSizeByPriority` gives no error.
  unfoldable pub get_queue_stats_handler : State repo r uuid_ok m → Response QueueStats
  unfolding get_queue_distribution sum_counts
  get_queue_stats_handler state =
      let distribution = get_queue_distribution repo r uuid_ok m state in
      replied status_ok (record { distribution = distribution; total = sum_counts distribution })

  abbrev pub next_found : Result QueueError (List QueueItem) → Response NextAds
  next_found (err e) = problem status_internal_server_error "Failed to get next ads"
  next_found (ok ads) = replied status_ok (record { next_ads = ads; count = length ads })

  abbrev pub next_of : State repo r uuid_ok m → ℤ → Option ℤ → Response NextAds
  unfolding get_next_ads
  next_of state now none =
      problem status_bad_request "Count must be a positive integer between 1 and 100"
  next_of state now (some count) = next_found (get_next_ads repo r uuid_ok m state count now)

  -- `GetNextAds`.
  unfoldable pub get_next_ads_handler :
      State repo r uuid_ok m → Option String → ℤ → Response NextAds
  unfolding get_next_ads bounded_query
  get_next_ads_handler state count now = next_of state now (bounded_query count "5")
