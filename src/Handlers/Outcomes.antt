-- ===== src/Handlers/Outcomes.antt =====
-- internal/interfaces/http/handlers/: the status codes and the bodies of the handlers that read.
use home_work_ad_processor_g.Prelude.{
  prefixed, ℕ, ◌≡◌, ◌≢◌, refl, ap, subst, Bool, true, false, ◌||◌, Option, none, some, String,
  str_eq, if◌then◌else◌, ℤ, pos, ltb_ℤ, leb_ℤ, ◌≤ℤ◌, Result, ok, err, arith, atoi_checked,
  some-injective, str_ne, suc, ◌⊎◌, inl, inr,
}
use home_work_ad_processor_g.Redis.{Redis}
use home_work_ad_processor_g.RedisQueue.{Manager}
use home_work_ad_processor_g.Ad.{Ad, parse_ad_id}
use Prim.Native.Char.{code}
use home_work_ad_processor_g.Repository.{Repository, RepoError}
use home_work_ad_processor_g.Service.{
  GetAdStatusResponse, ServiceError, State, invalid_id, find_failed, status_of, get_ad_status,
  get_queue_distribution, get_next_ads,
}
use home_work_ad_processor_g.Service
use home_work_ad_processor_g.Command.CommandService.{
  CommandMap, ExecuteCommandResponse, get_command_status,
}
use home_work_ad_processor_g.Handlers.{
  Response, problem, status_bad_request, status_not_found, status_code,
  status_internal_server_error, in_range, bounded_query, default_query,
}
use home_work_ad_processor_g.Handlers.Ads.{service_error_text, status_found, get_ad_status_handler}
use home_work_ad_processor_g.Handlers.Commands.{command_found, get_command_status_handler}

abbrev ad_problem : ℕ → String → Response GetAdStatusResponse
ad_problem code text = problem code text

abbrev command_problem : ℕ → String → Response ExecuteCommandResponse
command_problem code text = problem code text

in_range_lem : (k n : ℤ) → in_range (some k) ≡ some n → (pos 1 ≤ℤ n) × (n ≤ℤ pos 100)
in_range_lem k n h = go (leb_ℤ k (pos 0)) (ltb_ℤ (pos 100) k) refl refl h
  where
    go :
        (b c : Bool)
        → leb_ℤ k (pos 0) ≡ b
        → ltb_ℤ (pos 100) k ≡ c
        → (if b || c then none else some k) ≡ some n
        → (pos 1 ≤ℤ n) × (n ≤ℤ pos 100)
    go true c e f x = absurd cc
    go false true e f x = absurd cc
    go false false e f x =
        let same : k ≡ n = some-injective x in
        let low : pos 1 ≤ℤ k = ground arith in
        let high : k ≤ℤ pos 100 = ground arith in
        (subst (λ z. pos 1 ≤ℤ z) same low, subst (λ z. z ≤ℤ pos 100) same high)

-- A number that passes the guard, if there is one.
pub bounded_range : (o : Option ℤ) (n : ℤ) → in_range o ≡ some n → (pos 1 ≤ℤ n) × (n ≤ℤ pos 100)
bounded_range none n h = absurd cc
bounded_range (some z) n h = in_range_lem z n h

-- A number of the query that a handler accepts.
pub bounded_query-bounds :
    (text : Option String) (default : String) (n : ℤ)
    → bounded_query text default ≡ some n
    → (pos 1 ≤ℤ n) × (n ≤ℤ pos 100)
unfolding bounded_query
bounded_query-bounds text default n h =
    bounded_range (atoi_checked (default_query text default)) n h

first_code : String → ℕ
first_code String.[] = 0
first_code (String.◌∷◌ c s) = code c

first_differs : (s t : String) → first_code s ≢ first_code t → str_eq s t ≡ false
first_differs s t ne = str_ne s t (λ e. ne (ap first_code e))

length_of : String → ℕ
length_of String.[] = 0
length_of (String.◌∷◌ c s) = suc (length_of s)

length_differs : (s t : String) → length_of s ≢ length_of t → str_eq s t ≡ false
length_differs s t ne = str_ne s t (λ e. ne (ap length_of e))

command_text :
    (detail : String) → str_eq (prefixed "command not found: " detail) "command not found" ≡ false
unfolding length_of
command_text detail = length_differs _ _ (λ e. omega (arith, e))

module _ (repo : Repository) (r : Redis) (uuid_ok : String → Bool) (m : Manager) where
  -- The two errors of `GetAdStatus`.
  status_errors :
      (state : State repo r uuid_ok m) (id : String) (now : ℤ) (e : ServiceError)
      → get_ad_status repo r uuid_ok m state id now ≡ err e
      → (e ≡ invalid_id) ⊎ ((x : RepoError) × (e ≡ find_failed x))
  unfolding get_ad_status
  status_errors (s, q) id now e h = parsed (parse_ad_id uuid_ok id) h
    where
      found :
          (o : Result RepoError Ad)
          → Service.status_found repo r uuid_ok m q now o ≡ err e
          → (e ≡ invalid_id) ⊎ ((x : RepoError) × (e ≡ find_failed x))
      found (err x) k = inr (x, cc)
      found (ok a) k = absurd cc

      parsed :
          (o : Option String)
          → Service.status_parsed repo r uuid_ok m (s, q) now o ≡ err e
          → (e ≡ invalid_id) ⊎ ((x : RepoError) × (e ≡ find_failed x))
      parsed none k = inl cc
      parsed (some i) k = found (repo.find_by_id s i) k

  error_text :
      (detail : ServiceError → String) (e : ServiceError)
      → (e ≡ invalid_id) ⊎ ((x : RepoError) × (e ≡ find_failed x))
      → str_eq (service_error_text detail e) "ad not found" ≡ false
  unfolding first_code
  error_text detail e (inl h) = rw h (first_differs _ _ (λ e. omega (arith, e)))
  error_text detail e (inr (x, h)) = rw h (first_differs _ _ (λ e. omega (arith, e)))

  -- Neither handler for one thing by its identifier ever answers 404: the service puts a prefix in
  -- front of the text that the handler compares.
  pub handlers_never_not_found :
      (detail : ServiceError → String) (state : State repo r uuid_ok m) (id : String) (now : ℤ)
      (command_detail : String) (commands : CommandMap) (command_id : String)
      → (status_code (get_ad_status_handler repo r uuid_ok m detail state id now)
          ≢ status_not_found)
        × (status_code (get_command_status_handler command_detail commands command_id)
            ≢ status_not_found)
  unfolding get_ad_status_handler get_command_status_handler
  handlers_never_not_found detail state id now command_detail commands command_id = (
    ads (str_eq id "") (get_ad_status repo r uuid_ok m state id now) (status_errors state id now),
    by_id (str_eq command_id "") (get_command_status commands command_id),
  )
    where
      ads :
          (b : Bool) (found : Result ServiceError GetAdStatusResponse)
          → ((e : ServiceError)
              → found ≡ err e
              → (e ≡ invalid_id) ⊎ ((x : RepoError) × (e ≡ find_failed x)))
          → status_code (
              if b
              then problem status_bad_request "Ad ID is required"
              else status_found repo r uuid_ok m detail found)
            ≢ status_not_found
      ads true found k h = omega (arith, h)
      ads false (ok response) k h = omega (arith, h)
      ads false (err e) k h =
          let differs = error_text detail e (k e refl) in
          let same =
            ap
              (λ b. status_code (
                if b
                then problem status_not_found "Ad not found"
                else ad_problem status_internal_server_error "Failed to get ad status"))
              differs in
          omega (arith, h, same)

      by_id :
          (b : Bool) (found : Option ExecuteCommandResponse)
          → status_code (
              if b
              then problem status_bad_request "Command ID is required"
              else command_found command_detail found)
            ≢ status_not_found
      by_id true found h = omega (arith, h)
      by_id false (some response) h = omega (arith, h)
      by_id false none h =
          let same =
            ap
              (λ b. status_code (
                if b
                then problem status_not_found "Command not found"
                else command_problem status_internal_server_error "Failed to get command status"))
              (command_text command_detail) in
          omega (arith, h, same)
