-- ===== src/Handlers/Creating.antt =====
-- internal/interfaces/http/handlers/ad_handler.go, `CreateAd`: a request that passes the validation is
-- one that the factory accepts.
use home_work_ad_processor_g.Prelude.{
  ◌≡◌, ◌≢◌, refl, ap, ◌∙◌, Bool, true, false, not, Option, none, some, List, [], ◌∷◌, String,
  str_ne, if◌then◌else◌, ℤ, Result, ok, err,
}
use home_work_ad_processor_g.Ad.{Ad, AdError, is_valid, priority_normal}
use home_work_ad_processor_g.Ad
use home_work_ad_processor_g.Redis.{Redis}
use home_work_ad_processor_g.Redis
use home_work_ad_processor_g.RedisQueue.{Manager}
use home_work_ad_processor_g.Repository.{Repository, not_found}
use home_work_ad_processor_g.Repository
use home_work_ad_processor_g.Service.{
  CreateAdRequest, CreateAdResponse, ServiceError, State, priority_of, wait_of, create_ad,
}
use home_work_ad_processor_g.Service.Creation.{Created, create_ad-Created}
use home_work_ad_processor_g.Handlers.{replied, problem, status_created, status_bad_request}
use home_work_ad_processor_g.Handlers.Ads.{created, create_ad_handler}

-- The tags `validate` of `CreateAdRequest` that the factory depends on: required texts, an audience of
-- at least one, and a priority from 1 to 5 if there is one.
pub record Tagged (req : CreateAdRequest) : Type 0 where
  pub title_given : req.title ≢ ""
  pub game_family_given : req.game_family ≢ ""
  pub audience_given : req.target_audience ≢ []
  pub priority_fits : (p : ℤ) → req.priority ≡ some p → is_valid p ≡ true

normal_valid : is_valid priority_normal ≡ true
unfolding is_valid
normal_valid = refl

accepted :
    (id : String) (now : ℤ) (title game_family : String) (audience : List String) (p wait : ℤ)
    → title ≢ ""
    → game_family ≢ ""
    → audience ≢ []
    → is_valid p ≡ true
    → (a : Ad) × (Ad.create_ad id now title game_family audience p wait ≡ ok a) × (a.id ≡ id)
unfolding Ad.create_ad
accepted id now title family [] p wait t f nonempty valid = absurd (nonempty refl)
accepted id now title family (x ∷ audience) p wait t f nonempty valid =
    rw (str_ne title "" t, str_ne family "" f, valid) (_, refl, refl)

made :
    (req : CreateAdRequest) (id : String) (now : ℤ)
    → Tagged req
    → (a : Ad) × (Ad.create_ad id now req.title req.game_family req.target_audience
          (priority_of req)
          (wait_of req)
        ≡ ok a)
      × (a.id ≡ id)
made req id now tags =
    accepted id now req.title req.game_family req.target_audience (priority_of req) (wait_of req)
      tags.title_given tags.game_family_given tags.audience_given
      (valid_priority req.priority tags.priority_fits)
  where
    valid_priority :
        (o : Option ℤ)
        → ((p : ℤ) → o ≡ some p → is_valid p ≡ true)
        → is_valid (elim o [ none ↦ priority_normal | some p ↦ p ]) ≡ true
    valid_priority none fits = normal_valid
    valid_priority (some p) fits = fits p refl

module _ (repo : Repository) (repo_laws : Repository.Laws repo) (r : Redis) (laws : Redis.Laws r)
    (uuid_ok : String → Bool) (m : Manager) where
  -- `POST /ads` with a body that passes the validation, whose tags the validator enforces, a fresh
  -- identifier, both stores up and a repository that can hold the ad: the answer is 201 with the
  -- response of the service, and the ad is stored and queued. A body that fails the validation is
  -- answered with 400 and changes nothing.
  pub create_ad_handler-Created :
      (valid : CreateAdRequest → Bool) (s : repo.Store) (q : r.Store) (req : CreateAdRequest)
      (id : String) (now unix later : ℤ)
      → ((x : CreateAdRequest) → valid x ≡ true → Tagged x)
      → repo_laws.Up s
      → ((a : Ad)
          → Ad.create_ad id now req.title req.game_family req.target_audience
              (priority_of req)
              (wait_of req)
            ≡ ok a
          → repo_laws.Fits a)
      → repo.find_by_id s id ≡ err not_found
      → laws.Up q
      → (valid req ≡ true
          → (a : Ad) × (response : CreateAdResponse) × (state : State repo r uuid_ok m)
            × (create_ad_handler repo r uuid_ok m valid (s, q) (some req) id now unix later
                ≡ (state, replied status_created response))
            × Created repo repo_laws r laws uuid_ok m a q unix (state, ok response))
        × (valid req ≡ false
            → create_ad_handler repo r uuid_ok m valid (s, q) (some req) id now unix later
              ≡ ((s, q), problem status_bad_request "Validation failed"))
  unfolding create_ad_handler
  create_ad_handler-Created valid s q req id now unix later tags up fits fresh queue_up = (
    λ passes.
        let (a, is_made, same_id) = made req id now (tags req passes) in
        let unused = ap (repo.find_by_id s) same_id ∙ fresh in
        let done =
          create_ad-Created repo repo_laws r laws uuid_ok m s q req id now unix later a is_made up
            (fits a is_made) unused queue_up in
        answer a (create_ad repo r uuid_ok m (s, q) req id now unix later) done (
          ap
            (λ b.
              if not b
              then ((s, q), problem status_bad_request "Validation failed")
              else created repo r uuid_ok m
                  (create_ad repo r uuid_ok m (s, q) req id now unix later))
            passes),
    λ fails. rw fails refl,
  )
    where
      answer :
          (a : Ad) (out : State repo r uuid_ok m × Result ServiceError CreateAdResponse)
          → Created repo repo_laws r laws uuid_ok m a q unix out
          → create_ad_handler repo r uuid_ok m valid (s, q) (some req) id now unix later
            ≡ created repo r uuid_ok m out
          → (a : Ad) × (response : CreateAdResponse) × (state : State repo r uuid_ok m)
            × (create_ad_handler repo r uuid_ok m valid (s, q) (some req) id now unix later
                ≡ (state, replied status_created response))
            × Created repo repo_laws r laws uuid_ok m a q unix (state, ok response)
      answer a (state, ok response) done e = (a, response, state, e, done)
      answer a (state, err x) done e = let bad = done.answered in absurd cc
