-- ===== src/Service/Creation.antt =====
-- internal/application/service/ad_service.go, `CreateAd`: what a creation that succeeds leaves in the
-- repository and in the queue.
use home_work_ad_processor_g.Prelude.{arith, ◌≡◌, refl, String, ℤ, Result, ok, err, Bool}
use home_work_ad_processor_g.Ad.{Ad, AdStatus, AdError, is_valid}
use home_work_ad_processor_g.Ad
use home_work_ad_processor_g.Redis.{Redis}
use home_work_ad_processor_g.Redis
use home_work_ad_processor_g.RedisQueue.{Manager, QueueError, enqueue}
use home_work_ad_processor_g.RedisQueue.Score.{calculate_score}
use home_work_ad_processor_g.RedisQueue.Scores.{Sets, enqueue-Sets}
use home_work_ad_processor_g.Repository.{Repository, RepoError, Agrees, not_found}
use home_work_ad_processor_g.Repository
use home_work_ad_processor_g.Service.{
  CreateAdRequest, CreateAdResponse, ServiceError, State, priority_of, wait_of, create_ad,
  responded, queued_after,
}

module _ (repo : Repository) (repo_laws : Repository.Laws repo) (r : Redis) (laws : Redis.Laws r)
    (uuid_ok : String → Bool) (m : Manager) where
  -- The ad is stored and queued, and the response is about it.
  pub record Created (a : Ad) (q : r.Store) (unix : ℤ)
      (out : State repo r uuid_ok m × Result ServiceError CreateAdResponse) : Type 0 where
    pub response : CreateAdResponse
    pub answered : out.1 ≡ ok response
    pub about : response.ad_id ≡ a.id
    pub status : response.status ≡ AdStatus.queued
    pub priority : response.priority ≡ a.priority
    pub b : Ad
    pub stored : repo.find_by_id out.0.0 a.id ≡ ok b
    pub same : Agrees a b
    pub queued : Sets r laws uuid_ok m q a.id (calculate_score a.priority unix) (out.0.1, ok tt)

  saved_lem :
      (q : r.Store) (a : Ad) (unix later : ℤ) (p : repo.Store × Result RepoError (Unit {0}))
      → p.1 ≡ ok tt
      → queued_after repo r uuid_ok m q a unix later p
        ≡ responded repo r uuid_ok m p.0 a later (enqueue r uuid_ok m q a.id a.priority unix)
  saved_lem q a unix later (s, ok u) h = refl
  saved_lem q a unix later (s, err e) h = cc

  created-queued :
      (id : String) (now : ℤ) (req : CreateAdRequest) (a : Ad)
      → Ad.create_ad id now req.title req.game_family req.target_audience
          (priority_of req)
          (wait_of req)
        ≡ ok a
      → a.status ≡ AdStatus.queued
  unfolding Ad.create_ad is_valid
  created-queued id now req a e = ground arith

  abbrev made_ad : CreateAdRequest → String → ℤ → Result AdError Ad
  made_ad req id now =
      Ad.create_ad id now req.title req.game_family req.target_audience (priority_of req)
        (wait_of req)

  responded-Created :
      (s : repo.Store) (a b : Ad) (later unix : ℤ) (q : r.Store)
      (p : r.Store × Result QueueError (Unit {0}))
      → a.status ≡ AdStatus.queued
      → repo.find_by_id s a.id ≡ ok b
      → Agrees a b
      → Sets r laws uuid_ok m q a.id (calculate_score a.priority unix) p
      → Created a q unix (responded repo r uuid_ok m s a later p)
  responded-Created s a b later unix q (q1, ok u) queued stored same sets = record {
    response = _;
    answered = refl;
    about = refl;
    status = queued;
    priority = refl;
    b = b;
    stored = stored;
    same = same;
    queued = sets;
  }
  responded-Created s a b later unix q (q1, err e) queued stored same (h, up, scores) = absurd cc

  -- `CreateAd` with a request that the factory accepts, a fresh identifier, an ad that the repository
  -- can hold and both stores up: the response carries the identifier, the status queued and the
  -- priority of the ad; the ad is stored in that state, and in the queue its score alone is set, to
  -- that of its priority and the clock.
  pub create_ad-Created :
      (s : repo.Store) (q : r.Store) (req : CreateAdRequest) (id : String) (now unix later : ℤ)
      (a : Ad)
      → Ad.create_ad id now req.title req.game_family req.target_audience
          (priority_of req)
          (wait_of req)
        ≡ ok a
      → repo_laws.Up s
      → repo_laws.Fits a
      → repo.find_by_id s a.id ≡ err not_found
      → laws.Up q
      → Created a q unix (create_ad repo r uuid_ok m (s, q) req id now unix later)
  unfolding create_ad
  create_ad-Created s q req id now unix later a made up fits fresh queue_up =
      let (saved, up1) = repo_laws.save_new s a up fits fresh in
      let (b, stored, same) = repo_laws.find-save s a up saved in
      let sets = enqueue-Sets r laws uuid_ok m q a.id a.priority unix queue_up in
      rw (made, saved_lem q a unix later (repo.save s a) saved)
        (responded-Created (repo.save s a).0 a b later unix q
          (enqueue r uuid_ok m q a.id a.priority unix) (created-queued id now req a made) stored
          same sets)
