-- ===== src/Repository.antt =====
-- internal/domain/ad/repository.go: the interface of ad persistence. The reads leave the store as it
-- is. `Laws` states what the services and the processor rely on; each implementation fills it.
pub mod Postgres
pub mod Optimized
pub mod Memory
use home_work_ad_processor_g.Prelude.{ℕ, suc, ◌≡◌, ◌≢◌, Option, List, String, ℤ, Result, ok, err}
use home_work_ad_processor_g.Ad.{Ad, AdStatus, AdError}

pub data RepoError : Type 0 where
  not_found lock_failed unavailable bad_row : RepoError
  rejected : AdError → RepoError
  batch_rejected : String → AdError → RepoError

pub record Repository : Type 1 where
  pub Store : Type 0
  pub save : Store → Ad → Store × Result RepoError (Unit {0})
  pub find_by_id : Store → String → Result RepoError Ad
  pub find_by_game_family : Store → String → Result RepoError (List Ad)
  pub find_by_status : Store → AdStatus → Result RepoError (List Ad)
  pub find_older_than : Store → ℤ → Result RepoError (List Ad)
  pub update_priority_batch : Store → List String → ℤ → Store × Result RepoError (Unit {0})
  pub update_status : Store → String → AdStatus → ℕ → Store × Result RepoError (Unit {0})
  pub delete_ad : Store → String → Store × Result RepoError (Unit {0})
  pub count : Store → Result RepoError ℕ
  pub count_by_status : Store → AdStatus → Result RepoError ℕ
  pub count_by_priority : Store → ℤ → Result RepoError ℕ

-- Two entities are the same ad in the same state of its life.
pub record Agrees (a b : Ad) : Type 0 where
  pub same_id : b.id ≡ a.id
  pub same_status : b.status ≡ a.status
  pub same_version : b.version ≡ a.version

pub record Laws (r : Repository) : Type 1 where
  pub Up : r.Store → Type 0
  pub find-id : (s : r.Store) (id : String) (a : Ad) → Up s → r.find_by_id s id ≡ ok a → a.id ≡ id
  -- The repository can hold the ad, which does not hang on its status, times and version.
  pub Fits : Ad → Type 0
  pub find-Fits : (s : r.Store) (id : String) (a : Ad) → Up s → r.find_by_id s id ≡ ok a → Fits a
  pub Fits-status :
      (a : Ad) (status : AdStatus) (started processed position : Option ℤ) (version : ℕ)
      → Fits a
      → Fits (record a {
        status = status;
        processing_started_at = started;
        processed_at = processed;
        queue_position = position;
        version = version;
      })
  -- The next version of a stored ad can be saved.
  pub save_ok :
      (s : r.Store) (a b : Ad)
      → Up s
      → Fits a
      → r.find_by_id s a.id ≡ ok b
      → a.version ≡ suc b.version
      → ((r.save s a).1 ≡ ok tt) × Up (r.save s a).0
  -- An ad with an identifier that is not stored can be saved.
  pub save_new :
      (s : r.Store) (a : Ad)
      → Up s
      → Fits a
      → r.find_by_id s a.id ≡ err not_found
      → ((r.save s a).1 ≡ ok tt) × Up (r.save s a).0
  pub find-save :
      (s : r.Store) (a : Ad)
      → Up s
      → (r.save s a).1 ≡ ok tt
      → (b : Ad) × (r.find_by_id (r.save s a).0 a.id ≡ ok b) × Agrees a b
  pub find-save_ne :
      (s : r.Store) (a : Ad) (id : String)
      → Up s
      → (r.save s a).1 ≡ ok tt
      → a.id ≢ id
      → r.find_by_id (r.save s a).0 id ≡ r.find_by_id s id
