-- ===== src/Repository/Optimized/Saving.antt =====
-- internal/infrastructure/persistence/optimized_postgres_repository.go: `SaveBatch` as the saves
-- of its ads, and what a save does not look at.
use home_work_ad_processor_g.Prelude.{
  ℕ, ◌≡◌, refl, sym, ap, ◌∙◌, Bool, true, not, List, [], ◌∷◌, String, if◌then◌else◌, Result, ok,
  err,
}
use home_work_ad_processor_g.Ad.{Ad}
use home_work_ad_processor_g.Repository.Optimized.{
  ShardedRow, Cluster, Driver, DbError, unavailable, begin_failed, insert_failed, row_of, put_ad,
  committed, save, put_ads, save_batch,
}

abbrev after_save :
    Ad
    → Cluster × Result DbError (Unit {0})
    → (Cluster → Cluster × Result DbError (Unit {0}))
    → Cluster × Result DbError (Unit {0})
after_save a (c, err e) rest = (c, err (insert_failed a.id e))
after_save a (c, ok done) rest = rest c

-- Saving the ads one after another, up to the first that fails.
unfoldable pub save_all : Driver → Cluster → List Ad → Cluster × Result DbError (Unit {0})
unfolding save
save_all driver c [] = (c, ok tt)
save_all driver c (a ∷ ads) = after_save a (save driver c a) (λ c1. save_all driver c1 ads)

-- What a transaction makes of a sequence of writes: all of them, or none.
abbrev pub all_or_nothing :
    Cluster → Cluster × Result DbError (Unit {0}) → Cluster × Result DbError (Unit {0})
all_or_nothing c (c1, ok done) = (c1, ok done)
all_or_nothing c (c1, err e) = (c, err e)

module _ (driver : Driver) where
  with_db_rows : Cluster → List (String × ShardedRow) → Cluster
  with_db_rows c rows = record c { db = record c.db { rows = rows } }

  save_batch_up :
      (c : Cluster) (ads : List Ad)
      → c.db.reachable ≡ true
      → save_batch driver c ads ≡ committed c (put_ads driver c.shard_count c.db.rows ads)
  unfolding save_batch put_ads
  save_batch_up c [] up = refl
  save_batch_up c (a ∷ ads) up =
      ap
        (λ b.
          if not b
          then (c, Result.err begin_failed)
          else committed c (put_ads driver c.shard_count c.db.rows (a ∷ ads)))
        up

  rolled_back :
      (c : Cluster) (rows : List (String × ShardedRow))
      (r : Result DbError (List (String × ShardedRow)))
      → all_or_nothing c (committed (with_db_rows c rows) r) ≡ committed c r
  unfolding with_db_rows
  rolled_back c rows (ok later) = refl
  rolled_back c rows (err e) = refl

  all_or_nothing_twice :
      (c c1 : Cluster) (out : Cluster × Result DbError (Unit {0}))
      → all_or_nothing c (all_or_nothing c1 out) ≡ all_or_nothing c out
  all_or_nothing_twice c c1 (c2, ok done) = refl
  all_or_nothing_twice c c1 (c2, err e) = refl

  -- The saves from the first one on, with the answer of its guard.
  abbrev saved_then :
      Cluster
      → Ad
      → List Ad
      → Result DbError (List (String × ShardedRow))
      → Bool
      → Cluster × Result DbError (Unit {0})
  unfolding save_all
  saved_then c a ads r up = all_or_nothing c (
      after_save a (if not up then (c, err unavailable) else committed c r)
        (λ c1. save_all driver c1 ads))

  put_ads_cons :
      (c : Cluster) (a : Ad) (ads : List Ad) (r : Result DbError (List (String × ShardedRow)))
      → c.db.reachable ≡ true
      → put_ad driver c.shard_count c.db.rows a ≡ r
      → ((rows : List (String × ShardedRow))
          → committed c (put_ads driver c.shard_count rows ads)
            ≡ all_or_nothing c (save_all driver (with_db_rows c rows) ads))
      → committed c (put_ads driver c.shard_count c.db.rows (a ∷ ads))
        ≡ all_or_nothing c (save_all driver c (a ∷ ads))
  unfolding put_ads with_db_rows save_all
  put_ads_cons c a ads (err e) up h later = rw h (sym (ap (saved_then c a ads (err e)) up))
  put_ads_cons c a ads (ok rows) up h later =
      rw h (later rows ∙ sym (ap (saved_then c a ads (ok rows)) up))

  put_ads_lem :
      (c : Cluster) (ads : List Ad)
      → c.db.reachable ≡ true
      → committed c (put_ads driver c.shard_count c.db.rows ads)
        ≡ all_or_nothing c (save_all driver c ads)
  unfolding put_ads with_db_rows save_all
  put_ads_lem c [] up = refl
  put_ads_lem c (a ∷ ads) up =
      put_ads_cons c a ads (put_ad driver c.shard_count c.db.rows a) up refl (λ rows.
        sym (rolled_back c rows (put_ads driver c.shard_count rows ads))
        ∙ ap (all_or_nothing c) (put_ads_lem (with_db_rows c rows) ads up)
        ∙ all_or_nothing_twice c (with_db_rows c rows) (save_all driver (with_db_rows c rows) ads))

  -- `SaveBatch` on a primary that is up is the saves of its ads one after another, all of them, or
  -- none if one of them fails.
  pub save_batch-save_all :
      (c : Cluster) (ads : List Ad)
      → c.db.reachable ≡ true
      → save_batch driver c ads ≡ all_or_nothing c (save_all driver c ads)
  save_batch-save_all c ads up = save_batch_up c ads up ∙ put_ads_lem c ads up

  -- No save looks at the version of the ad: there is no optimistic lock.
  save_any_version :
      (c : Cluster) (a : Ad) (version : ℕ)
      → save driver c (record a { version = version }) ≡ save driver c a
  unfolding save put_ad row_of
  save_any_version c a version = refl
