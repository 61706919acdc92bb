-- ===== src/Service/Moves.antt =====
-- internal/application/service/ad_service.go and internal/infrastructure/cache/redis_queue_manager.go: the
-- scores in all shards after the priorities of a list of ads were replaced one after the other.
use mathlib.Core.Option
use home_work_ad_processor_g.Prelude.{
  ◌&&◌, ◌==◌, ==_iff, ℕ, ◌≡◌, refl, sym, ap, ◌∙◌, String, List, [], ◌∷◌, ℤ, Bool, true, false,
  if◌then◌else◌, Option, none, some, str_eq, eq_iff,
}
use home_work_ad_processor_g.Redis.{Redis}
use home_work_ad_processor_g.Redis
use home_work_ad_processor_g.RedisQueue.{Manager, rescore}
use home_work_ad_processor_g.RedisQueue.Hash.{shard_of}
use home_work_ad_processor_g.RedisQueue.Scores.{score_at}

-- What a list of changes to the priority `p` makes of the score of an ad: each time that the ad is
-- listed, the priority in its score is replaced.
abbrev pub moved_score : ℤ → List String → String → ℤ → ℤ
moved_score p [] x score = score
moved_score p (id ∷ ids) x score =
    moved_score p ids x (if str_eq id x then rescore p score else score)

-- The score of an ad in one shard after such changes, if that is the shard of the ad.
abbrev pub moved : Bool → ℤ → List String → String → Option ℤ → Option ℤ
moved own p ids x o = if own then Option.map (moved_score p ids x) o else o

pub moved-none_listed : (own : Bool) (p : ℤ) (x : String) (o : Option ℤ) → o ≡ moved own p [] x o
moved-none_listed true p x none = refl
moved-none_listed true p x (some score) = refl
moved-none_listed false p x o = refl

pub moved-moved :
    (own : Bool) (p : ℤ) (id : String) (ids : List String) (x : String) (o : Option ℤ)
    → moved own p ids x (moved own p (id ∷ []) x o) ≡ moved own p (id ∷ ids) x o
moved-moved true p id ids x none = refl
moved-moved true p id ids x (some score) = refl
moved-moved false p id ids x o = refl

-- A score that is written where the ad has one.
written_score :
    (here own named : Bool) (f : ℤ → ℤ) (old o : Option ℤ)
    → (named ≡ true → own ≡ here)
    → (here ≡ true → named ≡ true → old ≡ o)
    → (if here && named then Option.map f old else o)
      ≡ (if own then Option.map (λ score. if named then f score else score) o else o)
written_score true own true f old o s e = rw (s refl, e refl refl) refl
written_score false own true f old o s e = rw (s refl) refl
written_score true true false f old none s e = refl
written_score true true false f old (some y) s e = refl
written_score false true false f old none s e = refl
written_score false true false f old (some y) s e = refl
written_score true false false f old o s e = refl
written_score false false false f old o s e = refl

absent_score :
    (here named : Bool) (old o : Option ℤ)
    → (here ≡ true → named ≡ true → old ≡ o)
    → o ≡ (if here && named then old else o)
absent_score true true old o e = sym (e refl refl)
absent_score true false old o e = refl
absent_score false named old o e = refl

module _ (r : Redis) (laws : Redis.Laws r) (uuid_ok : String → Bool) (m : Manager) where
  -- The scores of all shards after the changes of a list.
  abbrev pub Moved : r.Store → ℤ → List String → r.Store → Type 0
  Moved q p ids q1 =
      (j : ℕ) (x : String)
      → score_at r laws uuid_ok q1 j x
        ≡ moved (shard_of m.shard_count x == j) p ids x (score_at r laws uuid_ok q j x)

  at_home :
      (q : r.Store) (id : String) (old : Option ℤ)
      → score_at r laws uuid_ok q (shard_of m.shard_count id) id ≡ old
      → (j : ℕ) (x : String) → (shard_of m.shard_count id == j) ≡ true
      → str_eq id x ≡ true
      → old ≡ score_at r laws uuid_ok q j x
  at_home q id old e j x here named =
      sym e
      ∙ ap (λ k. score_at r laws uuid_ok q k id) ((==_iff (shard_of m.shard_count id) j).0 here)
      ∙ ap (score_at r laws uuid_ok q j) ((eq_iff id x).0 named)

  -- The scores of all shards when the ad's own score in its shard is replaced.
  pub rescored-Moved :
      (q : r.Store) (p : ℤ) (id : String) (old : Option ℤ)
      → score_at r laws uuid_ok q (shard_of m.shard_count id) id ≡ old
      → (j : ℕ) (x : String)
      → (if shard_of m.shard_count id == j && str_eq id x
          then Option.map (rescore p) old
          else score_at r laws uuid_ok q j x)
        ≡ moved (shard_of m.shard_count x == j) p (id ∷ []) x (score_at r laws uuid_ok q j x)
  rescored-Moved q p id old e j x =
      written_score (shard_of m.shard_count id == j) (shard_of m.shard_count x == j) (str_eq id x)
        (rescore p) old (score_at r laws uuid_ok q j x)
        (λ n. ap (λ y. shard_of m.shard_count y == j) (sym ((eq_iff id x).0 n)))
        (at_home q id old e j x)

  pub absent-Moved :
      (q : r.Store) (p : ℤ) (id : String)
      → score_at r laws uuid_ok q (shard_of m.shard_count id) id ≡ none
      → Moved q p (id ∷ []) q
  absent-Moved q p id e j x =
      absent_score (shard_of m.shard_count id == j) (str_eq id x) none _ (at_home q id none e j x)
      ∙ rescored-Moved q p id none e j x
