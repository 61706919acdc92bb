-- ===== src/RedisQueue/Rescore.antt =====
-- Operations that change the priority of a queued item and keep its arrival.
use Prim.Native.Nat.{min}
use home_work_ad_processor_g.Prelude.{
  ℕ, zero, suc, ◌+◌, ◌-◌, ◌*◌, ◌/◌, ◌≤◌, ◌<◌, ◌≡◌, refl, ap, ◌∙◌, Bool, true, false, ◌&&◌, ltb,
  ltb→lt, none, some, List, [], ◌∷◌, String, str_eq, eq_iff, arith, if◌then◌else◌, Bool-cases, inl,
  inr, ℤ, pos, ◌<ℤ◌, ◌+ℤ◌, ◌-ℤ◌, ◌*ℤ◌, tdiv, ltb_ℤ,
}
use home_work_ad_processor_g.Ad.{five_minutes}
use home_work_ad_processor_g.Queue.{QueueConfig}
use home_work_ad_processor_g.Redis.Sets.{Z, score_of, without, zinsert}
use home_work_ad_processor_g.RedisQueue.{rescore}
use home_work_ad_processor_g.RedisQueue.Score.{
  score_unit, max_time, calculate_score, calculate_score-pos, calculate_score_decodes,
}
use home_work_ad_processor_g.RedisQueue.Boost.{
  second, age_of, needs_boost, boosted_priority, boosted_score,
}

rescore-pos : (q a : ℕ) → pos q *ℤ pos score_unit +ℤ pos a ≡ pos (q * score_unit + a)
unfolding ◌+ℤ◌ ◌*ℤ◌
rescore-pos q a = ground arith

-- The new score is the one that an ad of the new priority would have had from its arrival on.
pub rescore-calculate_score :
    (p q t : ℕ)
    → t ≤ max_time
    → rescore (pos q) (calculate_score (pos p) (pos t)) ≡ calculate_score (pos q) (pos t)
unfolding rescore
rescore-calculate_score p q t h =
    rw ((calculate_score_decodes p t h).1, rescore-pos q (max_time - t), calculate_score-pos q t h)

score_of-without_ne :
    (k m : String) (l : List Z)
    → str_eq k m ≡ false
    → score_of m (without (k ∷ []) l) ≡ score_of m l
score_of-without_ne k m [] e = refl
score_of-without_ne k m (z ∷ l) e =
    ground (arith, eq_iff k m, eq_iff k z.member, eq_iff z.member m, score_of-without_ne k m l e)

score_of-without_self : (k : String) (l : List Z) → score_of k (without (k ∷ []) l) ≡ none
score_of-without_self k [] = refl
score_of-without_self k (z ∷ l) =
    ground (arith, eq_iff k z.member, eq_iff z.member k, score_of-without_self k l)

score_of-zinsert_ne :
    (before : String → String → Bool) (z : Z) (m : String) (l : List Z)
    → str_eq z.member m ≡ false
    → score_of m (zinsert before z l) ≡ score_of m l
score_of-zinsert_ne before z m [] e = rw e
score_of-zinsert_ne before z m (y ∷ l) e = ground (arith, score_of-zinsert_ne before z m l e)

score_of-zinsert_self :
    (before : String → String → Bool) (z : Z) (m : String) (l : List Z)
    → str_eq z.member m ≡ true
    → score_of m l ≡ none
    → score_of m (zinsert before z l) ≡ some z.score
score_of-zinsert_self before z m [] e n = rw e
score_of-zinsert_self before z m (y ∷ l) e n = ground (arith, score_of-zinsert_self before z m l e)

-- ZADD sets the score of its member and of no other.
pub score_of-zadd :
    (before : String → String → Bool) (z : Z) (m : String) (l : List Z)
    → score_of m (zinsert before z (without (z.member ∷ []) l))
      ≡ (if str_eq z.member m then some z.score else score_of m l)
score_of-zadd before z m l = elim (Bool-cases (str_eq z.member m)) [
  | inl e ↦ rw e (
      score_of-zinsert_self before z m (without (z.member ∷ []) l) e
        (rw (← (eq_iff z.member m).0 e) (score_of-without_self z.member l)))
  | inr e ↦ rw e (
      score_of-zinsert_ne before z m (without (z.member ∷ []) l) e
      ∙ score_of-without_ne z.member m l e)
]

age_of-calculate_score :
    (p t n : ℕ)
    → t ≤ max_time
    → t * second ≤ n
    → age_of (calculate_score (pos p) (pos t)) (pos n) ≡ pos (n - t * second)
unfolding age_of ◌-ℤ◌ ◌*ℤ◌
age_of-calculate_score p t n h k = rw (calculate_score_decodes p t h).1 (ground arith)

-- The whole periods of five minutes since the arrival `t`, in seconds, at the clock `n`, in
-- nanoseconds.
abbrev pub periods : ℕ → ℕ → ℕ
periods t n = (n - t * second) / five_minutes

clamp_lem :
    (p b : ℕ)
    → (if ltb_ℤ (pos 5) (pos p +ℤ pos b) then pos 5 else pos p +ℤ pos b) ≡ pos (min 5 (p + b))
unfolding ◌+ℤ◌
clamp_lem p b = ground arith

boosted_priority_lem :
    (p t n : ℕ)
    → t ≤ max_time
    → t * second ≤ n
    → boosted_priority (pos n) (calculate_score (pos p) (pos t)) ≡ pos (min 5 (p + periods t n))
unfolding boosted_priority tdiv
boosted_priority_lem p t n h k =
    rw (age_of-calculate_score p t n h k, (calculate_score_decodes p t h).0)
      (clamp_lem p (periods t n))

-- For an arrival up to the year 2286 and a clock not before it, the boost of a queued item keeps its arrival, and adds to its priority the whole periods of five
-- minutes since the arrival, up to 5.
boosted_score_lem :
    (p t n : ℕ)
    → t ≤ max_time
    → t * second ≤ n
    → boosted_score (pos n) (calculate_score (pos p) (pos t))
      ≡ calculate_score (pos (min 5 (p + periods t n))) (pos t)
unfolding boosted_score
boosted_score_lem p t n h k = rw (
  boosted_priority_lem p t n h k,
  (calculate_score_decodes p t h).1,
  rescore-pos (min 5 (p + periods t n)) (max_time - t),
  calculate_score-pos (min 5 (p + periods t n)) t h,
)

-- The score after `k` runs of `ApplyAntiStarvation` at the clock `now`.
abbrev pub after_runs : QueueConfig → ℕ → ℤ → ℤ → ℤ
after_runs config zero now score = score
after_runs config (suc k) now score =
    let s = after_runs config k now score in
    if needs_boost config now s then boosted_score now s else s

run_choice :
    (limit : ℤ) (age b c e : ℕ) (f : ℕ → ℤ)
    → limit <ℤ pos age
    → (b < 5 → c ≡ e)
    → (5 ≤ b → b ≡ e)
    → (if ltb_ℤ limit (pos age) && ltb_ℤ (pos b) (pos 5) then f c else f b) ≡ f e
run_choice limit age b c e f w low high = elim (Bool-cases (ltb b 5)) [
  | inl u ↦ ground (arith, low (ltb→lt b 5 u))
  | inr u ↦ ground (arith, high (ground arith))
]

-- The boost compounds: an item of priority up to 5 that arrived up to the year 2286 and is older than the maximal wait by a clock that stands gains, in every run, all its periods of
-- five minutes again, so after `k` runs it has gained `k` times as much, up to 5.
pub after_runs_lem :
    (config : QueueConfig) (k p t n : ℕ)
    → t ≤ max_time
    → t * second ≤ n
    → p ≤ 5
    → config.max_wait_time <ℤ pos (n - t * second)
    → after_runs config k (pos n) (calculate_score (pos p) (pos t))
      ≡ calculate_score (pos (min 5 (p + k * periods t n))) (pos t)
unfolding needs_boost
after_runs_lem config zero p t n h l q w = ap (λ c. calculate_score (pos c) (pos t)) (omega arith)
after_runs_lem config (suc k) p t n h l q w =
    let b = min 5 (p + k * periods t n) in
    rw
      (
        after_runs_lem config k p t n h l q w,
        age_of-calculate_score b t n h l,
        (calculate_score_decodes b t h).0,
        boosted_score_lem b t n h l,
      )
      (run_choice config.max_wait_time (n - t * second) b (min 5 (b + periods t n))
        (min 5 (p + suc k * periods t n)) (λ c. calculate_score (pos c) (pos t)) w
        (λ u. omega arith) (λ u. omega arith))
