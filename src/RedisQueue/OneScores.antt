-- ===== src/RedisQueue/OneScores.antt =====
-- A sorted set of Redis in which every entry of one member has the same score, and what ZADD of that
-- member or of another does to it.
use mathlib.Core.List.{reverse, reverse-cons}
use home_work_ad_processor_g.Prelude.{
  ◌≡◌, refl, ap, ◌∙◌, Bool, true, false, ◌||◌, some, List, [], ◌∷◌, ◌++◌, String, str_eq, eq_iff,
  if◌then◌else◌, ℤ, arith, All, All-keep_if, All-kept,
}
use home_work_ad_processor_g.Redis.Sets.{Z, score_of, without, zinsert}
use home_work_ad_processor_g.RedisQueue.Placement.{All-zinsert}
use home_work_ad_processor_g.RedisQueue.Rescore.{score_of-zadd}

-- Every entry of a member has one score.
abbrev pub OneScore : String → ℤ → List Z → Type 0
OneScore id w = All (λ (z : Z). str_eq z.member id ≡ true → z.score ≡ w)

abbrev pub is_in : String → List Z → Bool
is_in id [] = false
is_in id (z ∷ zs) = let rest = is_in id zs in if str_eq z.member id then true else rest

pub is_in-append :
    (id : String) (xs ys : List Z) → is_in id (xs ++ ys) ≡ (is_in id xs || is_in id ys)
is_in-append id [] ys = refl
is_in-append id (z ∷ xs) ys = ground (arith, is_in-append id xs ys)

pub is_in-reverse : (id : String) (xs : List Z) → is_in id (reverse xs) ≡ is_in id xs
is_in-reverse id [] = refl
is_in-reverse id (z ∷ xs) =
    rw (reverse-cons z xs)
      (is_in-append id (reverse xs) (z ∷ []) ∙ ground (arith, is_in-reverse id xs))

pub score_of-is_in : (id : String) (w : ℤ) (l : List Z) → score_of id l ≡ some w → is_in id l ≡ true
score_of-is_in id w [] e = cc
score_of-is_in id w (z ∷ l) e = ground (arith, score_of-is_in id w l)

-- The ad is in a list of items with one score.
abbrev pub HoldsIn : String → ℤ → List Z → Type 0
HoldsIn id w l = (score_of id l ≡ some w) × OneScore id w l

pub without_self : (id : String) (w : ℤ) (l : List Z) → OneScore id w (without (id ∷ []) l)
without_self id w l =
    All-kept _ _ l (λ z keeps same. absurd (ground (arith, eq_iff z.member id, eq_iff id z.member)))

-- ZADD of the ad itself.
pub zadd_self :
    (before : String → String → Bool) (id : String) (v : ℤ) (l : List Z)
    → HoldsIn id v (zinsert before (record { member = id; score = v }) (without (id ∷ []) l))
zadd_self before id v l = (
  score_of-zadd before (record { member = id; score = v }) id l
      ∙ ap (λ b. if b then some v else score_of id l) ((eq_iff id id).1 refl),
  All-zinsert _ before _ _ (λ same. refl) (without_self id v l),
)

-- ZADD of another ad.
pub zadd_other :
    (before : String → String → Bool) (id : String) (w : ℤ) (z : Z) (l : List Z)
    → str_eq z.member id ≡ false
    → HoldsIn id w l
    → HoldsIn id w (zinsert before z (without (z.member ∷ []) l))
zadd_other before id w z l other (scored, one) = (
  score_of-zadd before z id l ∙ ap (λ b. if b then some z.score else score_of id l) other ∙ scored,
  All-zinsert _ before _ _ (λ same. let no = (rw other at same) in absurd cc)
      (All-keep_if _ _ l one),
)
