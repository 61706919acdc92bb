-- ===== src/Redis/Sets.antt =====
-- Sorted sets as lists, highest score first. A score is a `float64` in Redis; every score of this
-- program is a whole number below 2^53, which a `float64` holds exactly.
use home_work_ad_processor_g.Prelude.{
  suc, ◌-◌, Bool, true, false, not, ◌&&◌, ◌||◌, Option, none, some, List, [], ◌∷◌, String, str_eq,
  ℤ, pos, negsuc, ltb_ℤ, leb_ℤ, ◌≤ℤ◌, take, length, All, keep_if, if◌then◌else◌, arith,
}

pub record Z : Type 0 where
  pub member : String
  pub score : ℤ

-- A bound of ZCOUNT: `x`, `(x`, `+inf`.
pub data Bound : Type 0 where
  closed : ℤ → Bound
  open_at : ℤ → Bound
  infinite : Bound

abbrev pub above : Bound → ℤ → Bool
above (closed x) s = leb_ℤ x s
above (open_at x) s = ltb_ℤ x s
above infinite s = false

abbrev pub below : Bound → ℤ → Bool
below (closed x) s = leb_ℤ s x
below (open_at x) s = ltb_ℤ s x
below infinite s = true

abbrev pub in_bounds : Bound → Bound → ℤ → Bool
in_bounds lo hi s = above lo s && below hi s

-- The items from rank 0 to rank `stop`; a negative rank counts from the end.
abbrev pub range_to : ℤ → List Z → List Z
range_to (pos n) l = take (suc n) l
range_to (negsuc n) l = take (length l - n) l

abbrev pub score_of : String → List Z → Option ℤ
score_of m [] = none
score_of m (z ∷ l) = if str_eq z.member m then some z.score else score_of m l

abbrev pub listed : String → List String → Bool
listed m [] = false
listed m (x ∷ xs) = str_eq x m || listed m xs

abbrev pub without : List String → List Z → List Z
without ms = keep_if (λ z. not (listed z.member ms))

abbrev pub goes_before : (String → String → Bool) → Z → Z → Bool
goes_before before z y =
    ltb_ℤ y.score z.score || (leb_ℤ y.score z.score && before y.member z.member)

abbrev pub zinsert : (String → String → Bool) → Z → List Z → List Z
zinsert before z [] = z ∷ []
zinsert before z (y ∷ l) =
    let rest = zinsert before z l in if goes_before before z y then z ∷ y ∷ l else y ∷ rest

abbrev pub AtMost : ℤ → List Z → Type 0
AtMost s = All (λ z. z.score ≤ℤ s)

abbrev pub IsDescending : List Z → Type 0
IsDescending [] = Unit
IsDescending (z ∷ l) = AtMost z.score l × IsDescending l

module _ (ms : List String) where
  pub AtMost-without : (s : ℤ) (l : List Z) → AtMost s l → AtMost s (without ms l)
  AtMost-without s [] h = tt
  AtMost-without s (z ∷ l) h = ground (arith, AtMost-without s l)

  pub without-IsDescending : (l : List Z) → IsDescending l → IsDescending (without ms l)
  without-IsDescending [] h = tt
  without-IsDescending (z ∷ l) h = ground (arith, without-IsDescending l, AtMost-without z.score l)

pub AtMost-mono : (s t : ℤ) (l : List Z) → s ≤ℤ t → AtMost s l → AtMost t l
AtMost-mono s t [] h k = tt
AtMost-mono s t (z ∷ l) h k = (omega arith, AtMost-mono s t l h k.1)

module _ (before : String → String → Bool) (z : Z) where
  pub AtMost-zinsert :
      (s : ℤ) (l : List Z) → z.score ≤ℤ s → AtMost s l → AtMost s (zinsert before z l)
  AtMost-zinsert s [] h k = (h, tt)
  AtMost-zinsert s (y ∷ l) h k = ground (arith, AtMost-zinsert s l)

  pub zinsert-IsDescending : (l : List Z) → IsDescending l → IsDescending (zinsert before z l)
  zinsert-IsDescending [] h = (tt, tt)
  zinsert-IsDescending (y ∷ l) h =
      ground
        (arith, zinsert-IsDescending l, AtMost-zinsert y.score l, AtMost-mono y.score z.score l)
