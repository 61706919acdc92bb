-- ===== src/RedisQueue/Exchange.antt =====
-- The nested loops that sort the collected items in place, highest score first.
use home_work_ad_processor_g.Prelude.{
  ℕ, zero, suc, ◌≤◌, ◌≡◌, refl, ◌∙◌, Bool, List, [], ◌∷◌, arith, if◌then◌else◌, ℤ, ltb_ℤ, ◌≤ℤ◌,
  Bool-cases, inl, inr, true, not, All, take, length, count_if,
}
use home_work_ad_processor_g.Redis.Sets.{Z, AtMost, IsDescending}

-- The loop over `j`: `x` stands at place `i`, and the list holds the places after it.
unfoldable pub sweep : Z → List Z → Z × List Z
sweep x [] = (x, [])
sweep x (y ∷ ys) =
    let swap = ltb_ℤ x.score y.score in
    let (top, rest) = sweep (if swap then y else x) ys in (top, (if swap then x else y) ∷ rest)

-- The loop over `i`, with one unit of fuel for each place.
unfoldable pub sort_from : ℕ → List Z → List Z
unfolding sweep
sort_from zero l = l
sort_from (suc n) [] = []
sort_from (suc n) (x ∷ xs) = let (top, rest) = sweep x xs in top ∷ sort_from n rest

unfoldable pub exchange_sort : List Z → List Z
unfolding sort_from
exchange_sort l = sort_from (length l) l

count_if-swap :
    (p : Z → Bool) (x y : Z) (l : List Z) → count_if p (x ∷ y ∷ l) ≡ count_if p (y ∷ x ∷ l)
count_if-swap p x y l = ground arith

-- One item past a loop that keeps the count.
through :
    (p : Z → Bool) (x y : Z) (ys : List Z) (r : Z × List Z)
    → count_if p (r.0 ∷ r.1) ≡ count_if p (y ∷ ys)
    → count_if p (r.0 ∷ x ∷ r.1) ≡ count_if p (x ∷ y ∷ ys)
through p x y ys (top, rest) h = ground arith

-- How often an item passes a test is kept by the loop over `j`, for any test.
count_if-sweep :
    (p : Z → Bool) (x : Z) (l : List Z)
    → let (top, rest) = sweep x l in count_if p (top ∷ rest) ≡ count_if p (x ∷ l)
unfolding sweep
count_if-sweep p x [] = refl
count_if-sweep p x (y ∷ ys) = elim (Bool-cases (ltb_ℤ x.score y.score)) [
  | inl up ↦ rw up (through p x y ys (sweep y ys) (count_if-sweep p y ys))
  | inr down ↦
      rw down (through p y x ys (sweep x ys) (count_if-sweep p x ys) ∙ count_if-swap p y x ys)
]

length-sweep : (x : Z) (l : List Z) → length (sweep x l).1 ≡ length l
unfolding sweep
length-sweep x [] = refl
length-sweep x (y ∷ ys) = ground (arith, length-sweep x ys, length-sweep y ys)

sweep_top :
    (x : Z) (l : List Z)
    → let (top, rest) = sweep x l in (x.score ≤ℤ top.score) × AtMost top.score rest
unfolding sweep
sweep_top x [] = (omega arith, tt)
sweep_top x (y ∷ ys) = ground (arith, sweep_top x ys, sweep_top y ys)

AtMost-sweep :
    (s : ℤ) (x : Z) (l : List Z)
    → x.score ≤ℤ s
    → AtMost s l
    → let (top, rest) = sweep x l in (top.score ≤ℤ s) × AtMost s rest
unfolding sweep
AtMost-sweep s x [] h k = (h, tt)
AtMost-sweep s x (y ∷ ys) h k = ground (arith, AtMost-sweep s x ys, AtMost-sweep s y ys)

AtMost-sort_from : (n : ℕ) (s : ℤ) (l : List Z) → AtMost s l → AtMost s (sort_from n l)
unfolding sort_from
AtMost-sort_from zero s l h = h
AtMost-sort_from (suc n) s [] h = h
AtMost-sort_from (suc n) s (x ∷ xs) h =
    let t = AtMost-sweep s x xs h.0 h.1 in (t.0, AtMost-sort_from n s (sweep x xs).1 t.1)

sort_from-IsDescending : (n : ℕ) (l : List Z) → length l ≤ n → IsDescending (sort_from n l)
unfolding sort_from
sort_from-IsDescending zero [] h = tt
sort_from-IsDescending zero (x ∷ xs) h = absurd (omega arith)
sort_from-IsDescending (suc n) [] h = tt
sort_from-IsDescending (suc n) (x ∷ xs) h = (
  AtMost-sort_from n (sweep x xs).0.score (sweep x xs).1 (sweep_top x xs).1,
  sort_from-IsDescending n (sweep x xs).1 (omega (arith, length-sweep x xs)),
)

count_if-sort_from : (p : Z → Bool) (n : ℕ) (l : List Z) → count_if p (sort_from n l) ≡ count_if p l
unfolding sort_from
count_if-sort_from p zero l = refl
count_if-sort_from p (suc n) [] = refl
count_if-sort_from p (suc n) (x ∷ xs) =
    ground (arith, count_if-sweep p x xs, count_if-sort_from p n (sweep x xs).1)

-- The nested loops leave the items in descending order of score, and every test passes on as many
-- items as before: none is lost, added or altered.
pub exchange_sort_lem :
    (l : List Z)
    → IsDescending (exchange_sort l)
      × ((p : Z → Bool) → count_if p (exchange_sort l) ≡ count_if p l)
unfolding exchange_sort
exchange_sort_lem l =
    (sort_from-IsDescending (length l) l (omega arith), λ p. count_if-sort_from p (length l) l)

All→count_if :
    (q : Z → Bool) (l : List Z) → All (λ (z : Z). q z ≡ true) l → count_if (λ z. not (q z)) l ≡ 0
All→count_if q [] h = refl
All→count_if q (z ∷ l) h = ground (arith, All→count_if q l)

count_if→All :
    (q : Z → Bool) (l : List Z) → count_if (λ z. not (q z)) l ≡ 0 → All (λ (z : Z). q z ≡ true) l
count_if→All q [] h = tt
count_if→All q (z ∷ l) h = ground (arith, count_if→All q l)

pub count_if-take-le : (p : Z → Bool) (k : ℕ) (l : List Z) → count_if p (take k l) ≤ count_if p l
count_if-take-le p zero l = omega arith
count_if-take-le p (suc k) [] = omega arith
count_if-take-le p (suc k) (z ∷ l) = ground (arith, count_if-take-le p k l)

-- A test that every item passes, every item passes in the sorted prefix.
pub All-take-exchange_sort :
    (q : Z → Bool) (k : ℕ) (l : List Z)
    → All (λ (z : Z). q z ≡ true) l
    → All (λ (z : Z). q z ≡ true) (take k (exchange_sort l))
All-take-exchange_sort q k l h =
    let p = λ (z : Z). not (q z) in
    count_if→All q (take k (exchange_sort l)) (
      omega (
        arith,
        count_if-take-le p k (exchange_sort l),
        (exchange_sort_lem l).1 p,
        All→count_if q l h,
      ))
