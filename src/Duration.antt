-- ===== src/Duration.antt =====
-- Durations of Go, in nanoseconds, and `int(d.Seconds())`, which the configuration of the queue
-- (internal/infrastructure/cache/redis_queue_manager.go) and the column max_wait_time
-- (internal/infrastructure/persistence/) go through. `Seconds` adds the whole seconds and the rest in
-- float64, whose sum is the next second when the rest is so near to it that the 53 bits do not tell
-- them apart; this needs more than half a year.
use home_work_ad_processor_g.Prelude.{
  ℕ, zero, suc, ◌+◌, ◌*◌, ◌-◌, ◌/◌, ◌%◌, ◌^◌, ◌≤◌, ◌≡◌, subst, ap, ◌∙◌, Bool, true, false, leb,
  if◌then◌else◌, ℤ, pos, negsuc, sub_ℕ, ◌*ℤ◌, arith,
}

abbrev pub second : ℕ
second = 1_000_000_000

-- From `p` on, the largest of its doubles that is at most `n`, in `fuel` steps.
unfoldable double_up_to : ℕ → ℕ → ℕ → ℕ
double_up_to zero p n = p
double_up_to (suc fuel) p n =
    let more = double_up_to fuel (2 * p) n in if leb (2 * p) n then more else p

-- Whether `sec` seconds and `nsec` nanoseconds are the next second in float64: the gap to it is at
-- most half of what the last of the 53 bits stands for. A duration has less than 2 ^ 34 seconds.
unfoldable rounds_up : ℕ → ℕ → Bool
unfolding double_up_to
rounds_up sec nsec = leb ((second - nsec) * 2 ^ 53) (second * double_up_to 34 1 sec)

unfoldable seconds_of : ℕ → ℕ
unfolding rounds_up
seconds_of n =
    let sec = n / second in let nsec = n % second in if rounds_up sec nsec then suc sec else sec

-- `int(d.Seconds())`.
unfoldable pub seconds : ℤ → ℤ
unfolding seconds_of
seconds (pos n) = pos (seconds_of n)
seconds (negsuc n) = sub_ℕ 0 (seconds_of (suc n))

doubled : (p k d : ℕ) → d ≤ 2 * p * k → d ≤ p * (k * 2)
doubled p k d h = grind arith

once : (p k : ℕ) → 1 ≤ k → p ≤ p * (k * 2)
once p zero h = absurd (omega (arith, h))
once p (suc k) h = grind arith

pow_suc : (k : ℕ) → 2 ^ k * 2 ≡ 2 ^ suc k
pow_suc k = omega arith

double_up_to-le : (fuel p n : ℕ) → double_up_to fuel p n ≤ p * 2 ^ fuel
unfolding double_up_to
double_up_to-le zero p n = omega arith
double_up_to-le (suc fuel) p n = go (leb (2 * p) n) (double_up_to-le fuel (2 * p) n)
  where
    positive : (k : ℕ) → 1 ≤ 2 ^ k
    positive zero = omega arith
    positive (suc k) = omega (arith, positive k)

    go :
        (b : Bool)
        → double_up_to fuel (2 * p) n ≤ 2 * p * 2 ^ fuel
        → (if b then double_up_to fuel (2 * p) n else p) ≤ p * 2 ^ suc fuel
    go true h =
        subst (λ k. double_up_to fuel (2 * p) n ≤ p * k) (pow_suc fuel) (doubled p (2 ^ fuel) _ h)
    go false h = subst (λ k. p ≤ p * k) (pow_suc fuel) (once p (2 ^ fuel) (positive fuel))

-- Whole seconds are not rounded up.
whole_stays : (sec : ℕ) → rounds_up sec 0 ≡ false
unfolding rounds_up
whole_stays sec = small (double_up_to 34 1 sec) (double_up_to-le 34 1 sec)
  where
    small : (d : ℕ) → d ≤ 1 * 2 ^ 34 → leb ((second - 0) * 2 ^ 53) (second * d) ≡ false
    small d h = ground arith

seconds_of-whole : (w : ℕ) → seconds_of (w * second) ≡ w
unfolding seconds_of
seconds_of-whole w = go (w * second / second) (w * second % second) (omega arith) (omega arith)
  where
    go : (sec nsec : ℕ) → sec ≡ w → nsec ≡ 0 → (if rounds_up sec nsec then suc sec else sec) ≡ w
    go sec nsec e z =
        ap (λ k. if rounds_up sec k then suc sec else sec) z
        ∙ ap (λ b. if b then suc sec else sec) (whole_stays sec)
        ∙ e

times_pos : (n : ℕ) → pos n *ℤ pos second ≡ pos (n * second)
unfolding ◌*ℤ◌
times_pos n = ground arith

times_neg : (n : ℕ) → negsuc n *ℤ pos second ≡ negsuc (n * second + 999_999_999)
unfolding ◌*ℤ◌
times_neg n = ground arith

whole_suc : (n : ℕ) → suc (n * second + 999_999_999) ≡ suc n * second
whole_suc n = omega arith

below_zero : (n : ℕ) → sub_ℕ 0 (suc n) ≡ negsuc n
below_zero n = ground arith

-- A number of whole seconds stays what it is.
pub seconds-whole : (w : ℤ) → seconds (w *ℤ pos second) ≡ w
unfolding seconds
seconds-whole (pos n) = ap seconds (times_pos n) ∙ ap pos (seconds_of-whole n)
seconds-whole (negsuc n) =
    ap seconds (times_neg n)
    ∙ ap (λ k. sub_ℕ 0 (seconds_of k)) (whole_suc n)
    ∙ ap (sub_ℕ 0) (seconds_of-whole (suc n))
    ∙ below_zero n
