-- ===== src/RedisQueue/Score.antt =====
-- The score of a queued ad: its priority times 10^10, plus the seconds from its arrival to 9999999999.
use home_work_ad_processor_g.Prelude.{
  ℕ, ◌+◌, ◌-◌, ◌*◌, ◌≤◌, ◌<◌, ◌≡◌, ◌⊎◌, ◌↔◌, arith, ℤ, pos, ◌+ℤ◌, ◌-ℤ◌, ◌*ℤ◌, tdiv, ◌<ℤ◌,
}

abbrev pub score_unit : ℕ
score_unit = 10_000_000_000

abbrev pub max_time : ℕ
max_time = 9_999_999_999

-- The source's float64 is exact, and so this integer, where the result is below 2^53 in absolute
-- value: for priorities up to 900000, of which 1 to 5 are the valid ones. Above, Go rounds.
unfoldable pub calculate_score : ℤ → ℤ → ℤ
calculate_score priority timestamp = priority *ℤ pos score_unit +ℤ (pos max_time -ℤ timestamp)

-- `int(score / 10000000000)`.
unfoldable pub score_priority : ℤ → ℤ
score_priority score = tdiv score score_unit

-- `score - float64(int(score / 10000000000)) * 10000000000`.
unfoldable pub timestamp_part : ℤ → ℤ
unfolding score_priority
timestamp_part score = score -ℤ score_priority score *ℤ pos score_unit

-- On a natural priority and a clock up to the year 2286 a score is a number below 10^10 * (p + 1).
pub calculate_score-pos :
    (p t : ℕ)
    → t ≤ max_time
    → calculate_score (pos p) (pos t) ≡ pos (p * score_unit + (max_time - t))
unfolding calculate_score ◌+ℤ◌ ◌-ℤ◌ ◌*ℤ◌
calculate_score-pos p t h = ground arith

pub score_priority-pos :
    (p a : ℕ) → a ≤ max_time → score_priority (pos (p * score_unit + a)) ≡ pos p
unfolding score_priority tdiv
score_priority-pos p a h = ground arith

pub timestamp_part-pos :
    (p a : ℕ) → a ≤ max_time → timestamp_part (pos (p * score_unit + a)) ≡ pos a
unfolding timestamp_part tdiv ◌-ℤ◌ ◌*ℤ◌
timestamp_part-pos p a h = ground arith

-- The whole numbers up to 2^53 are the ones that a float64 holds without gaps.
abbrev pub exact_limit : ℕ
exact_limit = 9_007_199_254_740_992

-- The priorities up to this one have scores below 2^53.
abbrev pub max_exact_priority : ℕ
max_exact_priority = 900_000

-- For priorities from 0 to 900000, the valid ones among them, and arrivals up to the year 2286: both
-- scores, and the products that they are sums of, are whole numbers below 2^53, which a float64 holds
-- exactly, and a score is above another exactly if its priority is higher, or the priorities are
-- equal and its arrival is earlier.
pub calculate_score_order :
    (p q t u : ℕ)
    → p ≤ max_exact_priority
    → q ≤ max_exact_priority
    → t ≤ max_time
    → u ≤ max_time
    → (calculate_score (pos p) (pos t) <ℤ pos exact_limit)
      × (calculate_score (pos q) (pos u) <ℤ pos exact_limit)
      × (p * score_unit < exact_limit)
      × (q * score_unit < exact_limit)
      × ((calculate_score (pos q) (pos u) <ℤ calculate_score (pos p) (pos t))
          ↔ ((q < p) ⊎ ((q ≡ p) × (t < u))))
calculate_score_order p q t u b c h k =
    rw (calculate_score-pos p t h, calculate_score-pos q u k)
      (omega (arith, b, h), omega (arith, c, k), omega (arith, b), omega (arith, c), ground arith)

-- For arrivals up to the year 2286, the priority is read back from the score, and the part below it
-- counts down from the largest time to the arrival.
pub calculate_score_decodes :
    (p t : ℕ)
    → t ≤ max_time
    → (score_priority (calculate_score (pos p) (pos t)) ≡ pos p)
      × (timestamp_part (calculate_score (pos p) (pos t)) ≡ pos (max_time - t))
calculate_score_decodes p t h = rw (calculate_score-pos p t h) (
  score_priority-pos p (max_time - t) (omega arith),
  timestamp_part-pos p (max_time - t) (omega arith),
)
