-- ===== src/Ad/Starvation.antt =====
-- The anti-starvation boost of internal/domain/ad/ad.go.
use home_work_ad_processor_g.Prelude.{
  ◌*◌, ◌≡◌, Bool, true, ◌&&◌, none, arith, if◌then◌else◌, ℤ, pos, ◌≤ℤ◌, ◌+ℤ◌, ◌-ℤ◌, tdiv, ltb_ℤ,
  +ℤ_parts, -ℤ_parts, -ℤ_nonneg, tdiv_parts, eq_of_parts,
}
use home_work_ad_processor_g.Ad.{
  Ad, queued, is_queued, is_valid, five_minutes, wait_time, calculate_effective_priority,
}

-- The effective priority as a function of the priority, the longest wait allowed, and the wait.
boosted : ℤ → ℤ → ℤ → ℤ
boosted p limit w =
    let e = p +ℤ tdiv (w -ℤ limit) five_minutes in
    if ltb_ℤ limit w then (if ltb_ℤ (pos 5) e then pos 5 else e) else p

effective-eq-boosted :
    (a : Ad) (now : ℤ) (enabled : Bool)
    → calculate_effective_priority a now enabled ≡ (
        if enabled && is_queued a.status
        then boosted a.priority a.max_wait_time (wait_time a now)
        else a.priority)
unfolding calculate_effective_priority boosted
effective-eq-boosted a now enabled = ground arith

boosted_bounds :
    (p limit w : ℤ) → is_valid p ≡ true → (p ≤ℤ boosted p limit w) × (boosted p limit w ≤ℤ pos 5)
unfolding boosted is_valid
boosted_bounds p limit w h = ground (
  arith,
  -ℤ_nonneg w limit,
  tdiv_parts (w -ℤ limit) five_minutes,
  +ℤ_parts p (tdiv (w -ℤ limit) five_minutes),
)

boosted_mono :
    (p limit v w : ℤ) → is_valid p ≡ true → v ≤ℤ w → boosted p limit v ≤ℤ boosted p limit w
unfolding boosted is_valid
boosted_mono p limit v w h k = ground (
  arith,
  -ℤ_nonneg v limit,
  -ℤ_nonneg w limit,
  -ℤ_parts v limit,
  -ℤ_parts w limit,
  tdiv_parts (v -ℤ limit) five_minutes,
  tdiv_parts (w -ℤ limit) five_minutes,
  +ℤ_parts p (tdiv (v -ℤ limit) five_minutes),
  +ℤ_parts p (tdiv (w -ℤ limit) five_minutes),
)

boosted_high :
    (p limit w : ℤ)
    → is_valid p ≡ true
    → limit +ℤ pos (4 * five_minutes) ≤ℤ w
    → boosted p limit w ≡ pos 5
unfolding boosted is_valid
boosted_high p limit w h k = ground (
  arith,
  -ℤ_nonneg w limit,
  -ℤ_parts w limit,
  +ℤ_parts limit (pos (4 * five_minutes)),
  tdiv_parts (w -ℤ limit) five_minutes,
  +ℤ_parts p (tdiv (w -ℤ limit) five_minutes),
  eq_of_parts (p +ℤ tdiv (w -ℤ limit) five_minutes) (pos 5),
)

-- The effective priority of an ad of valid priority is never below its priority and never above 5,
-- with the boost on or off.
effective_priority_bounds :
    (a : Ad) (now : ℤ) (enabled : Bool)
    → is_valid a.priority ≡ true
    → let e = calculate_effective_priority a now enabled in (a.priority ≤ℤ e) × (e ≤ℤ pos 5)
unfolding is_valid
effective_priority_bounds a now enabled v =
    rw (effective-eq-boosted a now enabled)
      (ground (arith, boosted_bounds a.priority a.max_wait_time (wait_time a now)))

-- The effective priority of an ad of valid priority whose processing has not started does not fall
-- as the clock goes on.
effective_priority_mono :
    (a : Ad) (now later : ℤ) (enabled : Bool)
    → a.processing_started_at ≡ none
    → is_valid a.priority ≡ true
    → now ≤ℤ later
    → calculate_effective_priority a now enabled ≤ℤ calculate_effective_priority a later enabled
unfolding wait_time
effective_priority_mono a now later enabled q v h =
    rw (effective-eq-boosted a now enabled, effective-eq-boosted a later enabled)
      (ground (
        arith,
        -ℤ_parts now a.created_at,
        -ℤ_parts later a.created_at,
        boosted_mono a.priority a.max_wait_time (now -ℤ a.created_at) (later -ℤ a.created_at),
      ))

-- With the boost on, a queued ad of valid priority has effective priority 5 once it has waited
-- twenty minutes more than its maximal wait, whatever its own priority.
pub effective_priority_reaches_high :
    (a : Ad) (now : ℤ)
    → a.status ≡ queued
    → is_valid a.priority ≡ true
    → a.max_wait_time +ℤ pos (4 * five_minutes) ≤ℤ wait_time a now
    → calculate_effective_priority a now true ≡ pos 5
unfolding wait_time
effective_priority_reaches_high a now s v h =
    rw (effective-eq-boosted a now true, s)
      (boosted_high a.priority a.max_wait_time (wait_time a now) v h)
