-- ===== src/Examples/Ads.antt =====
-- The theorems on ads at work.
use home_work_ad_processor_g.Prelude.{◌≡◌, refl, true, List, [], ◌∷◌, arith, pos, ◌+ℤ◌, ◌-ℤ◌}
use home_work_ad_processor_g.Ad.{
  Ad, AdStatus, is_valid, create_ad, calculate_effective_priority, wait_time,
}
use home_work_ad_processor_g.Ad.Lifecycle.{
  Call, starts, completes, fails, changes, call, run, Inv, Follows, run-create_ad-Inv, call-Follows,
}
use home_work_ad_processor_g.Ad.Starvation.{effective_priority_reaches_high}
use home_work_ad_processor_g.Examples.Data.{puzzle}

abbrev long_life : List Call
long_life = changes (pos 4) ∷ starts (pos 7) ∷ changes (pos 1) ∷ completes (pos 9) ∷ fails ∷ []

run-create_ad-Inv_example : Inv (run puzzle long_life)
unfolding create_ad is_valid
run-create_ad-Inv_example =
    run-create_ad-Inv "ad-1" "Puzzle" "Casual" (pos 0) (pos 2) (pos 600_000_000_000) ("18-34" ∷ [])
      long_life refl

call-Follows_example : Follows puzzle (changes (pos 9)) (call puzzle (changes (pos 9)))
call-Follows_example = call-Follows puzzle (changes (pos 9))

abbrev done : Ad
done = record puzzle { status = AdStatus.completed }

effective_priority_reaches_high_example :
    calculate_effective_priority puzzle (pos 1_800_000_000_000) true ≡ pos 5
unfolding is_valid wait_time ◌+ℤ◌ ◌-ℤ◌
effective_priority_reaches_high_example =
    effective_priority_reaches_high puzzle (pos 1_800_000_000_000) refl refl (omega arith)
