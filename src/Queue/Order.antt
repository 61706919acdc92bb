-- ===== src/Queue/Order.antt =====
-- internal/domain/queue/queue.go, `calculateScore` and `UpdatePriority`: the order that the score of a
-- queue item stands for.
use home_work_ad_processor_g.Prelude.{
  ℕ, ◌<◌, ◌≡◌, ◌↔◌, ◌⊎◌, refl, arith, String, ℤ, pos, ◌<ℤ◌, ◌+ℤ◌, ◌*ℤ◌,
}
use home_work_ad_processor_g.Queue.{calculate_score, new_queue_item, update_item_priority}

-- For priorities from 0 up and timestamps below 10^15 seconds, the score of one item is below that of
-- another, before float64 rounds them, exactly if its priority is lower, or the priorities are equal
-- and its timestamp is older: among equals the newer item scores higher.
calculate_score_newer :
    (p q t u : ℕ)
    → t < 1_000_000_000_000_000
    → u < 1_000_000_000_000_000
    → (calculate_score (pos p) (pos t) <ℤ calculate_score (pos q) (pos u))
      ↔ ((p < q) ⊎ ((p ≡ q) × (t < u)))
unfolding calculate_score ◌+ℤ◌ ◌*ℤ◌
calculate_score_newer p q t u h k = ground arith

-- Changing the priority of an item gives the item that would have been made with the new priority.
update_item_priority-new_queue_item :
    (id : String) (p q timestamp : ℤ)
    → update_item_priority (new_queue_item id p timestamp) q ≡ new_queue_item id q timestamp
unfolding update_item_priority new_queue_item
update_item_priority-new_queue_item id p q timestamp = refl
