-- ===== src/RedisQueue/Batch.antt =====
-- `DequeueBatch` and `GetNext` of internal/infrastructure/cache/redis_queue_manager.go.
use home_work_ad_processor_g.Prelude.{
  ℕ, zero, suc, ◌==◌, Option, none, some, List, [], ◌∷◌, ◌++◌, String, str_eq, Bool, if◌then◌else◌,
  ℤ, pos, pos_part, ◌-ℤ◌, take, Result,
}
use home_work_ad_processor_g.Ad.{parse_ad_id}
use home_work_ad_processor_g.Queue.{QueueItem, new_queue_item}
use home_work_ad_processor_g.Redis.{Redis, Reply}
use home_work_ad_processor_g.Redis.Sets.{Z}
use home_work_ad_processor_g.RedisQueue.{Manager, QueueError, range_failed}
use home_work_ad_processor_g.RedisQueue.Score.{score_priority}
use home_work_ad_processor_g.RedisQueue.Exchange.{exchange_sort}

-- `shardMapping`, newest entry first, so that a later shard overrides an earlier one.
abbrev pub map_to : List Z → ℕ → List (String × ℕ) → List (String × ℕ)
map_to [] i mapping = mapping
map_to (z ∷ zs) i mapping = map_to zs i ((z.member, i) ∷ mapping)

abbrev pub shard_in : List (String × ℕ) → String → Option ℕ
shard_in [] m = none
shard_in ((k, i) ∷ mapping) m = if str_eq k m then some i else shard_in mapping m

-- `toRemove[shardKey] = append(toRemove[shardKey], member)`; no shard has the empty key.
abbrev pub append_member : Option ℕ → String → List (ℕ × List String) → List (ℕ × List String)
append_member none m groups = groups
append_member (some i) m [] = (i, m ∷ []) ∷ []
append_member (some i) m ((j, ms) ∷ groups) =
    let rest = append_member (some i) m groups in
    if i == j then (j, ms ++ m ∷ []) ∷ groups else (j, ms) ∷ rest

module _ (r : Redis) (uuid_ok : String → Bool) where
  open r use {Store}

  -- The loop that collects the best `stop + 1` items of each shard.
  unfoldable pub collect :
      Store
      → ℤ
      → ℕ
      → ℕ
      → List Z
      → List (String × ℕ)
      → Result QueueError (List Z × List (String × ℕ))
  collect s stop zero i items mapping = Result.ok (items, mapping)
  collect s stop (suc n) i items mapping = elim (r.zrevrange s i stop) [
    | Reply.ok zs ↦ collect s stop n (suc i) (items ++ zs) (map_to zs i mapping)
    | Reply.nil ↦ collect s stop n (suc i) items mapping
    | Reply.fail ↦ Result.err (range_failed i)
  ]

  -- The items of a list whose identifier parses; the others are passed over.
  unfoldable pub queue_items : ℤ → List Z → List QueueItem
  queue_items now [] = []
  queue_items now (z ∷ zs) =
      let rest = queue_items now zs in
      elim (parse_ad_id uuid_ok z.member) [
        | none ↦ rest
        | some id ↦ new_queue_item id (score_priority z.score) now ∷ rest
      ]

  unfoldable pub to_remove :
      List (String × ℕ) → List Z → List (ℕ × List String) → List (ℕ × List String)
  to_remove mapping [] groups = groups
  to_remove mapping (z ∷ zs) groups = to_remove mapping zs (elim (parse_ad_id uuid_ok z.member) [
    | none ↦ groups
    | some id ↦ append_member (shard_in mapping z.member) z.member groups
  ])

  -- The replies of these removals are dropped.
  unfoldable pub remove_groups : Store → List (ℕ × List String) → Store
  remove_groups s [] = s
  remove_groups s ((i, ms) ∷ groups) = remove_groups (r.zrem s i ms).0 groups

  abbrev pub finish_batch :
      Store
      → ℤ
      → ℤ
      → Result QueueError (List Z × List (String × ℕ))
      → Store × Result QueueError (List QueueItem)
  finish_batch s batch_size now (Result.err e) = (s, Result.err e)
  finish_batch s batch_size now (Result.ok (items, mapping)) =
      let top = take (pos_part batch_size) (exchange_sort items) in
      (remove_groups s (to_remove mapping top []), Result.ok (queue_items now top))

  unfoldable pub dequeue_batch :
      Manager → Store → ℤ → ℤ → Store × Result QueueError (List QueueItem)
  unfolding collect to_remove remove_groups queue_items
  dequeue_batch m s batch_size now =
      finish_batch s batch_size now (collect s (batch_size -ℤ pos 1) m.shard_count 0 [] [])

  abbrev pub next_items :
      ℤ → ℤ → Result QueueError (List Z × List (String × ℕ)) → Result QueueError (List QueueItem)
  next_items count now (Result.err e) = Result.err e
  next_items count now (Result.ok (items, _)) =
      Result.ok (queue_items now (take (pos_part count) (exchange_sort items)))

  unfoldable pub get_next : Manager → Store → ℤ → ℤ → Result QueueError (List QueueItem)
  unfolding collect queue_items
  get_next m s count now = next_items count now (collect s (count -ℤ pos 1) m.shard_count 0 [] [])
