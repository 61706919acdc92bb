-- ===== src/Processor.antt =====
-- cmd/ad-processor/main.go: the poller that hands dequeued items to the workers, and the worker's
-- processing of one ad.
pub mod Distribution
pub mod Processing
pub mod Polling
use home_work_ad_processor_g.Prelude.{
  ℕ, ◌+◌, Bool, Option, none, some, List, [], ◌∷◌, ◌++◌, String, if◌then◌else◌, ltb, length, ℤ,
  Result, ok, err, replicate,
}
use home_work_ad_processor_g.Ad.{Ad, AdError, start_processing, complete_processing}
use home_work_ad_processor_g.Queue.{QueueItem}
use home_work_ad_processor_g.Repository.{Repository, RepoError}

-- `make(chan *queue.QueueItem, 10)`: the items that wait in a worker's channel, oldest first.
abbrev pub Channel : Type 0
Channel = List QueueItem

abbrev pub capacity : ℕ
capacity = 10

-- `Start`: one empty channel for each worker.
unfoldable pub start : ℕ → List Channel
start worker_count = replicate worker_count []

-- `select { case ch <- item: … default: … }` over the workers in turn: the first channel with room.
unfoldable pub offer : QueueItem → List Channel → Option (List Channel)
offer item [] = none
offer item (c ∷ cs) =
    let rest = offer item cs in
    if ltb (length c) capacity
    then some ((c ++ item ∷ []) ∷ cs)
    else elim rest [ none ↦ none | some ds ↦ some (c ∷ ds) ]

-- The second `select`, on the first worker alone.
unfoldable pub offer_first : QueueItem → List Channel → Option (List Channel)
offer_first item [] = none
offer_first item (c ∷ cs) = if ltb (length c) capacity then some ((c ++ item ∷ []) ∷ cs) else none

-- The body of the loop over the items: the channels, and the items that were skipped.
unfoldable pub hand_over : QueueItem → List Channel → List Channel × List QueueItem
unfolding offer offer_first
hand_over item cs = elim (offer item cs) [
  | some ds ↦ (ds, [])
  | none ↦ elim (offer_first item cs) [ some ds ↦ (ds, []) | none ↦ (cs, item ∷ []) ]
]

-- `distributeItems`. With no worker at all `p.workers[0]` panics in Go; the model skips the item.
unfoldable pub distribute_items : List QueueItem → List Channel → List Channel × List QueueItem
unfolding hand_over
distribute_items [] cs = (cs, [])
distribute_items (item ∷ items) cs =
    let (ds, skipped) = hand_over item cs in
    let (es, more) = distribute_items items ds in (es, skipped ++ more)

-- `case item := <-worker.processingCh`: the worker takes the oldest item of its channel.
unfoldable pub receive : Channel → Option (QueueItem × Channel)
receive [] = none
receive (item ∷ c) = some (item, c)

pub data ProcessError : Type 0 where
  find_failed save_failed final_save_failed : RepoError → ProcessError
  start_failed complete_failed : AdError → ProcessError
  cancelled : ProcessError

module _ (r : Repository) where
  open r use {Store}

  abbrev pub saved_final :
      Store × Result RepoError (Unit {0}) → Store × Result ProcessError (Unit {0})
  saved_final (s, ok _) = (s, ok tt)
  saved_final (s, err e) = (s, err (final_save_failed e))

  abbrev pub completed_ad : Store → Result AdError Ad → Store × Result ProcessError (Unit {0})
  completed_ad s (err e) = (s, err (complete_failed e))
  completed_ad s (ok a) = saved_final (r.save s a)

  -- After the first save: the wait, which the context may cancel, and the end of processing.
  abbrev pub saved_started :
      Ad → Bool → ℤ → Store × Result RepoError (Unit {0}) → Store × Result ProcessError (Unit {0})
  saved_started a is_cancelled later (s, err e) = (s, err (save_failed e))
  saved_started a is_cancelled later (s, ok _) =
      if is_cancelled then (s, err cancelled) else completed_ad s (complete_processing a later)

  abbrev pub started_ad :
      Store → Bool → ℤ → Result AdError Ad → Store × Result ProcessError (Unit {0})
  started_ad s is_cancelled later (err e) = (s, err (start_failed e))
  started_ad s is_cancelled later (ok a) = saved_started a is_cancelled later (r.save s a)

  abbrev pub found_ad :
      Store → ℤ → Bool → ℤ → Result RepoError Ad → Store × Result ProcessError (Unit {0})
  found_ad s now is_cancelled later (err e) = (s, err (find_failed e))
  found_ad s now is_cancelled later (ok a) =
      started_ad s is_cancelled later (start_processing a now)

  -- `processAd`: the clock at the start and at the end, and whether the context was cancelled
  -- during the wait, are arguments.
  unfoldable pub process_ad : Store → String → ℤ → Bool → ℤ → Store × Result ProcessError (Unit {0})
  process_ad s ad_id now is_cancelled later =
      found_ad s now is_cancelled later (r.find_by_id s ad_id)
