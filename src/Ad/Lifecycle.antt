-- ===== src/Ad/Lifecycle.antt =====
-- What holds of an ad over every sequence of method calls (internal/domain/ad/ad.go).
use home_work_ad_processor_g.Prelude.{
  ℕ, ◌+◌, ◌≤◌, ◌≡◌, refl, ◌∙◌, Bool, true, false, ◌&&◌, Option, none, some, List, [], ◌∷◌, String,
  arith, ℤ, pos, leb_ℤ, Result, ok, err,
}
use home_work_ad_processor_g.Ad.{
  Ad, AdStatus, AdError, queued, processing, completed, failed, is_valid, start_processing,
  complete_processing, fail_processing, change_priority, set_queue_position, create_ad,
}

-- One call of a method of `*Ad`, with the clock where the method reads it.
pub data Call : Type 0 where
  starts completes : ℤ → Call
  fails : Call
  changes positions : ℤ → Call

-- What the call returns: the entity after it, and its error.
unfoldable pub call : Ad → Call → Result AdError Ad
unfolding start_processing complete_processing fail_processing change_priority set_queue_position
call a (starts now) = start_processing a now
call a (completes now) = complete_processing a now
call a fails = fail_processing a
call a (changes p) = change_priority a p
call a (positions p) = ok (set_queue_position a p)

-- A refused call leaves the entity as it was.
abbrev pub after : Ad → Result AdError Ad → Ad
after a (ok b) = b
after a (err e) = a

unfoldable pub run : Ad → List Call → Ad
run a [] = a
run a (c ∷ cs) = run (after a (call a c)) cs

abbrev pub is_some : Option ℤ → Bool
is_some none = false
is_some (some _) = true

-- Which timestamps a status comes with.
abbrev pub stamps : AdStatus → Bool × Bool
stamps queued = (false, false)
stamps processing = (true, false)
stamps completed = (true, true)
stamps failed = (true, false)

pub record Inv (a : Ad) : Type 0 where
  pub priority_valid : is_valid a.priority ≡ true
  pub versioned : 1 ≤ a.version
  pub started : is_some a.processing_started_at ≡ (stamps a.status).0
  pub finished : is_some a.processed_at ≡ (stamps a.status).1

call-Inv : (a : Ad) (c : Call) → Inv a → Inv (after a (call a c))
unfolding call is_valid
call-Inv a (starts now) v = ground arith
call-Inv a (completes now) v = ground arith
call-Inv a fails v = ground arith
call-Inv a (changes p) v = ground arith
call-Inv a (positions p) v = ground arith

run-Inv : (a : Ad) (cs : List Call) → Inv a → Inv (run a cs)
unfolding run
run-Inv a [] v = v
run-Inv a (c ∷ cs) v = run-Inv (after a (call a c)) cs (call-Inv a c v)

create_ad-Inv :
    (id title family : String) (now priority wait : ℤ) (audience : List String) {a : Ad}
    → create_ad id now title family audience priority wait ≡ ok a
    → Inv a
unfolding create_ad is_valid
create_ad-Inv id title family now priority wait audience h = ground arith

-- Every ad that the factory creates keeps, over any sequence of method calls, a priority from 1 to
-- 5, a version of at least 1, a start time exactly if its status is not queued, and an end time
-- exactly if its status is completed.
pub run-create_ad-Inv :
    (id title family : String) (now priority wait : ℤ) (audience : List String) {a : Ad}
    (cs : List Call)
    → create_ad id now title family audience priority wait ≡ ok a
    → Inv (run a cs)
run-create_ad-Inv id title family now priority wait audience {a} cs h =
    run-Inv a cs (create_ad-Inv id title family now priority wait audience h)

-- The calls that each status accepts: the lifecycle as a table.
abbrev pub accepts : AdStatus → Call → Bool
accepts queued (starts _) = true
accepts processing (completes _) = true
accepts processing fails = true
accepts queued (changes p) = leb_ℤ (pos 1) p && leb_ℤ p (pos 5)
accepts failed (changes p) = leb_ℤ (pos 1) p && leb_ℤ p (pos 5)
accepts _ (positions _) = true
accepts _ _ = false

-- The status after an accepted call.
abbrev pub target : AdStatus → Call → AdStatus
target _ (starts _) = processing
target _ (completes _) = completed
target _ fails = failed
target s _ = s

-- Whether a call counts for the optimistic lock.
abbrev pub writes : Call → ℕ
writes (positions _) = 0
writes _ = 1

abbrev pub Follows : Ad → Call → Result AdError Ad → Type 0
Follows a c (ok b) =
    (accepts a.status c ≡ true)
    × (b.status ≡ target a.status c)
    × (b.version ≡ a.version + writes c)
Follows a c (err e) = accepts a.status c ≡ false

-- A method call is accepted exactly where the table of the lifecycle accepts it; then the status is
-- the table's target, and the version grows by one, save under `SetQueuePosition`.
pub call-Follows : (a : Ad) (c : Call) → Follows a c (call a c)
unfolding call is_valid
call-Follows a (starts now) = ground arith
call-Follows a (completes now) = ground arith
call-Follows a fails = ground arith
call-Follows a (changes p) = ground arith
call-Follows a (positions p) = ground arith

abbrev pub is_final : AdStatus → Bool
is_final completed = true
is_final failed = true
is_final _ = false

-- What no later call may alter.
abbrev pub SameEnd : Ad → Ad → Type 0
SameEnd a b =
    (b.status ≡ a.status)
    × (b.processing_started_at ≡ a.processing_started_at)
    × (b.processed_at ≡ a.processed_at)

call-SameEnd : (a : Ad) (c : Call) → is_final a.status ≡ true → SameEnd a (after a (call a c))
unfolding call is_valid
call-SameEnd a (starts now) h = ground arith
call-SameEnd a (completes now) h = ground arith
call-SameEnd a fails h = ground arith
call-SameEnd a (changes p) h = ground arith
call-SameEnd a (positions p) h = ground arith

-- A completed or failed ad keeps its status and both timestamps over every sequence of calls.
run-SameEnd : (a : Ad) (cs : List Call) → is_final a.status ≡ true → SameEnd a (run a cs)
unfolding run
run-SameEnd a [] h = (refl, refl, refl)
run-SameEnd a (c ∷ cs) h =
    let b = after a (call a c) in
    let now = call-SameEnd a c h in
    let later = run-SameEnd b cs (rw now.0 h) in (later.0 ∙ now.0, later.1 ∙ now.1, later.2 ∙ now.2)
