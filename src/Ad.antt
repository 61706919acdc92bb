-- ===== src/Ad.antt =====
-- internal/domain/ad/ad.go, factory.go and errors.go: the ad entity, its methods and its factory.
-- A method that mutates `*Ad` returns the new record; every guard stands before the first write, so
-- an error comes with no state. Times and durations are nanoseconds; `time.Now()` is an argument.
pub mod Lifecycle
pub mod Starvation
use home_work_ad_processor_g.Prelude.{
  ℕ, ◌+◌, Bool, true, false, not, ◌&&◌, ◌||◌, Option, none, some, List, [], ◌∷◌, String, str_eq,
  if◌then◌else◌, ℤ, pos, ◌+ℤ◌, ◌-ℤ◌, tdiv, ltb_ℤ, leb_ℤ, Result, ok, err, ◌>>=◌,
}

pub data AdStatus : Type 0 where
  queued processing completed failed : AdStatus

pub data AdError : Type 0 where
  invalid_title invalid_game_family invalid_target_audience invalid_priority : AdError
  invalid_status_transition cannot_change_priority_after_processing : AdError
  ad_not_found ad_already_exists optimistic_lock_failed : AdError

abbrev pub priority_low : ℤ
priority_low = pos 1

abbrev pub priority_normal : ℤ
priority_normal = pos 3

abbrev pub priority_high : ℤ
priority_high = pos 5

-- `Priority.IsValid`.
unfoldable pub is_valid : ℤ → Bool
is_valid p = leb_ℤ (pos 1) p && leb_ℤ p (pos 5)

pub record Ad : Type 0 where
  pub id : String
  pub title : String
  pub game_family : String
  pub target_audience : List String
  pub priority : ℤ
  pub max_wait_time : ℤ
  pub status : AdStatus
  pub created_at : ℤ
  pub processing_started_at : Option ℤ
  pub processed_at : Option ℤ
  pub queue_position : Option ℤ
  pub version : ℕ

abbrev pub is_queued : AdStatus → Bool
is_queued queued = true
is_queued _ = false

abbrev pub is_processing : AdStatus → Bool
is_processing processing = true
is_processing _ = false

abbrev pub is_completed : AdStatus → Bool
is_completed completed = true
is_completed _ = false

abbrev pub is_failed : AdStatus → Bool
is_failed failed = true
is_failed _ = false

-- `==` on `AdStatus`.
unfoldable pub same_status : AdStatus → AdStatus → Bool
same_status queued s = is_queued s
same_status processing s = is_processing s
same_status completed s = is_completed s
same_status failed s = is_failed s

-- `ParseAdID`; whether `uuid.Parse` accepts the text is an argument.
unfoldable pub parse_ad_id : (String → Bool) → String → Option String
parse_ad_id uuid_ok id = if uuid_ok id then some id else none

unfoldable pub start_processing : Ad → ℤ → Result AdError Ad
start_processing a now =
    if not (is_queued a.status)
    then err invalid_status_transition
    else ok (record a {
      status = processing;
      processing_started_at = some now;
      queue_position = none;
      version = a.version + 1;
    })

unfoldable pub complete_processing : Ad → ℤ → Result AdError Ad
complete_processing a now =
    if not (is_processing a.status)
    then err invalid_status_transition
    else ok (record a { status = completed; processed_at = some now; version = a.version + 1 })

unfoldable pub fail_processing : Ad → Result AdError Ad
fail_processing a =
    if not (is_processing a.status)
    then err invalid_status_transition
    else ok (record a { status = failed; version = a.version + 1 })

unfoldable pub change_priority : Ad → ℤ → Result AdError Ad
unfolding is_valid
change_priority a new_priority =
    if not (is_valid new_priority)
    then err invalid_priority
    else if is_processing a.status || is_completed a.status
    then err cannot_change_priority_after_processing
    else ok (record a { priority = new_priority; version = a.version + 1 })

unfoldable pub set_queue_position : Ad → ℤ → Ad
set_queue_position a position = record a { queue_position = some position }

-- `WaitTime`: up to the start of processing, or up to now.
unfoldable pub wait_time : Ad → ℤ → ℤ
wait_time a now = elim a.processing_started_at [
  | some started ↦ started -ℤ a.created_at
  | none ↦ now -ℤ a.created_at
]

unfoldable pub is_starving : Ad → ℤ → Bool
unfolding wait_time
is_starving a now = is_queued a.status && ltb_ℤ a.max_wait_time (wait_time a now)

-- Five minutes in nanoseconds: `int(overrun.Minutes() / 5)` is a division by it, rounded to zero.
abbrev pub five_minutes : ℕ
five_minutes = 300_000_000_000

unfoldable pub calculate_effective_priority : Ad → ℤ → Bool → ℤ
unfolding is_starving
calculate_effective_priority a now anti_starvation_enabled =
    if not anti_starvation_enabled
    then a.priority
    else if is_starving a now
    then (let wait_overrun = wait_time a now -ℤ a.max_wait_time in
        let boost = tdiv wait_overrun five_minutes in
        let effective = a.priority +ℤ boost in
        if ltb_ℤ priority_high effective then priority_high else effective)
    else a.priority

abbrev is_empty : List String → Bool
is_empty [] = true
is_empty _ = false

-- `Factory.CreateAd`; the fresh identifier and the clock are arguments.
unfoldable pub create_ad : String → ℤ → String → String → List String → ℤ → ℤ → Result AdError Ad
unfolding is_valid
create_ad id now title game_family target_audience priority max_wait_time =
    if str_eq title ""
    then err invalid_title
    else if str_eq game_family ""
    then err invalid_game_family
    else if is_empty target_audience
    then err invalid_target_audience
    else if not (is_valid priority)
    then err invalid_priority
    else ok (record {
      id = id;
      title = title;
      game_family = game_family;
      target_audience = target_audience;
      priority = priority;
      max_wait_time = max_wait_time;
      status = queued;
      created_at = now;
      processing_started_at = none;
      processed_at = none;
      queue_position = none;
      version = 1;
    })

-- `Factory.ReconstructAd`: every field from the row, and no queue position.
unfoldable pub reconstruct_ad :
    String → String → String → List String → ℤ → ℤ → AdStatus → ℤ → Option ℤ → Option ℤ → ℕ → Ad
reconstruct_ad id title family audience priority wait status created started processed version =
    record {
      id = id;
      title = title;
      game_family = family;
      target_audience = audience;
      priority = priority;
      max_wait_time = wait;
      status = status;
      created_at = created;
      processing_started_at = started;
      processed_at = processed;
      queue_position = none;
      version = version;
    }
