-- ===== src/Command/Executor.antt =====
-- internal/infrastructure/external/mock_command_parser.go, `ValidateCommand`, and
-- internal/infrastructure/external/mock_command_executor.go, `CanExecute` and `Execute`.
use home_work_ad_processor_g.Prelude.{
  ℕ, suc, ◌+◌, Bool, ◌||◌, Option, none, some, List, [], ◌∷◌, map, String, str_eq, if◌then◌else◌,
  length, ℤ, pos, ◌*ℤ◌, leb_ℤ, Result, ok, err,
}
use home_work_ad_processor_g.Ad.{Ad, wait_time}
use home_work_ad_processor_g.Queue.{QueueItem}
use home_work_ad_processor_g.Redis.{Redis}
use home_work_ad_processor_g.RedisQueue.{Manager, QueueError}
use home_work_ad_processor_g.Repository.{Repository, RepoError}
use home_work_ad_processor_g.Service.{
  State, ServiceError, change_priority_for_game_family, change_priority_for_older_ads, get_next_ads,
  get_queue_distribution, get_waiting_ads,
}
use home_work_ad_processor_g.Command.{
  Command, CommandError, CommandResult, WaitingAd, missing_parameter, unsupported_intent,
  service_failed, queue_failed, search_failed, changed_family, changed_older, next_ads,
  distribution, waiting_ads, starvation_mode_enabled, max_wait_time_seconds, complete_execution,
  fail_execution, get_string_parameter, get_int_parameter, get_priority_parameter,
}

-- The cases of the `switch` on the intent.
pub data Intent : Type 0 where
  change_priority_by_game_family change_priority_by_age show_next_ads queue_distribution : Intent
  list_waiting_ads enable_starvation_mode set_max_wait_time unsupported : Intent

unfoldable pub read_intent : String → Intent
read_intent t =
    if str_eq t "change_priority_by_game_family"
    then change_priority_by_game_family
    else if str_eq t "change_priority_by_age"
    then change_priority_by_age
    else if str_eq t "show_next_ads"
    then show_next_ads
    else if str_eq t "queue_distribution"
    then queue_distribution
    else if str_eq t "waiting_ads"
    then list_waiting_ads
    else if str_eq t "enable_starvation_mode"
    then enable_starvation_mode
    else if str_eq t "set_max_wait_time"
    then set_max_wait_time
    else unsupported

abbrev pub needs {ℓ} :
    {A : Type ℓ}
    → String
    → Option A
    → Result CommandError (Unit {0})
    → Result CommandError (Unit {0})
needs key none rest = err (missing_parameter key)
needs key (some a) rest = rest

abbrev pub needs_positive : String → Option ℤ → Result CommandError (Unit {0})
needs_positive key none = err (missing_parameter key)
needs_positive key (some n) = if leb_ℤ n (pos 0) then err (missing_parameter key) else ok tt

abbrev pub validate_intent : Command → Intent → Result CommandError (Unit {0})
validate_intent c change_priority_by_game_family =
    needs "priority" (get_priority_parameter c "priority")
      (needs "gameFamily" (get_string_parameter c "gameFamily") (ok tt))
validate_intent c change_priority_by_age =
    needs "priority" (get_priority_parameter c "priority")
      (needs "minutes" (get_int_parameter c "minutes") (ok tt))
validate_intent c show_next_ads = needs_positive "count" (get_int_parameter c "count")
validate_intent c list_waiting_ads = needs "minutes" (get_int_parameter c "minutes") (ok tt)
validate_intent c set_max_wait_time = needs "seconds" (get_int_parameter c "seconds") (ok tt)
validate_intent c _ = ok tt

unfoldable pub validate_command : Command → Result CommandError (Unit {0})
unfolding read_intent
validate_command c = validate_intent c (read_intent c.intent)

-- `supportedIntents[cmd.Intent()]`.
unfoldable pub can_execute : Command → Bool
can_execute c =
    str_eq c.intent "change_priority_by_game_family"
    || str_eq c.intent "change_priority_by_age"
    || str_eq c.intent "show_next_ads"
    || str_eq c.intent "queue_distribution"
    || str_eq c.intent "waiting_ads"
    || str_eq c.intent "enable_starvation_mode"
    || str_eq c.intent "set_max_wait_time"

-- A getter's value, or zero: the code drops the second result.
abbrev pub int_or_zero : Option ℤ → ℤ
int_or_zero none = pos 0
int_or_zero (some n) = n

abbrev pub text_or_empty : Option String → String
text_or_empty none = ""
text_or_empty (some t) = t

abbrev pub minute : ℤ
minute = pos 60_000_000_000

-- The list of the next ads with their places, from the `i`-th on.
abbrev pub numbered : ℕ → List QueueItem → List (String × (ℤ × ℕ))
numbered i [] = []
numbered i (item ∷ items) = (item.ad_id, (item.priority, suc i)) ∷ numbered (suc i) items

abbrev pub sum_counts : List (ℕ × ℕ) → ℕ
sum_counts [] = 0
sum_counts ((p, n) ∷ levels) = n + sum_counts levels

abbrev pub waiting_of : ℤ → Ad → WaitingAd
waiting_of now a = record {
  ad_id = a.id;
  title = a.title;
  game_family = a.game_family;
  priority = a.priority;
  wait_time = wait_time a now;
  status = a.status;
}

module _ (repo : Repository) (r : Redis) (uuid_ok : String → Bool) (m : Manager) where
  abbrev pub Executed : Type 0
  Executed = State repo r uuid_ok m × (Command × Result CommandError (Unit {0}))

  -- The end of each of the executor's methods.
  abbrev pub finish {ℓ} :
      {A : Type ℓ}
      → Command
      → ℤ
      → State repo r uuid_ok m
      → Result CommandError A
      → (A → CommandResult)
      → Executed
  finish c done state (err e) result = (state, (fail_execution c e done, err e))
  finish c done state (ok a) result = (state, (complete_execution c (result a) done, ok tt))

  abbrev pub as_service_error {ℓ} : {A : Type ℓ} → Result ServiceError A → Result CommandError A
  as_service_error (ok a) = ok a
  as_service_error (err e) = err (service_failed e)

  abbrev pub as_queue_error {ℓ} : {A : Type ℓ} → Result QueueError A → Result CommandError A
  as_queue_error (ok a) = ok a
  as_queue_error (err e) = err (queue_failed e)

  abbrev pub as_search_error {ℓ} : {A : Type ℓ} → Result RepoError A → Result CommandError A
  as_search_error (ok a) = ok a
  as_search_error (err e) = err (search_failed e)

  -- `now` is the clock of the search, in nanoseconds, `unix` that of the queue, in seconds, and `done`
  -- the clock at the end.
  abbrev pub execute_intent : State repo r uuid_ok m → Command → ℤ → ℤ → ℤ → Intent → Executed
  execute_intent state c now unix done change_priority_by_game_family =
      let priority = int_or_zero (get_priority_parameter c "priority") in
      let family = text_or_empty (get_string_parameter c "gameFamily") in
      let (state1, count) =
        change_priority_for_game_family repo r uuid_ok m state family priority in
      finish c done state1 (as_service_error count) (λ n. changed_family n family priority)
  execute_intent state c now unix done change_priority_by_age =
      let priority = int_or_zero (get_priority_parameter c "priority") in
      let minutes = int_or_zero (get_int_parameter c "minutes") in
      let (state1, count) =
        change_priority_for_older_ads repo r uuid_ok m state now (minutes *ℤ minute) priority in
      finish c done state1 (as_service_error count) (λ n. changed_older n priority minutes)
  execute_intent state c now unix done show_next_ads =
      let count = int_or_zero (get_int_parameter c "count") in
      finish c done state (as_queue_error (get_next_ads repo r uuid_ok m state count unix))
        (λ items. next_ads (numbered 0 items) (length items))
  execute_intent state c now unix done queue_distribution =
      let levels = get_queue_distribution repo r uuid_ok m state in
      finish c done state (ok levels) (λ l. distribution l (sum_counts l))
  execute_intent state c now unix done list_waiting_ads =
      let minutes = int_or_zero (get_int_parameter c "minutes") in
      finish c done state
        (as_search_error (get_waiting_ads repo r uuid_ok m state now (minutes *ℤ minute)))
        (λ ads. waiting_ads (map (waiting_of now) ads) (length ads) minutes)
  execute_intent state c now unix done enable_starvation_mode =
      (state, (complete_execution c starvation_mode_enabled done, ok tt))
  execute_intent state c now unix done set_max_wait_time =
      let seconds = int_or_zero (get_int_parameter c "seconds") in
      (state, (complete_execution c (max_wait_time_seconds seconds) done, ok tt))
  execute_intent state c now unix done unsupported =
      let e = unsupported_intent c.intent in (state, (fail_execution c e done, err e))

  -- `Execute`.
  unfoldable pub execute : State repo r uuid_ok m → Command → ℤ → ℤ → ℤ → Executed
  unfolding read_intent
  execute state c now unix done = execute_intent state c now unix done (read_intent c.intent)
