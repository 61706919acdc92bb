-- ===== src/Command.antt =====
-- internal/domain/command/command.go: commands, their execution states and their parameters. A
-- method that mutates `*Command` returns the new record; `time.Now()` is an argument.
pub mod Executor
pub mod Execution
pub mod CommandService
pub mod Recent
pub mod ReadOnly
pub mod Patterns
pub mod Parser
pub mod RemoteParser
pub mod Fallback
pub mod Parsed
pub mod Phrases
pub mod Matching
pub mod Passing
pub mod Sentences
use home_work_ad_processor_g.Prelude.{
  ℕ, Option, none, some, List, String, if◌then◌else◌, ℤ, ◌-ℤ◌, lookup,
}
use home_work_ad_processor_g.Ad.{AdStatus, is_valid}
use home_work_ad_processor_g.RedisQueue.{QueueError}
use home_work_ad_processor_g.Repository.{RepoError}
use home_work_ad_processor_g.Service.{ServiceError}

pub data CommandType : Type 0 where
  queue_modification system_configuration status_query analytics : CommandType

pub data CommandStatus : Type 0 where
  pending executing executed failed invalid : CommandStatus

-- An `interface{}` of the parameters; of a float64 the code reads only the part before the point.
pub data Value : Type 0 where
  int : ℤ → Value
  float : ℤ → Value
  text : String → Value
  other : Value

-- An ad in the list of those that have waited long.
pub record WaitingAd : Type 0 where
  pub ad_id : String
  pub title : String
  pub game_family : String
  pub priority : ℤ
  pub wait_time : ℤ
  pub status : AdStatus

-- The result maps of the executor, without their messages, which repeat the numbers as text.
pub data CommandResult : Type 0 where
  changed_family : ℕ → String → ℤ → CommandResult
  changed_older : ℕ → ℤ → ℤ → CommandResult
  next_ads : List (String × (ℤ × ℕ)) → ℕ → CommandResult
  distribution : List (ℕ × ℕ) → ℕ → CommandResult
  waiting_ads : List WaitingAd → ℕ → ℤ → CommandResult
  starvation_mode_enabled : CommandResult
  max_wait_time_seconds : ℤ → CommandResult

-- What the error texts tell apart.
pub data CommandError : Type 0 where
  missing_parameter : String → CommandError
  cannot_be_executed : CommandError
  unsupported_intent : String → CommandError
  service_failed : ServiceError → CommandError
  queue_failed : QueueError → CommandError
  search_failed : RepoError → CommandError

pub record Command : Type 0 where
  pub id : String
  pub original_text : String
  pub command_type : CommandType
  pub intent : String
  pub parameters : List (String × Value)
  pub status : CommandStatus
  pub result : Option CommandResult
  pub error : Option CommandError
  pub created_at : ℤ
  pub executed_at : Option ℤ
  pub execution_time : Option ℤ

-- `NewCommand`; the fresh identifier and the clock are arguments.
unfoldable pub new_command :
    String → ℤ → String → CommandType → String → List (String × Value) → Command
new_command id now original_text command_type intent parameters = record {
  id = id;
  original_text = original_text;
  command_type = command_type;
  intent = intent;
  parameters = parameters;
  status = pending;
  result = none;
  error = none;
  created_at = now;
  executed_at = none;
  execution_time = none;
}

unfoldable pub start_execution : Command → Command
start_execution c = record c { status = executing }

unfoldable pub complete_execution : Command → CommandResult → ℤ → Command
complete_execution c result now = record c {
  status = executed;
  result = some result;
  executed_at = some now;
  execution_time = some (now -ℤ c.created_at);
}

unfoldable pub fail_execution : Command → CommandError → ℤ → Command
fail_execution c e now = record c {
  status = failed;
  error = some e;
  executed_at = some now;
  execution_time = some (now -ℤ c.created_at);
}

unfoldable pub mark_invalid : Command → CommandError → Command
mark_invalid c reason = record c { status = invalid; error = some reason }

unfoldable pub get_parameter : Command → String → Option Value
get_parameter c key = lookup key c.parameters

abbrev pub as_text : Option Value → Option String
as_text (some (text t)) = some t
as_text _ = none

abbrev pub as_int : Option Value → Option ℤ
as_int (some (int i)) = some i
as_int (some (float f)) = some f
as_int _ = none

unfoldable pub get_string_parameter : Command → String → Option String
get_string_parameter c key = as_text (lookup key c.parameters)

unfoldable pub get_int_parameter : Command → String → Option ℤ
get_int_parameter c key = as_int (lookup key c.parameters)

unfoldable pub get_priority_parameter : Command → String → Option ℤ
unfolding get_int_parameter is_valid
get_priority_parameter c key = elim (get_int_parameter c key) [
  | none ↦ none
  | some i ↦ if is_valid i then some i else none
]
