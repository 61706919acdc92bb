-- ===== src/Handlers/Commands.antt =====
-- internal/interfaces/http/handlers/command_handler.go: the handlers for commands, on the service.
-- `ShouldBindJSON` gives the text of a command or nothing, and `validator.Struct` is a parameter.
use home_work_ad_processor_g.Prelude.{
  prefixed, ℕ, Bool, not, Option, none, some, List, String, str_eq, if◌then◌else◌, length, ℤ,
  Result,
}
use home_work_ad_processor_g.Redis.{Redis}
use home_work_ad_processor_g.RedisQueue.{Manager}
use home_work_ad_processor_g.Repository.{Repository}
use home_work_ad_processor_g.Command.{Command}
use home_work_ad_processor_g.Command.CommandService.{
  World, Clock, CommandMap, ExecuteCommandResponse, execute_command, get_command_status,
}
use home_work_ad_processor_g.Command.Recent.{find_recent}
use home_work_ad_processor_g.Handlers.{
  Response, replied, problem, status_ok, status_bad_request, status_not_found,
  status_internal_server_error, bounded_query,
}

pub record RecentCommands : Type 0 where
  pub commands : List Command
  pub count : ℕ

module _ (repo : Repository) (r : Redis) (uuid_ok : String → Bool) (m : Manager) where
  -- `ExecuteCommand`; the service gives no error.
  unfoldable pub execute_command_handler :
      (String → Bool)
      → (String → Result String Command)
      → World repo r uuid_ok m
      → Option String
      → Clock repo r uuid_ok m
      → World repo r uuid_ok m × Response ExecuteCommandResponse
  unfolding execute_command
  execute_command_handler valid parse w none clock =
      (w, problem status_bad_request "Invalid request format")
  execute_command_handler valid parse w (some text) clock =
      if not (valid text)
      then (w, problem status_bad_request "Validation failed")
      else (let (w1, response) = execute_command repo r uuid_ok m parse w text clock in
          (w1, replied status_ok response))

-- `detail` is the text of the error of the repository.
abbrev pub command_found : String → Option ExecuteCommandResponse → Response ExecuteCommandResponse
command_found detail (some response) = replied status_ok response
command_found detail none =
    if str_eq (prefixed "command not found: " detail) "command not found"
    then problem status_not_found "Command not found"
    else problem status_internal_server_error "Failed to get command status"

-- `GetCommandStatus`.
unfoldable pub get_command_status_handler :
    String → CommandMap → String → Response ExecuteCommandResponse
unfolding get_command_status
get_command_status_handler detail commands command_id =
    if str_eq command_id ""
    then problem status_bad_request "Command ID is required"
    else command_found detail (get_command_status commands command_id)

abbrev pub recent_of : CommandMap → Option ℤ → Response RecentCommands
unfolding find_recent
recent_of commands none =
    problem status_bad_request "Limit must be a positive integer between 1 and 100"
recent_of commands (some limit) =
    let found = find_recent commands limit in
    replied status_ok (record { commands = found; count = length found })

-- `GetRecentCommands`; the repository in memory gives no error.
unfoldable pub get_recent_commands_handler : CommandMap → Option String → Response RecentCommands
unfolding find_recent bounded_query
get_recent_commands_handler commands limit = recent_of commands (bounded_query limit "10")
