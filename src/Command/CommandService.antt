-- ===== src/Command/CommandService.antt =====
-- internal/application/service/command_service.go, on the repository of commands in memory, whose
-- `Save` never fails. The parser of texts is a parameter; the validation is the mock parser's.
use home_work_ad_processor_g.Prelude.{
  Bool, not, Option, none, some, List, String, if◌then◌else◌, ℤ, Result, ok, err, lookup, insert,
}
use home_work_ad_processor_g.Redis.{Redis}
use home_work_ad_processor_g.RedisQueue.{Manager}
use home_work_ad_processor_g.Repository.{Repository}
use home_work_ad_processor_g.Service.{State}
use home_work_ad_processor_g.Command.{
  Command, CommandError, CommandResult, CommandStatus, invalid, cannot_be_executed, start_execution,
  fail_execution, mark_invalid,
}
use home_work_ad_processor_g.Command.Executor.{validate_command, can_execute, execute, Executed}

abbrev pub CommandMap : Type 0
CommandMap = List (String × Command)

-- The error is that of the parser, or one of the command's.
pub data ResponseError : Type 0 where
  parse_failed : String → ResponseError
  command_error : CommandError → ResponseError

pub record ExecuteCommandResponse : Type 0 where
  pub command_id : String
  pub status : CommandStatus
  pub result : Option CommandResult
  pub error : Option ResponseError
  pub execution_time : Option ℤ

abbrev pub store : CommandMap → Command → CommandMap
store commands c = insert c.id c commands

abbrev pub response_of :
    Command → Option CommandResult → Option CommandError → Option ℤ → ExecuteCommandResponse
response_of c result error time = record {
  command_id = c.id;
  status = c.status;
  result = result;
  error = elim error [ none ↦ none | some e ↦ some (command_error e) ];
  execution_time = time;
}

module _ (repo : Repository) (r : Redis) (uuid_ok : String → Bool) (m : Manager) where
  abbrev pub World : Type 0
  World = State repo r uuid_ok m × CommandMap

  -- The three readings of the clock of the executor, and that of the service when it failed.
  pub record Clock : Type 0 where
    pub now : ℤ
    pub unix : ℤ
    pub done : ℤ
    pub failed : ℤ

  abbrev pub reported : CommandMap → ℤ → Executed repo r uuid_ok m → World × ExecuteCommandResponse
  reported commands later (state, (c, ok _)) =
      ((state, store commands c), response_of c c.result none c.execution_time)
  reported commands later (state, (c, err e)) =
      let c1 = fail_execution c e later in
      ((state, store commands c1), response_of c1 none (some e) c1.execution_time)

  abbrev pub refused : World → Command → CommandError → World × ExecuteCommandResponse
  refused (state, commands) c e =
      let c1 = mark_invalid c e in ((state, store commands c1), response_of c1 none (some e) none)

  abbrev pub started : World → Command → Clock → World × ExecuteCommandResponse
  started (state, commands) c clock =
      let c1 = start_execution c in
      reported (store commands c1) clock.failed
        (execute repo r uuid_ok m state c1 clock.now clock.unix clock.done)

  -- After the first save: validation, the test of the intent, and execution.
  abbrev pub validated :
      World → Command → Clock → Result CommandError (Unit {0}) → World × ExecuteCommandResponse
  validated w c clock (err e) = refused w c e
  validated w c clock (ok _) =
      if not (can_execute c) then refused w c cannot_be_executed else started w c clock

  abbrev pub parsed : World → Clock → Result String Command → World × ExecuteCommandResponse
  parsed w clock (err e) = (
    w,
    record {
      command_id = "";
      status = invalid;
      result = none;
      error = some (parse_failed e);
      execution_time = none;
    },
  )
  parsed (state, commands) clock (ok c) =
      validated (state, store commands c) c clock (validate_command c)

  -- `ExecuteCommand`.
  unfoldable pub execute_command :
      (String → Result String Command) → World → String → Clock → World × ExecuteCommandResponse
  execute_command parse w text clock = parsed w clock (parse text)

-- `GetCommandStatus`: the identifier that is looked up is an empty one, whatever is asked for.
unfoldable pub get_command_status : CommandMap → String → Option ExecuteCommandResponse
get_command_status commands command_id = elim (lookup "" commands) [
  | none ↦ none
  | some c ↦ some (response_of c c.result c.error c.execution_time)
]
