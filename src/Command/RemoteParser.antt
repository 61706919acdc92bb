-- ===== src/Command/RemoteParser.antt =====
-- internal/infrastructure/external/google_adk_command_parser.go: the parser that asks a remote service
-- and falls back on `Parse` of mock_command_parser.go. The answer of the service to a text is a
-- parameter, and so is the reading of JSON.
use home_work_ad_processor_g.Prelude.{
  Bool, Option, none, some, List, [], ◌∷◌, String, str_eq, if◌then◌else◌, ℤ, Result, ok, err,
}
use home_work_ad_processor_g.Command.{
  Command, CommandType, Value, queue_modification, system_configuration, status_query, analytics,
  new_command,
}
use home_work_ad_processor_g.Command.Parser.{Unicode, ParseError, parse}

pub record ApiError : Type 0 where
  pub error_code : ℤ
  pub message : String

-- `GoogleADKResponse`: the parts of the content of each candidate, and an error.
pub record GoogleAdkResponse : Type 0 where
  pub candidates : List (List String)
  pub error : Option ApiError

-- The JSON object that the text of an answer holds.
pub record ParsedCommand : Type 0 where
  pub intent : String
  pub kind : String
  pub parameters : List (String × Value)
  pub valid : Bool
  pub refusal : Option String

pub data RemoteError : Type 0 where
  call_failed no_candidates no_parts parse_failed : RemoteError
  api_error : ℤ → String → RemoteError
  invalid_command : String → RemoteError

-- `parseCommandType`.
unfoldable pub parse_command_type : String → CommandType
parse_command_type s =
    if str_eq s "queue_modification"
    then queue_modification
    else if str_eq s "system_configuration"
    then system_configuration
    else if str_eq s "status_query"
    then status_query
    else if str_eq s "analytics"
    then analytics
    else status_query

-- The service: none when it is not reached or its answer is not decoded.
pub record Remote : Type 0 where
  pub ask : String → Option GoogleAdkResponse
  pub read_command : String → Option ParsedCommand

-- The guard of `callGoogleAPI` on the error of an answer.
abbrev pub answered : Option GoogleAdkResponse → Result RemoteError GoogleAdkResponse
answered none = err call_failed
answered (some response) = elim response.error [
  | none ↦ ok response
  | some e ↦ err (api_error e.error_code e.message)
]

module _ (remote : Remote) (id : String) (now : ℤ) where
  abbrev pub command_read : String → Option ParsedCommand → Result RemoteError Command
  command_read original none = err parse_failed
  command_read original (some p) =
      if p.valid
      then ok (new_command id now original (parse_command_type p.kind) p.intent p.parameters)
      else err (invalid_command (elim p.refusal [ none ↦ "unknown error" | some e ↦ e ]))

  abbrev pub first_candidate : String → List (List String) → Result RemoteError Command
  first_candidate original [] = err no_candidates
  first_candidate original ([] ∷ candidates) = err no_parts
  first_candidate original ((part ∷ parts) ∷ candidates) =
      command_read original (remote.read_command part)

  -- `parseAPIResponse`.
  unfoldable pub parse_api_response : String → GoogleAdkResponse → Result RemoteError Command
  unfolding parse_command_type
  parse_api_response original response = first_candidate original response.candidates

  abbrev pub response_read :
      String → Result RemoteError GoogleAdkResponse → Result RemoteError Command
  response_read original (err e) = err e
  response_read original (ok response) = parse_api_response original response

  -- `parseWithGoogleADK`.
  unfoldable pub parse_with_google_adk : String → Result RemoteError Command
  unfolding parse_api_response
  parse_with_google_adk original = response_read original (answered (remote.ask original))

  abbrev pub or_fallback : Unicode → String → Result RemoteError Command → Result ParseError Command
  or_fallback unicode original (ok c) = ok c
  or_fallback unicode original (err e) = parse unicode id now original

  -- `Parse`.
  unfoldable pub parse_remotely : Unicode → String → Result ParseError Command
  unfolding parse parse_with_google_adk
  parse_remotely unicode original = or_fallback unicode original (parse_with_google_adk original)
