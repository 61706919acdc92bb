-- ===== src/Command/Parser.antt =====
-- internal/infrastructure/external/mock_command_parser.go, `Parse`: a text in lower case and without
-- space around it, matched against the patterns one after another. `unicode.ToLower` and
-- `unicode.IsSpace` are parameters.
use Prim.Native.Char.{Char}
use home_work_ad_processor_g.Prelude.{
  Bool, ◌||◌, Option, none, some, List, [], ◌∷◌, String, if◌then◌else◌, ℤ, pos, leb_ℤ, ltb_ℤ,
  Result, ok, err, atoi_checked,
}
use home_work_ad_processor_g.Command.{
  Command, CommandType, queue_modification, system_configuration, status_query, analytics, int,
  text, new_command,
}
use home_work_ad_processor_g.Command.Patterns.{
  Piece, literal, any, digits_group, any_group, maybe, find_submatch, is_match,
}

pub record Unicode : Type 0 where
  pub lower : Char → Char
  pub is_space : Char → Bool

-- `strings.ToLower`.
unfoldable pub to_lower : (Char → Char) → String → String
to_lower lower String.[] = String.[]
to_lower lower (String.◌∷◌ c s) = String.◌∷◌ (lower c) (to_lower lower s)

abbrev trim_left : (Char → Bool) → String → String
trim_left is_space String.[] = String.[]
trim_left is_space (String.◌∷◌ c s) =
    let rest = trim_left is_space s in if is_space c then rest else String.◌∷◌ c s

abbrev before_trimmed : (Char → Bool) → Char → String → String
before_trimmed is_space c String.[] = if is_space c then String.[] else String.◌∷◌ c String.[]
before_trimmed is_space c (String.◌∷◌ d s) = String.◌∷◌ c (String.◌∷◌ d s)

abbrev trim_right : (Char → Bool) → String → String
trim_right is_space String.[] = String.[]
trim_right is_space (String.◌∷◌ c s) = before_trimmed is_space c (trim_right is_space s)

-- `strings.TrimSpace`.
unfoldable pub trim_space : (Char → Bool) → String → String
trim_space is_space s = trim_right is_space (trim_left is_space s)

pub data ParseError : Type 0 where
  unable_to_parse : String → ParseError
  invalid_command invalid_priority invalid_minutes invalid_count invalid_seconds : ParseError

abbrev pub family_pattern : List Piece
family_pattern =
    literal "change priority to "
    ∷ digits_group
    ∷ literal " for all ads in the "
    ∷ any_group
    ∷ literal " family"
    ∷ []

abbrev pub age_pattern : List Piece
age_pattern =
    literal "set priority to "
    ∷ digits_group
    ∷ literal " for ads older than "
    ∷ digits_group
    ∷ literal " minute"
    ∷ maybe "s"
    ∷ []

abbrev pub next_pattern : List Piece
next_pattern = literal "show the next " ∷ digits_group ∷ literal " ads to be processed" ∷ []

abbrev pub distribution_pattern : List Piece
distribution_pattern =
    literal "what" ∷ any ∷ literal "s the current queue distribution by priority" ∷ []

abbrev pub waiting_pattern : List Piece
waiting_pattern =
    literal "list all ads waiting longer than " ∷ digits_group ∷ literal " minute" ∷ maybe "s" ∷ []

abbrev pub starvation_pattern : List Piece
starvation_pattern = literal "enable starvation mode" ∷ []

abbrev pub max_wait_pattern : List Piece
max_wait_pattern =
    literal "set maximum wait time to " ∷ digits_group ∷ literal " second" ∷ maybe "s" ∷ []

-- `strconv.Atoi` of the priority, and its guard.
abbrev pub priority_from : Option ℤ → Option ℤ
priority_from none = none
priority_from (some p) = if ltb_ℤ p (pos 1) || ltb_ℤ (pos 5) p then none else some p

abbrev pub positive_from : Option ℤ → Option ℤ
positive_from none = none
positive_from (some n) = if leb_ℤ n (pos 0) then none else some n

module _ (unicode : Unicode) (id : String) (now : ℤ) where
  abbrev pub family_command : String → String → Option ℤ → Result ParseError Command
  family_command clean family none = err invalid_priority
  family_command clean family (some p) = ok (
      new_command id now clean queue_modification "change_priority_by_game_family"
        (("priority", int p) ∷ ("gameFamily", text (trim_space unicode.is_space family)) ∷ []))

  abbrev pub family_groups : String → Option (List String) → Result ParseError Command
  family_groups clean (some (p ∷ family ∷ [])) =
      family_command clean family (priority_from (atoi_checked p))
  family_groups clean _ = err invalid_command

  -- `parsePriorityChangeByGameFamily`.
  unfoldable pub parse_priority_change_by_game_family : String → Result ParseError Command
  unfolding find_submatch atoi_checked new_command trim_space
  parse_priority_change_by_game_family clean =
      family_groups clean (find_submatch family_pattern clean)

  abbrev pub age_command : String → Option ℤ → Option ℤ → Result ParseError Command
  age_command clean none minutes = err invalid_priority
  age_command clean (some p) none = err invalid_minutes
  age_command clean (some p) (some n) = ok (
      new_command id now clean queue_modification "change_priority_by_age"
        (("priority", int p) ∷ ("minutes", int n) ∷ []))

  abbrev pub age_groups : String → Option (List String) → Result ParseError Command
  age_groups clean (some (p ∷ n ∷ [])) =
      age_command clean (priority_from (atoi_checked p)) (atoi_checked n)
  age_groups clean _ = err invalid_command

  -- `parsePriorityChangeByAge`.
  unfoldable pub parse_priority_change_by_age : String → Result ParseError Command
  unfolding find_submatch atoi_checked new_command
  parse_priority_change_by_age clean = age_groups clean (find_submatch age_pattern clean)

  -- A command with one number, or the error for it.
  abbrev pub number_command :
      String → CommandType → String → String → ParseError → Option ℤ → Result ParseError Command
  number_command clean kind intent key bad none = err bad
  number_command clean kind intent key bad (some n) =
      ok (new_command id now clean kind intent ((key, int n) ∷ []))

  abbrev pub one_number :
      (String → Result ParseError Command) → Option (List String) → Result ParseError Command
  one_number found (some (n ∷ [])) = found n
  one_number found _ = err invalid_command

  -- `parseShowNextAds`.
  unfoldable pub parse_show_next_ads : String → Result ParseError Command
  unfolding find_submatch atoi_checked new_command
  parse_show_next_ads clean =
      one_number
        (λ n.
          number_command clean status_query "show_next_ads" "count" invalid_count
            (positive_from (atoi_checked n)))
        (find_submatch next_pattern clean)

  -- `parseQueueDistribution`.
  unfoldable pub parse_queue_distribution : String → Result ParseError Command
  unfolding new_command
  parse_queue_distribution clean = ok (new_command id now clean analytics "queue_distribution" [])

  -- `parseWaitingAds`.
  unfoldable pub parse_waiting_ads : String → Result ParseError Command
  unfolding find_submatch atoi_checked new_command
  parse_waiting_ads clean =
      one_number
        (λ n.
          number_command clean status_query "waiting_ads" "minutes" invalid_minutes
            (atoi_checked n))
        (find_submatch waiting_pattern clean)

  -- `parseEnableStarvationMode`.
  unfoldable pub parse_enable_starvation_mode : String → Result ParseError Command
  unfolding new_command
  parse_enable_starvation_mode clean =
      ok (new_command id now clean system_configuration "enable_starvation_mode" [])

  -- `parseSetMaxWaitTime`.
  unfoldable pub parse_set_max_wait_time : String → Result ParseError Command
  unfolding find_submatch atoi_checked new_command
  parse_set_max_wait_time clean =
      one_number
        (λ n.
          number_command clean system_configuration "set_max_wait_time" "seconds" invalid_seconds
            (atoi_checked n))
        (find_submatch max_wait_pattern clean)

  -- The patterns one after another.
  unfoldable pub parse_clean : String → Result ParseError Command
  unfolding find_submatch
  parse_clean clean =
      if is_match family_pattern clean
      then parse_priority_change_by_game_family clean
      else if is_match age_pattern clean
      then parse_priority_change_by_age clean
      else if is_match next_pattern clean
      then parse_show_next_ads clean
      else if is_match distribution_pattern clean
      then parse_queue_distribution clean
      else if is_match waiting_pattern clean
      then parse_waiting_ads clean
      else if is_match starvation_pattern clean
      then parse_enable_starvation_mode clean
      else if is_match max_wait_pattern clean
      then parse_set_max_wait_time clean
      else err (unable_to_parse clean)

  -- `Parse`; the fresh identifier and the clock are arguments.
  unfoldable pub parse : String → Result ParseError Command
  unfolding parse_clean to_lower trim_space
  parse input = parse_clean (trim_space unicode.is_space (to_lower unicode.lower input))
