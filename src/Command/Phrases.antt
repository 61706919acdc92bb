-- ===== src/Command/Phrases.antt =====
-- internal/infrastructure/external/mock_command_parser.go: the sentences that `Parse` is made for, and the
-- command that it makes of each.
use Prim.Native.Char.{code}
use home_work_ad_processor_g.Prelude.{
  ℕ, ◌≤◌, ◌==◌, ◌≡◌, ◌≢◌, false, [], ◌∷◌, String, ℤ, pos, write_nat, prefixed, max_int,
}
use home_work_ad_processor_g.Command.{
  Command, queue_modification, system_configuration, status_query, analytics, int, text,
  new_command,
}
use home_work_ad_processor_g.Command.Parser.{Unicode, to_lower, trim_space}

-- What an operator asks for.
pub data Wish : Type 0 where
  family_priority : ℕ → String → Wish
  age_priority : ℕ → ℕ → Wish
  next_ads : ℕ → Wish
  distribution : Wish
  waiting : ℕ → Wish
  starvation_mode : Wish
  max_wait : ℕ → Wish

-- The wish with its family in lower case.
unfoldable pub lower_case : Unicode → Wish → Wish
unfolding to_lower
lower_case unicode (family_priority p family) = family_priority p (to_lower unicode.lower family)
lower_case unicode (age_priority p n) = age_priority p n
lower_case unicode (next_ads n) = next_ads n
lower_case unicode distribution = distribution
lower_case unicode (waiting n) = waiting n
lower_case unicode starvation_mode = starvation_mode
lower_case unicode (max_wait n) = max_wait n

-- The sentence for it.
unfoldable pub sentence : Wish → String
sentence (family_priority p family) =
    prefixed "change priority to "
      (write_nat p (prefixed " for all ads in the " (prefixed family " family")))
sentence (age_priority p n) =
    prefixed "set priority to "
      (write_nat p (prefixed " for ads older than " (write_nat n " minutes")))
sentence (next_ads n) = prefixed "show the next " (write_nat n " ads to be processed")
sentence distribution = "what's the current queue distribution by priority"
sentence (waiting n) = prefixed "list all ads waiting longer than " (write_nat n " minutes")
sentence starvation_mode = "enable starvation mode"
sentence (max_wait n) = prefixed "set maximum wait time to " (write_nat n " seconds")

-- The command for it, with the sentence as its text.
unfoldable pub command_for : String → ℤ → String → Wish → Command
unfolding new_command
command_for id now clean (family_priority p family) =
    new_command id now clean queue_modification "change_priority_by_game_family"
      (("priority", int (pos p)) ∷ ("gameFamily", text family) ∷ [])
command_for id now clean (age_priority p n) =
    new_command id now clean queue_modification "change_priority_by_age"
      (("priority", int (pos p)) ∷ ("minutes", int (pos n)) ∷ [])
command_for id now clean (next_ads n) =
    new_command id now clean status_query "show_next_ads" (("count", int (pos n)) ∷ [])
command_for id now clean distribution = new_command id now clean analytics "queue_distribution" []
command_for id now clean (waiting n) =
    new_command id now clean status_query "waiting_ads" (("minutes", int (pos n)) ∷ [])
command_for id now clean starvation_mode =
    new_command id now clean system_configuration "enable_starvation_mode" []
command_for id now clean (max_wait n) =
    new_command id now clean system_configuration "set_max_wait_time"
      (("seconds", int (pos n)) ∷ [])

-- No line feed in a text.
abbrev pub OneLine : String → Type 0
OneLine String.[] = Unit
OneLine (String.◌∷◌ c s) = (code c == 10 ≡ false) × OneLine s

-- Numbers that an `int` holds, priorities from 1 to 5, a positive count, and a family that is a line
-- with no space around it.
abbrev pub Sensible : Unicode → Wish → Type 0
Sensible unicode (family_priority p family) =
    (1 ≤ p)
    × (p ≤ 5)
    × (family ≢ "")
    × OneLine family
    × (trim_space unicode.is_space family ≡ family)
Sensible unicode (age_priority p n) = (1 ≤ p) × (p ≤ 5) × (n ≤ max_int)
Sensible unicode (next_ads n) = (1 ≤ n) × (n ≤ max_int)
Sensible unicode distribution = Unit
Sensible unicode (waiting n) = n ≤ max_int
Sensible unicode starvation_mode = Unit
Sensible unicode (max_wait n) = n ≤ max_int
