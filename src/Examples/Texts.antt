-- ===== src/Examples/Texts.antt =====
-- The theorems on the parser at work, on a sentence of the README.
use Prim.Native.Char.{Char, code}
use home_work_ad_processor_g.Prelude.{
  some, none, [], ◌∷◌, ◌⊎◌, ◌≡◌, refl, write_nat, write_digits, ◌==◌, if◌then◌else◌, String, pos,
  ok, arith,
}
use home_work_ad_processor_g.Command.Parser.{Unicode, parse, trim_space, to_lower}
use home_work_ad_processor_g.Command.Parsed.{Ready, parse-Ready}
use home_work_ad_processor_g.Command.Phrases.{Wish, sentence, lower_case, command_for, Sensible}
use home_work_ad_processor_g.Command.RemoteParser.{Remote, ParsedCommand, parse_remotely}
use home_work_ad_processor_g.Command.Fallback.{Useless, Useful, command_of, parse_remotely-sentence}
use home_work_ad_processor_g.Command.Sentences.{parse-sentence}

-- The lower case of the capitals that the sentence has.
abbrev lower_letter : Char → Char
lower_letter c =
    if code c == 67
    then "c"
    else if code c == 70
    then "f"
    else if code c == 71
    then "g"
    else if code c == 80
    then "p"
    else if code c == 82
    then "r"
    else c

abbrev ascii : Unicode
ascii = record { lower = lower_letter; is_space = λ c. code c == 32 }

abbrev wish : Wish
wish = Wish.family_priority 5 "RPG-Fantasy"

abbrev lowered : Wish
lowered = Wish.family_priority 5 "rpg-fantasy"

abbrev said : String
said = "Change priority to 5 for all ads in the RPG-Fantasy family"

wish-Sensible : Sensible ascii (lower_case ascii wish)
unfolding lower_case to_lower trim_space
wish-Sensible = (
  omega arith,
  omega arith,
  λ e. absurd cc,
  (refl, (refl, (refl, (refl, (refl, (refl, (refl, (refl, (refl, (refl, (refl, tt))))))))))),
  refl,
)

parse-sentence_example :
    parse ascii "c-1" (pos 0) said ≡ ok (command_for "c-1" (pos 0) (sentence lowered) lowered)
unfolding trim_space to_lower lower_case sentence write_nat write_digits
parse-sentence_example = parse-sentence ascii "c-1" (pos 0) said wish wish-Sensible refl

parse-Ready_example : Ready (command_for "c-1" (pos 0) (sentence lowered) lowered)
parse-Ready_example =
    parse-Ready ascii "c-1" (pos 0) said (command_for "c-1" (pos 0) (sentence lowered) lowered)
      parse-sentence_example

-- A service that answers every text with the same words, which are no JSON.
abbrev chatty : Remote
chatty = record {
  ask = λ text. some (record { candidates = ("Certainly!" ∷ []) ∷ []; error = none });
  read_command = λ part. none;
}

parse_remotely-sentence_example :
    (Useless chatty (chatty.ask said)
      × (parse_remotely chatty "c-1" (pos 0) ascii said
          ≡ ok (command_for "c-1" (pos 0) (sentence lowered) lowered)))
    ⊎ ((p : ParsedCommand) × Useful chatty (chatty.ask said) p
        × (parse_remotely chatty "c-1" (pos 0) ascii said
            ≡ ok (command_of chatty "c-1" (pos 0) said p)))
unfolding trim_space to_lower lower_case sentence write_nat write_digits
parse_remotely-sentence_example =
    parse_remotely-sentence chatty "c-1" (pos 0) ascii said wish wish-Sensible refl
