-- ===== src/Command/Patterns.antt =====
-- The regular expressions of internal/infrastructure/external/mock_command_parser.go, as `regexp` matches
-- them: the leftmost match, each repetition as long as the rest allows. A group of `\d+` is followed by
-- a space in each of them, so that no shorter run of digits can match.
use Prim.Native.Char.{Char, code}
use home_work_ad_processor_g.Prelude.{
  ◌==◌, is_digit, Bool, true, false, Option, none, some, List, [], ◌∷◌, String, if◌then◌else◌,
}

-- A literal text, `.`, a group `(\d+)`, a group `(.+)`, and a character with `?`.
pub data Piece : Type 0 where
  literal : String → Piece
  any : Piece
  digits_group : Piece
  any_group : Piece
  maybe : Char → Piece

-- What is left of a text after a literal.
unfoldable pub after : String → String → Option String
after String.[] text = some text
after (String.◌∷◌ c lit) String.[] = none
after (String.◌∷◌ c lit) (String.◌∷◌ d text) =
    let rest = after lit text in if code c == code d then rest else none

-- The digits at the start of a text and what follows them.
unfoldable pub digit_run : String → String × String
digit_run String.[] = ("", "")
digit_run (String.◌∷◌ c text) =
    let (run, rest) = digit_run text in
    if is_digit c then (String.◌∷◌ c run, rest) else ("", String.◌∷◌ c text)

abbrev pub captured : String → Option (List String) → Option (List String)
captured group none = none
captured group (some groups) = some (group ∷ groups)

-- The group of the longest match, with one more character in front of it.
abbrev pub longer : Char → Option (List String) → Option (List String) → Option (List String)
longer c (some (group ∷ groups)) shortest = some (String.◌∷◌ c group ∷ groups)
longer c (some []) shortest = shortest
longer c none shortest = captured (String.◌∷◌ c "") shortest

-- `(.+)` and the pieces after it; `.` is no line feed.
unfoldable pub match_any : (String → Option (List String)) → String → Option (List String)
match_any rest String.[] = none
match_any rest (String.◌∷◌ c text) =
    let later = match_any rest text in if code c == 10 then none else longer c later (rest text)

abbrev pub match_dot : (String → Option (List String)) → String → Option (List String)
match_dot rest String.[] = none
match_dot rest (String.◌∷◌ c text) = if code c == 10 then none else rest text

abbrev pub match_run : (String → Option (List String)) → String × String → Option (List String)
match_run rest (String.[], text) = none
match_run rest (String.◌∷◌ c run, text) = captured (String.◌∷◌ c run) (rest text)

abbrev pub match_after : (String → Option (List String)) → Option String → Option (List String)
match_after rest none = none
match_after rest (some text) = rest text

-- One character if it is there.
abbrev pub match_maybe : (String → Option (List String)) → Char → String → Option (List String)
match_maybe rest c String.[] = rest String.[]
match_maybe rest c (String.◌∷◌ d text) =
    if code c == code d
    then elim (rest text) [ none ↦ rest (String.◌∷◌ d text) | some groups ↦ some groups ]
    else rest (String.◌∷◌ d text)

-- The groups of a match at the start of the text.
unfoldable pub match_here : List Piece → String → Option (List String)
unfolding after digit_run match_any
match_here [] text = some []
match_here (literal lit ∷ pieces) text = match_after (match_here pieces) (after lit text)
match_here (any ∷ pieces) text = match_dot (match_here pieces) text
match_here (digits_group ∷ pieces) text = match_run (match_here pieces) (digit_run text)
match_here (any_group ∷ pieces) text = match_any (match_here pieces) text
match_here (maybe c ∷ pieces) text = match_maybe (match_here pieces) c text

-- `FindStringSubmatch`: the groups of the leftmost match.
unfoldable pub find_submatch : List Piece → String → Option (List String)
unfolding match_here
find_submatch pieces String.[] = match_here pieces String.[]
find_submatch pieces (String.◌∷◌ c text) =
    let later = find_submatch pieces text in
    elim (match_here pieces (String.◌∷◌ c text)) [ none ↦ later | some groups ↦ some groups ]

-- `MatchString`.
abbrev pub is_match : List Piece → String → Bool
is_match pieces text = elim (find_submatch pieces text) [ none ↦ false | some groups ↦ true ]
