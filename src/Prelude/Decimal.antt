-- ===== src/Prelude/Decimal.antt =====
-- Texts that the program prints and parses: numbers as `%d` and `strconv.Atoi` have them, `%t` and
-- `strconv.ParseBool`, and `strings.Split` at a colon. An `int` is 64 bits wide.
use Prim.Native.Nat.{ℕ, zero, suc, ◌+◌, ◌-◌, ◌*◌, ◌/◌, ◌%◌}
use Prim.Native.Char.{Char, code}
use Prim.Native.String.{String}
use mathlib.Core.Bool.{Bool, true, false, ◌||◌, ◌&&◌}
use mathlib.Core.Option.{Option, none, some}
use mathlib.Core.List.{List, [], ◌∷◌}
use text.Mathlib.Text.{◌==◌ as str_eq}
use home_work_ad_processor_g.Prelude.Tests.{ltb, leb, ◌==◌, if◌then◌else◌}
use home_work_ad_processor_g.Prelude.Int.{ℤ, pos, negsuc, sub_ℕ}

-- A text in front of another, as `fmt` puts them together.
abbrev pub prefixed : String → String → String
prefixed String.[] text = text
prefixed (String.◌∷◌ c prefix) text = String.◌∷◌ c (prefixed prefix text)

unfoldable pub digit : ℕ → Char
digit zero = "0"
digit (suc zero) = "1"
digit (suc (suc zero)) = "2"
digit (suc (suc (suc zero))) = "3"
digit (suc (suc (suc (suc zero)))) = "4"
digit (suc (suc (suc (suc (suc zero))))) = "5"
digit (suc (suc (suc (suc (suc (suc zero)))))) = "6"
digit (suc (suc (suc (suc (suc (suc (suc zero))))))) = "7"
digit (suc (suc (suc (suc (suc (suc (suc (suc zero)))))))) = "8"
digit _ = "9"

-- The digits of a number, before a text. The fuel is at least the number of digits.
unfoldable pub write_digits : ℕ → ℕ → String → String
unfolding digit
write_digits zero n rest = rest
write_digits (suc fuel) n rest =
    let more = write_digits fuel (n / 10) (String.◌∷◌ (digit (n % 10)) rest) in
    if ltb n 10 then String.◌∷◌ (digit n) rest else more

-- `%d` of a natural number and of an integer, before a text.
unfoldable pub write_nat : ℕ → String → String
unfolding write_digits
write_nat n rest = write_digits (suc n) n rest

unfoldable pub write_int : ℤ → String → String
unfolding write_nat
write_int (pos n) rest = write_nat n rest
write_int (negsuc n) rest = String.◌∷◌ "-" (write_nat (suc n) rest)

-- `%t`.
unfoldable pub write_bool : Bool → String → String
write_bool true rest = String.◌∷◌ "t" (String.◌∷◌ "r" (String.◌∷◌ "u" (String.◌∷◌ "e" rest)))
write_bool false rest =
    String.◌∷◌ "f" (String.◌∷◌ "a" (String.◌∷◌ "l" (String.◌∷◌ "s" (String.◌∷◌ "e" rest))))

abbrev pub is_digit : Char → Bool
is_digit c = leb 48 (code c) && leb (code c) 57

-- The number that a text of digits goes on to from another.
unfoldable pub read_digits : ℕ → String → Option ℕ
read_digits n String.[] = some n
read_digits n (String.◌∷◌ c s) =
    let rest = read_digits (n * 10 + (code c - 48)) s in if is_digit c then rest else none

-- At least one digit.
unfoldable pub digits : String → Option ℕ
unfolding read_digits
digits String.[] = none
digits (String.◌∷◌ c s) = read_digits 0 (String.◌∷◌ c s)

-- The least and the greatest `int` stand for what is out of range.
abbrev pub max_int : ℕ
max_int = 9_223_372_036_854_775_807

abbrev pub clamp_pos : ℕ → ℤ
clamp_pos n = if ltb max_int n then pos max_int else pos n

abbrev pub clamp_neg : ℕ → ℤ
clamp_neg n = if ltb (max_int + 1) n then negsuc max_int else sub_ℕ 0 n

-- The value of `strconv.Atoi`, when its error is dropped: 0 for a text that is no number.
abbrev pub read_or : (ℕ → ℤ) → Option ℕ → ℤ
read_or f none = pos 0
read_or f (some n) = f n

unfoldable pub atoi : String → ℤ
unfolding read_digits
atoi String.[] = pos 0
atoi (String.◌∷◌ c s) =
    if code c == 45
    then read_or clamp_neg (digits s)
    else if code c == 43
    then read_or clamp_pos (digits s)
    else read_or clamp_pos (digits (String.◌∷◌ c s))

-- `strconv.Atoi` with its error: a text that is no number, or one that does not fit an `int`.
abbrev pub fitting : ℕ → (ℕ → ℤ) → Option ℕ → Option ℤ
fitting limit f none = none
fitting limit f (some n) = if ltb limit n then none else some (f n)

unfoldable pub atoi_checked : String → Option ℤ
atoi_checked String.[] = none
atoi_checked (String.◌∷◌ c s) =
    if code c == 45
    then fitting (max_int + 1) (sub_ℕ 0) (digits s)
    else if code c == 43
    then fitting max_int pos (digits s)
    else fitting max_int pos (digits (String.◌∷◌ c s))

-- The value of `strconv.ParseBool`, when its error is dropped.
unfoldable pub parse_bool : String → Bool
parse_bool s =
    str_eq s "1"
    || str_eq s "t"
    || str_eq s "T"
    || str_eq s "TRUE"
    || str_eq s "true"
    || str_eq s "True"

-- A character before the first part.
abbrev pub push : Char → List String → List String
push c [] = String.◌∷◌ c String.[] ∷ []
push c (part ∷ parts) = String.◌∷◌ c part ∷ parts

-- `strings.Split(s, ":")`.
unfoldable pub split_colon : String → List String
split_colon String.[] = String.[] ∷ []
split_colon (String.◌∷◌ c s) =
    let rest = split_colon s in if code c == 58 then String.[] ∷ rest else push c rest
