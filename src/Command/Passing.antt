-- ===== src/Command/Passing.antt =====
-- internal/infrastructure/external/mock_command_parser.go: the patterns that do not occur in a sentence.
use Prim.Native.Char.{Char, code}
use home_work_ad_processor_g.Prelude.{
  ℕ, zero, suc, ◌<◌, ◌==◌, ◌≡◌, refl, sym, ap, ◌∙◌, false, Option, none, some, List, ◌∷◌, String,
  arith, write_nat, write_digits, digit, prefixed, is_digit, digit-is_digit, write_nat-cons,
  over_number, ltb, ◌/◌, ◌%◌, Bool-cases, inl, inr,
}
use home_work_ad_processor_g.Command.Patterns.{
  Piece, literal, after, digit_run, captured, match_run, match_here, find_submatch,
}
use home_work_ad_processor_g.Command.Parser.{
  family_pattern, age_pattern, next_pattern, waiting_pattern, distribution_pattern,
  starvation_pattern,
}
use home_work_ad_processor_g.Command.Phrases.{age_priority, next_ads, waiting, max_wait, sentence}

-- A text that does not begin with a digit.
abbrev NoDigit : String → Type 0
NoDigit rest = digit_run rest ≡ ("", rest)

run_digit :
    (d : ℕ) (s run other : String)
    → d < 10
    → digit_run s ≡ (run, other)
    → digit_run (String.◌∷◌ (digit d) s) ≡ (String.◌∷◌ (digit d) run, other)
unfolding digit_run
run_digit d s run other h e = rw (digit-is_digit d h) (ap (λ r. (String.◌∷◌ (digit d) r.0, r.1)) e)

run_digits :
    (fuel n : ℕ) (rest run other : String)
    → digit_run rest ≡ (run, other)
    → digit_run (write_digits fuel n rest) ≡ (write_digits fuel n run, other)
unfolding write_digits
run_digits zero n rest run other h = h
run_digits (suc fuel) n rest run other h = elim (Bool-cases (ltb n 10)) [
  | inl e ↦ let small : n < 10 = ground arith in rw e (run_digit n rest run other small h)
  | inr e ↦ rw e (
      run_digits fuel (n / 10) (String.◌∷◌ (digit (n % 10)) rest) (String.◌∷◌ (digit (n % 10)) run)
        other (run_digit (n % 10) rest run other (omega arith) h))
]

run_number :
    (n : ℕ) (rest : String) → NoDigit rest → digit_run (write_nat n rest) ≡ (write_nat n "", rest)
unfolding write_nat
run_number n rest h = run_digits (suc n) n rest "" rest h

-- A group of digits takes a printed number.
pub group_number :
    (k : String → Option (List String)) (n : ℕ) (rest : String)
    → NoDigit rest
    → match_run k (digit_run (write_nat n rest)) ≡ captured (write_nat n "") (k rest)
group_number k n rest h =
    let (d, s, small, e) = write_nat-cons n "" in
    ap (match_run k) (run_number n rest h)
    ∙ ap (λ run. match_run k (run, rest)) e
    ∙ ap (λ run. captured run (k rest)) (sym e)

-- A pattern that begins with a character that is no digit is not found at a digit.
pass_digit :
    (c : Char) (lit : String) (pieces : List Piece)
    → is_digit c ≡ false
    → (d : ℕ) (s : String) → d < 10
    → find_submatch (literal (String.◌∷◌ c lit) ∷ pieces) (String.◌∷◌ (digit d) s)
      ≡ find_submatch (literal (String.◌∷◌ c lit) ∷ pieces) s
unfolding find_submatch match_here after
pass_digit c lit pieces other d s h =
    let digit_there = digit-is_digit d h in
    let differ : code c == code (digit d) ≡ false = ground arith in rw (find_submatch, differ) refl

pass_number :
    (c : Char) (lit : String) (pieces : List Piece)
    → is_digit c ≡ false
    → (n : ℕ) (rest : String)
    → find_submatch (literal (String.◌∷◌ c lit) ∷ pieces) (write_nat n rest)
      ≡ find_submatch (literal (String.◌∷◌ c lit) ∷ pieces) rest
pass_number c lit pieces other n rest =
    over_number (find_submatch (literal (String.◌∷◌ c lit) ∷ pieces))
      (pass_digit c lit pieces other) n rest

pub find-here :
    (pieces : List Piece) (c : Char) (s : String) (groups : List String)
    → match_here pieces (String.◌∷◌ c s) ≡ some groups
    → find_submatch pieces (String.◌∷◌ c s) ≡ some groups
unfolding find_submatch
find-here pieces c s groups h = rw (find_submatch, h) refl

family_pass :
    (n : ℕ) (rest : String)
    → find_submatch family_pattern (write_nat n rest) ≡ find_submatch family_pattern rest
family_pass n rest = pass_number "c" "hange priority to " _ refl n rest

age_pass :
    (n : ℕ) (rest : String)
    → find_submatch age_pattern (write_nat n rest) ≡ find_submatch age_pattern rest
age_pass n rest = pass_number "s" "et priority to " _ refl n rest

next_pass :
    (n : ℕ) (rest : String)
    → find_submatch next_pattern (write_nat n rest) ≡ find_submatch next_pattern rest
next_pass n rest = pass_number "s" "how the next " _ refl n rest

distribution_pass :
    (n : ℕ) (rest : String)
    → find_submatch distribution_pattern (write_nat n rest)
      ≡ find_submatch distribution_pattern rest
distribution_pass n rest = pass_number "w" "hat" _ refl n rest

waiting_pass :
    (n : ℕ) (rest : String)
    → find_submatch waiting_pattern (write_nat n rest) ≡ find_submatch waiting_pattern rest
waiting_pass n rest = pass_number "l" "ist all ads waiting longer than " _ refl n rest

starvation_pass :
    (n : ℕ) (rest : String)
    → find_submatch starvation_pattern (write_nat n rest) ≡ find_submatch starvation_pattern rest
starvation_pass n rest = pass_number "e" "nable starvation mode" _ refl n rest

-- The earlier patterns are not found in the sentences of the later ones.
pub age_not : (p n : ℕ) → find_submatch family_pattern (sentence (age_priority p n)) ≡ none
unfolding find_submatch match_here after sentence
age_not p n =
    family_pass p (prefixed " for ads older than " (write_nat n " minutes"))
    ∙ family_pass n " minutes"

pub next_not :
    (n : ℕ)
    → (find_submatch family_pattern (sentence (next_ads n)) ≡ none)
      × (find_submatch age_pattern (sentence (next_ads n)) ≡ none)
unfolding find_submatch match_here after sentence
next_not n = (family_pass n " ads to be processed", age_pass n " ads to be processed")

pub waiting_not :
    (n : ℕ)
    → (find_submatch family_pattern (sentence (waiting n)) ≡ none)
      × (find_submatch age_pattern (sentence (waiting n)) ≡ none)
      × (find_submatch next_pattern (sentence (waiting n)) ≡ none)
      × (find_submatch distribution_pattern (sentence (waiting n)) ≡ none)
unfolding find_submatch match_here after sentence
waiting_not n = (
  family_pass n " minutes",
  age_pass n " minutes",
  next_pass n " minutes",
  distribution_pass n " minutes",
)

pub max_wait_not :
    (n : ℕ)
    → (find_submatch family_pattern (sentence (max_wait n)) ≡ none)
      × (find_submatch age_pattern (sentence (max_wait n)) ≡ none)
      × (find_submatch next_pattern (sentence (max_wait n)) ≡ none)
      × (find_submatch distribution_pattern (sentence (max_wait n)) ≡ none)
      × (find_submatch waiting_pattern (sentence (max_wait n)) ≡ none)
      × (find_submatch starvation_pattern (sentence (max_wait n)) ≡ none)
unfolding find_submatch match_here after sentence
max_wait_not n = (
  family_pass n " seconds",
  age_pass n " seconds",
  next_pass n " seconds",
  distribution_pass n " seconds",
  waiting_pass n " seconds",
  starvation_pass n " seconds",
)
