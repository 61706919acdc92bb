-- ===== src/Config/References.antt =====
-- pkg/config/config.go: what a reference `{NAME-default}` becomes.
use Prim.Native.Char.{Char, code}
use home_work_ad_processor_g.Prelude.{
  ℕ, ◌≡◌, ◌≢◌, ◌≤◌, ◌<◌, ◌+◌, refl, sym, ap, ◌∙◌, ◌==◌, Bool, true, false, not, Option, some,
  String, str_eq, str_ne, eq_iff, if◌then◌else◌, pos, prefixed, digit, code-digit, write_nat,
  write_nat-cons, over_number, atoi_checked-write_nat, max_int, arith,
}
use home_work_ad_processor_g.Command.Parser.{to_lower}
use home_work_ad_processor_g.Config.{
  Setting, is_name_char, name_run, before_brace, find_reference, convert_to_type, convert_value,
  referred, process_value,
}

-- Only capitals and underscores.
abbrev pub in_capitals : String → Bool
in_capitals String.[] = true
in_capitals (String.◌∷◌ c s) = let rest = in_capitals s in if is_name_char c then rest else false

abbrev pub without_brace : String → Bool
without_brace String.[] = true
without_brace (String.◌∷◌ c s) = let rest = without_brace s in if code c == 125 then false else rest

-- `{NAME-default}`.
abbrev pub reference : String → String → String
reference name default = String.◌∷◌ "{" (prefixed name (String.◌∷◌ "-" (prefixed default "}")))

if_true : (b rest : Bool) → (if b then rest else false) ≡ true → (b ≡ true) × (rest ≡ true)
if_true true rest h = (refl, h)
if_true false rest h = absurd cc

if_false : (b rest : Bool) → (if b then false else rest) ≡ true → (b ≡ false) × (rest ≡ true)
if_false true rest h = absurd cc
if_false false rest h = (refl, h)

name_run-prefixed :
    (name rest : String)
    → in_capitals name ≡ true
    → name_run (prefixed name (String.◌∷◌ "-" rest)) ≡ (name, String.◌∷◌ "-" rest)
unfolding name_run
name_run-prefixed String.[] rest h = refl
name_run-prefixed (String.◌∷◌ c name) rest h =
    let (here, later) = if_true (is_name_char c) (in_capitals name) h in
    rw (name_run-prefixed name rest later, here) refl

before_brace-prefixed :
    (default : String)
    → without_brace default ≡ true
    → before_brace (prefixed default "}") ≡ some default
unfolding before_brace
before_brace-prefixed String.[] h = refl
before_brace-prefixed (String.◌∷◌ c default) h =
    let (here, later) = if_false (code c == 125) (without_brace default) h in
    rw (here, before_brace-prefixed default later) refl

-- A reference is found with its name and its default.
find-reference :
    (name default : String)
    → name ≢ ""
    → in_capitals name ≡ true
    → without_brace default ≡ true
    → find_reference (reference name default) ≡ some (name, default)
unfolding find_reference
find-reference String.[] default nonempty capitals plain = absurd (nonempty refl)
find-reference (String.◌∷◌ c name) default nonempty capitals plain =
    rw
      (
        name_run-prefixed (String.◌∷◌ c name) (prefixed default "}") capitals,
        before_brace-prefixed default plain,
      )
      refl

without_brace-write_nat : (n : ℕ) → without_brace (write_nat n "") ≡ true
without_brace-write_nat n =
    over_number without_brace
      (λ d s h.
        let e = code-digit d h in
        let other : (code (digit d) == 125) ≡ false = ground arith in
        ap (λ b. if b then false else without_brace s) other)
      n ""

first_code : String → ℕ
first_code String.[] = 0
first_code (String.◌∷◌ c s) = code c

first_differs : (s t : String) → first_code s ≢ first_code t → str_eq s t ≡ false
first_differs s t ne = str_ne s t (λ e. ne (ap first_code e))

-- The two nested choices of the code as one.
resolve {ℓ} :
    {A : Type ℓ} (as_text convert : String → A) (value default : String) (unset empty : Bool)
    → (unset ≡ true → empty ≡ true → default ≡ value)
    → (if not unset
        then if empty then as_text value else if unset then convert default else convert value
        else if empty
        then as_text default
        else if empty
        then convert default
        else convert default)
      ≡ (if empty then as_text value else convert (if unset then default else value))
resolve as_text convert value default true true same = ap as_text (same refl refl)
resolve as_text convert value default true false same = refl
resolve as_text convert value default false true same = refl
resolve as_text convert value default false false same = refl

module _ {F : Type 0} (lower : Char → Char) (parse_float : String → Option F)
    (getenv : String → String) where
  -- What the value of the variable and the default become.
  abbrev pub resolved : String → String → Setting F
  resolved value default =
      if str_eq default ""
      then Setting.text value
      else convert_to_type lower parse_float (if str_eq value "" then default else value)

  referred_lem :
      (whole name default : String)
      → referred lower parse_float getenv whole (some (name, default))
        ≡ resolved (getenv name) default
  unfolding convert_value
  referred_lem whole name default =
      resolve Setting.text (convert_to_type lower parse_float) (getenv name) default
        (str_eq (getenv name) "") (str_eq default "")
        (λ e f. (eq_iff default "").0 f ∙ sym ((eq_iff (getenv name) "").0 e))

  number_text :
      (n : ℕ)
      → ((d : ℕ) → d < 10 → lower (digit d) ≡ digit d)
      → n ≤ max_int
      → (str_eq (write_nat n "") "" ≡ false)
        × (convert_to_type lower parse_float (write_nat n "") ≡ Setting.int (pos n))
  unfolding convert_to_type to_lower first_code
  number_text n law h =
      let (d, s, small, e) = write_nat-cons n "" in
      let is = code-digit d small in
      let low : first_code (to_lower lower (write_nat n "")) ≡ 48 + d =
        ap (λ t. first_code (to_lower lower t)) e ∙ ap code (law d small) ∙ is in
      let head : first_code (write_nat n "") ≡ 48 + d = ap first_code e ∙ is in
      let filled = first_differs (write_nat n "") "" (λ x. omega (arith, x, head)) in
      let no_true =
        first_differs (to_lower lower (write_nat n "")) "true"
          (λ x. omega (arith, x, low, small)) in
      let no_false =
        first_differs (to_lower lower (write_nat n "")) "false"
          (λ x. omega (arith, x, low, small)) in
      (filled, rw (filled, no_true, no_false, atoi_checked-write_nat n h) refl)

  -- A text that is a reference, with a name of capitals and a default without a closing brace, becomes
  -- the value of the variable, or the default if the variable is empty or not set, converted to a
  -- flag or a number where it is one; with an empty default the value stays a text.
  pub process_value-resolved :
      (name default : String)
      → name ≢ ""
      → in_capitals name ≡ true
      → without_brace default ≡ true
      → process_value lower parse_float getenv (Setting.text (reference name default))
        ≡ resolved (getenv name) default
  unfolding process_value
  process_value-resolved name default nonempty capitals plain =
      ap (referred lower parse_float getenv (reference name default))
        (find-reference name default nonempty capitals plain)
      ∙ referred_lem (reference name default) name default

  -- A reference whose default is a printed number becomes a number: the one that the variable holds,
  -- or the default when the variable is empty or not set. The letter case of a digit is that digit, the
  -- name is of capitals, and both numbers fit an `int`.
  pub process_value-int :
      (name : String) (n m : ℕ)
      → ((d : ℕ) → d < 10 → lower (digit d) ≡ digit d)
      → name ≢ ""
      → in_capitals name ≡ true
      → n ≤ max_int
      → m ≤ max_int
      → (getenv name ≡ ""
          → process_value lower parse_float getenv (Setting.text (reference name (write_nat n "")))
            ≡ Setting.int (pos n))
        × (getenv name ≡ write_nat m ""
            → process_value lower parse_float getenv
                (Setting.text (reference name (write_nat n "")))
              ≡ Setting.int (pos m))
  process_value-int name n m law nonempty capitals p q =
      let becomes =
        process_value-resolved name (write_nat n "") nonempty capitals
          (without_brace-write_nat n) in
      let (filled, number) = number_text n law p in
      let (full, held) = number_text m law q in
      (λ unset. becomes ∙ rw (filled, unset) number, λ set. becomes ∙ rw (filled, set, full) held)
