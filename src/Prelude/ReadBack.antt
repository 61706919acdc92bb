-- ===== src/Prelude/ReadBack.antt =====
-- A number or a flag that is printed is read back, and stands alone between colons.
use Prim.Native.Nat.{ℕ, zero, suc, ◌+◌, ◌-◌, ◌*◌, ◌/◌, ◌%◌, ◌≤◌, ◌<◌}
use Prim.Native.Char.{code}
use Prim.Native.String.{String}
use mathlib.Core.Path.{◌≡◌, refl, sym, ap, ◌∙◌}
use mathlib.Core.Logic.{inl, inr}
use mathlib.Core.Bool.{Bool, true, false}
use mathlib.Core.Option.{some}
use mathlib.Core.List.{List, ◌∷◌}
use native.Mathlib.Omega.{arith}
use home_work_ad_processor_g.Prelude.Tests.{Bool-cases, ltb, ◌==◌}
use home_work_ad_processor_g.Prelude.Int.{ℤ, pos, negsuc}
use home_work_ad_processor_g.Prelude.Decimal.{
  digit, write_digits, write_nat, write_int, write_bool, is_digit, read_digits, digits, max_int,
  clamp_pos, clamp_neg, read_or, fitting, atoi, atoi_checked, parse_bool, push, split_colon,
}

-- An integer that an `int` can hold.
abbrev pub IsInt : ℤ → Type 0
IsInt (pos n) = n ≤ max_int
IsInt (negsuc n) = n ≤ max_int

pub code-digit : (d : ℕ) → d < 10 → code (digit d) ≡ 48 + d
unfolding digit
code-digit zero h = refl
code-digit (suc zero) h = refl
code-digit (suc (suc zero)) h = refl
code-digit (suc (suc (suc zero))) h = refl
code-digit (suc (suc (suc (suc zero)))) h = refl
code-digit (suc (suc (suc (suc (suc zero))))) h = refl
code-digit (suc (suc (suc (suc (suc (suc zero)))))) h = refl
code-digit (suc (suc (suc (suc (suc (suc (suc zero))))))) h = refl
code-digit (suc (suc (suc (suc (suc (suc (suc (suc zero)))))))) h = refl
code-digit (suc (suc (suc (suc (suc (suc (suc (suc (suc k))))))))) h = omega (arith, h)

pub digit-is_digit : (d : ℕ) → d < 10 → is_digit (digit d) ≡ true
digit-is_digit d h = let e = code-digit d h in ground arith

digit_no_colon : (d : ℕ) → d < 10 → (code (digit d) == 58) ≡ false
digit_no_colon d h = let e = code-digit d h in ground arith

read_digit :
    (n d : ℕ) (rest : String)
    → d < 10
    → read_digits n (String.◌∷◌ (digit d) rest) ≡ read_digits (n * 10 + d) rest
unfolding read_digits
read_digit n d rest h =
    let value : n * 10 + (code (digit d) - 48) ≡ n * 10 + d = omega (arith, code-digit d h) in
    rw (digit-is_digit d h) (ap (λ k. read_digits k rest) value)

split_digit :
    (d : ℕ) (rest part : String) (parts : List String)
    → d < 10
    → split_colon rest ≡ part ∷ parts
    → split_colon (String.◌∷◌ (digit d) rest) ≡ String.◌∷◌ (digit d) part ∷ parts
unfolding split_colon
split_digit d rest part parts h e = rw (digit_no_colon d h, e) refl

pub read-write_digits :
    (fuel n : ℕ) (rest : String)
    → n < fuel
    → read_digits 0 (write_digits fuel n rest) ≡ read_digits n rest
unfolding write_digits
read-write_digits zero n rest h = absurd (omega (arith, h))
read-write_digits (suc fuel) n rest h = elim (Bool-cases (ltb n 10)) [
  | inl e ↦
      let small : n < 10 = ground arith in
      rw e (read_digit 0 n rest small ∙ ap (λ k. read_digits k rest) (omega arith))
  | inr e ↦
      let large : 10 ≤ n = ground arith in
      rw e (
        read-write_digits fuel (n / 10) (String.◌∷◌ (digit (n % 10)) rest) (omega (arith, h))
        ∙ read_digit (n / 10) (n % 10) rest (omega arith)
        ∙ ap (λ k. read_digits k rest) (omega arith))
]

pub split-write_digits :
    (fuel n : ℕ) (rest part : String) (parts : List String)
    → split_colon rest ≡ part ∷ parts
    → split_colon (write_digits fuel n rest) ≡ write_digits fuel n part ∷ parts
unfolding write_digits
split-write_digits zero n rest part parts h = h
split-write_digits (suc fuel) n rest part parts h = elim (Bool-cases (ltb n 10)) [
  | inl e ↦ let small : n < 10 = ground arith in rw e (split_digit n rest part parts small h)
  | inr e ↦ rw e (
      split-write_digits fuel (n / 10) (String.◌∷◌ (digit (n % 10)) rest)
        (String.◌∷◌ (digit (n % 10)) part) parts
        (split_digit (n % 10) rest part parts (omega arith) h))
]

-- A text of digits begins with a digit.
write_digits-cons :
    (fuel n : ℕ) (rest : String)
    → n < fuel
    → (d : ℕ) × (s : String) × (d < 10) × (write_digits fuel n rest ≡ String.◌∷◌ (digit d) s)
unfolding write_digits
write_digits-cons zero n rest h = absurd (omega (arith, h))
write_digits-cons (suc fuel) n rest h = elim (Bool-cases (ltb n 10)) [
  | inl e ↦ let small : n < 10 = ground arith in rw e (n, rest, small, refl)
  | inr e ↦
      let large : 10 ≤ n = ground arith in
      rw e (write_digits-cons fuel (n / 10) (String.◌∷◌ (digit (n % 10)) rest) (omega (arith, h)))
]

pub write_nat-cons :
    (n : ℕ) (rest : String)
    → (d : ℕ) × (s : String) × (d < 10) × (write_nat n rest ≡ String.◌∷◌ (digit d) s)
unfolding write_nat
write_nat-cons n rest = write_digits-cons (suc n) n rest (omega arith)

read-write_nat : (n : ℕ) (rest : String) → read_digits 0 (write_nat n rest) ≡ read_digits n rest
unfolding write_nat
read-write_nat n rest = read-write_digits (suc n) n rest (omega arith)

digits-write_nat : (n : ℕ) → digits (write_nat n "") ≡ some n
unfolding digits read_digits
digits-write_nat n =
    let (d, s, small, e) = write_nat-cons n "" in
    ap digits e ∙ ap (read_digits 0) (sym e) ∙ read-write_nat n ""

not_sign : (d k : ℕ) → d < 10 → k < 48 → (code (digit d) == k) ≡ false
not_sign d k h l = let e = code-digit d h in ground arith

atoi-digit :
    (d : ℕ) (s : String)
    → d < 10
    → atoi (String.◌∷◌ (digit d) s) ≡ read_or clamp_pos (digits (String.◌∷◌ (digit d) s))
unfolding atoi
atoi-digit d s h = rw (not_sign d 45 h (omega arith), not_sign d 43 h (omega arith)) refl

checked_digit :
    (d : ℕ) (s : String)
    → d < 10
    → atoi_checked (String.◌∷◌ (digit d) s) ≡ fitting max_int pos (digits (String.◌∷◌ (digit d) s))
unfolding atoi_checked
checked_digit d s h = rw (not_sign d 45 h (omega arith), not_sign d 43 h (omega arith)) refl

atoi_minus : (s : String) → atoi (String.◌∷◌ "-" s) ≡ read_or clamp_neg (digits s)
unfolding atoi
atoi_minus s = refl

-- `Atoi` with its error reads back a number that is not negative.
pub atoi_checked-write_nat : (n : ℕ) → n ≤ max_int → atoi_checked (write_nat n "") ≡ some (pos n)
atoi_checked-write_nat n h =
    let (d, s, small, e) = write_nat-cons n "" in
    let fits : fitting max_int pos (some n) ≡ some (pos n) = ground (arith, h) in
    ap atoi_checked e
    ∙ checked_digit d s small
    ∙ ap (λ t. fitting max_int pos (digits t)) (sym e)
    ∙ ap (fitting max_int pos) (digits-write_nat n)
    ∙ fits

-- `Atoi` reads back what `%d` printed, for an `int`.
pub atoi-write_int : (z : ℤ) → IsInt z → atoi (write_int z "") ≡ z
unfolding write_int
atoi-write_int (pos n) h =
    let (d, s, small, e) = write_nat-cons n "" in
    let fits : clamp_pos n ≡ pos n = ground (arith, h) in
    ap atoi e
    ∙ atoi-digit d s small
    ∙ ap (λ t. read_or clamp_pos (digits t)) (sym e)
    ∙ ap (read_or clamp_pos) (digits-write_nat n)
    ∙ fits
atoi-write_int (negsuc n) h =
    let fits : clamp_neg (suc n) ≡ negsuc n = ground (arith, h) in
    atoi_minus (write_nat (suc n) "") ∙ ap (read_or clamp_neg) (digits-write_nat (suc n)) ∙ fits

split-write_nat :
    (n : ℕ) (rest part : String) (parts : List String)
    → split_colon rest ≡ part ∷ parts
    → split_colon (write_nat n rest) ≡ write_nat n part ∷ parts
unfolding write_nat
split-write_nat n rest part parts h = split-write_digits (suc n) n rest part parts h

split_minus : (s : String) → split_colon (String.◌∷◌ "-" s) ≡ push "-" (split_colon s)
unfolding split_colon
split_minus s = refl

-- A printed number is a part of its own before a colon and at the end.
pub split-write_int :
    (z : ℤ) (rest part : String) (parts : List String)
    → split_colon rest ≡ part ∷ parts
    → split_colon (write_int z rest) ≡ write_int z part ∷ parts
unfolding write_int
split-write_int (pos n) rest part parts h = split-write_nat n rest part parts h
split-write_int (negsuc n) rest part parts h =
    split_minus (write_nat (suc n) rest) ∙ ap (push "-") (split-write_nat (suc n) rest part parts h)

pub split-write_bool :
    (b : Bool) (rest part : String) (parts : List String)
    → split_colon rest ≡ part ∷ parts
    → split_colon (write_bool b rest) ≡ write_bool b part ∷ parts
unfolding write_bool split_colon
split-write_bool true rest part parts h = rw h refl
split-write_bool false rest part parts h = rw h refl

pub split_at_colon : (rest : String) → split_colon (String.◌∷◌ ":" rest) ≡ "" ∷ split_colon rest
unfolding split_colon
split_at_colon rest = refl

pub parse-write_bool : (b : Bool) → parse_bool (write_bool b "") ≡ b
unfolding parse_bool write_bool
parse-write_bool true = refl
parse-write_bool false = refl

-- A function of texts that passes over digits passes over a printed number.
pub over_digits {ℓ} :
    {A : Type ℓ} (f : String → A)
    → ((d : ℕ) (s : String) → d < 10 → f (String.◌∷◌ (digit d) s) ≡ f s)
    → (fuel n : ℕ) (rest : String) → f (write_digits fuel n rest) ≡ f rest
unfolding write_digits
over_digits f pass zero n rest = refl
over_digits f pass (suc fuel) n rest = elim (Bool-cases (ltb n 10)) [
  | inl e ↦ let small : n < 10 = ground arith in rw e (pass n rest small)
  | inr e ↦ rw e (
      over_digits f pass fuel (n / 10) (String.◌∷◌ (digit (n % 10)) rest)
      ∙ pass (n % 10) rest (omega arith))
]

pub over_number {ℓ} :
    {A : Type ℓ} (f : String → A)
    → ((d : ℕ) (s : String) → d < 10 → f (String.◌∷◌ (digit d) s) ≡ f s)
    → (n : ℕ) (rest : String) → f (write_nat n rest) ≡ f rest
unfolding write_nat
over_number f pass n rest = over_digits f pass (suc n) n rest
