-- ===== src/Command/Matching.antt =====
-- internal/infrastructure/external/mock_command_parser.go: the groups that each sentence has for its own
-- pattern.
use Prim.Native.Char.{Char, code}
use home_work_ad_processor_g.Prelude.{
  ℕ, ◌==◌, ◌≡◌, ◌≢◌, refl, ap, ◌∙◌, Bool, true, false, Option, none, some, List, [], ◌∷◌, String,
  if◌then◌else◌, write_nat, prefixed,
}
use home_work_ad_processor_g.Command.Patterns.{
  Piece, literal, digits_group, any_group, maybe, after, digit_run, captured, match_any, longer,
  match_here, find_submatch, is_match,
}
use home_work_ad_processor_g.Command.Parser.{
  family_pattern, age_pattern, next_pattern, waiting_pattern, max_wait_pattern,
}
use home_work_ad_processor_g.Command.Phrases.{
  family_priority, age_priority, next_ads, waiting, max_wait, sentence, OneLine,
}
use home_work_ad_processor_g.Command.Passing.{group_number, find-here}

pub age_found :
    (p n : ℕ)
    → find_submatch age_pattern (sentence (age_priority p n))
      ≡ some (write_nat p "" ∷ write_nat n "" ∷ [])
unfolding match_here after digit_run sentence
age_found p n = find-here age_pattern "s" _ _ (
    group_number
      (match_here
        (literal " for ads older than " ∷ digits_group ∷ literal " minute" ∷ maybe "s" ∷ []))
      p _ refl
    ∙ ap (captured (write_nat p ""))
        (group_number (match_here (literal " minute" ∷ maybe "s" ∷ [])) n " minutes" refl))

pub next_found :
    (n : ℕ) → find_submatch next_pattern (sentence (next_ads n)) ≡ some (write_nat n "" ∷ [])
unfolding match_here after digit_run sentence
next_found n =
    find-here next_pattern "s" _ _
      (group_number (match_here (literal " ads to be processed" ∷ [])) n _ refl)

pub waiting_found :
    (n : ℕ) → find_submatch waiting_pattern (sentence (waiting n)) ≡ some (write_nat n "" ∷ [])
unfolding match_here after digit_run sentence
waiting_found n =
    find-here waiting_pattern "l" _ _
      (group_number (match_here (literal " minute" ∷ maybe "s" ∷ [])) n _ refl)

pub max_wait_found :
    (n : ℕ) → find_submatch max_wait_pattern (sentence (max_wait n)) ≡ some (write_nat n "" ∷ [])
unfolding match_here after digit_run sentence
max_wait_found n =
    find-here max_wait_pattern "s" _ _
      (group_number (match_here (literal " second" ∷ maybe "s" ∷ [])) n _ refl)

any_cons :
    (k : String → Option (List String)) (c : Char) (s group : String)
    → code c == 10 ≡ false
    → match_any k s ≡ some (group ∷ [])
    → match_any k (String.◌∷◌ c s) ≡ some (String.◌∷◌ c group ∷ [])
unfolding match_any
any_cons k c s group no_feed later =
    ap (λ b. if b then none else longer c (match_any k s) (k s)) no_feed
    ∙ ap (λ o. longer c o (k s)) later

empty_differs : (c : Char) (s : String) → String.◌∷◌ c s ≢ ""
empty_differs c s h = cc

-- The longest group before the last " family" is the family.
family_group :
    (family : String)
    → family ≢ ""
    → OneLine family
    → match_any (match_here (literal " family" ∷ [])) (prefixed family " family")
      ≡ some (family ∷ [])
unfolding match_any match_here after
family_group String.[] nonempty line = absurd (nonempty refl)
family_group (String.◌∷◌ c String.[]) nonempty (no_feed, line) = rw no_feed refl
family_group (String.◌∷◌ c (String.◌∷◌ d s)) nonempty (no_feed, line) =
    any_cons (match_here (literal " family" ∷ [])) c (prefixed (String.◌∷◌ d s) " family")
      (String.◌∷◌ d s) no_feed
      (family_group (String.◌∷◌ d s) (λ e. absurd (empty_differs d s e)) line)

pub family_found :
    (p : ℕ) (family : String)
    → family ≢ ""
    → OneLine family
    → find_submatch family_pattern (sentence (family_priority p family))
      ≡ some (write_nat p "" ∷ family ∷ [])
unfolding match_here after digit_run sentence
family_found p family nonempty line = find-here family_pattern "c" _ _ (
    group_number (match_here (literal " for all ads in the " ∷ any_group ∷ literal " family" ∷ []))
      p _ refl
    ∙ ap (captured (write_nat p "")) (family_group family nonempty line))

pub miss :
    (pieces : List Piece) (s : String) → find_submatch pieces s ≡ none → is_match pieces s ≡ false
miss pieces s h = ap (λ o. elim o as (λ x. Bool) [ none ↦ false | some groups ↦ true ]) h

pub hit :
    (pieces : List Piece) (s : String) (groups : List String)
    → find_submatch pieces s ≡ some groups
    → is_match pieces s ≡ true
hit pieces s groups h = ap (λ o. elim o as (λ x. Bool) [ none ↦ false | some g ↦ true ]) h
