-- ===== src/Command/Parsed.antt =====
-- internal/infrastructure/external/mock_command_parser.go: every command that `Parse` makes passes
-- `ValidateCommand` and the test of the executor.
use home_work_ad_processor_g.Prelude.{
  ◌≡◌, refl, subst, Bool, true, false, ◌||◌, Option, none, some, List, [], ◌∷◌, String,
  if◌then◌else◌, ℤ, pos, ltb_ℤ, leb_ℤ, Result, ok, err, some-injective, arith, atoi_checked, lookup,
}
use home_work_ad_processor_g.Ad.{is_valid}
use home_work_ad_processor_g.Command.{
  Command, CommandType, new_command, get_parameter, get_string_parameter, get_int_parameter,
  get_priority_parameter,
}
use home_work_ad_processor_g.Command.Executor.{read_intent, validate_command, can_execute}
use home_work_ad_processor_g.Command.Patterns.{find_submatch, is_match}
use home_work_ad_processor_g.Command.Parser.{
  Unicode, ParseError, trim_space, to_lower, priority_from, positive_from, family_command,
  family_groups, age_command, age_groups, number_command, one_number,
  parse_priority_change_by_game_family, parse_priority_change_by_age, parse_show_next_ads,
  parse_queue_distribution, parse_waiting_ads, parse_enable_starvation_mode,
  parse_set_max_wait_time, family_pattern, age_pattern, next_pattern, waiting_pattern,
  max_wait_pattern, distribution_pattern, starvation_pattern, parse_clean, parse,
}

-- A command that is validated and that the executor has a case for.
pub record Ready (c : Command) : Type 0 where
  pub validates : validate_command c ≡ ok tt
  pub executable : can_execute c ≡ true

priority_from_valid : (o : Option ℤ) (p : ℤ) → priority_from o ≡ some p → is_valid p ≡ true
unfolding is_valid
priority_from_valid none p h = absurd cc
priority_from_valid (some q) p h = go (ltb_ℤ q (pos 1)) (ltb_ℤ (pos 5) q) refl refl h
  where
    go :
        (b c : Bool)
        → ltb_ℤ q (pos 1) ≡ b
        → ltb_ℤ (pos 5) q ≡ c
        → (if b || c then none else some q) ≡ some p
        → is_valid p ≡ true
    go true c e f k = absurd cc
    go false true e f k = absurd cc
    go false false e f k = subst (λ x. is_valid x ≡ true) (some-injective k) (ground arith)

positive_from_lem : (o : Option ℤ) (n : ℤ) → positive_from o ≡ some n → leb_ℤ n (pos 0) ≡ false
positive_from_lem none n h = absurd cc
positive_from_lem (some k) n h = go (leb_ℤ k (pos 0)) refl h
  where
    go :
        (b : Bool)
        → leb_ℤ k (pos 0) ≡ b
        → (if b then none else some k) ≡ some n
        → leb_ℤ n (pos 0) ≡ false
    go true e x = absurd cc
    go false e x = subst (λ z. leb_ℤ z (pos 0) ≡ false) (some-injective x) e

module _ (unicode : Unicode) (id : String) (now : ℤ) where
  -- A result that is no command, or a command that is ready.
  abbrev IfParsed : Result ParseError Command → Type 0
  IfParsed (ok c) = Ready c
  IfParsed (err e) = Unit

  family-Ready :
      (clean family : String) (o : Option ℤ)
      → ((p : ℤ) → o ≡ some p → is_valid p ≡ true)
      → IfParsed (family_command unicode id now clean family o)
  unfolding new_command validate_command can_execute read_intent get_priority_parameter
      get_string_parameter get_int_parameter get_parameter lookup
  family-Ready clean family none v = tt
  family-Ready clean family (some p) v =
      let fits = v p refl in record { validates = rw fits refl; executable = refl }

  family_groups-Ready :
      (clean : String) (o : Option (List String)) → IfParsed (family_groups unicode id now clean o)
  family_groups-Ready clean none = tt
  family_groups-Ready clean (some []) = tt
  family_groups-Ready clean (some (p ∷ [])) = tt
  family_groups-Ready clean (some (p ∷ family ∷ [])) =
      family-Ready clean family (priority_from (atoi_checked p))
        (priority_from_valid (atoi_checked p))
  family_groups-Ready clean (some (p ∷ family ∷ x ∷ l)) = tt

  age-Ready :
      (clean : String) (o n : Option ℤ)
      → ((p : ℤ) → o ≡ some p → is_valid p ≡ true)
      → IfParsed (age_command unicode id now clean o n)
  unfolding new_command validate_command can_execute read_intent get_priority_parameter
      get_string_parameter get_int_parameter get_parameter lookup
  age-Ready clean none n v = tt
  age-Ready clean (some p) none v = tt
  age-Ready clean (some p) (some n) v =
      let fits = v p refl in record { validates = rw fits refl; executable = refl }

  age_groups-Ready :
      (clean : String) (o : Option (List String)) → IfParsed (age_groups unicode id now clean o)
  age_groups-Ready clean none = tt
  age_groups-Ready clean (some []) = tt
  age_groups-Ready clean (some (p ∷ [])) = tt
  age_groups-Ready clean (some (p ∷ n ∷ [])) =
      age-Ready clean (priority_from (atoi_checked p)) (atoi_checked n)
        (priority_from_valid (atoi_checked p))
  age_groups-Ready clean (some (p ∷ n ∷ x ∷ l)) = tt

  one_number-Ready :
      (found : String → Result ParseError Command) (o : Option (List String))
      → ((n : String) → IfParsed (found n))
      → IfParsed (one_number unicode id now found o)
  one_number-Ready found none k = tt
  one_number-Ready found (some []) k = tt
  one_number-Ready found (some (n ∷ [])) k = k n
  one_number-Ready found (some (n ∷ x ∷ l)) k = tt

  next-Ready :
      (clean : String) (o : Option ℤ) (bad : ParseError)
      → ((n : ℤ) → o ≡ some n → leb_ℤ n (pos 0) ≡ false)
      → IfParsed (
          number_command unicode id now clean CommandType.status_query "show_next_ads" "count" bad
            o)
  unfolding new_command validate_command can_execute read_intent get_priority_parameter
      get_string_parameter get_int_parameter get_parameter lookup
  next-Ready clean none bad v = tt
  next-Ready clean (some n) bad v =
      let fits = v n refl in record { validates = rw fits refl; executable = refl }

  waiting-Ready :
      (clean : String) (o : Option ℤ) (bad : ParseError)
      → IfParsed (
          number_command unicode id now clean CommandType.status_query "waiting_ads" "minutes" bad
            o)
  unfolding new_command validate_command can_execute read_intent get_priority_parameter
      get_string_parameter get_int_parameter get_parameter lookup
  waiting-Ready clean none bad = tt
  waiting-Ready clean (some n) bad = record { validates = refl; executable = refl }

  max_wait-Ready :
      (clean : String) (o : Option ℤ) (bad : ParseError)
      → IfParsed (
          number_command unicode id now clean CommandType.system_configuration "set_max_wait_time"
            "seconds" bad o)
  unfolding new_command validate_command can_execute read_intent get_priority_parameter
      get_string_parameter get_int_parameter get_parameter lookup
  max_wait-Ready clean none bad = tt
  max_wait-Ready clean (some n) bad = record { validates = refl; executable = refl }

  plain-Ready :
      (clean : String)
      → IfParsed (parse_queue_distribution unicode id now clean)
        × IfParsed (parse_enable_starvation_mode unicode id now clean)
  unfolding parse_queue_distribution parse_enable_starvation_mode new_command validate_command
      can_execute read_intent
  plain-Ready clean = (
    record { validates = refl; executable = refl },
    record { validates = refl; executable = refl },
  )

  choose :
      (b : Bool) (x y : Result ParseError Command)
      → IfParsed x
      → IfParsed y
      → IfParsed (if b then x else y)
  choose true x y p q = p
  choose false x y p q = q

  parse_clean-Ready : (clean : String) → IfParsed (parse_clean unicode id now clean)
  unfolding parse_clean parse_priority_change_by_game_family parse_priority_change_by_age
      parse_show_next_ads parse_waiting_ads parse_set_max_wait_time
  parse_clean-Ready clean =
      choose (is_match family_pattern clean) _ _
        (family_groups-Ready clean (find_submatch family_pattern clean))
        (choose (is_match age_pattern clean) _ _
          (age_groups-Ready clean (find_submatch age_pattern clean))
          (choose (is_match next_pattern clean) _ _
            (one_number-Ready _ (find_submatch next_pattern clean) (λ n.
              next-Ready clean (positive_from (atoi_checked n)) _
                (positive_from_lem (atoi_checked n))))
            (choose (is_match distribution_pattern clean) _ _ (plain-Ready clean).0 (
              choose (is_match waiting_pattern clean) _ _
                (one_number-Ready _ (find_submatch waiting_pattern clean)
                  (λ n. waiting-Ready clean (atoi_checked n) _))
                (choose (is_match starvation_pattern clean) _ _ (plain-Ready clean).1 (
                  choose (is_match max_wait_pattern clean) _ _
                    (one_number-Ready _ (find_submatch max_wait_pattern clean)
                      (λ n. max_wait-Ready clean (atoi_checked n) _))
                    tt))))))

  -- Every command that `Parse` makes of a text passes the validation, and the executor accepts its
  -- intent.
  pub parse-Ready : (input : String) (c : Command) → parse unicode id now input ≡ ok c → Ready c
  unfolding parse
  parse-Ready input c h =
      subst IfParsed h
        (parse_clean-Ready (trim_space unicode.is_space (to_lower unicode.lower input)))
