-- ===== src/Command/Sentences.antt =====
-- internal/infrastructure/external/mock_command_parser.go: `Parse` makes of each sentence the command for it.
use home_work_ad_processor_g.Prelude.{
  ℕ, ◌≤◌, ◌≡◌, refl, ap, ◌∙◌, some, String, ℤ, pos, ok, arith, atoi_checked, write_nat, max_int,
  atoi_checked-write_nat,
}
use home_work_ad_processor_g.Command.Parser.{
  Unicode, to_lower, trim_space, priority_from, positive_from, parse_priority_change_by_game_family,
  parse_priority_change_by_age, parse_show_next_ads, parse_queue_distribution, parse_waiting_ads,
  parse_enable_starvation_mode, parse_set_max_wait_time, parse_clean, parse,
}
use home_work_ad_processor_g.Command.Passing.{age_not, next_not, waiting_not, max_wait_not}
use home_work_ad_processor_g.Command.Matching.{
  age_found, next_found, waiting_found, max_wait_found, family_found, miss, hit,
}
use home_work_ad_processor_g.Command.Phrases.{
  Wish, family_priority, age_priority, next_ads, distribution, waiting, starvation_mode, max_wait,
  sentence, lower_case, command_for, Sensible,
}

small_fits : (p : ℕ) → p ≤ 5 → p ≤ max_int
small_fits p h = omega (arith, h)

priority_read :
    (p : ℕ) → 1 ≤ p → p ≤ 5 → priority_from (atoi_checked (write_nat p "")) ≡ some (pos p)
priority_read p low high =
    ap priority_from (atoi_checked-write_nat p (small_fits p high)) ∙ in_range
  where
    in_range : priority_from (some (pos p)) ≡ some (pos p)
    in_range = ground (arith, low, high)

count_read :
    (n : ℕ) → 1 ≤ n → n ≤ max_int → positive_from (atoi_checked (write_nat n "")) ≡ some (pos n)
count_read n low high = ap positive_from (atoi_checked-write_nat n high) ∙ is_positive
  where
    is_positive : positive_from (some (pos n)) ≡ some (pos n)
    is_positive = ground (arith, low)

module _ (unicode : Unicode) (id : String) (now : ℤ) where
  parse_sentence :
      (w : Wish)
      → Sensible unicode w
      → parse_clean unicode id now (sentence w) ≡ ok (command_for id now (sentence w) w)
  unfolding parse_clean parse_priority_change_by_game_family parse_priority_change_by_age
      parse_show_next_ads parse_waiting_ads parse_set_max_wait_time command_for sentence
      parse_queue_distribution parse_enable_starvation_mode
  parse_sentence (family_priority p family) (low, high, nonempty, line, trimmed) =
      let found = family_found p family nonempty line in
      rw (hit _ _ _ found, found, priority_read p low high, trimmed) refl
  parse_sentence (age_priority p n) (low, high, fits) =
      let found = age_found p n in
      rw
        (
          miss _ _ (age_not p n),
          hit _ _ _ found,
          found,
          priority_read p low high,
          atoi_checked-write_nat n fits,
        )
        refl
  parse_sentence (next_ads n) (low, fits) =
      let (family, age) = next_not n in
      let found = next_found n in
      rw (miss _ _ family, miss _ _ age, hit _ _ _ found, found, count_read n low fits) refl
  parse_sentence distribution h = refl
  parse_sentence (waiting n) fits =
      let (family, age, next, sizes) = waiting_not n in
      let found = waiting_found n in
      rw
        (
          miss _ _ family,
          miss _ _ age,
          miss _ _ next,
          miss _ _ sizes,
          hit _ _ _ found,
          found,
          atoi_checked-write_nat n fits,
        )
        refl
  parse_sentence starvation_mode h = refl
  parse_sentence (max_wait n) fits =
      let (family, age, next, sizes, waits, starves) = max_wait_not n in
      let found = max_wait_found n in
      rw
        (
          miss _ _ family,
          miss _ _ age,
          miss _ _ next,
          miss _ _ sizes,
          miss _ _ waits,
          miss _ _ starves,
          hit _ _ _ found,
          found,
          atoi_checked-write_nat n fits,
        )
        refl

  -- A text that, in lower case and without the space around it, is one of the seven sentences, with
  -- values that are sensible in lower case, becomes the command for it, with its numbers, but with the
  -- game family and the text itself in lower case, whatever case they were typed in.
  pub parse-sentence :
      (input : String) (w : Wish)
      → Sensible unicode (lower_case unicode w)
      → trim_space unicode.is_space (to_lower unicode.lower input) ≡ sentence (lower_case unicode w)
      → (let lowered = lower_case unicode w in
          parse unicode id now input ≡ ok (command_for id now (sentence lowered) lowered))
  unfolding parse
  parse-sentence input w sensible h =
      ap (parse_clean unicode id now) h ∙ parse_sentence (lower_case unicode w) sensible
