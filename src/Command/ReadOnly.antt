-- ===== src/Command/ReadOnly.antt =====
-- internal/infrastructure/external/mock_command_executor.go, `Execute`: which commands change nothing, and
-- that a validated priority is a valid one.
use home_work_ad_processor_g.Prelude.{
  ◌≡◌, sym, subst, some-injective, Bool-cases, inl, inr, if◌then◌else◌, refl, Bool, true, String, ℤ,
  Result, ok, err, Option, none, some,
}
use home_work_ad_processor_g.Ad.{is_valid}
use home_work_ad_processor_g.Redis.{Redis}
use home_work_ad_processor_g.RedisQueue.{Manager}
use home_work_ad_processor_g.Repository.{Repository}
use home_work_ad_processor_g.Service.{State}
use home_work_ad_processor_g.Command.{
  Command, CommandError, CommandResult, get_priority_parameter, get_int_parameter,
}
use home_work_ad_processor_g.Command.Executor.{
  needs, Intent, change_priority_by_game_family, change_priority_by_age, show_next_ads,
  queue_distribution, list_waiting_ads, enable_starvation_mode, set_max_wait_time, unsupported,
  read_intent, validate_command, validate_intent, execute, execute_intent, finish, int_or_zero,
}

-- The intents that change priorities.
abbrev pub Changes : Intent → Type 0
Changes change_priority_by_game_family = Unit
Changes change_priority_by_age = Unit
Changes _ = ⊥

module _ (repo : Repository) (r : Redis) (uuid_ok : String → Bool) (m : Manager) where
  finish-state {ℓ} :
      {A : Type ℓ} (c : Command) (done : ℤ) (state : State repo r uuid_ok m)
      (o : Result CommandError A) (result : A → CommandResult)
      → (finish repo r uuid_ok m c done state o result).0 ≡ state
  finish-state c done state (ok a) result = refl
  finish-state c done state (err e) result = refl

  intent-state :
      (state : State repo r uuid_ok m) (c : Command) (now unix done : ℤ) (i : Intent)
      → (Changes i → ⊥)
      → (execute_intent repo r uuid_ok m state c now unix done i).0 ≡ state
  intent-state state c now unix done change_priority_by_game_family h = absurd (h tt)
  intent-state state c now unix done change_priority_by_age h = absurd (h tt)
  intent-state state c now unix done show_next_ads h = finish-state c done state _ _
  intent-state state c now unix done queue_distribution h = refl
  intent-state state c now unix done list_waiting_ads h = finish-state c done state _ _
  intent-state state c now unix done enable_starvation_mode h = refl
  intent-state state c now unix done set_max_wait_time h = refl
  intent-state state c now unix done unsupported h = refl

  -- Executing a command whose intent is not one of the two changes of priority leaves the ads and the
  -- queue as they were; the commands that switch the starvation mode or set the maximal wait are
  -- among these.
  execute_reads :
      (state : State repo r uuid_ok m) (c : Command) (now unix done : ℤ)
      → (Changes (read_intent c.intent) → ⊥)
      → (execute repo r uuid_ok m state c now unix done).0 ≡ state
  unfolding execute
  execute_reads state c now unix done h =
      intent-state state c now unix done (read_intent c.intent) h

needs_lem {ℓ} :
    {A : Type ℓ} (key : String) (o : Option A) (rest : Result CommandError (Unit {0}))
    → needs key o rest ≡ ok tt
    → (a : A) × (o ≡ some a)
needs_lem key none rest h = absurd cc
needs_lem key (some a) rest h = (a, refl)

get_priority_parameter-is_valid :
    (c : Command) (key : String) (i : ℤ) → get_priority_parameter c key ≡ some i → is_valid i ≡ true
unfolding get_priority_parameter
get_priority_parameter-is_valid c key i h = go (get_int_parameter c key) h
  where
    go :
        (o : Option ℤ)
        → (elim o as (λ x. Option ℤ) [ none ↦ none | some j ↦ if is_valid j then some j else none ])
          ≡ some i
        → is_valid i ≡ true
    go none e = absurd cc
    go (some j) e = elim (Bool-cases (is_valid j)) [
      | inl v ↦ subst (λ k. is_valid k ≡ true) (some-injective (rw v at e)) v
      | inr v ↦ absurd (let no_value = (rw v at e) in cc)
    ]

-- A command that validates and changes priorities has a valid one among its parameters, which is the
-- one that the executor passes on.
validate_command-is_valid :
    (c : Command)
    → validate_command c ≡ ok tt
    → Changes (read_intent c.intent)
    → is_valid (int_or_zero (get_priority_parameter c "priority")) ≡ true
unfolding validate_command
validate_command-is_valid c h changes = go (read_intent c.intent) h changes
  where
    found :
        (rest : Result CommandError (Unit {0}))
        → needs "priority" (get_priority_parameter c "priority") rest ≡ ok tt
        → is_valid (int_or_zero (get_priority_parameter c "priority")) ≡ true
    found rest e =
        let (i, value) = needs_lem "priority" (get_priority_parameter c "priority") rest e in
        subst (λ (o : Option ℤ). is_valid (int_or_zero o) ≡ true) (sym value)
          (get_priority_parameter-is_valid c "priority" i value)

    go :
        (i : Intent)
        → validate_intent c i ≡ ok tt
        → Changes i
        → is_valid (int_or_zero (get_priority_parameter c "priority")) ≡ true
    go change_priority_by_game_family e k = found _ e
    go change_priority_by_age e k = found _ e
    go show_next_ads e k = absurd k
    go queue_distribution e k = absurd k
    go list_waiting_ads e k = absurd k
    go enable_starvation_mode e k = absurd k
    go set_max_wait_time e k = absurd k
    go unsupported e k = absurd k
