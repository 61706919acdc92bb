-- ===== src/Examples/Handling.antt =====
-- The theorems on the HTTP handlers at work, with the stores in memory.
use home_work_ad_processor_g.Prelude.{
  atoi_checked, ◌≤ℤ◌, ◌⊎◌, ◌≡◌, ◌≢◌, refl, subst, some-injective, ◌⊎◌, Bool, true, false, not, ◌&&◌,
  str_eq, Option, none, some, List, [], ◌∷◌, String, ℤ, pos, ok, lookup,
}
use home_work_ad_processor_g.Ad.{Ad, is_valid}
use home_work_ad_processor_g.Redis.Memory.{memory, memory_laws}
use home_work_ad_processor_g.Repository.Memory.{memory_ads, memory_ads_laws, find_by_id}
use home_work_ad_processor_g.Service.{ServiceError, CreateAdRequest, CreateAdResponse, State}
use home_work_ad_processor_g.Service.Creation.{Created}
use home_work_ad_processor_g.Command.{CommandType, new_command}
use home_work_ad_processor_g.Command.CommandService.{CommandMap}
use home_work_ad_processor_g.Handlers.{
  replied, problem, status_created, status_ok, status_bad_request, status_not_found, status_code,
}
use home_work_ad_processor_g.Handlers.Ads.{create_ad_handler, get_ad_status_handler}
use home_work_ad_processor_g.Handlers.Commands.{
  RecentCommands, get_command_status_handler, get_recent_commands_handler,
}
use home_work_ad_processor_g.Handlers.Creating.{Tagged, create_ad_handler-Created}
use home_work_ad_processor_g.Handlers.Outcomes.{handlers_never_not_found}
use home_work_ad_processor_g.Handlers.Bodies.{
  RecentAnswer, limit_text, get_recent_commands_handler-Answer,
}
use home_work_ad_processor_g.Examples.Data.{
  any_id, two_shards, empty_queue, empty_queue-Up, two_queued,
}

abbrev given : List String → Bool
given [] = false
given (x ∷ l) = true

abbrev fits : Option ℤ → Bool
unfolding is_valid
fits none = true
fits (some p) = is_valid p

-- A validator for the tags of `CreateAdRequest`.
abbrev valid : CreateAdRequest → Bool
valid x =
    given x.target_audience
    && (fits x.priority && (not (str_eq x.title "") && not (str_eq x.game_family "")))

both : (a b : Bool) → a && b ≡ true → (a ≡ true) × (b ≡ true)
both true true h = (refl, refl)
both true false h = absurd cc
both false b h = absurd cc

not_empty : (s : String) → not (str_eq s "") ≡ true → s ≢ ""
not_empty s h e =
    let refused : not (str_eq "" "") ≡ true = subst (λ t. not (str_eq t "") ≡ true) e h in absurd cc

given_some : (l : List String) → given l ≡ true → l ≢ []
given_some [] h = absurd cc
given_some (x ∷ l) h = λ e. cc

fits_valid : (o : Option ℤ) → fits o ≡ true → (p : ℤ) → o ≡ some p → is_valid p ≡ true
unfolding is_valid fits
fits_valid none h p e = absurd cc
fits_valid (some q) h p e = subst (λ x. is_valid x ≡ true) (some-injective e) h

valid-Tagged : (x : CreateAdRequest) → valid x ≡ true → Tagged x
unfolding fits
valid-Tagged x h =
    let (audience, rest) = both _ _ h in
    let (priority, texts) = both _ _ rest in
    let (title, family) = both _ _ texts in
    record {
      title_given = not_empty x.title title;
      game_family_given = not_empty x.game_family family;
      audience_given = given_some x.target_audience audience;
      priority_fits = fits_valid x.priority priority;
    }

abbrev request : CreateAdRequest
request = record {
  title = "Puzzle";
  game_family = "Casual";
  target_audience = "18-34" ∷ [];
  priority = some (pos 2);
  max_wait_time = none;
}

create_ad_handler-Created_example :
    (valid request ≡ true
      → (a : Ad) × (response : CreateAdResponse) × (state : State
          (memory_ads (pos 0))
          memory
          any_id
          two_shards)
        × (create_ad_handler
              (memory_ads (pos 0))
              memory
              any_id
              two_shards
              valid
              ([], empty_queue)
              (some request)
              "ad-1"
              (pos 0)
              (pos 100)
              (pos 1)
            ≡ (state, replied status_created response))
        × Created
            (memory_ads (pos 0))
            (memory_ads_laws (pos 0))
            memory
            memory_laws
            any_id
            two_shards
            a
            empty_queue
            (pos 100)
            (state, ok response))
    × (valid request ≡ false
        → create_ad_handler
            (memory_ads (pos 0))
            memory
            any_id
            two_shards
            valid
            ([], empty_queue)
            (some request)
            "ad-1"
            (pos 0)
            (pos 100)
            (pos 1)
          ≡ (([], empty_queue), problem status_bad_request "Validation failed"))
unfolding find_by_id lookup
create_ad_handler-Created_example =
    create_ad_handler-Created (memory_ads (pos 0)) (memory_ads_laws (pos 0)) memory memory_laws
      any_id two_shards valid [] empty_queue request "ad-1" (pos 0) (pos 100) (pos 1) valid-Tagged
      (λ id a e. cc) (λ a e. tt) refl empty_queue-Up

abbrev details : ServiceError → String
details e = "ad not found"

handlers_never_not_found_example :
    (status_code (
        get_ad_status_handler
          (memory_ads (pos 0))
          memory
          any_id
          two_shards
          details
          ([], two_queued)
          "ad-7"
          (pos 3))
      ≢ status_not_found)
    × (status_code (get_command_status_handler "command not found" [] "c-7") ≢ status_not_found)
handlers_never_not_found_example =
    handlers_never_not_found (memory_ads (pos 0)) memory any_id two_shards details ([], two_queued)
      "ad-7" (pos 3) "command not found" [] "c-7"

abbrev commands : CommandMap
commands =
    ("c-1", new_command "c-1" (pos 10) "list" CommandType.analytics "queue_distribution" []) ∷ []

get_recent_commands_handler-Answer_example :
    ((get_recent_commands_handler commands (some "100")
        ≡ problem status_bad_request "Limit must be a positive integer between 1 and 100")
      × ((n : ℤ)
          → atoi_checked (limit_text (some "100")) ≡ some n
          → ¬ ((pos 1 ≤ℤ n) × (n ≤ℤ pos 100))))
    ⊎ ((limit : ℤ) × (body : RecentCommands) × (atoi_checked (limit_text (some "100")) ≡ some limit)
        × (pos 1 ≤ℤ limit)
        × (limit ≤ℤ pos 100)
        × (get_recent_commands_handler commands (some "100") ≡ replied status_ok body)
        × RecentAnswer commands limit body)
get_recent_commands_handler-Answer_example =
    get_recent_commands_handler-Answer commands (some "100")
