-- ===== src/Examples/Services.antt =====
-- The theorems on the services at work.
use home_work_ad_processor_g.Prelude.{refl, none, some, [], ◌∷◌, String, pos, Result, ok, lookup}
use home_work_ad_processor_g.Ad.{Ad, AdStatus, is_valid}
use home_work_ad_processor_g.Ad
use home_work_ad_processor_g.Redis.Memory.{memory, memory_laws}
use home_work_ad_processor_g.Repository.Memory.{
  AdMap, Keyed, find_by_id, memory_ads, memory_ads_laws,
}
use home_work_ad_processor_g.Service.{CreateAdRequest, create_ad}
use home_work_ad_processor_g.Service.Creation.{Created, create_ad-Created}
use home_work_ad_processor_g.Service.Repriority.{Repriority}
use home_work_ad_processor_g.Command.{Command, CommandType, new_command}
use home_work_ad_processor_g.Command.CommandService.{Clock, execute_command}
use home_work_ad_processor_g.Command.Execution.{Ended, execute_command-Ended}
use home_work_ad_processor_g.Examples.Data.{
  any_id, two_shards, two_queued, empty_queue, empty_queue-Up, puzzle,
}

abbrev request : CreateAdRequest
request = record {
  title = "Puzzle";
  game_family = "Casual";
  target_audience = "18-34" ∷ [];
  priority = some (pos 2);
  max_wait_time = none;
}

abbrev asked : Ad
asked = record puzzle { max_wait_time = pos 300_000_000_000 }

no_ads-Keyed : Keyed []
unfolding lookup
no_ads-Keyed id a e = cc

create_ad-Created_example :
    Created
      (memory_ads (pos 0))
      (memory_ads_laws (pos 0))
      memory
      memory_laws
      any_id
      two_shards
      asked
      empty_queue
      (pos 100)
      (create_ad
        (memory_ads (pos 0))
        memory
        any_id
        two_shards
        ([], empty_queue)
        request
        "ad-1"
        (pos 0)
        (pos 100)
        (pos 1))
unfolding Ad.create_ad find_by_id lookup is_valid
create_ad-Created_example =
    create_ad-Created (memory_ads (pos 0)) (memory_ads_laws (pos 0)) memory memory_laws any_id
      two_shards [] empty_queue request "ad-1" (pos 0) (pos 100) (pos 1) asked refl no_ads-Keyed tt
      refl empty_queue-Up

abbrev stored : AdMap
stored = ("ad-1", puzzle) ∷ []

abbrev question : Command
question =
    new_command "c-1" (pos 10) "what is the current queue distribution" CommandType.analytics
      "queue_distribution" []

abbrev clock : Clock (memory_ads (pos 0)) memory any_id two_shards
clock = record { now = pos 20; unix = pos 0; done = pos 21; failed = pos 22 }

abbrev reads : String → Result String Command
reads text = ok question

execute_command-Ended_example : Ended (memory_ads (pos 0)) memory any_id two_shards question [] (
    execute_command
      (memory_ads (pos 0))
      memory
      any_id
      two_shards
      reads
      ((stored, two_queued), [])
      "what is the current queue distribution"
      clock)
execute_command-Ended_example =
    execute_command-Ended (memory_ads (pos 0)) memory any_id two_shards reads
      "what is the current queue distribution" question (stored, two_queued) [] clock refl
