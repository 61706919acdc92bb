-- ===== src/Handlers/Bodies.antt =====
-- internal/interfaces/http/handlers/: what the bodies of the lists and of the statistics hold.
use home_work_ad_processor_g.Prelude.{
  leb_ℤ, ltb_ℤ, true, false, ◌||◌, if◌then◌else◌, some-injective, atoi_checked, ℕ, ◌≤ℤ◌, ◌⊎◌, inl,
  inr, ◌+◌, ◌≤◌, ◌<◌, ◌≡◌, refl, sym, ap, ◌∙◌, subst, Bool, Option, none, some, List, [], ◌∷◌,
  String, length, take, length-take-le, All, ℤ, pos, pos_part, ◌-ℤ◌, Option-cases, Result, ok, err,
  arith, ok-injective,
}
use home_work_ad_processor_g.Ad.{parse_ad_id}
use home_work_ad_processor_g.Queue.{QueueItem}
use home_work_ad_processor_g.Redis.{Redis, Laws}
use home_work_ad_processor_g.Redis.Sets.{Z}
use home_work_ad_processor_g.RedisQueue.{Manager, QueueError}
use home_work_ad_processor_g.RedisQueue.Batch.{collect, queue_items, next_items, get_next}
use home_work_ad_processor_g.RedisQueue.Exchange.{exchange_sort}
use home_work_ad_processor_g.RedisQueue.Sizes.{get_size, get_size_by_priority}
use home_work_ad_processor_g.RedisQueue.SizeLaws.{InLevels, sum_sizes, get_size-sum}
use home_work_ad_processor_g.Repository.{Repository}
use home_work_ad_processor_g.Service.{State, get_queue_distribution, get_next_ads}
use home_work_ad_processor_g.Command.CommandService.{CommandMap}
use home_work_ad_processor_g.Command.Recent.{Recent, find_recent, find_recent-Recent}
use home_work_ad_processor_g.Handlers.{
  Response, in_range, default_query, replied, problem, status_ok, status_bad_request, bounded_query,
}
use home_work_ad_processor_g.Handlers.Ads.{
  QueueStats, NextAds, sum_counts, get_queue_stats_handler, next_found, next_of,
  get_next_ads_handler,
}
use home_work_ad_processor_g.Handlers.Commands.{
  RecentCommands, recent_of, get_recent_commands_handler,
}
use home_work_ad_processor_g.Handlers.Outcomes.{bounded_query-bounds, bounded_range}

-- The answer about the recent commands for a limit of the query: 400, or the commands that the
-- repository finds for that limit, at most a hundred, with their number.
pub record RecentAnswer (commands : CommandMap) (limit : ℤ) (body : RecentCommands) : Type 0 where
  pub recent : Recent commands limit body.commands
  pub counted : body.count ≡ length body.commands
  pub few : body.count ≤ 100

recent_few :
    (commands : CommandMap) (limit : ℤ)
    → (pos 1 ≤ℤ limit) × (limit ≤ℤ pos 100)
    → length (find_recent commands limit) ≤ 100
recent_few commands limit (low, high) =
    let size = (find_recent-Recent commands limit).size in ground arith

-- The text that the handler reads as a number: the one of the query, or "10".
abbrev pub limit_text : Option String → String
limit_text none = "10"
limit_text (some text) = text

in_range_none :
    (o : Option ℤ) (n : ℤ) → in_range o ≡ none → o ≡ some n → ¬ ((pos 1 ≤ℤ n) × (n ≤ℤ pos 100))
in_range_none none n h e k = absurd cc
in_range_none (some z) n h e (low, high) = go (leb_ℤ z (pos 0)) (ltb_ℤ (pos 100) z) refl refl h
  where
    same : z ≡ n
    same = some-injective e

    go :
        (b c : Bool)
        → leb_ℤ z (pos 0) ≡ b
        → ltb_ℤ (pos 100) z ≡ c
        → (if b || c then none else some z) ≡ none
        → ⊥
    go true c f g x =
        let low_z : pos 1 ≤ℤ z = subst (λ y. pos 1 ≤ℤ y) (sym same) low in ground arith
    go false true f g x =
        let high_z : z ≤ℤ pos 100 = subst (λ y. y ≤ℤ pos 100) (sym same) high in ground arith
    go false false f g x = cc

in_range_some : (o : Option ℤ) (n : ℤ) → in_range o ≡ some n → o ≡ some n
in_range_some none n h = absurd cc
in_range_some (some z) n h = go (leb_ℤ z (pos 0)) (ltb_ℤ (pos 100) z) h
  where
    go : (b c : Bool) → (if b || c then none else some z) ≡ some n → some z ≡ some n
    go true c x = absurd cc
    go false true x = absurd cc
    go false false x = x

-- `GET /agent/commands/recent`: if the limit of the query, 10 when there is none, is read as a number
-- from 1 to 100, the answer is 200 with the most recent commands, in order, as many as the limit
-- allows; in every other case it is 400.
pub get_recent_commands_handler-Answer :
    (commands : CommandMap) (text : Option String)
    → ((get_recent_commands_handler commands text
          ≡ problem status_bad_request "Limit must be a positive integer between 1 and 100")
        × ((n : ℤ) → atoi_checked (limit_text text) ≡ some n → ¬ ((pos 1 ≤ℤ n) × (n ≤ℤ pos 100))))
      ⊎ ((limit : ℤ) × (body : RecentCommands) × (atoi_checked (limit_text text) ≡ some limit)
          × (pos 1 ≤ℤ limit)
          × (limit ≤ℤ pos 100)
          × (get_recent_commands_handler commands text ≡ replied status_ok body)
          × RecentAnswer commands limit body)
unfolding get_recent_commands_handler bounded_query
get_recent_commands_handler-Answer commands text =
    subst (λ q. Answered (recent_of commands (in_range (atoi_checked q)))) (same_text text)
      (go (in_range (atoi_checked (limit_text text))) refl)
  where
    Answered : Response RecentCommands → Type 0
    Answered out =
        ((out ≡ problem status_bad_request "Limit must be a positive integer between 1 and 100")
          × ((n : ℤ) → atoi_checked (limit_text text) ≡ some n → ¬ ((pos 1 ≤ℤ n) × (n ≤ℤ pos 100))))
        ⊎ ((limit : ℤ) × (body : RecentCommands) × (atoi_checked (limit_text text) ≡ some limit)
            × (pos 1 ≤ℤ limit)
            × (limit ≤ℤ pos 100)
            × (out ≡ replied status_ok body)
            × RecentAnswer commands limit body)

    same_text : (o : Option String) → limit_text o ≡ default_query o "10"
    same_text none = refl
    same_text (some t) = refl

    go :
        (o : Option ℤ)
        → in_range (atoi_checked (limit_text text)) ≡ o
        → Answered (recent_of commands o)
    go none e = inl (refl, λ n f. in_range_none (atoi_checked (limit_text text)) n e f)
    go (some limit) e =
        let found = find_recent commands limit in
        let (low, high) = bounded_range (atoi_checked (limit_text text)) limit e in
        inr (
          limit,
          record { commands = found; count = length found },
          in_range_some (atoi_checked (limit_text text)) limit e,
          low,
          high,
          refl,
          record {
            recent = find_recent-Recent commands limit;
            counted = refl;
            few = recent_few commands limit (low, high);
          },
        )

module _ (repo : Repository) (r : Redis) (uuid_ok : String → Bool) (m : Manager) where
  queue_items-length : (now : ℤ) (zs : List Z) → length (queue_items r uuid_ok now zs) ≤ length zs
  unfolding queue_items
  queue_items-length now [] = omega arith
  queue_items-length now (z ∷ zs) =
      let rest = queue_items-length now zs in
      elim (Option-cases (parse_ad_id uuid_ok z.member)) [
        | inl e ↦ rw (queue_items, e) (omega (arith, rest))
        | inr (id, e) ↦ rw (queue_items, e) (omega (arith, rest))
      ]

  get_next-length :
      (q : r.Store) (count now : ℤ) (items : List QueueItem)
      → get_next r uuid_ok m q count now ≡ ok items
      → length items ≤ pos_part count
  unfolding get_next
  get_next-length q count now items h =
      go (collect r uuid_ok q (count -ℤ pos 1) m.shard_count 0 [] []) h
    where
      go :
          (o : Result QueueError (List Z × List (String × ℕ)))
          → next_items r uuid_ok count now o ≡ ok items
          → length items ≤ pos_part count
      go (err e) k = absurd cc
      go (ok (zs, mapping)) k =
          let e = ok-injective k in
          subst (λ l. length l ≤ pos_part count) e
            (omega (
              arith,
              queue_items-length now (take (pos_part count) (exchange_sort zs)),
              length-take-le (pos_part count) (exchange_sort zs),
            ))

  sum_counts_lem : (l : List (ℕ × ℕ)) → sum_counts l ≡ sum_sizes l
  unfolding sum_counts
  sum_counts_lem [] = refl
  sum_counts_lem ((p, n) ∷ rest) = ap (λ k. n + k) (sum_counts_lem rest)

  -- `GET /ads/queue/next`: when it is answered with a list, the count in the query was a number from 1
  -- to 100, the list holds at most so many ads, and the body reports their number.
  get_next_ads_handler-few :
      (state : State repo r uuid_ok m) (text : Option String) (now : ℤ) (code : ℕ) (body : NextAds)
      → get_next_ads_handler repo r uuid_ok m state text now ≡ replied code body
      → (count : ℤ) × (bounded_query text "5" ≡ some count)
        × (count ≤ℤ pos 100)
        × (length body.next_ads ≤ pos_part count)
        × (body.count ≡ length body.next_ads)
        × (code ≡ status_ok)
  unfolding get_next_ads_handler get_next_ads
  get_next_ads_handler-few (s, q) text now code body h = go (bounded_query text "5") refl h
    where
      answered :
          (count : ℤ) (o : Result QueueError (List QueueItem))
          → get_next r uuid_ok m q count now ≡ o
          → next_found repo r uuid_ok m o ≡ replied code body
          → (length body.next_ads ≤ pos_part count)
            × (body.count ≡ length body.next_ads)
            × (code ≡ status_ok)
      answered count (err e) f k = absurd cc
      answered count (ok items) f k =
          let same : record { next_ads = items; count = length items } ≡ body = cc in
          let few = get_next-length q count now items f in
          (
            subst (λ b. length b.next_ads ≤ pos_part count) same few,
            subst (λ b. b.count ≡ length b.next_ads) same refl,
            cc,
          )

      go :
          (o : Option ℤ)
          → bounded_query text "5" ≡ o
          → next_of repo r uuid_ok m (s, q) now o ≡ replied code body
          → (count : ℤ) × (o ≡ some count)
            × (count ≤ℤ pos 100)
            × (length body.next_ads ≤ pos_part count)
            × (body.count ≡ length body.next_ads)
            × (code ≡ status_ok)
      go none e k = absurd cc
      go (some count) e k =
          let (few, counted, is_ok) = answered count (get_next r uuid_ok m q count now) refl k in
          (count, refl, (bounded_query-bounds text "5" count e).1, few, counted, is_ok)

  -- `GET /ads/queue/stats` on a server that is up, with scores of priorities from 1 to 5 and arrivals up
  -- to 2286: the total in the body is the size of the queue.
  get_queue_stats_handler-total :
      (laws : Laws r) (s : repo.Store) (q : r.Store)
      → laws.Up q
      → ((j : ℕ) → j < m.shard_count → All InLevels (laws.zset q j))
      → (body : QueueStats) × (get_queue_stats_handler repo r uuid_ok m (s, q)
          ≡ replied status_ok body)
        × (get_size r m q ≡ ok body.total)
  unfolding get_queue_stats_handler get_queue_distribution
  get_queue_stats_handler-total laws s q up h =
      let sizes = get_size_by_priority r m q in
      (
        record { distribution = sizes; total = sum_counts sizes },
        refl,
        (get_size-sum r laws uuid_ok m q up h).0 ∙ ap ok (sym (sum_counts_lem sizes)),
      )
