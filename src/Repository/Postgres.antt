-- ===== src/Repository/Postgres.antt =====
-- internal/infrastructure/persistence/postgres_ad_repository.go: the statements of the repository
-- as functions on the table `ads`, whose primary key is the ad's identifier. A transaction that is
-- rolled back leaves the table as it was.
pub mod RoundTrip
pub mod Stored
pub mod Contract
pub mod Updates
use home_work_ad_processor_g.Prelude.{
  ℕ, ◌+◌, Bool, true, not, ◌&&◌, Option, none, some, List, [], ◌∷◌, String, str_eq, ◌==◌,
  if◌then◌else◌, length, keep_if, ℤ, pos, ◌*ℤ◌, tdiv, ltb_ℤ, leb_ℤ, Result, ok, err, ◌>>=◌, lookup,
  insert, delete, values,
}
use home_work_ad_processor_g.Duration.{second, seconds}
use home_work_ad_processor_g.Ad.{Ad, AdStatus, is_queued, same_status, parse_ad_id, reconstruct_ad}
use home_work_ad_processor_g.Repository.{
  Repository, RepoError, not_found, lock_failed, unavailable, bad_row,
}

pub record AdRow : Type 0 where
  pub ad_id : String
  pub title : String
  pub game_family : String
  pub target_audience : String
  pub priority : ℤ
  pub created_at : ℤ
  pub max_wait_time : ℤ
  pub status : AdStatus
  pub processing_started_at : Option ℤ
  pub processed_at : Option ℤ
  pub version : ℕ

-- The table, and whether the database answers.
pub record Table : Type 0 where
  pub reachable : Bool
  pub rows : List (String × AdRow)

-- `ORDER BY created_at ASC`.
abbrev pub place_by_age : AdRow → List AdRow → List AdRow
place_by_age row [] = row ∷ []
place_by_age row (other ∷ rows) =
    let rest = place_by_age row rows in
    if leb_ℤ row.created_at other.created_at then row ∷ other ∷ rows else other ∷ rest

unfoldable pub order_by_age : List AdRow → List AdRow
order_by_age [] = []
order_by_age (row ∷ rows) = place_by_age row (order_by_age rows)

-- `json.Marshal` and `json.Unmarshal` of the audience, `uuid.Parse`, what a column of type TIMESTAMPTZ
-- keeps of a time in nanoseconds (its whole microseconds), and whether the table's types and
-- constraints accept a row.
pub record Codec : Type 0 where
  pub marshal : List String → String
  pub unmarshal : String → Option (List String)
  pub uuid_ok : String → Bool
  pub kept : ℤ → ℤ
  pub accepts : AdRow → Bool

module _ (codec : Codec) where
  -- `toAdEntity`.
  unfoldable pub to_ad_entity : AdRow → Result RepoError Ad
  unfolding parse_ad_id reconstruct_ad
  to_ad_entity row = elim (parse_ad_id codec.uuid_ok row.ad_id) [
    | none ↦ err bad_row
    | some id ↦ elim (codec.unmarshal row.target_audience) [
      | none ↦ err bad_row
      | some audience ↦ ok (
          reconstruct_ad id row.title row.game_family audience row.priority
            (row.max_wait_time *ℤ pos second) row.status row.created_at row.processing_started_at
            row.processed_at row.version)
    ]
  ]

  -- The values of `Save`'s INSERT: the two processing times are not among them, and so NULL.
  unfoldable pub row_of : Ad → AdRow
  unfolding seconds
  row_of a = record {
    ad_id = a.id;
    title = a.title;
    game_family = a.game_family;
    target_audience = codec.marshal a.target_audience;
    priority = a.priority;
    created_at = codec.kept a.created_at;
    max_wait_time = seconds a.max_wait_time;
    status = a.status;
    processing_started_at = none;
    processed_at = none;
    version = a.version;
  }

  -- ON CONFLICT … DO UPDATE SET, from EXCLUDED; the identifier and `created_at` stay.
  unfoldable pub updated_row : AdRow → AdRow → AdRow
  updated_row old excluded = record excluded { ad_id = old.ad_id; created_at = old.created_at }

  abbrev pub upserted : Table → AdRow → Option AdRow → Table × Result RepoError (Unit {0})
  upserted t row none = (record t { rows = insert row.ad_id row t.rows }, ok tt)
  upserted t row (some old) =
      if old.version + 1 == row.version
      then (record t { rows = insert row.ad_id (updated_row old row) t.rows }, ok tt)
      else (t, err lock_failed)

  -- `Save`.
  unfoldable pub save : Table → Ad → Table × Result RepoError (Unit {0})
  unfolding row_of updated_row
  save t a =
      if not t.reachable
      then (t, err unavailable)
      else if not (codec.accepts (row_of a))
      then (t, err unavailable)
      else upserted t (row_of a) (lookup a.id t.rows)

  abbrev pub found_row : Option AdRow → Result RepoError Ad
  found_row none = err not_found
  found_row (some row) = to_ad_entity row

  -- `FindByID`.
  unfoldable pub find_by_id : Table → String → Result RepoError Ad
  unfolding to_ad_entity
  find_by_id t id = if not t.reachable then err unavailable else found_row (lookup id t.rows)

  -- `for rows.Next()`: the first row that is no ad ends the search with an error.
  abbrev pub scan_rows : List AdRow → Result RepoError (List Ad)
  scan_rows [] = ok []
  scan_rows (row ∷ rows) = to_ad_entity row >>= λ a. scan_rows rows >>= λ ads. ok (a ∷ ads)

  abbrev pub select_ads : Table → (AdRow → Bool) → Result RepoError (List Ad)
  select_ads t p =
      if not t.reachable
      then err unavailable
      else scan_rows (order_by_age (keep_if p (values t.rows)))

  unfoldable pub find_by_game_family : Table → String → Result RepoError (List Ad)
  unfolding to_ad_entity order_by_age
  find_by_game_family t game_family = select_ads t (λ row. str_eq row.game_family game_family)

  unfoldable pub find_by_status : Table → AdStatus → Result RepoError (List Ad)
  unfolding to_ad_entity order_by_age same_status
  find_by_status t status = select_ads t (λ row. same_status row.status status)

  unfoldable pub find_older_than : Table → ℤ → Result RepoError (List Ad)
  unfolding to_ad_entity order_by_age
  find_older_than t threshold = select_ads t (λ row. ltb_ℤ row.created_at (codec.kept threshold))

  -- One UPDATE … WHERE ad_id = $2 AND status = 'queued'; no answer when a constraint refuses it.
  abbrev pub update_priority : List (String × AdRow) → String → ℤ → Option (List (String × AdRow))
  update_priority rows id new_priority = elim (lookup id rows) [
    | none ↦ some rows
    | some row ↦
        let new_row = record row { priority = new_priority; version = row.version + 1 } in
        if not (is_queued row.status)
        then some rows
        else if codec.accepts new_row
        then some (insert id new_row rows)
        else none
  ]

  -- The loop of `UpdatePriorityBatch`.
  unfoldable pub update_priorities :
      List (String × AdRow) → List String → ℤ → Option (List (String × AdRow))
  update_priorities rows [] new_priority = some rows
  update_priorities rows (id ∷ ids) new_priority = elim (update_priority rows id new_priority) [
    | none ↦ none
    | some rows1 ↦ update_priorities rows1 ids new_priority
  ]

  abbrev pub committed :
      Table → Option (List (String × AdRow)) → Table × Result RepoError (Unit {0})
  committed t none = (t, err unavailable)
  committed t (some rows1) = (record t { rows = rows1 }, ok tt)

  unfoldable pub update_priority_batch :
      Table → List String → ℤ → Table × Result RepoError (Unit {0})
  unfolding update_priorities
  update_priority_batch t [] new_priority = (t, ok tt)
  update_priority_batch t (id ∷ ids) new_priority =
      if not t.reachable
      then (t, err unavailable)
      else committed t (update_priorities t.rows (id ∷ ids) new_priority)

  abbrev pub status_set :
      Table → String → AdStatus → ℕ → Option AdRow → Table × Result RepoError (Unit {0})
  status_set t id status version none = (t, err lock_failed)
  status_set t id status version (some row) =
      if row.version == version
      then (
        record t {
          rows = insert id (record row { status = status; version = row.version + 1 }) t.rows;
        },
        ok tt,
      )
      else (t, err lock_failed)

  unfoldable pub update_status : Table → String → AdStatus → ℕ → Table × Result RepoError (Unit {0})
  update_status t id status version =
      if not t.reachable
      then (t, err unavailable)
      else status_set t id status version (lookup id t.rows)

  abbrev pub deleted : Table → String → Option AdRow → Table × Result RepoError (Unit {0})
  deleted t id none = (t, err not_found)
  deleted t id (some row) = (record t { rows = delete id t.rows }, ok tt)

  unfoldable pub delete_ad : Table → String → Table × Result RepoError (Unit {0})
  delete_ad t id = if not t.reachable then (t, err unavailable) else deleted t id (lookup id t.rows)

  abbrev pub count_rows : Table → (AdRow → Bool) → Result RepoError ℕ
  count_rows t p =
      if not t.reachable then err unavailable else ok (length (keep_if p (values t.rows)))

  unfoldable pub count : Table → Result RepoError ℕ
  count t = count_rows t (λ row. true)

  unfoldable pub count_by_status : Table → AdStatus → Result RepoError ℕ
  unfolding same_status
  count_by_status t status = count_rows t (λ row. same_status row.status status)

  unfoldable pub count_by_priority : Table → ℤ → Result RepoError ℕ
  count_by_priority t priority =
      count_rows t (λ row. leb_ℤ row.priority priority && leb_ℤ priority row.priority)

  abbrev pub postgres : Repository
  postgres = record {
    Store = Table;
    save = save;
    find_by_id = find_by_id;
    find_by_game_family = find_by_game_family;
    find_by_status = find_by_status;
    find_older_than = find_older_than;
    update_priority_batch = update_priority_batch;
    update_status = update_status;
    delete_ad = delete_ad;
    count = count;
    count_by_status = count_by_status;
    count_by_priority = count_by_priority;
  }
