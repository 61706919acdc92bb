-- ===== src/Examples/Stores.antt =====
-- The theorems on the PostgreSQL repository and on the audit trail at work.
use home_work_ad_processor_g.Prelude.{
  ◌≡◌, refl, ◌∙◌, Bool-cases, inl, inr, str_eq, eq_iff, subst, some-injective, true, none, some, [],
  ◌∷◌, pos, ◌*ℤ◌, tdiv, ap, ok, err, if◌then◌else◌, lookup, insert,
}
use home_work_ad_processor_g.Ad.{Ad, AdStatus}
use home_work_ad_processor_g.Repository.{lock_failed}
use home_work_ad_processor_g.Repository.Postgres.{
  AdRow, Table, Codec, save, find_by_id, update_priority_batch,
}
use home_work_ad_processor_g.Repository.Postgres.RoundTrip.{
  CodecLaws, IsStored, IsTable, reloaded, created_of, with_saved, is_next, find_by_id-save,
  save_locks,
}
use home_work_ad_processor_g.Repository.Postgres.Updates.{Raised, update_priority_batch-Raised}
use home_work_ad_processor_g.Examples.Data.{any_id, puzzle}
use home_work_ad_processor_g.Examples.Coding.{write, read, read-write}

abbrev codec : Codec
codec = record {
  marshal = write;
  unmarshal = read;
  uuid_ok = any_id;
  kept = λ t. tdiv t 1_000 *ℤ pos 1_000;
  accepts = λ row. true;
}

codec-CodecLaws : CodecLaws codec
codec-CodecLaws = record {
  unmarshal-marshal = read-write;
  accepts-uuid_ok = λ row e. refl;
  accepts_content = λ row status created started processed version. refl;
}

-- A table with one ad, which has been saved.
abbrev row : AdRow
row = record {
  ad_id = "ad-1";
  title = "Puzzle";
  game_family = "Casual";
  target_audience = write ("18-34" ∷ []);
  priority = pos 2;
  created_at = pos 0;
  max_wait_time = pos 600;
  status = AdStatus.queued;
  processing_started_at = none;
  processed_at = none;
  version = 1;
}

abbrev table : Table
table = record { reachable = true; rows = insert "ad-1" row [] }

table-IsTable : IsTable codec codec-CodecLaws table
unfolding lookup insert
table-IsTable id r e = elim (Bool-cases (str_eq "ad-1" id)) [
  | inl same ↦
      subst (λ i. IsStored codec codec-CodecLaws i r) ((eq_iff "ad-1" id).0 same)
        (subst (IsStored codec codec-CodecLaws "ad-1") (some-injective (rw same at e))
          (record { keyed = refl; accepted = refl; audience = "18-34" ∷ []; written_by = refl }))
  | inr other ↦ absurd (let no_row = (rw other at e) in cc)
]

-- The ad after the start of its processing.
abbrev started : Ad
started = record puzzle {
  status = AdStatus.processing;
  processing_started_at = some (pos 10);
  version = 2;
}

find_by_id-save_example :
    find_by_id codec (save codec table started).0 "ad-1"
    ≡ ok (reloaded started (created_of codec codec-CodecLaws started (lookup "ad-1" table.rows)))
unfolding lookup insert
find_by_id-save_example =
    find_by_id-save codec codec-CodecLaws table started table-IsTable
      (ap (λ p. p.1) (save_locks codec codec-CodecLaws table started refl refl) ∙ refl)

save_locks_example : save codec table puzzle ≡ (
    if is_next puzzle (lookup "ad-1" table.rows)
    then (with_saved codec codec-CodecLaws table puzzle (lookup "ad-1" table.rows), ok tt)
    else (table, err lock_failed))
save_locks_example = save_locks codec codec-CodecLaws table puzzle refl refl

update_priority_batch-Raised_example :
    Raised codec table
      ("ad-1" ∷ "ad-2" ∷ [])
      (pos 5)
      (update_priority_batch codec table ("ad-1" ∷ "ad-2" ∷ []) (pos 5))
update_priority_batch-Raised_example =
    update_priority_batch-Raised codec table ("ad-1" ∷ "ad-2" ∷ []) (pos 5)
