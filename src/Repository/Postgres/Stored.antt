-- ===== src/Repository/Postgres/Stored.antt =====
-- internal/infrastructure/persistence/postgres_ad_repository.go: what a stored row is when it is read
-- back as an ad, and which rows a search finds.
use home_work_ad_processor_g.Prelude.{
  ◌≡◌, ◌≢◌, refl, sym, ap, ◌∙◌, Bool, true, false, not, Option, none, some, List, String,
  if◌then◌else◌, pos, subst, ◌*ℤ◌, Result, ok, err, ok-injective, lookup,
}
use home_work_ad_processor_g.Duration.{second, seconds, seconds-whole}
use home_work_ad_processor_g.Ad.{Ad, parse_ad_id, reconstruct_ad}
use home_work_ad_processor_g.Repository.{RepoError, unavailable, bad_row, not_found}
use home_work_ad_processor_g.Repository.Postgres.{
  AdRow, Table, Codec, to_ad_entity, row_of, found_row, find_by_id,
}
use home_work_ad_processor_g.Repository.Postgres.RoundTrip.{CodecLaws, IsStored}

module _ (codec : Codec) (laws : CodecLaws codec) where
  abbrev pub Fits : Ad → Type 0
  Fits a = codec.accepts (row_of codec a) ≡ true

  pub stored-Fits :
      (id : String) (row : AdRow) (a : Ad)
      → IsStored codec laws id row
      → to_ad_entity codec row ≡ ok a
      → Fits a
  unfolding to_ad_entity parse_ad_id reconstruct_ad row_of
  stored-Fits id row a stored e =
      let uuid : codec.uuid_ok row.ad_id ≡ true = laws.accepts-uuid_ok row stored.accepted in
      let read : codec.unmarshal row.target_audience ≡ some stored.audience =
        ap codec.unmarshal stored.written_by ∙ laws.unmarshal-marshal stored.audience in
      let content =
        laws.accepts_content row row.status (codec.kept row.created_at) none none row.version
        ∙ stored.accepted in
      let made = (rw (to_ad_entity, uuid, read) at e) in
      subst Fits (ok-injective made) (
        subst
          (λ l.
            codec.accepts (record row {
              target_audience = l;
              created_at = codec.kept row.created_at;
              max_wait_time = seconds (row.max_wait_time *ℤ pos second);
              processing_started_at = none;
              processed_at = none;
            })
            ≡ true)
          stored.written_by
          (subst
            (λ w.
              codec.accepts (record row {
                created_at = codec.kept row.created_at;
                max_wait_time = w;
                processing_started_at = none;
                processed_at = none;
              })
              ≡ true)
            (sym (seconds-whole row.max_wait_time)) content))

  pub find-row :
      (t : Table) (id : String) (a : Ad)
      → find_by_id codec t id ≡ ok a
      → (row : AdRow) × (lookup id t.rows ≡ some row) × (to_ad_entity codec row ≡ ok a)
  unfolding find_by_id
  find-row t id a e = go t.reachable (lookup id t.rows) refl e
    where
      go :
          (up : Bool) (o : Option AdRow)
          → lookup id t.rows ≡ o
          → (if not up then Result.err unavailable else found_row codec o) ≡ ok a
          → (row : AdRow) × (lookup id t.rows ≡ some row) × (to_ad_entity codec row ≡ ok a)
      go true none e h = cc
      go true (some row) e h = (row, e, h)
      go false o e h = cc

  pub entity-id :
      (row : AdRow) (a : Ad)
      → to_ad_entity codec row ≡ ok a
      → (a.id ≡ row.ad_id) × (a.version ≡ row.version)
  unfolding to_ad_entity parse_ad_id reconstruct_ad
  entity-id row a e = go (codec.uuid_ok row.ad_id) (codec.unmarshal row.target_audience) e
    where
      go :
          (b : Bool) (u : Option (List String))
          → (elim (if b then some row.ad_id else none) as (λ x. Result RepoError Ad) [
            | none ↦ err bad_row
            | some id ↦ elim u [
              | none ↦ err bad_row
              | some audience ↦ ok (
                  reconstruct_ad id row.title row.game_family audience row.priority
                    (row.max_wait_time *ℤ pos second)
                    row.status
                    row.created_at
                    row.processing_started_at
                    row.processed_at
                    row.version)
            ]
          ])
            ≡ ok a
          → (a.id ≡ row.ad_id) × (a.version ≡ row.version)
      go true (some l) h =
          (ap (λ x. x.id) (sym (ok-injective h)), ap (λ x. x.version) (sym (ok-injective h)))
      go true none h = cc
      go false u h = cc

  -- A row that is no ad is an error of its own.
  pub entity_found : (row : AdRow) → to_ad_entity codec row ≢ err not_found
  unfolding to_ad_entity parse_ad_id
  entity_found row e = go (codec.uuid_ok row.ad_id) (codec.unmarshal row.target_audience) e
    where
      go :
          (b : Bool) (u : Option (List String))
          → (elim (if b then some row.ad_id else none) as (λ x. Result RepoError Ad) [
            | none ↦ err bad_row
            | some id ↦ elim u [
              | none ↦ err bad_row
              | some audience ↦ ok (
                  reconstruct_ad id row.title row.game_family audience row.priority
                    (row.max_wait_time *ℤ pos second)
                    row.status
                    row.created_at
                    row.processing_started_at
                    row.processed_at
                    row.version)
            ]
          ])
            ≢ err not_found
      go true (some l) h = absurd cc
      go true none h = absurd cc
      go false u h = absurd cc

  pub missing_lem :
      (t : Table) (id : String) → find_by_id codec t id ≡ err not_found → lookup id t.rows ≡ none
  unfolding find_by_id to_ad_entity
  missing_lem t id e = go t.reachable (lookup id t.rows) e
    where
      go :
          (up : Bool) (o : Option AdRow)
          → (if not up then Result.err unavailable else found_row codec o) ≡ err not_found
          → o ≡ none
      go true none h = refl
      go true (some row) h = absurd (entity_found row h)
      go false o h = cc
