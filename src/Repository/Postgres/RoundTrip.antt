-- ===== src/Repository/Postgres/RoundTrip.antt =====
-- internal/infrastructure/persistence/postgres_ad_repository.go, `Save` and `FindByID`: what a saved
-- ad is when it is read back, and when a save is refused.
use home_work_ad_processor_g.Prelude.{
  ℕ, ◌+◌, ◌≡◌, refl, sym, ap, ◌∙◌, Bool, true, false, not, Option, none, some, List, String, ◌==◌,
  if◌then◌else◌, ℤ, pos, ◌*ℤ◌, arith, Result, ok, err, lookup, insert, lookup-insert, str_refl,
}
use home_work_ad_processor_g.Duration.{second, seconds}
use home_work_ad_processor_g.Ad.{Ad, AdStatus, parse_ad_id, reconstruct_ad}
use home_work_ad_processor_g.Repository.{RepoError, lock_failed, unavailable}
use home_work_ad_processor_g.Repository.Postgres.{
  AdRow, Table, Codec, to_ad_entity, row_of, updated_row, upserted, save, find_by_id,
}

-- What the repository relies on: JSON round trips, the type UUID of the key, and constraints that
-- look at the content of a row and not at its status, times and version.
pub record CodecLaws (codec : Codec) : Type 0 where
  pub unmarshal-marshal : (l : List String) → codec.unmarshal (codec.marshal l) ≡ some l
  pub accepts-uuid_ok : (row : AdRow) → codec.accepts row ≡ true → codec.uuid_ok row.ad_id ≡ true
  pub accepts_content :
      (row : AdRow) (status : AdStatus) (created : ℤ) (started processed : Option ℤ) (version : ℕ)
      → codec.accepts (record row {
        status = status;
        created_at = created;
        processing_started_at = started;
        processed_at = processed;
        version = version;
      })
        ≡ codec.accepts row

-- A saved ad when it is read back: without its processing times and its place in the queue, and its
-- wait in the whole seconds that `Seconds` gives.
abbrev pub reloaded : Ad → ℤ → Ad
unfolding seconds
reloaded a created = record a {
  max_wait_time = seconds a.max_wait_time *ℤ pos second;
  created_at = created;
  processing_started_at = none;
  processed_at = none;
  queue_position = none;
}

-- Whether `Save` finds the version that it expects.
abbrev pub is_next : Ad → Option AdRow → Bool
is_next a none = true
is_next a (some old) = old.version + 1 == a.version

module _ (codec : Codec) (laws : CodecLaws codec) where
  -- The creation time that a save leaves: the stored one, if there is one, and otherwise what the
  -- column keeps of the time of the ad.
  abbrev pub created_of : Ad → Option AdRow → ℤ
  created_of a none = codec.kept a.created_at
  created_of a (some old) = old.created_at

  pub record IsStored (id : String) (row : AdRow) : Type 0 where
    pub keyed : row.ad_id ≡ id
    pub accepted : codec.accepts row ≡ true
    pub audience : List String
    pub written_by : row.target_audience ≡ codec.marshal audience

  abbrev pub written : Ad → Option AdRow → AdRow
  written a none = row_of codec a
  written a (some old) = updated_row codec old (row_of codec a)

  -- The guards of `Save`, for any continuation.
  abbrev guarded :
      Bool
      → Bool
      → Table
      → Table × Result RepoError (Unit {0})
      → Table × Result RepoError (Unit {0})
  guarded up fits t rest =
      if not up then (t, err unavailable) else if not fits then (t, err unavailable) else rest

  guarded_passes :
      (up fits : Bool) (t : Table) (rest : Table × Result RepoError (Unit {0}))
      → up ≡ true
      → fits ≡ true
      → guarded up fits t rest ≡ rest
  guarded_passes true true t rest h k = refl
  guarded_passes true false t rest h k = cc
  guarded_passes false fits t rest h k = cc

  guarded_passed :
      (up fits : Bool) (t : Table) (rest : Table × Result RepoError (Unit {0}))
      → (guarded up fits t rest).1 ≡ ok tt
      → (up ≡ true) × (fits ≡ true) × (guarded up fits t rest ≡ rest)
  guarded_passed true true t rest h = (refl, refl, refl)
  guarded_passed true false t rest h = cc
  guarded_passed false fits t rest h = cc

  abbrev locked : Bool → Table → Table → Table × Result RepoError (Unit {0})
  locked b t u = if b then (u, ok tt) else (t, err lock_failed)

  locked_lem : (b : Bool) (t u : Table) → (locked b t u).1 ≡ ok tt → (locked b t u).0 ≡ u
  locked_lem true t u h = refl
  locked_lem false t u h = cc

  -- The table after a save that takes place.
  abbrev pub with_saved : Table → Ad → Option AdRow → Table
  with_saved t a o = record t { rows = insert a.id (written a o) t.rows }

  upserted_locks :
      (t : Table) (a : Ad) (o : Option AdRow)
      → upserted codec t (row_of codec a) o
        ≡ (if is_next a o then (with_saved t a o, ok tt) else (t, err lock_failed))
  unfolding row_of updated_row
  upserted_locks t a none = refl
  upserted_locks t a (some old) = ground arith

  -- A save on a reachable database of an ad that the table accepts: if the ad is new or its version is
  -- the stored one plus one, it succeeds and the row under its key, and no other, is the one of the
  -- ad; otherwise it is refused by the lock, with the table as it was.
  pub save_locks :
      (t : Table) (a : Ad)
      → t.reachable ≡ true
      → codec.accepts (row_of codec a) ≡ true
      → save codec t a ≡ (
          if is_next a (lookup a.id t.rows)
          then (with_saved t a (lookup a.id t.rows), ok tt)
          else (t, err lock_failed))
  unfolding save row_of updated_row
  save_locks t a up fits =
      guarded_passes t.reachable (codec.accepts (row_of codec a)) t _ up fits
      ∙ upserted_locks t a (lookup a.id t.rows)

  -- What a save that takes place rests on and leaves.
  pub record Saved (t : Table) (a : Ad) (out : Table) : Type 0 where
    pub reachable : t.reachable ≡ true
    pub accepted : codec.accepts (row_of codec a) ≡ true
    pub left : out ≡ record t { rows = insert a.id (written a (lookup a.id t.rows)) t.rows }

  upserted_left :
      (t : Table) (a : Ad) (o : Option AdRow)
      → (upserted codec t (row_of codec a) o).1 ≡ ok tt
      → (upserted codec t (row_of codec a) o).0
        ≡ record t { rows = insert a.id (written a o) t.rows }
  unfolding row_of updated_row
  upserted_left t a none h = refl
  upserted_left t a (some old) h = locked_lem (old.version + 1 == a.version) t _ h

  pub save-Saved : (t : Table) (a : Ad) → (save codec t a).1 ≡ ok tt → Saved t a (save codec t a).0
  unfolding save
  save-Saved t a h =
      let o = lookup a.id t.rows in
      let (up, fits, same) =
        guarded_passed t.reachable (codec.accepts (row_of codec a)) t
          (upserted codec t (row_of codec a) o) h in
      record {
        reachable = up;
        accepted = fits;
        left = ap (λ p. p.0) same ∙ upserted_left t a o (ap (λ p. p.1) (sym same) ∙ h);
      }

  pub entity_lem :
      (a : Ad) (o : Option AdRow)
      → codec.accepts (row_of codec a) ≡ true
      → ((old : AdRow) → o ≡ some old → old.ad_id ≡ a.id)
      → to_ad_entity codec (written a o) ≡ ok (reloaded a (created_of a o))
  unfolding to_ad_entity row_of updated_row parse_ad_id reconstruct_ad
  entity_lem a none fits keyed =
      let uuid : codec.uuid_ok a.id ≡ true = laws.accepts-uuid_ok (row_of codec a) fits in
      rw (to_ad_entity, uuid, laws.unmarshal-marshal a.target_audience) refl
  entity_lem a (some old) fits keyed =
      let uuid : codec.uuid_ok a.id ≡ true = laws.accepts-uuid_ok (row_of codec a) fits in
      rw (to_ad_entity, keyed old refl, uuid, laws.unmarshal-marshal a.target_audience) refl

  -- Every stored row has its key and can be read back and saved again.
  abbrev pub IsTable : Table → Type 0
  IsTable t = (id : String) (row : AdRow) → lookup id t.rows ≡ some row → IsStored id row

  -- An ad that is saved on a well-formed table is read back as it was, but without its processing
  -- times and its queue position, with the wait in the whole seconds that `Seconds` gives, and with the creation time that
  -- was stored, or, of a new ad, what the column keeps of its creation time.
  pub find_by_id-save :
      (t : Table) (a : Ad)
      → IsTable t
      → (save codec t a).1 ≡ ok tt
      → find_by_id codec (save codec t a).0 a.id
        ≡ ok (reloaded a (created_of a (lookup a.id t.rows)))
  unfolding find_by_id
  find_by_id-save t a table h =
      let saved = save-Saved t a h in
      rw
        (
          saved.left,
          saved.reachable,
          lookup-insert a.id a.id (written a (lookup a.id t.rows)) t.rows,
          str_refl a.id,
        )
        (entity_lem a (lookup a.id t.rows) saved.accepted (λ old e. (table a.id old e).keyed))
