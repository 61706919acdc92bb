-- ===== src/Repository/Postgres/Contract.antt =====
-- internal/infrastructure/persistence/postgres_ad_repository.go: the laws of the interface of ad
-- persistence for it.
use home_work_ad_processor_g.Prelude.{
  suc, ◌≡◌, ◌≢◌, refl, sym, ap, ◌∙◌, true, Option, none, some, some-injective, String, str_eq,
  eq_iff, if◌then◌else◌, Bool-cases, inl, inr, subst, arith, ok, err, lookup, lookup-insert, str_ne,
}
use home_work_ad_processor_g.Ad.{Ad}
use home_work_ad_processor_g.Repository.{Laws, not_found}
use home_work_ad_processor_g.Repository.Postgres.{
  AdRow, Table, Codec, row_of, updated_row, save, find_by_id, postgres,
}
use home_work_ad_processor_g.Repository.Postgres.RoundTrip.{
  CodecLaws, save-Saved, save_locks, IsStored, IsTable, written, reloaded, created_of, is_next,
  find_by_id-save,
}
use home_work_ad_processor_g.Repository.Postgres.Stored.{
  Fits, stored-Fits, find-row, entity-id, missing_lem,
}

module _ (codec : Codec) (laws : CodecLaws codec) where
  abbrev row_after : Table → Ad → AdRow
  row_after t a = written codec laws a (lookup a.id t.rows)

  lookup-save :
      (t : Table) (a : Ad) (id : String)
      → (save codec t a).1 ≡ ok tt
      → lookup id (save codec t a).0.rows
        ≡ (if str_eq a.id id then some (row_after t a) else lookup id t.rows)
  lookup-save t a id h =
      rw ((save-Saved codec laws t a h).left) (lookup-insert a.id id (row_after t a) t.rows)

  written-IsStored :
      (a : Ad) (o : Option AdRow)
      → codec.accepts (row_of codec a) ≡ true
      → ((old : AdRow) → o ≡ some old → old.ad_id ≡ a.id)
      → IsStored codec laws a.id (written codec laws a o)
  unfolding row_of updated_row
  written-IsStored a none fits keyed = record {
    keyed = refl;
    accepted = fits;
    audience = a.target_audience;
    written_by = refl;
  }
  written-IsStored a (some old) fits keyed = record {
    keyed = keyed old refl;
    accepted =
        subst
          (λ i.
            codec.accepts (record (row_of codec a) { ad_id = i; created_at = old.created_at })
            ≡ true)
          (sym (keyed old refl))
          (laws.accepts_content (row_of codec a) a.status old.created_at none none a.version
            ∙ fits);
    audience = a.target_audience;
    written_by = refl;
  }

  save-IsTable :
      (t : Table) (a : Ad)
      → IsTable codec laws t
      → (save codec t a).1 ≡ ok tt
      → IsTable codec laws (save codec t a).0
  save-IsTable t a table h id row e =
      let saved = save-Saved codec laws t a h in
      let keyed = λ (old : AdRow) (e : lookup a.id t.rows ≡ some old). (table a.id old e).keyed in
      let now = sym (lookup-save t a id h) ∙ e in
      elim (Bool-cases (str_eq a.id id)) [
        | inl same ↦
            subst (λ i. IsStored codec laws i row) ((eq_iff a.id id).0 same)
              (subst (IsStored codec laws a.id) (some-injective (rw same at now))
                (written-IsStored a (lookup a.id t.rows) saved.accepted keyed))
        | inr other ↦ table id row (rw other at now)
      ]

  -- A reachable database with a well-formed table.
  pub record Up (t : Table) : Type 0 where
    pub reachable : t.reachable ≡ true
    pub table : IsTable codec laws t

  save-Up : (t : Table) (a : Ad) → Up t → (save codec t a).1 ≡ ok tt → Up (save codec t a).0
  save-Up t a up h = record {
    reachable = ap (λ u. u.reachable) (save-Saved codec laws t a h).left ∙ up.reachable;
    table = save-IsTable t a up.table h;
  }

  save_next :
      (t : Table) (a b : Ad)
      → Up t
      → Fits codec laws a
      → find_by_id codec t a.id ≡ ok b
      → a.version ≡ suc b.version
      → (save codec t a).1 ≡ ok tt
  save_next t a b up fits found next =
      let (row, e, entity) = find-row codec laws t a.id b found in
      let version = (entity-id codec laws row b entity).1 in
      let expected : is_next a (some row) ≡ true = ground arith in
      ap (λ p. p.1) (save_locks codec laws t a up.reachable fits) ∙ rw (e, expected) refl

  save_new :
      (t : Table) (a : Ad)
      → Up t
      → Fits codec laws a
      → find_by_id codec t a.id ≡ err not_found
      → (save codec t a).1 ≡ ok tt
  save_new t a up fits e =
      ap (λ p. p.1) (save_locks codec laws t a up.reachable fits)
      ∙ rw (missing_lem codec laws t a.id e) refl

  find_by_id-save_ne :
      (t : Table) (a : Ad) (id : String)
      → (save codec t a).1 ≡ ok tt
      → a.id ≢ id
      → find_by_id codec (save codec t a).0 id ≡ find_by_id codec t id
  unfolding find_by_id
  find_by_id-save_ne t a id h ne =
      let same : (save codec t a).0.reachable ≡ t.reachable =
        ap (λ u. u.reachable) (save-Saved codec laws t a h).left in
      rw (lookup-save t a id h, str_ne a.id id ne, same) refl

  pub postgres_laws : Laws (postgres codec)
  unfolding row_of
  postgres_laws = record {
    Up = Up;
    find-id = λ t id a up e.
        let (row, found, entity) = find-row codec laws t id a e in
        (entity-id codec laws row a entity).0 ∙ (up.table id row found).keyed;
    Fits = Fits codec laws;
    find-Fits = λ t id a up e.
        let (row, found, entity) = find-row codec laws t id a e in
        stored-Fits codec laws id row a (up.table id row found) entity;
    Fits-status = λ a status started processed position version fits.
        laws.accepts_content (row_of codec a) status (codec.kept a.created_at) none none version
        ∙ fits;
    save_ok = λ t a b up fits found next.
        let h = save_next t a b up fits found next in (h, save-Up t a up h);
    save_new = λ t a up fits e. let h = save_new t a up fits e in (h, save-Up t a up h);
    find-save = λ t a up h. (
      reloaded a (created_of codec laws a (lookup a.id t.rows)),
      find_by_id-save codec laws t a up.table h,
      record { same_id = refl; same_status = refl; same_version = refl },
    );
    find-save_ne = λ t a id up h ne. find_by_id-save_ne t a id h ne;
  }
