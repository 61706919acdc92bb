-- ===== src/Repository/Optimized/Statuses.antt =====
-- internal/infrastructure/persistence/optimized_postgres_repository.go: what `UpdateStatus` leaves.
use home_work_ad_processor_g.Prelude.{
  ◌≡◌, refl, sym, ap, ◌∙◌, Bool, true, false, not, Option, none, some, List, String, if◌then◌else◌,
  ℤ, Result, ok, ok-injective, some-injective, subst, ◌≢◌, str_ne, lookup, insert, lookup-insert,
  str_refl,
}
use home_work_ad_processor_g.Ad.{AdStatus, processing, completed}
use home_work_ad_processor_g.Repository.Optimized.Commits.{guarded_left}
use home_work_ad_processor_g.Repository.Optimized.{
  ShardedRow, Cluster, Driver, refused, read_status, times_of,
}
use home_work_ad_processor_g.Repository.Optimized.Updates.{
  with_times, set_row, set_known, set_status, update_status,
}

module _ (driver : Driver) where
  -- The row of the ad after an update, if there is one.
  abbrev pub retimed : AdStatus → ℤ → Option ShardedRow → Option ShardedRow
  unfolding with_times
  retimed status now none = none
  retimed status now (some row) = some (with_times row status now)

  -- The rows `out` are those of `rows` with a new status and new times for one ad.
  pub record StatusSet (rows out : List (String × ShardedRow)) (id : String) (status : AdStatus)
      (now : ℤ) : Type 0 where
    pub named : lookup id out ≡ retimed status now (lookup id rows)
    pub others : (key : String) → id ≢ key → lookup key out ≡ lookup key rows

  set_row_lem :
      (rows out : List (String × ShardedRow)) (id : String) (status : AdStatus) (now : ℤ)
      (o : Option ShardedRow)
      → lookup id rows ≡ o
      → set_row driver rows id status now o ≡ ok out
      → StatusSet rows out id status now
  unfolding with_times
  set_row_lem rows out id status now none e h =
      let same : rows ≡ out = ok-injective h in
      record {
        named = subst (λ l. lookup id l ≡ retimed status now (lookup id rows)) same (rw e refl);
        others = λ key ne. ap (lookup key) (sym same);
      }
  set_row_lem rows out id status now (some row) e h = go (driver.accepts new_row.columns) h
    where
      new_row : ShardedRow
      new_row = with_times row status now

      go :
          (b : Bool)
          → (if not b then Result.err refused else ok (insert id new_row rows)) ≡ ok out
          → StatusSet rows out id status now
      go false k = absurd cc
      go true k =
          let left : insert id new_row rows ≡ out = ok-injective k in
          record {
            named =
                ap (lookup id) (sym left)
                ∙ lookup-insert id id new_row rows
                ∙ rw (str_refl id, e) refl;
            others = λ key ne.
                ap (lookup key) (sym left)
                ∙ lookup-insert id key new_row rows
                ∙ rw (str_ne id key ne) refl;
          }

  -- `UpdateStatus` that answers without an error was given one of the four statuses, and changes
  -- the status and the two times, as the columns keep them, of the row of that ad, if there is one, and no other row.
  update_status-RowSet :
      (c : Cluster) (id text : String) (now : ℤ)
      → (update_status driver c id text now).1 ≡ ok tt
      → (status : AdStatus) × (read_status text ≡ some status)
        × StatusSet c.db.rows
            (update_status driver c id text now).0.db.rows
            id
            status
            (driver.kept now)
  unfolding update_status set_status
  update_status-RowSet c id text now h =
      let (rows, r, left) =
        guarded_left c c.db.reachable (set_status driver c.db.rows id text kept) h in
      go (read_status text) refl rows r (ap (λ x. x.db.rows) left)
    where
      kept : ℤ
      kept = driver.kept now

      out : List (String × ShardedRow)
      out = (update_status driver c id text now).0.db.rows

      go :
          (o : Option AdStatus)
          → read_status text ≡ o
          → (rows : List (String × ShardedRow)) → set_known driver c.db.rows id kept o ≡ ok rows
          → out ≡ rows
          → (status : AdStatus) × (read_status text ≡ some status)
            × StatusSet c.db.rows out id status kept
      go none e rows r left = absurd cc
      go (some status) e rows r left = (
        status,
        e,
        subst (λ l. StatusSet c.db.rows l id status kept) (sym left)
            (set_row_lem c.db.rows rows id status kept (lookup id c.db.rows) refl r),
      )

  -- A stored ad that is set to "processing" and then to "completed", both without an error, has lost
  -- the time at which its processing started; its row is otherwise the old one, completed, with the
  -- time of the second call as the column keeps it.
  pub update_status_forgets :
      (c : Cluster) (id : String) (row : ShardedRow) (t1 t2 : ℤ)
      → lookup id c.db.rows ≡ some row
      → (let c1 = (update_status driver c id "processing" t1).0 in
          ((update_status driver c id "processing" t1).1 ≡ ok tt)
          × ((update_status driver c1 id "completed" t2).1 ≡ ok tt))
      → (let c1 = (update_status driver c id "processing" t1).0 in
          lookup id (update_status driver c1 id "completed" t2).0.db.rows)
        ≡ some (record row {
          columns = record row.columns {
            status = completed;
            processing_started_at = none;
            processed_at = some (driver.kept t2);
          };
        })
  unfolding with_times times_of
  update_status_forgets c id row t1 t2 e (h1, h2) =
      let c1 = (update_status driver c id "processing" t1).0 in
      let (s1, r1, set1) = update_status-RowSet c id "processing" t1 h1 in
      let (s2, r2, set2) = update_status-RowSet c1 id "completed" t2 h2 in
      let is1 : processing ≡ s1 = some-injective r1 in
      let is2 : completed ≡ s2 = some-injective r2 in
      set2.named
      ∙ ap (retimed s2 (driver.kept t2)) (set1.named ∙ ap (retimed s1 (driver.kept t1)) e)
      ∙ ap (λ s. retimed s (driver.kept t2) (retimed s1 (driver.kept t1) (some row))) (sym is2)
      ∙ ap (λ s. retimed completed (driver.kept t2) (retimed s (driver.kept t1) (some row)))
          (sym is1)
