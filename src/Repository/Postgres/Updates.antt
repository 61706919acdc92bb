-- ===== src/Repository/Postgres/Updates.antt =====
-- internal/infrastructure/persistence/postgres_ad_repository.go, `UpdatePriorityBatch` and
-- `UpdateStatus`: which rows change, and that a refused statement changes none.
use home_work_ad_processor_g.Prelude.{
  ℕ, zero, suc, ◌+◌, ◌≡◌, refl, sym, ap, ◌∙◌, Bool, true, false, not, Option, none, some, List, [],
  ◌∷◌, String, str_eq, eq_iff, lookup-insert, ◌==◌, if◌then◌else◌, Bool-cases, inl, inr, ℤ, arith,
  Result, ok, err, lookup, insert, count_if, some-injective, ◌⊎◌, ◌≢◌, subst,
}
use home_work_ad_processor_g.Ad.{AdStatus, is_queued}
use home_work_ad_processor_g.Repository.{RepoError, lock_failed, unavailable}
use home_work_ad_processor_g.Repository.Postgres.{
  AdRow, Table, Codec, update_priority, update_priorities, update_priority_batch, update_status,
  committed, status_set,
}

-- A queued row after `n` updates of its priority.
abbrev pub raised : ℤ → ℕ → AdRow → AdRow
raised p zero row = row
raised p (suc n) row = raised p n (record row { priority = p; version = row.version + 1 })

abbrev pub after_updates : ℤ → ℕ → Option AdRow → Option AdRow
after_updates p n none = none
after_updates p n (some row) = some (if is_queued row.status then raised p n row else row)

-- How often an identifier stands in the list.
abbrev pub times : String → List String → ℕ
times id ids = count_if (λ (i : String). str_eq i id) ids

after_none : (p : ℤ) (o : Option AdRow) → after_updates p 0 o ≡ o
after_none p none = refl
after_none p (some row) = ground arith

after_one :
    (p : ℤ) (n : ℕ) (o : Option AdRow)
    → after_updates p n (after_updates p 1 o) ≡ after_updates p (suc n) o
after_one p n none = refl
after_one p n (some row) = elim (Bool-cases (is_queued row.status)) [
  | inl e ↦ rw (e, e) refl
  | inr e ↦ rw (e, e) refl
]

looked :
    (rows : List (String × AdRow)) (i id : String) (o : Option AdRow)
    → lookup i rows ≡ o
    → lookup id rows ≡ (if str_eq i id then o else lookup id rows)
looked rows i id o e = elim (Bool-cases (str_eq i id)) [
  | inl same ↦ rw same (ap (λ k. lookup k rows) (sym ((eq_iff i id).0 same)) ∙ e)
  | inr other ↦ rw other refl
]

module _ (codec : Codec) where
  -- One UPDATE, by what it finds.
  update_found :
      (rows rows1 : List (String × AdRow)) (i : String) (p : ℤ) (o : Option AdRow)
      → lookup i rows ≡ o
      → (elim o as (λ x. Option (List (String × AdRow))) [
        | none ↦ some rows
        | some row ↦
            let new_row = record row { priority = p; version = row.version + 1 } in
            if not (is_queued row.status)
            then some rows
            else if codec.accepts new_row
            then some (insert i new_row rows)
            else none
      ])
        ≡ some rows1
      → (id : String)
      → lookup id rows1 ≡ (if str_eq i id then after_updates p 1 o else lookup id rows)
  update_found rows rows1 i p none e h id =
      subst (λ l. lookup id l ≡ (if str_eq i id then none else lookup id rows)) (some-injective h)
        (looked rows i id none e)
  update_found rows rows1 i p (some row) e h id =
      by_test (is_queued row.status)
        (codec.accepts (record row { priority = p; version = row.version + 1 })) h
    where
      by_test :
          (queued fits : Bool)
          → (if not queued
              then some rows
              else if fits
              then some (insert i (record row { priority = p; version = row.version + 1 }) rows)
              else none)
            ≡ some rows1
          → lookup id rows1 ≡ (
              if str_eq i id then some (if queued then raised p 1 row else row) else lookup id rows)
      by_test true true h =
          subst (λ l. lookup id l ≡ (if str_eq i id then some (raised p 1 row) else lookup id rows))
            (some-injective h) (lookup-insert i id (raised p 1 row) rows)
      by_test true false h = cc
      by_test false fits h =
          subst (λ l. lookup id l ≡ (if str_eq i id then some row else lookup id rows))
            (some-injective h) (looked rows i id (some row) e)

  update_priority_lem :
      (rows rows1 : List (String × AdRow)) (i id : String) (p : ℤ)
      → update_priority codec rows i p ≡ some rows1
      → lookup id rows1
        ≡ (if str_eq i id then after_updates p 1 (lookup i rows) else lookup id rows)
  update_priority_lem rows rows1 i id p h = update_found rows rows1 i p (lookup i rows) refl h id

  -- The loop of `UpdatePriorityBatch`.
  update_priorities_lem :
      (ids : List String) (rows rows1 : List (String × AdRow)) (id : String) (p : ℤ)
      → update_priorities codec rows ids p ≡ some rows1
      → lookup id rows1 ≡ after_updates p (times id ids) (lookup id rows)
  unfolding update_priorities
  update_priorities_lem [] rows rows1 id p h =
      ap (lookup id) (sym (some-injective h)) ∙ sym (after_none p (lookup id rows))
  update_priorities_lem (i ∷ ids) rows rows1 id p h =
      go (λ rows2. update_priorities_lem ids rows2 rows1 id p) (update_priority codec rows i p) refl
        h
    where
      go :
          ((rows2 : List (String × AdRow))
            → update_priorities codec rows2 ids p ≡ some rows1
            → lookup id rows1 ≡ after_updates p (times id ids) (lookup id rows2))
          → (o : Option (List (String × AdRow))) → update_priority codec rows i p ≡ o
          → (elim o as (λ x. Option (List (String × AdRow))) [
            | none ↦ none
            | some rows2 ↦ update_priorities codec rows2 ids p
          ])
            ≡ some rows1
          → lookup id rows1 ≡ after_updates p (times id (i ∷ ids)) (lookup id rows)
      go later none e h = cc
      go later (some rows2) e h =
          let first = update_priority_lem rows rows2 i id p e in
          later rows2 h ∙ elim (Bool-cases (str_eq i id)) [
            | inl same ↦
                let here = ap (λ k. lookup k rows) ((eq_iff i id).0 same) in
                rw (first, same, here) (after_one p (times id ids) (lookup id rows))
            | inr other ↦ rw (first, other) refl
          ]

  -- The table after a statement that raised priorities, or that failed.
  abbrev pub Raised : Table → List String → ℤ → Table × Result RepoError (Unit {0}) → Type 0
  Raised t ids p (u, ok _) =
      (id : String) → lookup id u.rows ≡ after_updates p (times id ids) (lookup id t.rows)
  Raised t ids p (u, err e) = u ≡ t

  committed-Raised :
      (t : Table) (ids : List String) (p : ℤ) (up : Bool) (o : Option (List (String × AdRow)))
      → update_priorities codec t.rows ids p ≡ o
      → Raised t ids p (if not up then (t, err unavailable) else committed codec t o)
  committed-Raised t ids p true none e = refl
  committed-Raised t ids p true (some rows1) e = λ id. update_priorities_lem ids t.rows rows1 id p e
  committed-Raised t ids p false o e = refl

  -- `UpdatePriorityBatch`: if it succeeds, each row of the table has been raised to the new priority
  -- as often as its identifier stands in the list, its version one further each time, if it is
  -- queued, and is as it was if it is not; if it fails, the table is as it was.
  pub update_priority_batch-Raised :
      (t : Table) (ids : List String) (p : ℤ) → Raised t ids p (update_priority_batch codec t ids p)
  unfolding update_priority_batch
  update_priority_batch-Raised t [] p = λ id. sym (after_none p (lookup id t.rows))
  update_priority_batch-Raised t (i ∷ ids) p =
      committed-Raised t (i ∷ ids) p t.reachable (update_priorities codec t.rows (i ∷ ids) p) refl

  -- A row at the expected version has its status set and its version counted up, alone; without
  -- such a row the statement is refused and the table is as it was.
  abbrev pub StatusSet :
      Table → String → AdStatus → ℕ → Option AdRow → Table × Result RepoError (Unit {0}) → Type 0
  StatusSet t id status version none out = out ≡ (t, err lock_failed)
  StatusSet t id status version (some row) out =
      ((row.version ≡ version)
        × (out.1 ≡ ok tt)
        × ((j : String)
            → lookup j out.0.rows ≡ (
                if str_eq id j
                then some (record row { status = status; version = row.version + 1 })
                else lookup j t.rows)))
      ⊎ ((row.version ≢ version) × (out ≡ (t, err lock_failed)))

  status_set-StatusSet :
      (t : Table) (id : String) (status : AdStatus) (version : ℕ) (o : Option AdRow)
      → StatusSet t id status version o (status_set codec t id status version o)
  status_set-StatusSet t id status version none = refl
  status_set-StatusSet t id status version (some row) = elim (Bool-cases (row.version == version)) [
    | inl e ↦ inl (
      ground arith,
      rw e refl,
      λ j.
          rw e
            (lookup-insert id j (record row { status = status; version = row.version + 1 }) t.rows),
    )
    | inr e ↦ inr (λ same. ground arith, rw e refl)
  ]

  -- `UpdateStatus` on a reachable database: a row at the expected version has its status set and its
  -- version counted up and no other row changes; without such a row the statement is refused and
  -- the table is as it was.
  update_status-StatusSet :
      (t : Table) (id : String) (status : AdStatus) (version : ℕ)
      → t.reachable ≡ true
      → StatusSet t id status version (lookup id t.rows) (update_status codec t id status version)
  unfolding update_status
  update_status-StatusSet t id status version up =
      subst
        (λ (b : Bool). StatusSet t id status version (lookup id t.rows) (
          if not b
          then (t, err unavailable)
          else status_set codec t id status version (lookup id t.rows)))
        (sym up) (status_set-StatusSet t id status version (lookup id t.rows))
