-- ===== src/Repository/Memory.antt =====
-- internal/infrastructure/persistence/memory_ad_repository.go: the map of ads. Go keeps pointers in
-- the map, so a method called on a found ad changes the stored one; here each call that changes an
-- ad writes it back.
use home_work_ad_processor_g.Prelude.{
  ℕ, ◌≢◌, ◌≡◌, refl, ap, ◌∙◌, ◌&&◌, Option, none, some, List, [], ◌∷◌, String, str_eq, str_refl,
  str_ne, eq_iff, Bool-cases, inl, inr, length, keep_if, count_if, ℤ, ltb_ℤ, leb_ℤ, Result, ok, err,
  lookup, insert, delete, values, lookup-insert, some-injective, ok-injective, sym,
}
use home_work_ad_processor_g.Ad.{
  Ad, AdStatus, AdError, queued, processing, completed, failed, same_status, start_processing,
  complete_processing, fail_processing, change_priority,
}
use home_work_ad_processor_g.Repository.{
  Repository, Laws, RepoError, not_found, rejected, batch_rejected,
}

abbrev pub AdMap : Type 0
AdMap = List (String × Ad)

unfoldable pub save : AdMap → Ad → AdMap × Result RepoError (Unit {0})
save ads a = (insert a.id a ads, ok tt)

abbrev found : Option Ad → Result RepoError Ad
found none = err not_found
found (some a) = ok a

unfoldable pub find_by_id : AdMap → String → Result RepoError Ad
find_by_id ads id = found (lookup id ads)

unfoldable pub find_by_game_family : AdMap → String → Result RepoError (List Ad)
find_by_game_family ads game_family =
    ok (keep_if (λ (a : Ad). str_eq a.game_family game_family) (values ads))

unfoldable pub find_all : AdMap → Result RepoError (List Ad)
find_all ads = ok (values ads)

unfoldable pub delete_ad : AdMap → String → AdMap × Result RepoError (Unit {0})
delete_ad ads id = (delete id ads, ok tt)

unfoldable pub find_by_status : AdMap → AdStatus → Result RepoError (List Ad)
unfolding same_status
find_by_status ads status = ok (keep_if (λ (a : Ad). same_status a.status status) (values ads))

unfoldable pub find_older_than : AdMap → ℤ → Result RepoError (List Ad)
find_older_than ads threshold = ok (keep_if (λ (a : Ad). ltb_ℤ a.created_at threshold) (values ads))

-- The loop stops at the first ad that refuses, with the earlier ones changed.
unfoldable pub update_priority_batch : AdMap → List String → ℤ → AdMap × Result RepoError (Unit {0})
unfolding change_priority
update_priority_batch ads [] new_priority = (ads, ok tt)
update_priority_batch ads (id ∷ ids) new_priority = elim (lookup id ads) [
  | none ↦ update_priority_batch ads ids new_priority
  | some a ↦ elim (change_priority a new_priority) [
    | err e ↦ (ads, err (batch_rejected id e))
    | ok b ↦ update_priority_batch (insert id b ads) ids new_priority
  ]
]

abbrev written_back : AdMap → String → Result AdError Ad → AdMap × Result RepoError (Unit {0})
written_back ads id (err e) = (ads, err (rejected e))
written_back ads id (ok a) = (insert id a ads, ok tt)

-- The `switch` on the status; the clock is an argument.
abbrev moved : AdMap → String → ℤ → Ad → AdStatus → AdMap × Result RepoError (Unit {0})
moved ads id now a queued = (ads, ok tt)
moved ads id now a processing = written_back ads id (start_processing a now)
moved ads id now a completed = written_back ads id (complete_processing a now)
moved ads id now a failed = written_back ads id (fail_processing a)

unfoldable pub update_status :
    ℤ → AdMap → String → AdStatus → ℕ → AdMap × Result RepoError (Unit {0})
update_status now ads id status version = elim (lookup id ads) [
  | none ↦ (ads, err not_found)
  | some a ↦ moved ads id now a status
]

unfoldable pub count : AdMap → Result RepoError ℕ
count ads = ok (length ads)

unfoldable pub count_by_status : AdMap → AdStatus → Result RepoError ℕ
unfolding same_status
count_by_status ads status = ok (count_if (λ (a : Ad). same_status a.status status) (values ads))

unfoldable pub count_by_priority : AdMap → ℤ → Result RepoError ℕ
count_by_priority ads priority =
    ok (count_if (λ (a : Ad). leb_ℤ a.priority priority && leb_ℤ priority a.priority) (values ads))

abbrev pub memory_ads : ℤ → Repository
memory_ads now = record {
  Store = AdMap;
  save = save;
  find_by_id = find_by_id;
  find_by_game_family = find_by_game_family;
  find_by_status = find_by_status;
  find_older_than = find_older_than;
  update_priority_batch = update_priority_batch;
  update_status = update_status now;
  delete_ad = delete_ad;
  count = count;
  count_by_status = count_by_status;
  count_by_priority = count_by_priority;
}

-- Every ad stands under its identifier.
abbrev pub Keyed : AdMap → Type 0
Keyed ads = (id : String) (a : Ad) → lookup id ads ≡ some a → a.id ≡ id

pub save-Keyed : (ads : AdMap) (a : Ad) → Keyed ads → Keyed (insert a.id a ads)
save-Keyed ads a keyed id b e =
    let now = sym (lookup-insert a.id id a ads) ∙ e in
    elim (Bool-cases (str_eq a.id id)) [
      | inl same ↦ ap (λ x. x.id) (sym (some-injective (rw same at now))) ∙ (eq_iff a.id id).0 same
      | inr other ↦ keyed id b (rw other at now)
    ]

found-some : (o : Option Ad) (a : Ad) → found o ≡ ok a → o ≡ some a
found-some none a h = cc
found-some (some b) a h = ap some (ok-injective h)

pub found-id :
    (ads : AdMap) (id : String) (a : Ad) → Keyed ads → find_by_id ads id ≡ ok a → a.id ≡ id
unfolding find_by_id
found-id ads id a up e = up id a (found-some (lookup id ads) a e)

pub save_up : (ads : AdMap) (a : Ad) → Keyed ads → ((save ads a).1 ≡ ok tt) × Keyed (save ads a).0
unfolding save
save_up ads a up = (refl, save-Keyed ads a up)

pub found-save : (ads : AdMap) (a : Ad) → find_by_id (save ads a).0 a.id ≡ ok a
unfolding find_by_id save
found-save ads a = rw (lookup-insert a.id a.id a ads, str_refl a.id) refl

pub found-save_ne :
    (ads : AdMap) (a : Ad) (id : String)
    → a.id ≢ id
    → find_by_id (save ads a).0 id ≡ find_by_id ads id
unfolding find_by_id save
found-save_ne ads a id ne = rw (lookup-insert a.id id a ads, str_ne a.id id ne) refl

-- The repository in memory keeps the contract of ad persistence.
abbrev pub memory_ads_laws : (now : ℤ) → Laws (memory_ads now)
memory_ads_laws now = record {
  Up = Keyed;
  find-id = λ ads id a up e. found-id ads id a up e;
  Fits = λ a. Unit;
  find-Fits = λ ads id a up e. tt;
  Fits-status = λ a status started processed position version fits. tt;
  save_ok = λ ads a b up fits e next. save_up ads a up;
  save_new = λ ads a up fits e. save_up ads a up;
  find-save = λ ads a up h.
      (a, found-save ads a, record { same_id = refl; same_status = refl; same_version = refl });
  find-save_ne = λ ads a id up h ne. found-save_ne ads a id ne;
}
