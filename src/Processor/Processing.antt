-- ===== src/Processor/Processing.antt =====
-- cmd/ad-processor/main.go, `processAd`: what a worker's processing leaves in the repository.
use home_work_ad_processor_g.Prelude.{
  ℕ, ◌+◌, ◌≡◌, ◌≢◌, refl, sym, ap, ◌∙◌, Bool, true, false, String, ℤ, some, none, subst, arith,
  Result, ok, err, if◌then◌else◌,
}
use home_work_ad_processor_g.Ad.{
  Ad, is_queued, AdStatus, AdError, start_processing, complete_processing,
}
use home_work_ad_processor_g.Repository.{Repository, Laws, Agrees, RepoError}
use home_work_ad_processor_g.Processor.{
  ProcessError, process_ad, completed_ad, saved_started, saved_final,
}

abbrev pub final : Bool → AdStatus
final is_cancelled = if is_cancelled then AdStatus.processing else AdStatus.completed

abbrev pub steps : Bool → ℕ
steps is_cancelled = if is_cancelled then 1 else 2

abbrev pub answer : Bool → Result ProcessError (Unit {0})
answer is_cancelled = if is_cancelled then err ProcessError.cancelled else ok tt

module _ (r : Repository) (laws : Laws r) where
  open r use {Store, find_by_id}
  open laws use {Up}

  -- `b` is the stored ad, with the status and the version that the processing of `a` ends in.
  pub record Processed (a : Ad) (s : Store) (is_cancelled : Bool)
      (out : Store × Result ProcessError (Unit {0})) : Type 0 where
    pub b : Ad
    pub answered : out.1 ≡ answer is_cancelled
    pub stored : find_by_id out.0 a.id ≡ ok b
    pub status : b.status ≡ final is_cancelled
    pub version : b.version ≡ a.version + steps is_cancelled
    pub others : (id : String) → a.id ≢ id → find_by_id out.0 id ≡ find_by_id s id
    pub up : Up out.0

  abbrev started : Ad → ℤ → Ad
  started a now = record a {
    status = AdStatus.processing;
    processing_started_at = some now;
    queue_position = none;
    version = a.version + 1;
  }

  start_lem :
      (a : Ad) (now : ℤ) → a.status ≡ AdStatus.queued → start_processing a now ≡ ok (started a now)
  unfolding start_processing
  start_lem a now e = rw (ap is_queued e) refl

  saved_started_lem :
      (a : Ad) (w : Bool) (later : ℤ) (p : Store × Result RepoError (Unit {0}))
      → p.1 ≡ ok tt
      → saved_started r a w later p ≡ (
          if w
          then (p.0, err ProcessError.cancelled)
          else completed_ad r p.0 (complete_processing a later))
  saved_started_lem a w later (s, ok u) h = refl
  saved_started_lem a w later (s, err e) h = cc

  saved_final_lem :
      (p : Store × Result RepoError (Unit {0})) → p.1 ≡ ok tt → saved_final r p ≡ (p.0, ok tt)
  saved_final_lem (s, ok u) h = refl
  saved_final_lem (s, err e) h = cc

  abbrev finished : Ad → ℤ → Ad
  finished a later = record a {
    status = AdStatus.completed;
    processed_at = some later;
    version = a.version + 1;
  }

  -- The final save of an ad whose processing has started.
  finish-Processed :
      (a : Ad) (s s1 : Store) (c : Ad) (now later : ℤ)
      → find_by_id s1 a.id ≡ ok c
      → Agrees (started a now) c
      → Up s1
      → laws.Fits (started a now)
      → ((id : String) → a.id ≢ id → find_by_id s1 id ≡ find_by_id s id)
      → Processed a s false (completed_ad r s1 (complete_processing (started a now) later))
  unfolding complete_processing
  finish-Processed a s s1 c now later found agrees up fits others =
      let a2 = finished (started a now) later in
      let fits2 =
        laws.Fits-status (started a now) AdStatus.completed (some now) (some later) none
          (a2.version) fits in
      let (saved, up2) = laws.save_ok s1 a2 c up fits2 found (omega (arith, agrees.same_version)) in
      let (b, stored, same) = laws.find-save s1 a2 up saved in
      rw (saved_final_lem (r.save s1 a2) saved) (record {
        b = b;
        answered = refl;
        stored = stored;
        status = same.same_status;
        version = omega (arith, same.same_version);
        others = λ id ne. laws.find-save_ne s1 a2 id up saved ne ∙ others id ne;
        up = up2;
      })

  -- On a repository that is up, `processAd` of a queued ad ends with the stored ad completed and two
  -- versions further, or, when it is cancelled during the wait, with the answer that it was
  -- cancelled and the stored ad in processing and one version further; no other ad changes.
  pub process_ad-Processed :
      (s : Store) (id : String) (a : Ad) (now : ℤ) (is_cancelled : Bool) (later : ℤ)
      → Up s
      → find_by_id s id ≡ ok a
      → a.status ≡ AdStatus.queued
      → Processed a s is_cancelled (process_ad r s id now is_cancelled later)
  unfolding process_ad
  process_ad-Processed s id a now is_cancelled later up found queued =
      let a1 = started a now in
      let fits =
        laws.Fits-status a AdStatus.processing (some now) a.processed_at none a1.version
          (laws.find-Fits s id a up found) in
      let found' = subst (λ i. find_by_id s i ≡ ok a) (sym (laws.find-id s id a up found)) found in
      let (saved, up1) = laws.save_ok s a1 a up fits found' (omega arith) in
      let (c, stored, same) = laws.find-save s a1 up saved in
      let others : (i : String) → a.id ≢ i → find_by_id (r.save s a1).0 i ≡ find_by_id s i =
        λ i ne. laws.find-save_ne s a1 i up saved ne in
      rw
        (found, start_lem a now queued, saved_started_lem a1 is_cancelled later (r.save s a1) saved)
        (elim is_cancelled
          as (λ w. Processed a s w (
            if w
            then ((r.save s a1).0, err ProcessError.cancelled)
            else completed_ad r (r.save s a1).0 (complete_processing a1 later))) [
              | true ↦ record {
                b = c;
                answered = refl;
                stored = stored;
                status = same.same_status;
                version = same.same_version;
                others = others;
                up = up1;
              }
              | false ↦ finish-Processed a s (r.save s a1).0 c now later stored same up1 fits others
            ])

  not_queued : (s : AdStatus) → s ≢ AdStatus.queued → is_queued s ≡ false
  not_queued AdStatus.queued ne = absurd (ne refl)
  not_queued AdStatus.processing ne = refl
  not_queued AdStatus.completed ne = refl
  not_queued AdStatus.failed ne = refl

  -- On any ad that is not queued, `processAd` answers with an invalid transition and the repository
  -- is as it was: an ad that was taken twice is processed once.
  process_ad_once :
      (s : Store) (id : String) (a : Ad) (now : ℤ) (is_cancelled : Bool) (later : ℤ)
      → find_by_id s id ≡ ok a
      → a.status ≢ AdStatus.queued
      → process_ad r s id now is_cancelled later
        ≡ (s, err (ProcessError.start_failed AdError.invalid_status_transition))
  unfolding process_ad start_processing
  process_ad_once s id a now is_cancelled later found ne = rw (found, not_queued a.status ne) refl
