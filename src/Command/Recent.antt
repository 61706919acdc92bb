-- ===== src/Command/Recent.antt =====
-- internal/infrastructure/persistence/memory_command_repository.go: the audit trail, its searches
-- and its cleanup. `sort.Slice` leaves the order of equal times open; here they keep theirs.
use Prim.Native.Nat.{min}
use mathlib.Core.List.{append-nil}
use home_work_ad_processor_g.Prelude.{
  ℕ, suc, ◌≡◌, refl, ap, ◌∙◌, arith, Bool, true, false, not, ◌&&◌, Option, List, [], ◌∷◌, String,
  if◌then◌else◌, Bool-cases, inl, inr, ℤ, pos, ◌-ℤ◌, ◌≤ℤ◌, ltb_ℤ, length, ◌++◌, drop,
  take-append-drop, length-take, take, keep_if, count_if, All, lookup, values, pos_part,
}
use home_work_ad_processor_g.Command.{
  Command, CommandStatus, pending, executing, executed, failed, invalid,
}
use home_work_ad_processor_g.Command.CommandService.{CommandMap}

abbrev pub find_by_id : CommandMap → String → Option Command
find_by_id commands id = lookup id commands

-- Most recent first.
abbrev pub place : Command → List Command → List Command
place c [] = c ∷ []
place c (d ∷ ds) =
    let rest = place c ds in if ltb_ℤ c.created_at d.created_at then d ∷ rest else c ∷ d ∷ ds

unfoldable pub sort_recent : List Command → List Command
sort_recent [] = []
sort_recent (c ∷ cs) = place c (sort_recent cs)

unfoldable pub find_recent : CommandMap → ℤ → List Command
unfolding sort_recent
find_recent commands limit =
    let sorted = sort_recent (values commands) in
    if ltb_ℤ (pos 0) limit && ltb_ℤ limit (pos (length sorted))
    then take (pos_part limit) sorted
    else sorted

abbrev pub is_pending : CommandStatus → Bool
is_pending pending = true
is_pending _ = false

abbrev pub is_executing : CommandStatus → Bool
is_executing executing = true
is_executing _ = false

abbrev pub is_executed : CommandStatus → Bool
is_executed executed = true
is_executed _ = false

abbrev pub is_failed : CommandStatus → Bool
is_failed failed = true
is_failed _ = false

abbrev pub is_invalid : CommandStatus → Bool
is_invalid invalid = true
is_invalid _ = false

-- `==` on `CommandStatus`.
abbrev pub same_status : CommandStatus → CommandStatus → Bool
same_status pending s = is_pending s
same_status executing s = is_executing s
same_status executed s = is_executed s
same_status failed s = is_failed s
same_status invalid s = is_invalid s

unfoldable pub find_by_status : CommandMap → CommandStatus → List Command
unfolding sort_recent
find_by_status commands status =
    sort_recent (keep_if (λ (c : Command). same_status c.status status) (values commands))

-- The loop of `CleanupOldCommands`: the kept commands and the number of the deleted.
unfoldable pub cleanup_before : CommandMap → ℤ → CommandMap × ℕ
cleanup_before [] threshold = ([], 0)
cleanup_before ((id, c) ∷ commands) threshold =
    let (kept, count) = cleanup_before commands threshold in
    if ltb_ℤ c.created_at threshold then (kept, suc count) else ((id, c) ∷ kept, count)

unfoldable pub cleanup_old_commands : CommandMap → ℤ → ℤ → CommandMap × ℕ
unfolding cleanup_before
cleanup_old_commands commands now max_age = cleanup_before commands (now -ℤ max_age)

-- Each command is at least as recent as those behind it.
abbrev pub AtLeast : ℤ → List Command → Type 0
AtLeast t = All (λ (c : Command). c.created_at ≤ℤ t)

abbrev pub IsRecentFirst : List Command → Type 0
IsRecentFirst [] = Unit
IsRecentFirst (c ∷ cs) = AtLeast c.created_at cs × IsRecentFirst cs

AtLeast-mono : (t u : ℤ) (cs : List Command) → t ≤ℤ u → AtLeast t cs → AtLeast u cs
AtLeast-mono t u [] h k = tt
AtLeast-mono t u (c ∷ cs) h k = (omega arith, AtLeast-mono t u cs h k.1)

AtLeast-place :
    (t : ℤ) (c : Command) (cs : List Command)
    → c.created_at ≤ℤ t
    → AtLeast t cs
    → AtLeast t (place c cs)
AtLeast-place t c [] h k = (h, tt)
AtLeast-place t c (d ∷ ds) h k = elim (Bool-cases (ltb_ℤ c.created_at d.created_at)) [
  | inl e ↦ rw e (k.0, AtLeast-place t c ds h k.1)
  | inr e ↦ rw e (h, k)
]

place-IsRecentFirst :
    (c : Command) (cs : List Command) → IsRecentFirst cs → IsRecentFirst (place c cs)
place-IsRecentFirst c [] h = (tt, tt)
place-IsRecentFirst c (d ∷ ds) h = elim (Bool-cases (ltb_ℤ c.created_at d.created_at)) [
  | inl e ↦ rw e (AtLeast-place d.created_at c ds (ground arith) h.0, place-IsRecentFirst c ds h.1)
  | inr e ↦ rw e ((ground arith, AtLeast-mono d.created_at c.created_at ds (ground arith) h.0), h)
]

sort_recent-IsRecentFirst : (cs : List Command) → IsRecentFirst (sort_recent cs)
unfolding sort_recent
sort_recent-IsRecentFirst [] = tt
sort_recent-IsRecentFirst (c ∷ cs) =
    place-IsRecentFirst c (sort_recent cs) (sort_recent-IsRecentFirst cs)

count_if-place :
    (p : Command → Bool) (c : Command) (cs : List Command)
    → count_if p (place c cs) ≡ count_if p (c ∷ cs)
count_if-place p c [] = refl
count_if-place p c (d ∷ ds) = ground (arith, count_if-place p c ds)

count_if-sort_recent :
    (p : Command → Bool) (cs : List Command) → count_if p (sort_recent cs) ≡ count_if p cs
unfolding sort_recent
count_if-sort_recent p [] = refl
count_if-sort_recent p (c ∷ cs) =
    count_if-place p c (sort_recent cs) ∙ rw (count_if-sort_recent p cs) refl

length-sort_recent : (cs : List Command) → length (sort_recent cs) ≡ length cs
unfolding sort_recent
length-sort_recent [] = refl
length-sort_recent (c ∷ cs) = length-place c (sort_recent cs) ∙ ap suc (length-sort_recent cs)
  where
    length-place : (c : Command) (cs : List Command) → length (place c cs) ≡ suc (length cs)
    length-place c [] = refl
    length-place c (d ∷ ds) = ground (arith, length-place c ds)

-- The answer, followed by the commands that it leaves out, is all the commands, most recent first.
pub record Recent (commands : CommandMap) (limit : ℤ) (out : List Command) : Type 0 where
  pub left_out : List Command
  pub recent_first : IsRecentFirst (out ++ left_out)
  pub complete : (p : Command → Bool) → count_if p (out ++ left_out) ≡ count_if p (values commands)
  pub size : length out ≡ (
      if ltb_ℤ (pos 0) limit
      then min (pos_part limit) (length (values commands))
      else length (values commands))

-- The two branches of the limit.
abbrev within_limit : ℤ → ℕ → Bool
within_limit limit n = ltb_ℤ (pos 0) limit && ltb_ℤ limit (pos n)

abbrev limited : ℤ → ℕ → ℕ
limited limit n = if ltb_ℤ (pos 0) limit then min (pos_part limit) n else n

cut_lem :
    (limit : ℤ) (sorted all taken : ℕ)
    → sorted ≡ all
    → within_limit limit sorted ≡ true
    → taken ≡ min (pos_part limit) sorted
    → taken ≡ limited limit all
cut_lem limit sorted all taken same e t = ground arith

size_lem :
    (limit : ℤ) (sorted all : ℕ)
    → sorted ≡ all
    → within_limit limit sorted ≡ false
    → sorted ≡ limited limit all
size_lem limit sorted all same e = ground arith

-- `FindRecent` answers with the most recent commands in order, as many as the limit allows, or with
-- all of them when the limit is not positive.
pub find_recent-Recent :
    (commands : CommandMap) (limit : ℤ) → Recent commands limit (find_recent commands limit)
unfolding find_recent
find_recent-Recent commands limit =
    let sorted = sort_recent (values commands) in
    let size = length-sort_recent (values commands) in
    elim (Bool-cases (ltb_ℤ (pos 0) limit && ltb_ℤ limit (pos (length sorted)))) [
      | inl e ↦ rw e (record {
        left_out = drop (pos_part limit) sorted;
        recent_first =
            rw (take-append-drop (pos_part limit) sorted)
              (sort_recent-IsRecentFirst (values commands));
        complete = λ p.
            rw (take-append-drop (pos_part limit) sorted)
              (count_if-sort_recent p (values commands));
        size =
            cut_lem limit (length sorted) (length (values commands))
              (length (take (pos_part limit) sorted)) size e (length-take (pos_part limit) sorted);
      })
      | inr e ↦ rw e (record {
        left_out = [];
        recent_first = rw (append-nil sorted) (sort_recent-IsRecentFirst (values commands));
        complete = λ p. rw (append-nil sorted) (count_if-sort_recent p (values commands));
        size = size_lem limit (length sorted) (length (values commands)) size e;
      })
    ]

cleanup_before_lem :
    (commands : CommandMap) (t : ℤ)
    → (values (cleanup_before commands t).0
        ≡ keep_if (λ (c : Command). not (ltb_ℤ c.created_at t)) (values commands))
      × ((cleanup_before commands t).1
          ≡ count_if (λ (c : Command). ltb_ℤ c.created_at t) (values commands))
unfolding cleanup_before values
cleanup_before_lem [] t = (refl, refl)
cleanup_before_lem ((id, c) ∷ commands) t =
    let (kept, count) = cleanup_before_lem commands t in
    elim (Bool-cases (ltb_ℤ c.created_at t)) [
      | inl e ↦ rw e (kept, ap suc count)
      | inr e ↦ rw e (ap (λ l. c ∷ l) kept, count)
    ]

-- `CleanupOldCommands` deletes exactly the commands that are older than the given age, keeps the
-- others in their order, and answers with the number of the deleted ones.
cleanup_old_commands_lem :
    (commands : CommandMap) (now max_age : ℤ)
    → (values (cleanup_old_commands commands now max_age).0
        ≡ keep_if (λ (c : Command). not (ltb_ℤ c.created_at (now -ℤ max_age))) (values commands))
      × ((cleanup_old_commands commands now max_age).1
          ≡ count_if (λ (c : Command). ltb_ℤ c.created_at (now -ℤ max_age)) (values commands))
unfolding cleanup_old_commands
cleanup_old_commands_lem commands now max_age = cleanup_before_lem commands (now -ℤ max_age)
