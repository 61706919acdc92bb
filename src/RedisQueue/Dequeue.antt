-- ===== src/RedisQueue/Dequeue.antt =====
-- What `Enqueue` and `Dequeue` do on a server that is up.
use mathlib.Core.List.{head?}
use native.Mathlib.Decide.{ℕ_discrete}
use home_work_ad_processor_g.Prelude.{
  ℕ, zero, suc, ◌+◌, ◌<◌, ◌≡◌, refl, sym, ap, subst, ◌⊎◌, inl, inr, Bool, Option, none, some, List,
  [], ◌∷◌, String, arith, ◌==◌, if◌then◌else◌, ℤ, pos, ltb_ℤ, take, Result, Bool-cases,
}
use home_work_ad_processor_g.Ad.{parse_ad_id}
use home_work_ad_processor_g.Queue.{QueueItem, new_queue_item}
use home_work_ad_processor_g.Redis.{Redis, Laws, Reply}
use home_work_ad_processor_g.Redis.Sets.{Z, AtMost, IsDescending, without, AtMost-mono}
use home_work_ad_processor_g.RedisQueue.{
  Manager, QueueError, invalid_ad_id, better, peek, taken, dequeue,
}
use home_work_ad_processor_g.RedisQueue.Score.{score_priority}

-- What the loop of `Dequeue` knows of the shards below `i`.
abbrev pub IsBest : (ℕ → List Z) → ℕ → Option (Z × ℕ) → Type 0
IsBest sets i none = (j : ℕ) → j < i → sets j ≡ []
IsBest sets i (some (z, k)) =
    (k < i) × (head? (sets k) ≡ some z) × ((j : ℕ) → j < i → AtMost z.score (sets j))

-- From the rounds below `i` to those below `i + 1`.
extend {ℓ} : (P : ℕ → Type ℓ) (i : ℕ) → ((j : ℕ) → j < i → P j) → P i → (j : ℕ) → j < suc i → P j
extend P i below here j h = elim (ℕ_discrete j i) [
  | yes e ↦ subst P (sym e) here
  | no ne ↦ below j (omega arith)
]

better-IsBest :
    (sets : ℕ → List Z) (i : ℕ) (best : Option (Z × ℕ)) (l : List Z)
    → sets i ≡ l
    → IsDescending l
    → IsBest sets i best
    → IsBest sets (suc i) (better (take 1 l) i best)
better-IsBest sets i none [] e d b = extend (λ j. sets j ≡ []) i b e
better-IsBest sets i (some (y, k)) [] e d (low, top, most) = (
  omega arith,
  top,
  extend (λ j. AtMost y.score (sets j)) i most (subst (AtMost y.score) (sym e) tt),
)
better-IsBest sets i none (z ∷ l) e d b = (
  omega arith,
  ap head? e,
  extend (λ j. AtMost z.score (sets j)) i (λ j h. subst (AtMost z.score) (sym (b j h)) tt)
      (subst (AtMost z.score) (sym e) (omega arith, d.0)),
)
better-IsBest sets i (some (y, k)) (z ∷ l) e d (low, top, most) =
    elim (Bool-cases (ltb_ℤ y.score z.score)) [
      | inl up ↦ rw up (
        omega arith,
        ap head? e,
        extend (λ j. AtMost z.score (sets j)) i
            (λ j h. AtMost-mono y.score z.score (sets j) (ground arith) (most j h))
            (subst (AtMost z.score) (sym e) (omega arith, d.0)),
      )
      | inr down ↦ rw down (
        omega arith,
        top,
        extend (λ j. AtMost y.score (sets j)) i most
            (subst (AtMost y.score) (sym e)
              (ground arith, AtMost-mono z.score y.score l (ground arith) d.0)),
      )
    ]

module _ (r : Redis) (laws : Laws r) (uuid_ok : String → Bool) where
  open r use {Store}
  open laws use {zset, Up}

  -- The loop ends, with the best item of all the shards.
  peek-IsBest :
      (s : Store) (n i top : ℕ) (best : Option (Z × ℕ))
      → Up s
      → i + n ≡ top
      → IsBest (zset s) i best
      → (b : Option (Z × ℕ)) × (peek r uuid_ok s n i best ≡ Result.ok b) × IsBest (zset s) top b
  unfolding peek
  peek-IsBest s zero i top best up e b =
      (best, refl, subst (λ t. IsBest (zset s) t best) (omega arith) b)
  peek-IsBest s (suc n) i top best up e b =
      rw (laws.zrevrange_lem s i (pos 0) up, peek)
        (peek-IsBest s n (suc i) top (better (take 1 (zset s i)) i best) up (omega arith)
          (better-IsBest (zset s) i best (zset s i) refl (laws.zset-IsDescending s i up) b))

  -- What `Dequeue` answers for an item that it has taken out.
  abbrev pub answer : Z → ℤ → Result QueueError (Option QueueItem)
  answer z now =
      if uuid_ok z.member
      then Result.ok (some (new_queue_item z.member (score_priority z.score) now))
      else Result.err invalid_ad_id

  taken_lem :
      (z : Z) (now : ℤ) (p : Store × Reply ℕ) (n : ℕ)
      → p.1 ≡ Reply.ok n
      → taken r uuid_ok z now p ≡ (p.0, answer z now)
  unfolding parse_ad_id
  taken_lem z now (s, Reply.ok m) n h = ground arith
  taken_lem z now (s, Reply.nil) n h = cc
  taken_lem z now (s, Reply.fail) n h = cc

  -- An item `z` at the top of a shard `k`, with no item of any shard above it, is taken out.
  pub record Takes (n : ℕ) (s : Store) (now : ℤ)
      (out : Store × Result QueueError (Option QueueItem)) : Type 0 where
    pub z : Z
    pub k : ℕ
    pub in_range : k < n
    pub top : head? (zset s k) ≡ some z
    pub most : (j : ℕ) → j < n → AtMost z.score (zset s j)
    pub answered : out.1 ≡ answer z now
    pub left :
        (j : ℕ) → zset out.0 j ≡ (if k == j then without (z.member ∷ []) (zset s k) else zset s j)
    pub up : Up out.0

  -- On a server that is up, `Dequeue` either finds every shard empty and answers that there is no
  -- item, with the queue as it was; or it takes out one item from the top of its shard that no item
  -- of any shard scores above, leaves every other item where it was, and answers with the item's
  -- identifier and the priority read from its score, or with an error if the identifier is no UUID.
  pub dequeue-Takes :
      (m : Manager) (s : Store) (now : ℤ)
      → Up s
      → (((j : ℕ) → j < m.shard_count → zset s j ≡ [])
          × (dequeue r uuid_ok m s now ≡ (s, Result.ok none)))
        ⊎ Takes m.shard_count s now (dequeue r uuid_ok m s now)
  unfolding dequeue parse_ad_id
  dequeue-Takes m s now up =
      let (b, e, best) =
        peek-IsBest s m.shard_count 0 m.shard_count none up (omega arith)
          (λ j h. absurd (omega arith)) in
      cases b e best
    where
      cases :
          (b : Option (Z × ℕ))
          → peek r uuid_ok s m.shard_count 0 none ≡ Result.ok b
          → IsBest (zset s) m.shard_count b
          → (((j : ℕ) → j < m.shard_count → zset s j ≡ [])
              × (dequeue r uuid_ok m s now ≡ (s, Result.ok none)))
            ⊎ Takes m.shard_count s now (dequeue r uuid_ok m s now)
      cases none e best = inl (best, rw e)
      cases (some (z, k)) e (low, top, most) = inr (
          rw
            (
              e,
              taken_lem z now (r.zrem s k (z.member ∷ [])) _ (laws.zrem_ok s k (z.member ∷ []) up),
            )
            (record {
              z = z;
              k = k;
              in_range = low;
              top = top;
              most = most;
              answered = refl;
              left = λ j. laws.zset-zrem s k (z.member ∷ []) j up;
              up = laws.zrem-Up s k (z.member ∷ []) up;
            }))
