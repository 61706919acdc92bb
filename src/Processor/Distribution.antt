-- ===== src/Processor/Distribution.antt =====
-- What becomes of the items that `distributeItems` is given.
use home_work_ad_processor_g.Prelude.{
  ℕ, suc, ◌+◌, ◌-◌, ◌≤◌, ◌≡◌, refl, Bool, Option, none, some, List, [], ◌∷◌, ◌++◌, arith,
  if◌then◌else◌, length, length-append, count_if, count_if-append, inl, inr, take-nil, drop-nil,
  drop-cons, count_if-take-cons, take, drop, true, Bool-cases, ◌<◌, ltb, All,
}
use home_work_ad_processor_g.Queue.{QueueItem}
use home_work_ad_processor_g.Processor.{
  Channel, capacity, offer, offer_first, hand_over, distribute_items,
}

-- How many waiting items pass a test.
abbrev pub waiting : (QueueItem → Bool) → List Channel → ℕ
waiting p [] = 0
waiting p (c ∷ cs) = count_if p c + waiting p cs

-- The free places of all the channels.
abbrev pub free : List Channel → ℕ
free [] = 0
free (c ∷ cs) = (capacity - length c) + free cs

abbrev pub WithinCapacity : List Channel → Type 0
WithinCapacity = All (λ (c : Channel). length c ≤ capacity)

abbrev one : (QueueItem → Bool) → QueueItem → ℕ
one p q = count_if p (q ∷ [])

-- What an offer does, by its answer.
abbrev Offered : (QueueItem → Bool) → QueueItem → List Channel → Option (List Channel) → Type 0
Offered p q cs none = free cs ≡ 0
Offered p q cs (some ds) =
    (waiting p ds ≡ waiting p cs + one p q)
    × (free cs ≡ suc (free ds))
    × (WithinCapacity cs → WithinCapacity ds)

-- A channel with room takes the item.
placed :
    (p : QueueItem → Bool) (q : QueueItem) (c : Channel) (cs : List Channel)
    → length c < capacity
    → Offered p q (c ∷ cs) (some ((c ++ q ∷ []) ∷ cs))
placed p q c cs room =
    let counted = count_if-append p c (q ∷ []) in
    let longer = length-append c (q ∷ []) in (omega arith, omega arith, λ h. (omega arith, h.1))

offer_cons :
    (p : QueueItem → Bool) (q : QueueItem) (c : Channel) (cs : List Channel)
    (rest : Option (List Channel))
    → Offered p q cs rest
    → Offered p q (c ∷ cs) (
        if ltb (length c) capacity
        then some ((c ++ q ∷ []) ∷ cs)
        else elim rest [ none ↦ none | some ds ↦ some (c ∷ ds) ])
offer_cons p q c cs rest o = elim (Bool-cases (ltb (length c) capacity)) [
  | inl room ↦ rw room (placed p q c cs (ground arith))
  | inr busy ↦ rw busy (later rest o (ground arith))
]
  where
    later :
        (rest : Option (List Channel))
        → Offered p q cs rest
        → capacity ≤ length c
        → Offered p q (c ∷ cs) (elim rest [ none ↦ none | some ds ↦ some (c ∷ ds) ])
    later none o busy = omega arith
    later (some ds) (counted, freed, within) busy =
        (omega arith, omega arith, λ h. (h.0, within h.1))

offer-Offered :
    (p : QueueItem → Bool) (q : QueueItem) (cs : List Channel) → Offered p q cs (offer q cs)
unfolding offer
offer-Offered p q [] = refl
offer-Offered p q (c ∷ cs) = offer_cons p q c cs (offer q cs) (offer-Offered p q cs)

-- Without a free place the first worker has none either, and the item is skipped.
skipped_lem : (q : QueueItem) (cs : List Channel) → free cs ≡ 0 → offer_first q cs ≡ none
unfolding offer_first
skipped_lem q [] e = refl
skipped_lem q (c ∷ cs) e = ground arith

-- One item or several: the free places take the first ones and the others are skipped.
pub record Handed (items : List QueueItem) (cs : List Channel) (out : List Channel × List QueueItem)
    : Type 0 where
  pub counted :
      (p : QueueItem → Bool) → waiting p out.0 ≡ waiting p cs + count_if p (take (free cs) items)
  pub skipped : out.1 ≡ drop (free cs) items
  pub room : free out.0 ≡ free cs - length items
  pub within : WithinCapacity out.0

hand_over-Handed :
    (q : QueueItem) (cs : List Channel) → WithinCapacity cs → Handed (q ∷ []) cs (hand_over q cs)
unfolding hand_over
hand_over-Handed q cs h = by_offer (offer q cs) (λ p. offer-Offered p q cs)
  where
    by_offer :
        (o : Option (List Channel))
        → ((p : QueueItem → Bool) → Offered p q cs o)
        → Handed (q ∷ []) cs (elim o [
          | some ds ↦ (ds, [])
          | none ↦ elim (offer_first q cs) [ some ds ↦ (ds, []) | none ↦ (cs, q ∷ []) ]
        ])
    by_offer none e =
        let full = e (λ q. true) in
        rw (skipped_lem q cs full) (record {
          counted = λ p. rw full (omega arith);
          skipped = rw full refl;
          room = omega arith;
          within = h;
        })
    by_offer (some ds) o =
        let (_, f, w) = o (λ q. true) in
        record {
          counted = λ p. rw (f, take-nil (free ds)) ((o p).0);
          skipped = rw (f, drop-nil (free ds)) refl;
          room = omega arith;
          within = w h;
        }

-- With no channel above its capacity of ten, `distributeItems` hands the first items of the batch to
-- the workers' channels, as many as there are free places, and skips all the others; what waited
-- before still waits, and no channel goes above its capacity.
pub distribute_items-Handed :
    (items : List QueueItem) (cs : List Channel)
    → WithinCapacity cs
    → Handed items cs (distribute_items items cs)
unfolding distribute_items
distribute_items-Handed [] cs h = record {
  counted = λ p. rw (take-nil (free cs)) (omega arith);
  skipped = rw (drop-nil (free cs)) refl;
  room = omega arith;
  within = h;
}
distribute_items-Handed (q ∷ items) cs h =
    let one = hand_over-Handed q cs h in
    let more = distribute_items-Handed items (hand_over q cs).0 one.within in
    record {
      counted = λ p.
          let sum = count_if-take-cons p (free cs) q items in
          let later = rw one.room at (more.counted p) in omega (arith, one.counted p, later, sum);
      skipped = rw (one.skipped, more.skipped, one.room) (drop-cons (free cs) q items);
      room = omega (arith, one.room, more.room);
      within = more.within;
    }
