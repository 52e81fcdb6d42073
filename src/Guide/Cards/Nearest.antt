-- ===== src/Guide/Cards/Nearest.antt =====
-- Which card a move of the keyboard leads to.
use mathlib.Core.List.{Mem, mem-cons_self, mem-cons_of_mem}
use strata_pvr.Base.{
  ◌≤◌, ◌<◌, Bool, true, false, Option, none, some, List, [], ◌∷◌, eqb, eqb_iff, ltb, filter, All,
  sort, insert, IsSorted, sort-IsSorted, is_gt, ◌≡◌, inl, inr, Bool-cases, arith,
}
use strata_pvr.Guide.Cards.{Card, down, first_of, by_start, same_channel, adjacent_schedule_card}

-- What holds of the elements of a sorted list holds of those that were sorted.
module _ (P : Card → Type 0) where
  All-insert : (x : Card) (ys : List Card) → All P (insert by_start x ys) → P x × All P ys
  unfolding insert
  All-insert x [] h = h
  All-insert x (y ∷ ys) h = elim (Bool-cases (is_gt (by_start x y))) [
    | inl g ↦ let (p, rest) = rw g at h in let (q, more) = All-insert x ys rest in (q, (p, more))
    | inr g ↦ rw g at h
  ]

  All-sort : (xs : List Card) → All P (sort by_start xs) → All P xs
  unfolding sort
  All-sort [] h = tt
  All-sort (x ∷ xs) h = let (p, rest) = All-insert x (sort by_start xs) h in (p, All-sort xs rest)

  All-of_filter :
      (p : Card → Bool) (xs : List Card) → All P (filter p xs) → All (λ x. p x ≡ true → P x) xs
  All-of_filter p [] h = tt
  All-of_filter p (x ∷ xs) h = elim (Bool-cases (p x)) [
    | inl e ↦ let (q, rest) = rw e at h in ((λ _. q), All-of_filter p xs rest)
    | inr e ↦ ((λ f. absurd (ground (arith, e, f))), All-of_filter p xs (rw e at h))
  ]

abbrev Earlier : Card → Card → Type 0
Earlier a b = a.start ≤ b.start

module _ (P : Card → Type 0) where
  insert-All : (x : Card) (ys : List Card) → P x → All P ys → All P (insert by_start x ys)
  unfolding insert
  insert-All x [] p h = (p, tt)
  insert-All x (y ∷ ys) p h = elim (Bool-cases (is_gt (by_start x y))) [
    | inl g ↦ rw g (h.0, insert-All x ys p h.1)
    | inr g ↦ rw g (p, h)
  ]

  sort-All : (xs : List Card) → All P xs → All P (sort by_start xs)
  unfolding sort
  sort-All [] h = tt
  sort-All (x ∷ xs) h = insert-All x (sort by_start xs) h.0 (sort-All xs h.1)

-- The first element with a property is the earliest one that has it.
abbrev IsFirst : (Card → Bool) → List Card → Option Card → Type 0
IsFirst p ys none = All (λ x. p x ≡ false) ys
IsFirst p ys (some c) = (p c ≡ true) × All (λ x. p x ≡ true → c.start ≤ x.start) ys

later-All :
    (p : Card → Bool) (c : Card) (ys : List Card)
    → All (Earlier c) ys
    → All (λ x. p x ≡ true → c.start ≤ x.start) ys
later-All p c [] h = tt
later-All p c (y ∷ ys) h = ((λ _. h.0), later-All p c ys h.1)

skip-IsFirst :
    (p : Card → Bool) (y : Card) (ys : List Card) (o : Option Card)
    → p y ≡ false
    → IsFirst p ys o
    → IsFirst p (y ∷ ys) o
skip-IsFirst p y ys none e h = (e, h)
skip-IsFirst p y ys (some c) e h = (h.0, ((λ f. absurd (ground (arith, e, f))), h.1))

first_of-IsFirst :
    (p : Card → Bool) (ys : List Card) → IsSorted Earlier ys → IsFirst p ys (first_of (filter p ys))
first_of-IsFirst p [] s = tt
first_of-IsFirst p (y ∷ ys) s = elim (Bool-cases (p y)) [
  | inl e ↦ rw e (e, ((λ _. omega arith), later-All p y ys s.0))
  | inr e ↦ rw e (skip-IsFirst p y ys (first_of (filter p ys)) e (first_of-IsFirst p ys s.1))
]

-- The card below: one of the cards, and the earliest of the channel's later ones; or none, and then the
-- channel has no later card.
abbrev pub IsBelow : Card → List Card → Option Card → Type 0
IsBelow card cards none =
    All (λ x. eqb x.channel_index card.channel_index ≡ true → ltb card.start x.start ≡ false) cards
IsBelow card cards (some c) =
    Mem c cards
    × (card.start < c.start)
    × (c.channel_index ≡ card.channel_index)
    × All
        (λ x.
          eqb x.channel_index card.channel_index ≡ true
          → ltb card.start x.start ≡ true
          → c.start ≤ x.start)
        cards

abbrev Picked : (Card → Type 0) → Option Card → Type 0
Picked Q none = Unit
Picked Q (some c) = Q c

first_of-Picked :
    (Q : Card → Type 0) (p : Card → Bool) (ys : List Card)
    → All Q ys
    → Picked Q (first_of (filter p ys))
first_of-Picked Q p [] h = tt
first_of-Picked Q p (y ∷ ys) h = elim (Bool-cases (p y)) [
  | inl e ↦ rw e h.0
  | inr e ↦ rw e (first_of-Picked Q p ys h.1)
]

filter-kept :
    (Q : Card → Type 0) (p : Card → Bool) (xs : List Card) → All Q xs → All Q (filter p xs)
filter-kept Q p [] h = tt
filter-kept Q p (x ∷ xs) h = elim (Bool-cases (p x)) [
  | inl e ↦ rw e (h.0, filter-kept Q p xs h.1)
  | inr e ↦ rw e (filter-kept Q p xs h.1)
]

All-weaken : (P Q : Card → Type 0) (xs : List Card) → ((x : Card) → P x → Q x) → All P xs → All Q xs
All-weaken P Q [] f h = tt
All-weaken P Q (x ∷ xs) f h = (f x h.0, All-weaken P Q xs f h.1)

-- Every element is one of the list.
members : (xs : List Card) → All (λ c. Mem c xs) xs
members [] = tt
members (x ∷ xs) = (
  mem-cons_self,
  All-weaken (λ c. Mem c xs) (λ c. Mem c (x ∷ xs)) xs (λ c m. mem-cons_of_mem x m) (members xs),
)

-- What holds of all cards holds of those of a channel, in their order.
same_channel-All :
    (Q : Card → Type 0) (card : Card) (cards : List Card)
    → All Q cards
    → All Q (same_channel card cards)
same_channel-All Q card cards h =
    sort-All Q _ (filter-kept Q (λ x. eqb x.channel_index card.channel_index) cards h)

filter-All : (p : Card → Bool) (xs : List Card) → All (λ x. p x ≡ true) (filter p xs)
filter-All p [] = tt
filter-All p (x ∷ xs) = elim (Bool-cases (p x)) [
  | inl e ↦ rw e (e, filter-All p xs)
  | inr e ↦ rw e (filter-All p xs)
]

next_card-IsBelow :
    (card : Card) (cards : List Card) (o : Option Card)
    → IsFirst (λ x. ltb card.start x.start) (same_channel card cards) o
    → Picked (λ c. eqb c.channel_index card.channel_index ≡ true) o
    → Picked (λ c. Mem c cards) o
    → IsBelow card cards o
next_card-IsBelow card cards none h q m =
    All-of_filter (λ x. ltb card.start x.start ≡ false)
      (λ x. eqb x.channel_index card.channel_index) cards
      (All-sort (λ x. ltb card.start x.start ≡ false) _ h)
next_card-IsBelow card cards (some c) h q m = (
  m,
  ground (arith, h.0),
  (eqb_iff _ _).0 q,
  All-of_filter (λ x. ltb card.start x.start ≡ true → c.start ≤ x.start)
      (λ x. eqb x.channel_index card.channel_index) cards
      (All-sort (λ x. ltb card.start x.start ≡ true → c.start ≤ x.start) _ h.1),
)

-- The key for downwards leads to one of the cards, which is of the same channel and starts later, and
-- no later than any other such card; or it leads to none, and then no card of the channel starts later.
pub adjacent_schedule_card-IsBelow :
    (card : Card) (cards : List Card) → IsBelow card cards (adjacent_schedule_card card down cards)
unfolding adjacent_schedule_card
adjacent_schedule_card-IsBelow card cards =
    let channel = filter (λ x. eqb x.channel_index card.channel_index) cards in
    let later = λ (x : Card). ltb card.start x.start in
    next_card-IsBelow card cards (first_of (filter later (sort by_start channel)))
      (first_of-IsFirst later (sort by_start channel) (
        sort-IsSorted by_start Earlier (λ x y h. ground (arith, h)) (λ x y h. ground (arith, h))
          (λ x y z h k. omega (arith, h, k)) channel))
      (first_of-Picked (λ c. eqb c.channel_index card.channel_index ≡ true) later
        (sort by_start channel)
        (sort-All (λ c. eqb c.channel_index card.channel_index ≡ true) channel
          (filter-All (λ x. eqb x.channel_index card.channel_index) cards)))
      (first_of-Picked (λ c. Mem c cards) later (sort by_start channel)
        (same_channel-All (λ c. Mem c cards) card cards (members cards)))
