-- ===== src/Guide/Cards.antt =====
-- The moves of the keyboard between the cards of the guide (web/app.js: `adjacentScheduleCard`) and
-- between the rows of a list (`focusAdjacentRow`, `focusRowAt`, `focusPagedRow`). An array's missing
-- element is `null`.
pub mod Nearest
use Prim.Native.Nat.{Ordering, compare}
use strata_pvr.Base.{
  ℕ, zero, suc, ◌+◌, ◌-◌, min, max, Bool, true, false, Option, none, some, List, [], ◌∷◌, eqb, ltb,
  filter, length, get_elem?, sort, if◌then◌else◌,
}

-- `data-program-id` as a number, `data-channel-index` and `data-start`
pub record Card : Type 0 where
  pub program : ℕ
  pub channel_index : ℕ
  pub start : ℕ

pub data Key : Type 0 where
  home end up down left right : Key

abbrev pub first_of {ℓ} : {A : Type ℓ} → List A → Option A
first_of [] = none
first_of (x ∷ xs) = some x

abbrev pub last_of {ℓ} : {A : Type ℓ} → List A → Option A
last_of [] = none
last_of (x ∷ []) = some x
last_of (x ∷ y ∷ xs) = last_of (y ∷ xs)

abbrev pub by_start : Card → Card → Ordering
by_start a b = compare a.start b.start

-- `Math.abs(a - b)`
abbrev distance : ℕ → ℕ → ℕ
distance a b = (a - b) + (b - a)

abbrev by_distance : ℕ → Card → Card → Ordering
by_distance start a b = compare (distance a.start start) (distance b.start start)

abbrev pub same_channel : Card → List Card → List Card
same_channel card cards =
    sort by_start (filter (λ item. eqb item.channel_index card.channel_index) cards)

abbrev beside : ℕ → ℕ → List Card → Option Card
beside start next cards =
    first_of (sort (by_distance start) (filter (λ item. eqb item.channel_index next) cards))

-- No card has the index -1, so there is none to the left of the first channel.
unfoldable pub adjacent_schedule_card : Card → Key → List Card → Option Card
adjacent_schedule_card card home cards = first_of (same_channel card cards)
adjacent_schedule_card card end cards = last_of (same_channel card cards)
adjacent_schedule_card card up cards =
    last_of (filter (λ item. ltb item.start card.start) (same_channel card cards))
adjacent_schedule_card card down cards =
    first_of (filter (λ item. ltb card.start item.start) (same_channel card cards))
adjacent_schedule_card card left cards =
    if eqb card.channel_index 0 then none else beside card.start (card.channel_index - 1) cards
adjacent_schedule_card card right cards = beside card.start (card.channel_index + 1) cards

-- A step to the next row or to the one before.
pub data Delta : Type 0 where
  forth back : Delta

-- The index of the row that gets the focus; none if there are no rows. `active` is the index of the
-- row that has it, and none if no row has.
unfoldable focus_adjacent_row : Delta → Option ℕ → ℕ → Option ℕ
focus_adjacent_row d active zero = none
focus_adjacent_row forth none (suc last) = some 0
focus_adjacent_row back none (suc last) = some last
focus_adjacent_row forth (some i) (suc last) = some (min last (i + 1))
focus_adjacent_row back (some i) (suc last) = some (min last (i - 1))

unfoldable focus_row_at : ℕ → ℕ → Option ℕ
focus_row_at index zero = none
focus_row_at index (suc last) = some (min last index)

-- Ten rows at once: without a focus the count starts in front of the first row or behind the last.
unfoldable focus_paged_row : Delta → Option ℕ → ℕ → Option ℕ
focus_paged_row d active zero = none
focus_paged_row forth none (suc last) = some (min last 9)
focus_paged_row back none (suc last) = some (min last ((last + 1) - 10))
focus_paged_row forth (some i) (suc last) = some (min last (i + 10))
focus_paged_row back (some i) (suc last) = some (min last (i - 10))
