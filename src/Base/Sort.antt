-- ===== src/Base/Sort.antt =====
-- `Array.prototype.sort`, which is stable: an element goes in front of those that it does not come
-- behind.
use Prim.Native.Nat.{Ordering}
use mathlib.Core.Path.{◌≡◌}
use mathlib.Core.Logic.{inl, inr}
use mathlib.Core.List.{List, [], ◌∷◌, ◌++◌, Perm, perm_middle}
use mathlib.Core.List.Perm
use mathlib.Core.Bool.{Bool, true, false, not}
use strata_pvr.Base.Tests.{if◌then◌else◌, Bool-cases}
use strata_pvr.Base.Lists.{All, filter}

-- A positive result of a comparator.
abbrev pub is_gt : Ordering → Bool
is_gt Ordering.gt = true
is_gt Ordering.lt = false
is_gt Ordering.eq = false

-- `a || b` and `-a` on results of comparators.
abbrev pub then_by : Ordering → Ordering → Ordering
then_by Ordering.eq b = b
then_by Ordering.lt b = Ordering.lt
then_by Ordering.gt b = Ordering.gt

abbrev pub flip : Ordering → Ordering
flip Ordering.lt = Ordering.gt
flip Ordering.eq = Ordering.eq
flip Ordering.gt = Ordering.lt

module _ {ℓ} {A : Type ℓ} (cmp : A → A → Ordering) where
  unfoldable pub insert : A → List A → List A
  insert x [] = x ∷ []
  insert x (y ∷ ys) = if is_gt (cmp x y) then y ∷ insert x ys else x ∷ y ∷ ys

  unfoldable pub sort : List A → List A
  unfolding insert
  sort [] = []
  sort (x ∷ xs) = insert x (sort xs)

  insert-perm : (x : A) (xs : List A) → Perm (insert x xs) (x ∷ xs)
  unfolding insert
  insert-perm x [] = Perm.refl (x ∷ [])
  insert-perm x (y ∷ ys) = elim (Bool-cases (is_gt (cmp x y))) [
    | inl gt ↦ rw gt (Perm.trans (Perm.cons y (insert-perm x ys)) (Perm.swap x y ys))
    | inr le ↦ rw le (Perm.refl (x ∷ y ∷ ys))
  ]

  -- Sorting keeps every element, as often as it is there.
  pub sort-perm : (xs : List A) → Perm (sort xs) xs
  unfolding sort
  sort-perm [] = Perm.refl []
  sort-perm (x ∷ xs) = Perm.trans (insert-perm x (sort xs)) (Perm.cons x (sort-perm xs))

module _ {ℓ κ} {A : Type ℓ} (R : A → A → Type κ) where
  -- Each element stands in the relation to all behind it.
  abbrev pub IsSorted : List A → Type κ
  IsSorted [] = Unit
  IsSorted (x ∷ xs) = All (R x) xs × IsSorted xs

module _ {ℓ κ} {A : Type ℓ} (cmp : A → A → Ordering) (R : A → A → Type κ)
    (stays : (x y : A) → is_gt (cmp x y) ≡ false → R x y)
    (moves : (x y : A) → is_gt (cmp x y) ≡ true → R y x)
    (trans : (x y z : A) → R x y → R y z → R x z) where
  All-trans : (x y : A) (ys : List A) → R x y → All (R y) ys → All (R x) ys
  All-trans x y [] h k = tt
  All-trans x y (z ∷ zs) h k = (trans x y z h k.0, All-trans x y zs h k.1)

  All-insert : (x y : A) (ys : List A) → R y x → All (R y) ys → All (R y) (insert cmp x ys)
  unfolding insert
  All-insert x y [] h k = (h, tt)
  All-insert x y (z ∷ zs) h k = elim (Bool-cases (is_gt (cmp x z))) [
    | inl gt ↦ rw gt (k.0, All-insert x y zs h k.1)
    | inr le ↦ rw le (h, k)
  ]

  insert-IsSorted : (x : A) (xs : List A) → IsSorted R xs → IsSorted R (insert cmp x xs)
  unfolding insert
  insert-IsSorted x [] s = (tt, tt)
  insert-IsSorted x (y ∷ ys) s = elim (Bool-cases (is_gt (cmp x y))) [
    | inl gt ↦ rw gt (All-insert x y ys (moves x y gt) s.0, insert-IsSorted x ys s.1)
    | inr le ↦ rw le ((stays x y le, All-trans x y ys (stays x y le) s.0), s)
  ]

  pub sort-IsSorted : (xs : List A) → IsSorted R (sort cmp xs)
  unfolding sort
  sort-IsSorted [] = tt
  sort-IsSorted (x ∷ xs) = insert-IsSorted x (sort cmp xs) (sort-IsSorted xs)

-- A test and its opposite divide a list.
pub filter-partition {ℓ} :
    {A : Type ℓ} (p q : A → Bool) (opposite : (x : A) → q x ≡ not (p x)) (xs : List A)
    → Perm (filter p xs ++ filter q xs) xs
filter-partition p q opposite [] = Perm.refl []
filter-partition p q opposite (x ∷ xs) = elim (Bool-cases (p x)) [
  | inl h ↦ rw (opposite x, h) (Perm.cons x (filter-partition p q opposite xs))
  | inr h ↦
      rw (opposite x, h)
        (Perm.trans (perm_middle (filter p xs) (filter q xs))
          (Perm.cons x (filter-partition p q opposite xs)))
]
