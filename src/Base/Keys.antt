-- ===== src/Base/Keys.antt =====
-- Objects that are used as sets of texts: `seen[value]` is true for a key that was set, and also for
-- the names that every object inherits from `Object.prototype`.
use mathlib.Core.Path.{◌≡◌, refl, subst}
use mathlib.Core.Logic.{inl, inr}
use mathlib.Core.Bool.{Bool, true, false, not, ◌&&◌, ◌||◌}
use mathlib.Core.List.{List, [], ◌∷◌, ◌++◌}
use Prim.Native.String.{String}
use native.Mathlib.Omega.{arith}
use text.Mathlib.Text.{◌==◌}
use text.Mathlib.TextEquality.{eq_iff}
use strata_pvr.Base.Tests.{Bool-cases}
use strata_pvr.Base.Lists.{All}

abbrev pub member : String → List String → Bool
member k [] = false
member k (j ∷ js) = j == k || member k js

-- The names of `Object.prototype`.
abbrev pub inherited_names : List String
inherited_names =
    "constructor" ∷ "toString" ∷ "toLocaleString" ∷ "valueOf" ∷ "hasOwnProperty" ∷ "isPrototypeOf"
    ∷ "propertyIsEnumerable" ∷ "__defineGetter__" ∷ "__defineSetter__" ∷ "__lookupGetter__"
    ∷ "__lookupSetter__" ∷ "__proto__" ∷ []

unfoldable pub is_inherited : String → Bool
is_inherited k = member k inherited_names

-- `seen[k]`, where the texts of `keys` were set to true.
abbrev pub seen_in : String → List String → Bool
seen_in k keys = is_inherited k || member k keys

-- Each text once.
abbrev pub is_distinct : List String → Bool
is_distinct [] = true
is_distinct (k ∷ ks) = not (member k ks) && is_distinct ks

pub member-append :
    (k : String) (xs ys : List String) → member k (xs ++ ys) ≡ (member k xs || member k ys)
member-append k [] ys = refl
member-append k (x ∷ xs) ys = ground (arith, member-append k xs ys)

-- A new text behind distinct ones leaves them distinct.
pub is_distinct-concat :
    (xs : List String) (k : String)
    → is_distinct xs ≡ true
    → member k xs ≡ false
    → is_distinct (xs ++ k ∷ []) ≡ true
is_distinct-concat [] k d n = refl
is_distinct-concat (x ∷ xs) k d n =
    ground (arith, is_distinct-concat xs k, member-append x xs (k ∷ []), eq_iff x k, eq_iff k x)

pub member-All {κ} :
    (P : String → Type κ) (k : String) (ks : List String) → All P ks → member k ks ≡ true → P k
member-All P k [] h m = cc
member-All P k (j ∷ js) h m = elim (Bool-cases (j == k)) [
  | inl same ↦ subst P ((eq_iff j k).0 same) h.0
  | inr other ↦ member-All P k js h.1 (rw other at m)
]
