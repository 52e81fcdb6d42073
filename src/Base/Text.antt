-- ===== src/Base/Text.antt =====
-- Texts: the falsy empty text, and the string methods that the program calls.
use Prim.Native.Nat.{ℕ}
use Prim.Native.Char.{code}
use Prim.Native.String.{String, [], ◌∷◌}
use mathlib.Core.Path.{◌≡◌, refl, ap, ◌∙◌}
use mathlib.Core.Logic.{◌≢◌}
use mathlib.Core.Bool.{Bool, true, false, not, ◌&&◌, ◌||◌, and-eq-true_iff}
use mathlib.Core.List.{List, [], ◌∷◌}
use native.Mathlib.Omega.{arith}
use text.Mathlib.Text.{◌==◌, starts_with}
use text.Mathlib.TextEquality.{eq_iff}
use strata_pvr.Base.Tests.{leb, eqb, if◌then◌else◌}

-- A text is false if it is empty.
abbrev pub truthy : String → Bool
truthy s = not (s == "")

-- `a || b` on texts; a missing text reads as the empty one, which is false too.
infixr 30 ◌or◌
abbrev pub ◌or◌ : String → String → String
a or b = if a == "" then b else a

pub or-ne-empty : (a b : String) → b ≢ "" → a or b ≢ ""
or-ne-empty a b h = ground (arith, eq_iff a "")

-- `includes`, that is `indexOf(t) >= 0`
abbrev pub includes : String → String → Bool
includes [] t = starts_with "" t
includes (◌∷◌ c s) t = starts_with (c ∷ s) t || includes s t

-- Concatenation by the first text's characters, so that a literal in front computes.
infixr 65 ◌⧺◌
abbrev pub ◌⧺◌ : String → String → String
[] ⧺ t = t
(◌∷◌ c s) ⧺ t = c ∷ (s ⧺ t)

pub ⧺-ne-empty : (s t : String) → s ≢ "" → s ⧺ t ≢ ""
⧺-ne-empty [] t h = absurd (h refl)
⧺-ne-empty (◌∷◌ c s) t h = λ e. cc

pub if-ne-empty : (b : Bool) (s t : String) → s ≢ "" → t ≢ "" → (if b then s else t) ≢ ""
if-ne-empty true s t h k = h
if-ne-empty false s t h k = k

-- `join`
abbrev pub join : String → List String → String
join sep List.[] = ""
join sep (List.◌∷◌ s List.[]) = s
join sep (List.◌∷◌ s (List.◌∷◌ t rest)) = s ⧺ sep ⧺ join sep (List.◌∷◌ t rest)

-- The code points of a text.
abbrev pub codes : String → List ℕ
codes [] = List.[]
codes (◌∷◌ c s) = List.◌∷◌ (code c) (codes s)

-- A test of every character.
abbrev pub all_chars : (ℕ → Bool) → String → Bool
all_chars p [] = true
all_chars p (◌∷◌ c s) = p (code c) && all_chars p s

pub all_chars-⧺ :
    (p : ℕ → Bool) (s t : String) → all_chars p (s ⧺ t) ≡ (all_chars p s && all_chars p t)
all_chars-⧺ p [] t = refl
all_chars-⧺ p (◌∷◌ c s) t = ground (arith, all_chars-⧺ p s t)

pub ⧺_assoc : (s t u : String) → (s ⧺ t) ⧺ u ≡ s ⧺ t ⧺ u
⧺_assoc [] t u = refl
⧺_assoc (◌∷◌ c s) t u = ap (λ r. c ∷ r) (⧺_assoc s t u)

-- The white space and line terminators that `trim` and `\s` name.
unfoldable pub is_space : ℕ → Bool
is_space c =
    (leb 9 c && leb c 13)
    || eqb c 32
    || eqb c 0xa0
    || eqb c 0x1680
    || (leb 0x2000 c && leb c 0x200a)
    || eqb c 0x2028
    || eqb c 0x2029
    || eqb c 0x202f
    || eqb c 0x205f
    || eqb c 0x3000
    || eqb c 0xfeff

unfoldable pub trim_start : String → String
trim_start [] = ""
trim_start (◌∷◌ c s) = let rest = trim_start s in if is_space (code c) then rest else c ∷ s

unfoldable pub trim_end : String → String
trim_end [] = ""
trim_end (◌∷◌ c s) =
    let rest = trim_end s in if is_space (code c) && rest == "" then "" else c ∷ rest

unfoldable pub trim : String → String
unfolding trim_start trim_end is_space
trim s = trim_end (trim_start s)

-- Trimming adds no character.
module _ (p : ℕ → Bool) where
  pub all_chars-if :
      (b : Bool) (s t : String)
      → all_chars p s ≡ true
      → all_chars p t ≡ true
      → all_chars p (if b then s else t) ≡ true
  all_chars-if true s t h k = h
  all_chars-if false s t h k = k

  all_chars-trim_start : (s : String) → all_chars p s ≡ true → all_chars p (trim_start s) ≡ true
  unfolding trim_start
  all_chars-trim_start [] h = refl
  all_chars-trim_start (◌∷◌ c s) h = ground (arith, all_chars-trim_start s)

  all_chars-trim_end : (s : String) → all_chars p s ≡ true → all_chars p (trim_end s) ≡ true
  unfolding trim_end
  all_chars-trim_end [] h = refl
  all_chars-trim_end (◌∷◌ c s) h =
      let (here, later) = (and-eq-true_iff _ _).0 h in
      all_chars-if (is_space (code c) && trim_end s == "") "" (c ∷ trim_end s) refl
        ((and-eq-true_iff _ _).1 (here, all_chars-trim_end s later))

  pub all_chars-trim : (s : String) → all_chars p s ≡ true → all_chars p (trim s) ≡ true
  unfolding trim
  all_chars-trim s h = all_chars-trim_end (trim_start s) (all_chars-trim_start s h)

trim_test : trim " a b  " ≡ "a b"
unfolding trim
trim_test = refl

-- A text without white space is trimmed.
abbrev pub is_visible : ℕ → Bool
is_visible c = not (is_space c)

trim_start-visible : (s : String) → all_chars is_visible s ≡ true → trim_start s ≡ s
unfolding trim_start
trim_start-visible [] h = refl
trim_start-visible (◌∷◌ c s) h =
    let here : is_space (code c) ≡ false = ground (arith, h) in rw here refl

trim_end-visible : (s : String) → all_chars is_visible s ≡ true → trim_end s ≡ s
unfolding trim_end
trim_end-visible [] h = refl
trim_end-visible (◌∷◌ c s) h =
    let (first, later) = (and-eq-true_iff (is_visible (code c)) (all_chars is_visible s)).0 h in
    let here : is_space (code c) ≡ false = ground (arith, first) in
    rw here (ap (λ r. c ∷ r) (trim_end-visible s later))

pub trim-visible : (s : String) → all_chars is_visible s ≡ true → trim s ≡ s
unfolding trim
trim-visible s h = ap trim_end (trim_start-visible s h) ∙ trim_end-visible s h
