-- ===== src/Base/Decimal.antt =====
-- `String(n)` for a natural number.
use Prim.Native.Nat.{ℕ, zero, suc, ◌/◌, ◌%◌}
use Prim.Native.String.{String}
use mathlib.Core.Path.{◌≡◌, refl, ◌∙◌}
use mathlib.Core.Logic.{◌≢◌}
use strata_pvr.Base.Tests.{ltb, if◌then◌else◌}
use strata_pvr.Base.Text.{
  ◌⧺◌, ⧺-ne-empty, if-ne-empty, is_space, is_visible, all_chars, all_chars-⧺, all_chars-if, trim,
  trim-visible,
}
use mathlib.Core.Bool.{true}

-- The one-character text of a digit.
abbrev pub digit : ℕ → String
digit zero = "0"
digit (suc zero) = "1"
digit (suc (suc zero)) = "2"
digit (suc (suc (suc zero))) = "3"
digit (suc (suc (suc (suc zero)))) = "4"
digit (suc (suc (suc (suc (suc zero))))) = "5"
digit (suc (suc (suc (suc (suc (suc zero)))))) = "6"
digit (suc (suc (suc (suc (suc (suc (suc zero))))))) = "7"
digit (suc (suc (suc (suc (suc (suc (suc (suc zero)))))))) = "8"
digit (suc (suc (suc (suc (suc (suc (suc (suc (suc n))))))))) = "9"

-- The last digit is written first; `rest` stands behind it. A number has at most that many digits.
show_from : ℕ → ℕ → String → String
show_from zero n rest = rest
show_from (suc fuel) n rest =
    let more = show_from fuel (n / 10) (digit (n % 10) ⧺ rest) in
    if ltb n 10 then digit n ⧺ rest else more

unfoldable pub show : ℕ → String
unfolding show_from
show n = show_from (suc n) n ""

show_test : show 10203 ≡ "10203"
unfolding show
show_test = refl

digit-ne-empty : (n : ℕ) → digit n ≢ ""
digit-ne-empty zero = λ e. cc
digit-ne-empty (suc zero) = λ e. cc
digit-ne-empty (suc (suc zero)) = λ e. cc
digit-ne-empty (suc (suc (suc zero))) = λ e. cc
digit-ne-empty (suc (suc (suc (suc zero)))) = λ e. cc
digit-ne-empty (suc (suc (suc (suc (suc zero))))) = λ e. cc
digit-ne-empty (suc (suc (suc (suc (suc (suc zero)))))) = λ e. cc
digit-ne-empty (suc (suc (suc (suc (suc (suc (suc zero))))))) = λ e. cc
digit-ne-empty (suc (suc (suc (suc (suc (suc (suc (suc zero)))))))) = λ e. cc
digit-ne-empty (suc (suc (suc (suc (suc (suc (suc (suc (suc n))))))))) = λ e. cc

show_from-ne-empty : (fuel n : ℕ) (rest : String) → rest ≢ "" → show_from fuel n rest ≢ ""
unfolding show_from
show_from-ne-empty zero n rest h = h
show_from-ne-empty (suc fuel) n rest h =
    if-ne-empty (ltb n 10) _ _ (⧺-ne-empty (digit n) rest (digit-ne-empty n)) (
      show_from-ne-empty fuel (n / 10) _
        (⧺-ne-empty (digit (n % 10)) rest (digit-ne-empty (n % 10))))

pub show-ne-empty : (n : ℕ) → show n ≢ ""
unfolding show show_from
show-ne-empty n =
    if-ne-empty (ltb n 10) _ _ (⧺-ne-empty (digit n) "" (digit-ne-empty n))
      (show_from-ne-empty n (n / 10) _ (⧺-ne-empty (digit (n % 10)) "" (digit-ne-empty (n % 10))))

-- The digits are visible.
digit-is_visible : (n : ℕ) → all_chars is_visible (digit n) ≡ true
unfolding is_space
digit-is_visible zero = refl
digit-is_visible (suc zero) = refl
digit-is_visible (suc (suc zero)) = refl
digit-is_visible (suc (suc (suc zero))) = refl
digit-is_visible (suc (suc (suc (suc zero)))) = refl
digit-is_visible (suc (suc (suc (suc (suc zero))))) = refl
digit-is_visible (suc (suc (suc (suc (suc (suc zero)))))) = refl
digit-is_visible (suc (suc (suc (suc (suc (suc (suc zero))))))) = refl
digit-is_visible (suc (suc (suc (suc (suc (suc (suc (suc zero)))))))) = refl
digit-is_visible (suc (suc (suc (suc (suc (suc (suc (suc (suc n))))))))) = refl

digit-⧺-is_visible :
    (n : ℕ) (rest : String)
    → all_chars is_visible rest ≡ true
    → all_chars is_visible (digit n ⧺ rest) ≡ true
digit-⧺-is_visible n rest h =
    all_chars-⧺ is_visible (digit n) rest ∙ rw (digit-is_visible n, h) refl

show_from-is_visible :
    (fuel n : ℕ) (rest : String)
    → all_chars is_visible rest ≡ true
    → all_chars is_visible (show_from fuel n rest) ≡ true
unfolding show_from
show_from-is_visible zero n rest h = h
show_from-is_visible (suc fuel) n rest h =
    all_chars-if is_visible (ltb n 10) (digit n ⧺ rest) _ (digit-⧺-is_visible n rest h) (
      show_from-is_visible fuel (n / 10) (digit (n % 10) ⧺ rest)
        (digit-⧺-is_visible (n % 10) rest h))

pub trim-show : (n : ℕ) → trim (show n) ≡ show n
unfolding show
trim-show n = trim-visible (show n) (show_from-is_visible (suc n) n "" refl)
