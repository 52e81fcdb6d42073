-- ===== src/Base/Double.antt =====
-- The numbers of the script that need not be whole, where they are not negative: a double is a mantissa
-- over a power of two, and what is computed is rounded to 53 binary digits, a tie to the even one.
-- Overflow is left out.
pub mod Bounds
use Prim.Native.Nat.{ℕ, zero, suc, ◌+◌, ◌-◌, ◌*◌, ◌/◌, ◌%◌, ◌^◌, ◌≤◌, ◌<◌}
use native.Mathlib.Nat.{div-div-eq-div-mul}
use mathlib.Core.Path.{subst, ◌≡◌, refl, ap, ◌∙◌}
use mathlib.Core.Bool.{true, ◌&&◌, ◌||◌}
use native.Mathlib.Omega.{arith}
use strata_pvr.Base.Tests.{eqb, ltb, leb, if◌then◌else◌, Bool-cases}
use mathlib.Core.Logic.{inl, inr}

pub record Double : Type 0 where
  pub mantissa : ℕ
  pub exponent : ℕ

-- A number of at most 53 binary digits, as it is.
abbrev pub whole : ℕ → Double
whole n = record { mantissa = n; exponent = 0 }

-- How many binary digits there are behind the first 53, up to the fuel.
unfoldable pub excess : ℕ → ℕ → ℕ
excess zero n = 0
excess (suc fuel) n = let more = excess fuel (n / 2) in if ltb n (2 ^ 53) then 0 else suc more

-- No number of a double has more digits than that behind them.
abbrev pub most_digits : ℕ
most_digits = 1024

-- The number over `2 ^ k`, to the nearest, and from the middle to the even one.
abbrev pub nearest : ℕ → ℕ → ℕ
nearest n k =
    let quotient = n / 2 ^ k in
    let rest = 2 * (n % 2 ^ k) in
    if ltb (2 ^ k) rest || (eqb (2 ^ k) rest && eqb (quotient % 2) 1)
    then suc quotient
    else quotient

abbrev pub shifted : ℕ → ℕ → ℕ → Double
shifted k n e =
    if leb k e
    then record { mantissa = nearest n k; exponent = e - k }
    else record { mantissa = nearest n k * 2 ^ (k - e); exponent = 0 }

-- `n / 2 ^ e`, rounded
unfoldable pub rounded : ℕ → ℕ → Double
rounded n e =
    let k = excess most_digits n in
    if eqb k 0 then record { mantissa = n; exponent = e } else shifted k n e

-- `n / 1000`: a digit behind 70 binary ones tells whether anything follows.
unfoldable pub thousandths : ℕ → Double
thousandths n =
    let rest = if eqb (n * 2 ^ 70 % 1000) 0 then 0 else 1 in
    rounded (2 * (n * 2 ^ 70 / 1000) + rest) 71

-- `x * n`, `n + x` and `n - x`, where the last is not negative.
unfoldable pub times : Double → ℕ → Double
times x n = rounded (x.mantissa * n) x.exponent

unfoldable pub plus : ℕ → Double → Double
plus n x = rounded (n * 2 ^ x.exponent + x.mantissa) x.exponent

unfoldable pub minus : ℕ → Double → Double
minus n x = rounded (n * 2 ^ x.exponent - x.mantissa) x.exponent

-- `Math.floor`
abbrev pub floor : Double → ℕ
floor x = x.mantissa / 2 ^ x.exponent

abbrev pub IsAtMost : Double → ℕ → Type 0
IsAtMost x n = x.mantissa ≤ n * 2 ^ x.exponent

-- `Math.min(n, x)`
abbrev pub least : ℕ → Double → Double
least n x = if leb x.mantissa (n * 2 ^ x.exponent) then x else whole n

seek_test : floor (times (thousandths 565) 1800) ≡ 1016
unfolding thousandths times rounded excess
seek_test = refl

seek_small_test : floor (times (thousandths 290) 100) ≡ 28
unfolding thousandths times rounded excess
seek_small_test = refl

-- Without the digits that are counted a number has at most 53, if the fuel was enough.
excess-enough : (fuel n : ℕ) → n < 2 ^ 53 * 2 ^ fuel → n / 2 ^ excess fuel n < 2 ^ 53
unfolding excess
excess-enough zero n h = omega (arith, h)
excess-enough (suc fuel) n h = elim (Bool-cases (ltb n (2 ^ 53))) [
  | inl e ↦ rw e (ground (arith, e))
  | inr e ↦ rw e (
      let half : n / 2 < 2 ^ 53 * 2 ^ fuel = omega (arith, h) in
      let k = excess fuel (n / 2) in
      let power : 2 * 2 ^ k ≡ 2 ^ suc k = omega arith in
      subst (λ m. m < 2 ^ 53) (div-div-eq-div-mul n 2 (2 ^ k) ∙ ap (λ d. n / d) power)
        (excess-enough fuel (n / 2) half))
]

pub least-IsAtMost : (n : ℕ) (x : Double) → IsAtMost (least n x) n
least-IsAtMost n x = elim (Bool-cases (leb x.mantissa (n * 2 ^ x.exponent))) [
  | inl e ↦ rw e (ground (arith, e))
  | inr e ↦ rw e (omega arith)
]

excess-none : (fuel n : ℕ) → n < 2 ^ 53 → excess (suc fuel) n ≡ 0
unfolding excess
excess-none fuel n h = let e : ltb n (2 ^ 53) ≡ true = ground (arith, h) in rw e refl

rounded-exact : (n : ℕ) → n < 2 ^ 53 → rounded n 0 ≡ whole n
unfolding rounded
rounded-exact n h =
    ap (λ k. if eqb k 0 then record { mantissa = n; exponent = 0 } else shifted k n 0)
      (excess-none 1023 n h)

pub plus-zero : (n : ℕ) → n < 2 ^ 53 → plus n (whole 0) ≡ whole n
unfolding plus
plus-zero n h =
    let e : n * 2 ^ 0 + 0 ≡ n = omega arith in ap (λ m. rounded m 0) e ∙ rounded-exact n h

pub floor-le : (x : Double) (n : ℕ) → IsAtMost x n → floor x ≤ n
floor-le x n h = grind (arith, h)

pub least-whole : (n m : ℕ) → m ≤ n → least n (whole m) ≡ whole m
least-whole n m h = let e : leb m (n * 2 ^ 0) ≡ true = ground (arith, h) in rw e refl
