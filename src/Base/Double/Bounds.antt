-- ===== src/Base/Double/Bounds.antt =====
-- Rounding does not pass a whole number of at most 53 binary digits.
use Prim.Native.Nat.{ℕ, zero, suc, ◌+◌, ◌-◌, ◌*◌, ◌/◌, ◌%◌, ◌^◌, ◌≤◌, ◌<◌}
use native.Mathlib.Nat.{
  div-add-mod, div-le_of_le-mul, lt_of_mul-lt-mul_left, mul_comm, mul-le-mul_right,
  pow-le-pow_right,
}
use mathlib.Core.Path.{subst, ◌≡◌, refl, sym, ap, ◌∙◌}
use mathlib.Core.Bool.{◌&&◌, ◌||◌}
use mathlib.Core.Logic.{◌⊎◌, inl, inr}
use native.Mathlib.Omega.{arith}
use strata_pvr.Base.Tests.{eqb, ltb, leb, if◌then◌else◌, Bool-cases}
use strata_pvr.Base.Double.{
  excess, most_digits, nearest, shifted, rounded, thousandths, times, plus, floor, IsAtMost,
  floor-le,
}

positive : (k : ℕ) → 0 < 2 ^ k
positive zero = omega arith
positive (suc k) = omega (arith, positive k)

-- A remainder that is rounded up is not zero.
nearest-le : (n k m : ℕ) → n ≤ m * 2 ^ k → nearest n k ≤ m
nearest-le n k m h =
    let d = 2 ^ k in
    let q = n / d in
    let r = n % d in
    let whole_part : d * q + r ≡ n = div-add-mod n d in
    elim (Bool-cases (ltb d (2 * r) || (eqb d (2 * r) && eqb (q % 2) 1))) [
      | inr e ↦ rw e (div-le_of_le-mul d (subst (λ x. n ≤ x) (mul_comm m d) h))
      | inl e ↦
          let up : 0 < r = ground (arith, e, positive k) in
          let below : d * q < m * d = omega (arith, up, whole_part, h) in
          let less : q < m =
            lt_of_mul-lt-mul_left d (subst (λ x. d * q < x) (mul_comm m d) below) in
          rw e less
    ]

excess-le : (fuel n : ℕ) → (excess fuel n ≡ 0) ⊎ (2 ^ 52 * 2 ^ excess fuel n ≤ n)
unfolding excess
excess-le zero n = inl refl
excess-le (suc fuel) n = elim (Bool-cases (ltb n (2 ^ 53))) [
  | inl e ↦ rw e (inl refl)
  | inr e ↦ rw e (
      inr (elim (excess-le fuel (n / 2)) [
        | inl z ↦ rw z (ground (arith, e))
        | inr h ↦
            let k = excess fuel (n / 2) in
            let twice : 2 ^ 52 * 2 ^ suc k ≤ n = omega (arith, h) in twice
      ]))
]

below_one :
    (n : ℕ)
    → n ≤ 1000
    → 2 * (n * 2 ^ 70 / 1000) + (if eqb (n * 2 ^ 70 % 1000) 0 then 0 else 1) ≤ 1 * 2 ^ 71
below_one n h = elim (Bool-cases (eqb (n * 2 ^ 70 % 1000) 0)) [
  | inl e ↦ rw e (omega (arith, h))
  | inr e ↦ rw e (ground (arith, h, e))
]

pow_sum : (a k : ℕ) → 2 ^ a * 2 ^ k ≡ 2 ^ (a + k)
pow_sum a zero = grind arith
pow_sum a (suc k) =
    let twice : 2 ^ suc k ≡ 2 * 2 ^ k = omega arith in
    let more : 2 ^ suc (a + k) ≡ 2 * 2 ^ (a + k) = omega arith in
    let next : suc (a + k) ≡ a + suc k = omega arith in
    let product : 2 ^ a * (2 * 2 ^ k) ≡ 2 * (2 ^ a * 2 ^ k) = grind arith in
    ap (λ x. 2 ^ a * x) twice
    ∙ product
    ∙ ap (λ x. 2 * x) (pow_sum a k)
    ∙ sym more
    ∙ ap (λ j. 2 ^ j) next

shifted-le :
    (k n e m : ℕ) → 2 ^ 52 * 2 ^ k ≤ n → n ≤ m * 2 ^ e → m < 2 ^ 53 → IsAtMost (shifted k n e) m
shifted-le k n e m low h small = elim (Bool-cases (leb k e)) [
  | inl t ↦
      let power : 2 ^ (e - k) * 2 ^ k ≡ 2 ^ e =
        pow_sum (e - k) k ∙ ap (λ j. 2 ^ j) (ground (arith, t)) in
      let bound : n ≤ m * 2 ^ (e - k) * 2 ^ k = grind (arith, h, power) in
      rw t (nearest-le n k (m * 2 ^ (e - k)) bound)
  | inr t ↦
      let steps : 2 ^ suc e ≤ 2 ^ k = pow-le-pow_right (omega arith) (ground (arith, t)) in
      let most : m * 2 ^ e ≤ (2 ^ 53 - 1) * 2 ^ e =
        mul-le-mul_right (2 ^ e) (omega (arith, small)) in
      absurd (omega (arith, steps, most, low, h, positive e))
]

rounded-le : (n e m : ℕ) → n ≤ m * 2 ^ e → m < 2 ^ 53 → IsAtMost (rounded n e) m
unfolding rounded
rounded-le n e m h small = elim (Bool-cases (eqb (excess most_digits n) 0)) [
  | inl z ↦ rw z h
  | inr z ↦ elim (excess-le most_digits n) [
    | inl none ↦ absurd (ground (arith, z, none))
    | inr low ↦ rw z (shifted-le (excess most_digits n) n e m low h small)
  ]
]

-- A share of a whole number is at most that number.
share-le :
    (value duration : ℕ)
    → value ≤ 1000
    → duration < 2 ^ 53
    → IsAtMost (times (thousandths value) duration) duration
unfolding times thousandths
share-le value duration h small =
    let x = thousandths value in
    let one : IsAtMost x 1 = rounded-le _ 71 1 (below_one value h) (omega arith) in
    rounded-le (x.mantissa * duration) x.exponent duration (grind (arith, one)) small

-- And so it is behind a whole number, in whole numbers.
pub floor-plus_share :
    (start value duration : ℕ)
    → value ≤ 1000
    → start + duration < 2 ^ 53
    → floor (plus start (times (thousandths value) duration)) ≤ start + duration
unfolding plus
floor-plus_share start value duration h small =
    let x = times (thousandths value) duration in
    let share : IsAtMost x duration = share-le value duration h (omega (arith, small)) in
    floor-le (plus start x) (start + duration) (
      rounded-le (start * 2 ^ x.exponent + x.mantissa) x.exponent (start + duration)
        (grind (arith, share)) small)
