-- ===== src/Rules/Form/Stages.antt =====
-- The stages of `readRuleForm` (web/app.js) that may refuse a field, each with what it accepts.
use mathlib.Core.Path.{subst}
use native.Mathlib.Nat.{div-add-mod}
use strata_pvr.Base.{
  ◌<◌, ◌*◌, ◌+◌, ◌%◌, eqb_iff, suc, String, Bool, true, false, not, ◌&&◌, ◌||◌, Option, none, some,
  eqb, truthy, trim, ◌≡◌, refl, ◌⊎◌, inl, inr, Bool-cases, arith,
}
use strata_pvr.Settings.{Properties, number, object, field, no_fields}
use strata_pvr.Rules.Fields.{Reading, accepted, refused, set_field}
use strata_pvr.Rules.Form.{
  Fraction, with_sid, sid_from, with_duration, duration_from, with_hours, hours_from, has_condition,
  value_of, is_below_zero, is_start, is_end, exceeds, seconds_of, is_sid,
}
use strata_pvr.Rules.Form.Has.{has-set_field}

-- A field that may be left empty, and two that may be left empty together.
abbrev pub fits : (Fraction → Bool) → Option Fraction → Bool
fits test none = false
fits test (some n) = test n

abbrev pub both_fit : (Fraction → Fraction → Bool) → Option Fraction → Option Fraction → Bool
both_fit test none b = false
both_fit test (some a) none = false
both_fit test (some a) (some b) = test a b

abbrev pub sid_fits : (String → Option Fraction) → String → Bool
sid_fits read sid = not (truthy sid) || fits is_sid (read sid)

abbrev pub pair_fits :
    (Fraction → Fraction → Bool) → (String → Option Fraction) → String → String → Bool
pair_fits test read a b =
    (not (truthy a) && not (truthy b)) || (truthy a && truthy b && both_fit test (read a) (read b))

abbrev pub minutes_fit : Fraction → Fraction → Bool
minutes_fit a b = not (is_below_zero a) && not (is_below_zero b) && not (exceeds a b)

abbrev pub hours_fit : Fraction → Fraction → Bool
hours_fit a b = is_start a && is_end b

-- A stage: whether it has a result, and whether the rule has a condition then.
abbrev pub Stage : Reading Properties → Bool → Bool → Properties → Type 0
Stage m passes given rule =
    ((r : Properties) × (m ≡ accepted r)
      × (passes ≡ true)
      × (has_condition r ≡ (given || has_condition rule)))
    ⊎ ((e : String) × (m ≡ refused e) × (passes ≡ false))

pub sid_positive : (n : Fraction) → is_sid n ≡ true → 0 < value_of n
sid_positive n e = elim (Bool-cases (eqb (value_of n) 0)) [
  | inr other ↦ ground (arith, other)
  | inl zero ↦
      let parts =
        subst (λ q. suc n.rest * q + n.numerator % suc n.rest ≡ n.numerator)
          ((eqb_iff (value_of n) 0).0 zero) (div-add-mod n.numerator (suc n.rest)) in
      absurd (ground (arith, e, parts))
]

pub sid_from-Stage :
    (n : Option Fraction) (rule : Properties) → Stage (sid_from n rule) (fits is_sid n) true rule
sid_from-Stage none rule = inr ("SIDが正しくありません", refl, refl)
sid_from-Stage (some n) rule = elim (Bool-cases (is_sid n)) [
  | inl e ↦ inl (
    set_field "sid" (number (value_of n)) rule,
    rw e refl,
    e,
    has-set_field "sid" _ rule (ground (arith, sid_positive n e)),
  )
  | inr e ↦ inr ("SIDが正しくありません", rw e refl, e)
]

pub with_sid-Stage :
    (read : String → Option Fraction) (sid : String) (rule : Properties)
    → Stage (with_sid read sid rule) (sid_fits read (trim sid)) (truthy (trim sid)) rule
unfolding with_sid
with_sid-Stage read sid rule = elim (Bool-cases (truthy (trim sid))) [
  | inl e ↦ rw e (sid_from-Stage (read (trim sid)) rule)
  | inr e ↦ rw e (inl (rule, refl, refl, refl))
]

pub duration_from-Stage :
    (a b : Option Fraction) (rule : Properties)
    → Stage (duration_from a b rule) (both_fit minutes_fit a b) true rule
duration_from-Stage none b rule = inr ("時間範囲が正しくありません", refl, refl)
duration_from-Stage (some a) none rule = inr ("時間範囲が正しくありません", refl, refl)
duration_from-Stage (some a) (some b) rule =
    elim (Bool-cases (is_below_zero a || is_below_zero b || exceeds a b)) [
      | inl e ↦ inr ("時間範囲が正しくありません", rw e refl, ground (arith, e))
      | inr e ↦
          let minutes =
            object (
              field "min" (number (seconds_of a))
                (field "max" (number (seconds_of b)) no_fields)) in
          inl (
            set_field "duration" minutes rule,
            rw e refl,
            ground (arith, e),
            has-set_field "duration" minutes rule refl,
          )
    ]

pub with_duration-Stage :
    (read : String → Option Fraction) (min max : String) (rule : Properties)
    → Stage
        (with_duration read min max rule)
        (pair_fits minutes_fit read (trim min) (trim max))
        (truthy (trim min))
        rule
unfolding with_duration
with_duration-Stage read min max rule = elim (Bool-cases (truthy (trim min))) [
  | inl a ↦ elim (Bool-cases (truthy (trim max))) [
    | inl b ↦ rw (a, b) (duration_from-Stage (read (trim min)) (read (trim max)) rule)
    | inr b ↦ rw (a, b) (inr ("最短分と最長分を両方入力してください", refl, refl))
  ]
  | inr a ↦ elim (Bool-cases (truthy (trim max))) [
    | inl b ↦ rw (a, b) (inr ("最短分と最長分を両方入力してください", refl, refl))
    | inr b ↦ rw (a, b) (inl (rule, refl, refl, refl))
  ]
]

pub hours_from-Stage :
    (a b : Option Fraction) (rule : Properties)
    → Stage (hours_from a b rule) (both_fit hours_fit a b) true rule
hours_from-Stage none b rule = inr ("開始時・終了時が正しくありません", refl, refl)
hours_from-Stage (some a) none rule = inr ("開始時・終了時が正しくありません", refl, refl)
hours_from-Stage (some a) (some b) rule = elim (Bool-cases (is_start a && is_end b)) [
  | inl e ↦
      let hours =
        object
          (field "start" (number (value_of a)) (field "end" (number (value_of b)) no_fields)) in
      inl (set_field "hour" hours rule, rw e refl, e, has-set_field "hour" hours rule refl)
  | inr e ↦ inr ("開始時・終了時が正しくありません", rw e refl, e)
]

pub with_hours-Stage :
    (read : String → Option Fraction) (start end : String) (rule : Properties)
    → Stage
        (with_hours read start end rule)
        (pair_fits hours_fit read (trim start) (trim end))
        (truthy (trim start))
        rule
unfolding with_hours
with_hours-Stage read start end rule = elim (Bool-cases (truthy (trim start))) [
  | inl a ↦ elim (Bool-cases (truthy (trim end))) [
    | inl b ↦ rw (a, b) (hours_from-Stage (read (trim start)) (read (trim end)) rule)
    | inr b ↦ rw (a, b) (inr ("開始時と終了時を両方入力してください", refl, refl))
  ]
  | inr a ↦ elim (Bool-cases (truthy (trim end))) [
    | inl b ↦ rw (a, b) (inr ("開始時と終了時を両方入力してください", refl, refl))
    | inr b ↦ rw (a, b) (inl (rule, refl, refl, refl))
  ]
]
