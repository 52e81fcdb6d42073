-- ===== src/Rules/Form/Checked.antt =====
-- What the form of a rule lets through (web/app.js: `readRuleForm`).
use mathlib.Core.Path.{subst}
use native.Mathlib.Nat.{
  mul-le-mul_right, div-mul-le_self, le-div_iff_mul-le, le_of_mul-le-mul_right,
}
use strata_pvr.Base.{
  ℕ, suc, ◌≤◌, ◌*◌, ◌+◌, String, Bool, true, false, not, ◌&&◌, ◌||◌, Option, none, some, ◌==◌,
  truthy, trim, ◌≡◌, refl, sym, ap, ◌∙◌, inl, inr, Bool-cases, arith,
}
use strata_pvr.Settings.{Properties, Format, number, object, no_fields, field}
use strata_pvr.Rules.Fields.{
  accepted, >>=-accepted, accepted_injective, refused-ne-accepted, get_field, get_field-set_field,
}
use strata_pvr.Rules.Form.{
  Fraction, Form, read_extra_rule_json, with_titles, with_sid, with_lists, with_duration,
  duration_from, with_hours, hours_from, with_format, with_disabled, has_condition, nonempty,
  read_rule_form, value_of, is_below_zero, is_start, is_end, exceeds, seconds_of,
}

-- The stages of a form that is accepted.
abbrev pub Stages : (String → Option Fraction) → Format → Form → Properties → Type 0
Stages read format f rule =
    (extra : Properties) × (a : Properties) × (b : Properties) × (c : Properties)
    × (read_extra_rule_json format f.extra ≡ accepted extra)
    × (with_sid read f.sid (with_titles f extra) ≡ accepted a)
    × (with_duration read f.duration_min f.duration_max (with_lists f a) ≡ accepted b)
    × (with_hours read f.hour_start f.hour_end b ≡ accepted c)
    × (nonempty (with_disabled f.is_disabled (with_format f.recorded_format c)) ≡ accepted rule)

pub stages :
    (read : String → Option Fraction) (format : Format) (f : Form) (rule : Properties)
    → read_rule_form read format f ≡ accepted rule
    → Stages read format f rule
unfolding read_rule_form
stages read format f rule h =
    let (c, hc, h5) = >>=-accepted _ _ h in
    let (b, hb, h4) = >>=-accepted _ _ hc in
    let (a, ha, h3) = >>=-accepted _ _ hb in
    let (extra, h1, h2) = >>=-accepted _ _ ha in (extra, a, b, c, h1, h2, h3, h4, h5)

nonempty_lem :
    (rule r : Properties) → nonempty rule ≡ accepted r → (rule ≡ r) × (has_condition rule ≡ true)
nonempty_lem rule r h = elim (Bool-cases (has_condition rule)) [
  | inl e ↦ (accepted_injective (rw e at h), e)
  | inr e ↦ absurd (refused-ne-accepted (rw e at h))
]

-- A rule that the form gives has a condition.
pub read_rule_form-has_condition :
    (read : String → Option Fraction) (format : Format) (f : Form) (rule : Properties)
    → read_rule_form read format f ≡ accepted rule
    → has_condition rule ≡ true
read_rule_form-has_condition read format f rule h =
    let (extra, a, b, c, h1, h2, h3, h4, h5) = stages read format f rule h in
    let (e, k) = nonempty_lem _ rule h5 in subst (λ r. has_condition r ≡ true) e k

-- What the stages behind leave of a property.
get-with_format :
    (name value : String) (rule : Properties)
    → ("recorded_format" == name) ≡ false
    → get_field name (with_format value rule) ≡ get_field name rule
get-with_format name value rule h = elim (Bool-cases (truthy (trim value))) [
  | inl e ↦ rw e (get_field-set_field name "recorded_format" _ rule ∙ rw h refl)
  | inr e ↦ rw e refl
]

get-with_disabled :
    (name : String) (b : Bool) (rule : Properties)
    → ("isDisabled" == name) ≡ false
    → get_field name (with_disabled b rule) ≡ get_field name rule
get-with_disabled name true rule h = get_field-set_field name "isDisabled" _ rule ∙ rw h refl
get-with_disabled name false rule h = refl

pub get-last :
    (name : String) (f : Form) (c rule : Properties)
    → ("recorded_format" == name) ≡ false
    → ("isDisabled" == name) ≡ false
    → nonempty (with_disabled f.is_disabled (with_format f.recorded_format c)) ≡ accepted rule
    → get_field name rule ≡ get_field name c
get-last name f c rule a b h =
    let (e, k) = nonempty_lem _ rule h in
    ap (get_field name) (sym e)
    ∙ get-with_disabled name f.is_disabled _ b
    ∙ get-with_format name f.recorded_format c a

-- The hours of a rule.
abbrev pub HasHours : Properties → Type 0
HasHours rule =
    (start : ℕ) × (end : ℕ) × (get_field "hour" rule
      ≡ some (object (field "start" (number start) (field "end" (number end) no_fields))))
    × (start ≤ 23)
    × (1 ≤ end)
    × (end ≤ 24)

hours_from-HasHours :
    (a b : Option Fraction) (rule r : Properties) → hours_from a b rule ≡ accepted r → HasHours r
hours_from-HasHours none b rule r h = absurd (refused-ne-accepted h)
hours_from-HasHours (some a) none rule r h = absurd (refused-ne-accepted h)
hours_from-HasHours (some a) (some b) rule r h = elim (Bool-cases (is_start a && is_end b)) [
  | inr e ↦ absurd (refused-ne-accepted (rw e at h))
  | inl e ↦
      let set = accepted_injective (rw e at h) in
      (
        value_of a,
        value_of b,
        ap (get_field "hour") (sym set) ∙ get_field-set_field "hour" "hour" _ rule,
        ground (arith, e),
        ground (arith, e),
        ground (arith, e),
      )
]

with_hours-HasHours :
    (read : String → Option Fraction) (start end : String) (rule r : Properties)
    → truthy (trim start) ≡ true
    → with_hours read start end rule ≡ accepted r
    → HasHours r
unfolding with_hours
with_hours-HasHours read start end rule r given h = elim (Bool-cases (truthy (trim end))) [
  | inl e ↦ hours_from-HasHours (read (trim start)) (read (trim end)) rule r (rw (given, e) at h)
  | inr e ↦ absurd (refused-ne-accepted (rw (given, e) at h))
]

-- If the form gives a rule and its field of the first hour is filled, the rule has hours from 0 to 23
-- and to between 1 and 24.
pub read_rule_form-HasHours :
    (read : String → Option Fraction) (format : Format) (f : Form) (rule : Properties)
    → truthy (trim f.hour_start) ≡ true
    → read_rule_form read format f ≡ accepted rule
    → HasHours rule
read_rule_form-HasHours read format f rule given h =
    let (extra, a, b, c, h1, h2, h3, h4, h5) = stages read format f rule h in
    let (start, end, e, first, last, most) =
      with_hours-HasHours read f.hour_start f.hour_end b c given h4 in
    (start, end, get-last "hour" f c rule refl refl h5 ∙ e, first, last, most)

-- The length of the programmes that a rule chooses, in seconds.
abbrev pub HasDuration : Properties → Type 0
HasDuration rule =
    (min : ℕ) × (max : ℕ) × (get_field "duration" rule
      ≡ some (object (field "min" (number min) (field "max" (number max) no_fields))))
    × (min ≤ max)

seconds_of-le : (a b : Fraction) → exceeds a b ≡ false → seconds_of a ≤ seconds_of b
seconds_of-le a b h =
    let fewer : a.numerator * suc b.rest ≤ b.numerator * suc a.rest = ground (arith, h) in
    let scaled =
      mul-le-mul_right (suc b.rest)
        (div-mul-le_self (a.numerator * 120 + suc a.rest) (2 * suc a.rest)) in
    (le-div_iff_mul-le (omega arith)).1
      (le_of_mul-le-mul_right {k = suc a.rest} (omega (arith, fewer, scaled)) (omega arith))

duration_from-HasDuration :
    (a b : Option Fraction) (rule r : Properties)
    → duration_from a b rule ≡ accepted r
    → HasDuration r
duration_from-HasDuration none b rule r h = absurd (refused-ne-accepted h)
duration_from-HasDuration (some a) none rule r h = absurd (refused-ne-accepted h)
duration_from-HasDuration (some a) (some b) rule r h =
    elim (Bool-cases (is_below_zero a || is_below_zero b || exceeds a b)) [
      | inl e ↦ absurd (refused-ne-accepted (rw e at h))
      | inr e ↦
          let set = accepted_injective (rw e at h) in
          (
            seconds_of a,
            seconds_of b,
            ap (get_field "duration") (sym set) ∙ get_field-set_field "duration" "duration" _ rule,
            seconds_of-le a b (ground (arith, e)),
          )
    ]

with_duration-HasDuration :
    (read : String → Option Fraction) (min max : String) (rule r : Properties)
    → truthy (trim min) ≡ true
    → with_duration read min max rule ≡ accepted r
    → HasDuration r
unfolding with_duration
with_duration-HasDuration read min max rule r given h = elim (Bool-cases (truthy (trim max))) [
  | inl e ↦
      duration_from-HasDuration (read (trim min)) (read (trim max)) rule r (rw (given, e) at h)
  | inr e ↦ absurd (refused-ne-accepted (rw (given, e) at h))
]

get-hours_from :
    (name : String) (a b : Option Fraction) (rule r : Properties)
    → ("hour" == name) ≡ false
    → hours_from a b rule ≡ accepted r
    → get_field name r ≡ get_field name rule
get-hours_from name none b rule r n h = absurd (refused-ne-accepted h)
get-hours_from name (some a) none rule r n h = absurd (refused-ne-accepted h)
get-hours_from name (some a) (some b) rule r n h = elim (Bool-cases (is_start a && is_end b)) [
  | inr e ↦ absurd (refused-ne-accepted (rw e at h))
  | inl e ↦
      ap (get_field name) (sym (accepted_injective (rw e at h)))
      ∙ get_field-set_field name "hour" _ rule
      ∙ rw n refl
]

pub get-with_hours :
    (read : String → Option Fraction) (name start end : String) (rule r : Properties)
    → ("hour" == name) ≡ false
    → with_hours read start end rule ≡ accepted r
    → get_field name r ≡ get_field name rule
unfolding with_hours
get-with_hours read name start end rule r n h =
    elim (Bool-cases (truthy (trim start) || truthy (trim end))) [
      | inr e ↦ ap (get_field name) (sym (accepted_injective (rw e at h)))
      | inl e ↦ elim (Bool-cases (not (truthy (trim start)) || not (truthy (trim end)))) [
        | inl i ↦ absurd (refused-ne-accepted (rw (e, i) at h))
        | inr i ↦
            get-hours_from name (read (trim start)) (read (trim end)) rule r n (rw (e, i) at h)
      ]
    ]

-- If the form gives a rule and its field of the shortest length is filled, the rule has a shortest and
-- a longest length in seconds, and the first is not above the second.
pub read_rule_form-HasDuration :
    (read : String → Option Fraction) (format : Format) (f : Form) (rule : Properties)
    → truthy (trim f.duration_min) ≡ true
    → read_rule_form read format f ≡ accepted rule
    → HasDuration rule
read_rule_form-HasDuration read format f rule given h =
    let (extra, a, b, c, h1, h2, h3, h4, h5) = stages read format f rule h in
    let (min, max, e, bound) =
      with_duration-HasDuration read f.duration_min f.duration_max _ b given h3 in
    (
      min,
      max,
      get-last "duration" f c rule refl refl h5
          ∙ get-with_hours read "duration" f.hour_start f.hour_end b c refl h4
          ∙ e,
      bound,
    )
