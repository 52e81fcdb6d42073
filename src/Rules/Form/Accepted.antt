-- ===== src/Rules/Form/Accepted.antt =====
-- Which forms of a rule are accepted (web/app.js: `readRuleForm`), described by the fields alone.
use strata_pvr.Base.{
  String, Bool, true, false, ◌&&◌, ◌||◌, Option, truthy, trim, ◌≡◌, refl, ap, ◌∙◌, inl, inr,
  Bool-cases,
}
use strata_pvr.Settings.{Properties, Format}
use strata_pvr.Rules.Fields.{Reading, accepted, refused, ◌>>=◌}
use strata_pvr.Rules.Form.{
  Fraction, Form, read_extra_rule_json, with_titles, with_sid, with_lists, with_duration,
  with_hours, with_format, with_disabled, has_condition, nonempty, read_rule_form,
}
use strata_pvr.Rules.Form.Has.{
  titles_choose, lists_choose, has-with_titles, has-with_lists, has-last,
}
use strata_pvr.Rules.Form.Stages.{
  sid_fits, pair_fits, minutes_fit, hours_fit, with_sid-Stage, with_duration-Stage,
  with_hours-Stage,
}

abbrev pub chooses : Form → Bool → Bool
chooses f otherwise =
    truthy (trim f.hour_start)
    || (truthy (trim f.duration_min)
        || lists_choose f (truthy (trim f.sid) || titles_choose f otherwise))

abbrev pub accepts : (String → Option Fraction) → Form → Reading Properties → Bool
accepts read f (refused e) = false
accepts read f (accepted extra) =
    sid_fits read (trim f.sid)
    && pair_fits minutes_fit read (trim f.duration_min) (trim f.duration_max)
    && pair_fits hours_fit read (trim f.hour_start) (trim f.hour_end)
    && chooses f (has_condition extra)

abbrev pub is_accepted {ℓ} : {A : Type ℓ} → Reading A → Bool
is_accepted (accepted a) = true
is_accepted (refused e) = false

nonempty_lem : (rule : Properties) → is_accepted (nonempty rule) ≡ has_condition rule
nonempty_lem rule = elim (Bool-cases (has_condition rule)) [ inl e ↦ rw e refl | inr e ↦ rw e refl ]

-- What follows the extra properties.
abbrev rest_of : (String → Option Fraction) → Form → Properties → Reading Properties
rest_of read f extra =
    with_sid read f.sid (with_titles f extra)
    >>= (λ rule. with_duration read f.duration_min f.duration_max (with_lists f rule))
    >>= (λ rule. with_hours read f.hour_start f.hour_end rule)
    >>= (λ rule. nonempty (with_disabled f.is_disabled (with_format f.recorded_format rule)))

rest_of_lem :
    (read : String → Option Fraction) (f : Form) (extra : Properties)
    → is_accepted (rest_of read f extra) ≡ accepts read f (accepted extra)
rest_of_lem read f extra = elim (with_sid-Stage read f.sid (with_titles f extra)) [
  | inr (e, h, p) ↦ rw (h, p) refl
  | inl (a, h, p, c) ↦
      elim (with_duration-Stage read f.duration_min f.duration_max (with_lists f a)) [
        | inr (e, i, q) ↦ rw (h, i, p, q) refl
        | inl (b, i, q, d) ↦ elim (with_hours-Stage read f.hour_start f.hour_end b) [
          | inr (e, j, r) ↦ rw (h, i, j, p, q, r) refl
          | inl (o, j, r, k) ↦
              rw (h, i, j, p, q, r)
                (nonempty_lem _
                  ∙ has-last f o
                  ∙ k
                  ∙ ap (λ t. truthy (trim f.hour_start) || t)
                      (d
                        ∙ ap (λ t. truthy (trim f.duration_min) || t)
                            (has-with_lists f a
                              ∙ ap (lists_choose f) (
                                  c
                                  ∙ ap (λ t. truthy (trim f.sid) || t) (has-with_titles f extra)))))
        ]
      ]
]

read_with_lem :
    (read : String → Option Fraction) (f : Form) (extra : Reading Properties)
    → is_accepted (
        extra
        >>= (λ extra. with_sid read f.sid (with_titles f extra))
        >>= (λ rule. with_duration read f.duration_min f.duration_max (with_lists f rule))
        >>= (λ rule. with_hours read f.hour_start f.hour_end rule)
        >>= (λ rule. nonempty (with_disabled f.is_disabled (with_format f.recorded_format rule))))
      ≡ accepts read f extra
read_with_lem read f (accepted extra) = rest_of_lem read f extra
read_with_lem read f (refused e) = refl

-- The form gives a rule exactly if the extra properties are an object or left empty, the service id is
-- empty or a positive integer, the two lengths are empty or both numbers, not negative and in order,
-- the two hours are empty or both integers in their ranges, and a field or an extra property says
-- which programmes are meant. In every other case the call returns too, with a message.
pub is_accepted-read_rule_form :
    (read : String → Option Fraction) (format : Format) (f : Form)
    → is_accepted (read_rule_form read format f)
      ≡ accepts read f (read_extra_rule_json format f.extra)
unfolding read_rule_form
is_accepted-read_rule_form read format f =
    read_with_lem read f (read_extra_rule_json format f.extra)
