-- ===== src/Rules/Fill/Kept.antt =====
-- What a rule keeps when it goes through the form (web/app.js: `readRuleForm` behind
-- `fillRuleFormFromRule`).
use mathlib.Core.Path.{subst}
use native.Mathlib.Nat.{div-one}
use strata_pvr.Base.{
  ℕ, String, true, false, ◌&&◌, Option, some, List, [], ◌∷◌, ◌⧺◌, show, join, truthy, trim,
  trim-show, show-ne-empty, eq_iff, All, ◌≡◌, refl, sym, ap, ◌∙◌, inl, inr, Bool-cases, arith,
}
use strata_pvr.Status.{split_list}
use strata_pvr.Status.Split.{IsClean, split_list-join}
use strata_pvr.Settings.{Json, Properties, number, array, object, no_fields, field, texts}
use strata_pvr.Rules.Fields.{
  accepted, accepted_injective, refused-ne-accepted, get_field, get_field-set_field,
}
use strata_pvr.Rules.Form.{Fraction, read_rule_form, with_hours, hours_from, is_start, is_end}
use strata_pvr.Rules.Form.Checked.{stages, get-last, get-with_hours}
use strata_pvr.Rules.Form.Others.{get-with_sid, get-with_duration, get-with_lists, get-with_titles}
use strata_pvr.Rules.Fill.{
  World, Editor, joined, list_form_value, form_value, inner_of, to_text, fill_rule_form_from_rule,
}

joined-texts : (vs : List String) → joined ", " (texts vs) ≡ join ", " vs
unfolding joined
joined-texts [] = refl
joined-texts (v ∷ []) = refl
joined-texts (v ∷ w ∷ vs) = ap (λ r. v ⧺ ", " ⧺ r) (joined-texts (w ∷ vs))

filled_title :
    (w : World) (rule : Properties) (index : ℕ) (e : Editor) (v : String) (vs : List String)
    → get_field "reserve_titles" rule ≡ some (array (texts (v ∷ vs)))
    → All IsClean (v ∷ vs)
    → split_list (fill_rule_form_from_rule w rule index e).form.title ≡ v ∷ vs
unfolding fill_rule_form_from_rule
filled_title w rule index e v vs h clean =
    ap (λ o. split_list (list_form_value o)) h
    ∙ ap split_list (joined-texts (v ∷ vs))
    ∙ split_list-join (v ∷ vs) clean

-- A rule whose titles are trimmed, not empty and without commas: if its form, as it was filled, gives
-- a rule, that rule has the same titles.
pub fill_rule_form_from_rule-titles :
    (w : World) (rule saved : Properties) (index : ℕ) (e : Editor) (v : String) (vs : List String)
    → get_field "reserve_titles" rule ≡ some (array (texts (v ∷ vs)))
    → All IsClean (v ∷ vs)
    → read_rule_form w.read w.format (fill_rule_form_from_rule w rule index e).form ≡ accepted saved
    → get_field "reserve_titles" saved ≡ get_field "reserve_titles" rule
fill_rule_form_from_rule-titles w rule saved index e v vs h clean given =
    let f = (fill_rule_form_from_rule w rule index e).form in
    let name : String = "reserve_titles" in
    let (extra, a, b, c, h1, h2, h3, h4, h5) = stages w.read w.format f saved given in
    get-last name f c saved refl refl h5
    ∙ get-with_hours w.read name f.hour_start f.hour_end b c refl h4
    ∙ get-with_duration name w.read f.duration_min f.duration_max _ b refl h3
    ∙ get-with_lists name f a refl
    ∙ get-with_sid name w.read f.sid _ a refl h2
    ∙ get-with_titles f extra v vs (filled_title w rule index e v vs h clean)
    ∙ get_field-set_field name name (array (texts (v ∷ vs))) extra
    ∙ sym h

-- The hours of a rule as an object.
abbrev pub hours : ℕ → ℕ → Json
hours start end = object (field "start" (number start) (field "end" (number end) no_fields))

-- `Number` of a digit string.
abbrev pub whole : ℕ → Fraction
whole n = record { is_negative = false; numerator = n; rest = 0 }

show-is_truthy : (n : ℕ) → truthy (trim (show n)) ≡ true
show-is_truthy n = ap truthy (trim-show n) ∙ ground (arith, show-ne-empty n, eq_iff (show n) "")

whole_hours :
    (start end : ℕ) (rule r : Properties)
    → hours_from (some (whole start)) (some (whole end)) rule ≡ accepted r
    → get_field "hour" r ≡ some (hours start end)
whole_hours start end rule r h = elim (Bool-cases (is_start (whole start) && is_end (whole end))) [
  | inr e ↦ absurd (refused-ne-accepted (rw e at h))
  | inl e ↦
      ap (get_field "hour") (sym (accepted_injective (rw e at h)))
      ∙ get_field-set_field "hour" "hour" _ rule
      ∙ ap some (rw (div-one start, div-one end) refl)
]

shown_hours :
    (read : String → Option Fraction) (start end : ℕ) (rule r : Properties)
    → read (show start) ≡ some (whole start)
    → read (show end) ≡ some (whole end)
    → with_hours read (show start) (show end) rule ≡ accepted r
    → get_field "hour" r ≡ some (hours start end)
unfolding with_hours
shown_hours read start end rule r a b h =
    whole_hours start end rule r
      (rw (show-is_truthy start, show-is_truthy end, trim-show start, trim-show end, a, b) at h)

filled_hours :
    (w : World) (rule : Properties) (index : ℕ) (e : Editor) (start end : ℕ)
    → get_field "hour" rule ≡ some (hours start end)
    → ((fill_rule_form_from_rule w rule index e).form.hour_start ≡ show start)
      × ((fill_rule_form_from_rule w rule index e).form.hour_end ≡ show end)
unfolding fill_rule_form_from_rule get_field to_text
filled_hours w rule index e start end h =
    (ap (λ o. form_value (inner_of "start" o)) h, ap (λ o. form_value (inner_of "end" o)) h)

-- A rule with hours, which the browser reads as they are written: if its form, as it was filled, gives
-- a rule, that rule has the same hours.
pub fill_rule_form_from_rule-hours :
    (w : World) (rule saved : Properties) (index : ℕ) (e : Editor) (start end : ℕ)
    → get_field "hour" rule ≡ some (hours start end)
    → w.read (show start) ≡ some (whole start)
    → w.read (show end) ≡ some (whole end)
    → read_rule_form w.read w.format (fill_rule_form_from_rule w rule index e).form ≡ accepted saved
    → get_field "hour" saved ≡ get_field "hour" rule
fill_rule_form_from_rule-hours w rule saved index e start end h a b given =
    let f = (fill_rule_form_from_rule w rule index e).form in
    let (extra, i, j, k, h1, h2, h3, h4, h5) = stages w.read w.format f saved given in
    let (first, last) = filled_hours w rule index e start end h in
    get-last "hour" f k saved refl refl h5
    ∙ shown_hours w.read start end j k a b (
        subst (λ t. with_hours w.read (show start) t j ≡ accepted k) last
          (subst (λ t. with_hours w.read t f.hour_end j ≡ accepted k) first h4))
    ∙ sym h
