-- ===== src/Rules/Form/Others.antt =====
-- What each stage of the form leaves of the other properties (web/app.js: `readRuleForm`).
use strata_pvr.Base.{
  String, false, not, ◌||◌, Option, none, some, List, [], ◌∷◌, ◌==◌, truthy, trim, member, ◌≡◌,
  refl, sym, ap, ◌∙◌, inl, inr, Bool-cases, arith,
}
use strata_pvr.Status.{split_list}
use strata_pvr.Settings.{Properties, array, texts}
use strata_pvr.Rules.Fields.{
  accepted, get_field, set_field, accepted_injective, refused-ne-accepted, get_field-set_field,
  get_field-remove_field,
}
use strata_pvr.Rules.Form.{
  Fraction, Form, list_form_values, with_values, with_type, with_categories, with_titles, with_sid,
  sid_from, with_lists, with_duration, duration_from, is_sid, is_below_zero, exceeds,
}

module _ (name : String) where
  get-with_values :
      (k : String) (vs : List String) (rule : Properties)
      → (k == name) ≡ false
      → get_field name (with_values k vs rule) ≡ get_field name rule
  get-with_values k [] rule h = refl
  get-with_values k (v ∷ vs) rule h = get_field-set_field name k _ rule ∙ rw h refl

  get-with_categories :
      (vs : List String) (rule : Properties)
      → ("categories" == name) ≡ false
      → ("category" == name) ≡ false
      → get_field name (with_categories vs rule) ≡ get_field name rule
  get-with_categories [] rule h k = refl
  get-with_categories (v ∷ vs) rule h k =
      let value = array (texts (v ∷ vs)) in
      let written = get_field-set_field name "categories" value rule in
      get_field-remove_field name "category" (set_field "categories" value rule)
      ∙ rw (k, written, h) refl

  get-with_type :
      (type : String) (rule : Properties)
      → ("types" == name) ≡ false
      → get_field name (with_type type rule) ≡ get_field name rule
  get-with_type type rule h = elim (Bool-cases (truthy type)) [
    | inl e ↦ rw e (get_field-set_field name "types" _ rule ∙ rw h refl)
    | inr e ↦ rw e refl
  ]

  get-sid_from :
      (n : Option Fraction) (rule r : Properties)
      → ("sid" == name) ≡ false
      → sid_from n rule ≡ accepted r
      → get_field name r ≡ get_field name rule
  get-sid_from none rule r n h = absurd (refused-ne-accepted h)
  get-sid_from (some a) rule r n h = elim (Bool-cases (is_sid a)) [
    | inr e ↦ absurd (refused-ne-accepted (rw e at h))
    | inl e ↦
        ap (get_field name) (sym (accepted_injective (rw e at h)))
        ∙ get_field-set_field name "sid" _ rule
        ∙ rw n refl
  ]

  pub get-with_sid :
      (read : String → Option Fraction) (sid : String) (rule r : Properties)
      → ("sid" == name) ≡ false
      → with_sid read sid rule ≡ accepted r
      → get_field name r ≡ get_field name rule
  unfolding with_sid
  get-with_sid read sid rule r n h = elim (Bool-cases (truthy (trim sid))) [
    | inl e ↦ get-sid_from (read (trim sid)) rule r n (rw e at h)
    | inr e ↦ ap (get_field name) (sym (accepted_injective (rw e at h)))
  ]

  get-duration_from :
      (a b : Option Fraction) (rule r : Properties)
      → ("duration" == name) ≡ false
      → duration_from a b rule ≡ accepted r
      → get_field name r ≡ get_field name rule
  get-duration_from none b rule r n h = absurd (refused-ne-accepted h)
  get-duration_from (some a) none rule r n h = absurd (refused-ne-accepted h)
  get-duration_from (some a) (some b) rule r n h =
      elim (Bool-cases (is_below_zero a || is_below_zero b || exceeds a b)) [
        | inl e ↦ absurd (refused-ne-accepted (rw e at h))
        | inr e ↦
            ap (get_field name) (sym (accepted_injective (rw e at h)))
            ∙ get_field-set_field name "duration" _ rule
            ∙ rw n refl
      ]

  pub get-with_duration :
      (read : String → Option Fraction) (min max : String) (rule r : Properties)
      → ("duration" == name) ≡ false
      → with_duration read min max rule ≡ accepted r
      → get_field name r ≡ get_field name rule
  unfolding with_duration
  get-with_duration read min max rule r n h =
      elim (Bool-cases (truthy (trim min) || truthy (trim max))) [
        | inr e ↦ ap (get_field name) (sym (accepted_injective (rw e at h)))
        | inl e ↦ elim (Bool-cases (not (truthy (trim min)) || not (truthy (trim max)))) [
          | inl i ↦ absurd (refused-ne-accepted (rw (e, i) at h))
          | inr i ↦ get-duration_from (read (trim min)) (read (trim max)) rule r n (rw (e, i) at h)
        ]
      ]

  -- The names that `with_lists` writes or removes.
  pub get-with_lists :
      (f : Form) (rule : Properties)
      → member name (
          "categories" ∷ "category" ∷ "channels" ∷ "ignore_channels" ∷ "reserve_flags"
          ∷ "ignore_flags" ∷ [])
        ≡ false
      → get_field name (with_lists f rule) ≡ get_field name rule
  get-with_lists f rule h =
      get-with_values "ignore_flags" (split_list f.ignore_flags) _ (ground (arith, h))
      ∙ get-with_values "reserve_flags" (split_list f.flags) _ (ground (arith, h))
      ∙ get-with_values "ignore_channels" (list_form_values f.ignore_channels) _ (ground (arith, h))
      ∙ get-with_values "channels" (list_form_values f.channels) _ (ground (arith, h))
      ∙ get-with_categories (list_form_values f.categories) rule (ground (arith, h))
          (ground (arith, h))

pub get-with_titles :
    (f : Form) (rule : Properties) (v : String) (vs : List String)
    → split_list f.title ≡ v ∷ vs
    → get_field "reserve_titles" (with_titles f rule)
      ≡ get_field "reserve_titles" (with_values "reserve_titles" (v ∷ vs) rule)
get-with_titles f rule v vs h =
    get-with_type "reserve_titles" f.type _ refl
    ∙ get-with_values "reserve_titles" "ignore_descriptions" (split_list f.ignore_description) _
        refl
    ∙ get-with_values "reserve_titles" "reserve_descriptions" (split_list f.description) _ refl
    ∙ get-with_values "reserve_titles" "ignore_titles" (split_list f.ignore_title) _ refl
    ∙ ap (λ ts. get_field "reserve_titles" (with_values "reserve_titles" ts rule)) h
