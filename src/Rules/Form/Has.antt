-- ===== src/Rules/Form/Has.antt =====
-- Whether the rule that a form builds has a property (web/app.js: `readRuleForm`).
use strata_pvr.Base.{
  String, Bool, true, false, ◌||◌, some, List, [], ◌∷◌, truthy, trim, any, member, eq_iff, ◌≡◌,
  refl, ap, ◌∙◌, inl, inr, Bool-cases, arith,
}
use strata_pvr.Status.{split_list}
use strata_pvr.Settings.{Json, Properties}
use strata_pvr.Rules.Fields.{
  get_field, set_field, remove_field, is_true, get_field-set_field, get_field-remove_field,
}
use strata_pvr.Rules.Form.{
  Form, list_form_values, with_values, with_type, with_categories, with_titles, with_lists,
  with_format, with_disabled, conditions, has_condition,
}

abbrev pub is_filled : List String → Bool
is_filled [] = false
is_filled (v ∷ vs) = true

-- Whether a field says which programmes are meant, or `otherwise`.
abbrev pub titles_choose : Form → Bool → Bool
titles_choose f otherwise =
    truthy f.type
    || (is_filled (split_list f.ignore_description)
        || (is_filled (split_list f.description)
            || (is_filled (split_list f.ignore_title)
                || (is_filled (split_list f.title) || otherwise))))

abbrev pub lists_choose : Form → Bool → Bool
lists_choose f otherwise =
    is_filled (split_list f.ignore_flags)
    || (is_filled (split_list f.flags)
        || (is_filled (list_form_values f.ignore_channels)
            || (is_filled (list_form_values f.channels)
                || (is_filled (list_form_values f.categories) || otherwise))))

pub any-set_field :
    (k : String) (v : Json) (rule : Properties) (names : List String)
    → is_true (some v) ≡ true
    → any (λ n. is_true (get_field n (set_field k v rule))) names
      ≡ (member k names || any (λ n. is_true (get_field n rule)) names)
any-set_field k v rule [] t = refl
any-set_field k v rule (n ∷ names) t =
    ground
      (arith, get_field-set_field n k v rule, eq_iff k n, eq_iff n k, any-set_field k v rule names)

pub any-remove_field :
    (k : String) (rule : Properties) (names : List String)
    → member k names ≡ false
    → any (λ n. is_true (get_field n (remove_field k rule))) names
      ≡ any (λ n. is_true (get_field n rule)) names
any-remove_field k rule [] h = refl
any-remove_field k rule (n ∷ names) h =
    ground (
      arith,
      get_field-remove_field n k rule,
      eq_iff k n,
      eq_iff n k,
      any-remove_field k rule names,
    )

pub has-set_field :
    (k : String) (v : Json) (rule : Properties)
    → is_true (some v) ≡ true
    → has_condition (set_field k v rule) ≡ (member k conditions || has_condition rule)
unfolding has_condition
has-set_field k v rule t = any-set_field k v rule conditions t

pub has-with_values :
    (name : String) (vs : List String) (rule : Properties)
    → member name conditions ≡ true
    → has_condition (with_values name vs rule) ≡ (is_filled vs || has_condition rule)
has-with_values name [] rule m = refl
has-with_values name (v ∷ vs) rule m = has-set_field name _ rule refl ∙ rw m refl

pub has-with_categories :
    (vs : List String) (rule : Properties)
    → has_condition (with_categories vs rule) ≡ (is_filled vs || has_condition rule)
unfolding has_condition
has-with_categories [] rule = refl
has-with_categories (v ∷ vs) rule =
    any-remove_field "category" _ conditions refl
    ∙ any-set_field "categories" _ rule conditions refl

pub has-with_type :
    (type : String) (rule : Properties)
    → has_condition (with_type type rule) ≡ (truthy type || has_condition rule)
has-with_type type rule = elim (Bool-cases (truthy type)) [
  | inl e ↦ rw e (has-set_field "types" _ rule refl)
  | inr e ↦ rw e refl
]

pub has-with_titles :
    (f : Form) (rule : Properties)
    → has_condition (with_titles f rule) ≡ titles_choose f (has_condition rule)
has-with_titles f rule =
    let a = with_values "reserve_titles" (split_list f.title) rule in
    let b = with_values "ignore_titles" (split_list f.ignore_title) a in
    let c = with_values "reserve_descriptions" (split_list f.description) b in
    has-with_type f.type (with_values "ignore_descriptions" (split_list f.ignore_description) c)
    ∙ ap (λ h. truthy f.type || h)
        (has-with_values "ignore_descriptions" (split_list f.ignore_description) c refl
          ∙ ap (λ h. is_filled (split_list f.ignore_description) || h)
              (has-with_values "reserve_descriptions" (split_list f.description) b refl
                ∙ ap (λ h. is_filled (split_list f.description) || h)
                    (has-with_values "ignore_titles" (split_list f.ignore_title) a refl
                      ∙ ap (λ h. is_filled (split_list f.ignore_title) || h)
                          (has-with_values "reserve_titles" (split_list f.title) rule refl))))

pub has-with_lists :
    (f : Form) (rule : Properties)
    → has_condition (with_lists f rule) ≡ lists_choose f (has_condition rule)
has-with_lists f rule =
    let a = with_categories (list_form_values f.categories) rule in
    let b = with_values "channels" (list_form_values f.channels) a in
    let c = with_values "ignore_channels" (list_form_values f.ignore_channels) b in
    let d = with_values "reserve_flags" (split_list f.flags) c in
    has-with_values "ignore_flags" (split_list f.ignore_flags) d refl
    ∙ ap (λ h. is_filled (split_list f.ignore_flags) || h)
        (has-with_values "reserve_flags" (split_list f.flags) c refl
          ∙ ap (λ h. is_filled (split_list f.flags) || h)
              (has-with_values "ignore_channels" (list_form_values f.ignore_channels) b refl
                ∙ ap (λ h. is_filled (list_form_values f.ignore_channels) || h)
                    (has-with_values "channels" (list_form_values f.channels) a refl
                      ∙ ap (λ h. is_filled (list_form_values f.channels) || h)
                          (has-with_categories (list_form_values f.categories) rule))))

pub has-with_disabled :
    (b : Bool) (rule : Properties) → has_condition (with_disabled b rule) ≡ has_condition rule
has-with_disabled true rule = has-set_field "isDisabled" _ rule refl
has-with_disabled false rule = refl

pub has-with_format :
    (value : String) (rule : Properties)
    → has_condition (with_format value rule) ≡ has_condition rule
has-with_format value rule = elim (Bool-cases (truthy (trim value))) [
  | inl e ↦ rw e (has-set_field "recorded_format" _ rule e)
  | inr e ↦ rw e refl
]

pub has-last :
    (f : Form) (rule : Properties)
    → has_condition (with_disabled f.is_disabled (with_format f.recorded_format rule))
      ≡ has_condition rule
has-last f rule =
    has-with_disabled f.is_disabled (with_format f.recorded_format rule)
    ∙ has-with_format f.recorded_format rule
