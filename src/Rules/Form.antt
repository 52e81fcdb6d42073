-- ===== src/Rules/Form.antt =====
-- The form of a rule (web/app.js: `readExtraRuleJSON`, `listFormValues`, `readRuleForm`). The values
-- of the fields are texts; the lists with several choices hold the selected values.
pub mod Has
pub mod Stages
pub mod Accepted
pub mod Checked
pub mod Others
use strata_pvr.Base.{
  ℕ, suc, ◌+◌, ◌*◌, ◌/◌, ◌%◌, String, Bool, true, false, not, ◌&&◌, ◌||◌, Option, none, some, List,
  [], ◌∷◌, ◌==◌, eqb, ltb, leb, truthy, trim, filter, any, if◌then◌else◌,
}
use strata_pvr.Status.{split_list}
use strata_pvr.Settings.{
  Json, Values, Properties, Format, null, boolean, number, text, array, object, no_elements,
  element, no_fields, field, texts,
}
use strata_pvr.Rules.Fields.{
  Reading, accepted, refused, ◌>>=◌, get_field, set_field, remove_field, is_true,
}

-- What `Number` reads from a text: a fraction `numerator / suc rest`, if it is finite.
pub record Fraction : Type 0 where
  pub is_negative : Bool
  pub numerator : ℕ
  pub rest : ℕ

pub record Form : Type 0 where
  pub title : String
  pub ignore_title : String
  pub description : String
  pub ignore_description : String
  pub type : String
  pub sid : String
  pub categories : List String
  pub channels : List String
  pub ignore_channels : List String
  pub flags : String
  pub ignore_flags : String
  pub duration_min : String
  pub duration_max : String
  pub hour_start : String
  pub hour_end : String
  pub recorded_format : String
  pub is_disabled : Bool
  pub extra : String

-- `readExtraRuleJSON`: `null`, a false value and an array are no object.
abbrev pub extra_of : Option Json → Reading Properties
extra_of none = refused "追加JSONが正しくありません"
extra_of (some (object o)) = accepted o
extra_of (some null) = refused "追加JSONはオブジェクトにしてください"
extra_of (some (boolean b)) = refused "追加JSONはオブジェクトにしてください"
extra_of (some (number n)) = refused "追加JSONはオブジェクトにしてください"
extra_of (some (text s)) = refused "追加JSONはオブジェクトにしてください"
extra_of (some (array vs)) = refused "追加JSONはオブジェクトにしてください"

unfoldable pub read_extra_rule_json : Format → String → Reading Properties
read_extra_rule_json format value =
    if truthy (trim value) then extra_of (format.parse value) else accepted no_fields

-- The values of a list with several choices: those of the selected options that are not empty.
unfoldable pub list_form_values : List String → List String
list_form_values selected = filter truthy selected

-- `if (values.length) { rule[name] = values; }`
abbrev pub with_values : String → List String → Properties → Properties
with_values name [] rule = rule
with_values name (v ∷ vs) rule = set_field name (array (texts (v ∷ vs))) rule

abbrev pub with_type : String → Properties → Properties
with_type type rule =
    if truthy type then set_field "types" (array (texts (type ∷ []))) rule else rule

-- `rule.categories = categoryValues; delete rule.category;`
abbrev pub with_categories : List String → Properties → Properties
with_categories [] rule = rule
with_categories (v ∷ vs) rule =
    remove_field "category" (set_field "categories" (array (texts (v ∷ vs))) rule)

abbrev pub with_titles : Form → Properties → Properties
with_titles f rule = with_type f.type (
    with_values "ignore_descriptions" (split_list f.ignore_description) (
      with_values "reserve_descriptions" (split_list f.description) (
        with_values "ignore_titles" (split_list f.ignore_title)
          (with_values "reserve_titles" (split_list f.title) rule))))

abbrev pub is_integer : Fraction → Bool
is_integer n = eqb (n.numerator % suc n.rest) 0

abbrev pub value_of : Fraction → ℕ
value_of n = n.numerator / suc n.rest

abbrev pub is_below_zero : Fraction → Bool
is_below_zero n = n.is_negative && not (eqb n.numerator 0)

-- `!Number.isInteger(sidValue) || sidValue <= 0`
abbrev pub is_sid : Fraction → Bool
is_sid n = is_integer n && not n.is_negative && not (eqb n.numerator 0)

abbrev pub sid_from : Option Fraction → Properties → Reading Properties
sid_from none rule = refused "SIDが正しくありません"
sid_from (some n) rule =
    if is_sid n
    then accepted (set_field "sid" (number (value_of n)) rule)
    else refused "SIDが正しくありません"

unfoldable pub with_sid : (String → Option Fraction) → String → Properties → Reading Properties
with_sid read sid rule =
    if truthy (trim sid) then sid_from (read (trim sid)) rule else accepted rule

abbrev pub with_lists : Form → Properties → Properties
with_lists f rule = with_values "ignore_flags" (split_list f.ignore_flags) (
    with_values "reserve_flags" (split_list f.flags) (
      with_values "ignore_channels" (list_form_values f.ignore_channels) (
        with_values "channels" (list_form_values f.channels)
          (with_categories (list_form_values f.categories) rule))))

-- `min > max`
abbrev pub exceeds : Fraction → Fraction → Bool
exceeds a b = ltb (b.numerator * suc a.rest) (a.numerator * suc b.rest)

-- `Math.round(minutes * 60)`
abbrev pub seconds_of : Fraction → ℕ
seconds_of n = (n.numerator * 120 + suc n.rest) / (2 * suc n.rest)

abbrev pub duration_from : Option Fraction → Option Fraction → Properties → Reading Properties
duration_from none b rule = refused "時間範囲が正しくありません"
duration_from (some a) none rule = refused "時間範囲が正しくありません"
duration_from (some a) (some b) rule =
    if is_below_zero a || is_below_zero b || exceeds a b
    then refused "時間範囲が正しくありません"
    else accepted (
        set_field "duration"
          (object
            (field "min" (number (seconds_of a)) (field "max" (number (seconds_of b)) no_fields)))
          rule)

unfoldable pub with_duration :
    (String → Option Fraction) → String → String → Properties → Reading Properties
with_duration read min max rule =
    if truthy (trim min) || truthy (trim max)
    then (if not (truthy (trim min)) || not (truthy (trim max))
        then refused "最短分と最長分を両方入力してください"
        else duration_from (read (trim min)) (read (trim max)) rule)
    else accepted rule

-- The hours: 0 to 23 for the start, 1 to 24 for the end.
abbrev pub is_start : Fraction → Bool
is_start n = is_integer n && not (is_below_zero n) && leb (value_of n) 23

abbrev pub is_end : Fraction → Bool
is_end n = is_integer n && not (is_below_zero n) && leb 1 (value_of n) && leb (value_of n) 24

abbrev pub hours_from : Option Fraction → Option Fraction → Properties → Reading Properties
hours_from none b rule = refused "開始時・終了時が正しくありません"
hours_from (some a) none rule = refused "開始時・終了時が正しくありません"
hours_from (some a) (some b) rule =
    if is_start a && is_end b
    then accepted (
        set_field "hour"
          (object
            (field "start" (number (value_of a)) (field "end" (number (value_of b)) no_fields)))
          rule)
    else refused "開始時・終了時が正しくありません"

unfoldable pub with_hours :
    (String → Option Fraction) → String → String → Properties → Reading Properties
with_hours read start end rule =
    if truthy (trim start) || truthy (trim end)
    then (if not (truthy (trim start)) || not (truthy (trim end))
        then refused "開始時と終了時を両方入力してください"
        else hours_from (read (trim start)) (read (trim end)) rule)
    else accepted rule

abbrev pub with_format : String → Properties → Properties
with_format value rule =
    if truthy (trim value) then set_field "recorded_format" (text (trim value)) rule else rule

abbrev pub with_disabled : Bool → Properties → Properties
with_disabled true rule = set_field "isDisabled" (boolean true) rule
with_disabled false rule = rule

-- The properties that make a rule choose programmes.
abbrev pub conditions : List String
conditions =
    "reserve_titles" ∷ "ignore_titles" ∷ "reserve_descriptions" ∷ "ignore_descriptions" ∷ "types"
    ∷ "sid" ∷ "categories" ∷ "channels" ∷ "ignore_channels" ∷ "reserve_flags" ∷ "ignore_flags"
    ∷ "duration" ∷ "hour" ∷ []

unfoldable pub has_condition : Properties → Bool
unfolding get_field
has_condition rule = any (λ name. is_true (get_field name rule)) conditions

-- The last check; an object without properties has no condition either.
abbrev pub nonempty : Properties → Reading Properties
nonempty rule = if has_condition rule then accepted rule else refused "ルール条件が空です"

unfoldable pub read_rule_form : (String → Option Fraction) → Format → Form → Reading Properties
unfolding read_extra_rule_json with_sid with_duration with_hours has_condition set_field
    remove_field list_form_values
read_rule_form read format f =
    read_extra_rule_json format f.extra
    >>= (λ extra. with_sid read f.sid (with_titles f extra))
    >>= (λ rule. with_duration read f.duration_min f.duration_max (with_lists f rule))
    >>= (λ rule. with_hours read f.hour_start f.hour_end rule)
    >>= (λ rule. nonempty (with_disabled f.is_disabled (with_format f.recorded_format rule)))
