-- ===== src/Rules/Fill.antt =====
-- The form filled from a rule or a programme, and its actions (web/app.js: `setFormValue`,
-- `setListFormValue`, `clearRuleForm`, `legacyRuleExtra`, `ruleExtraText`, `fillRuleFormFromRule`,
-- `fillRuleFormFromProgram`, `addBasicRule`, `saveBasicRule`, `resetRuleForm`). A rule is an object as
-- the server sends it; elements, the focus and messages of success are left out.
pub mod Kept
use Prim.Native.Nat.{Ordering}
use Prim.Native.Char.{code}
use strata_pvr.Base.{
  ℕ, suc, ◌+◌, ◌-◌, ◌*◌, ◌/◌, min, max, String, Bool, true, false, not, ◌&&◌, ◌||◌, Option, none,
  some, List, [], ◌∷◌, ◌++◌, ◌==◌, ◌or◌, ◌⧺◌, eqb, ltb, leb, truthy, show, join, map, filter,
  member, length, seen_in, all_chars, if◌then◌else◌,
}
use strata_pvr.Status.{split_list}
use strata_pvr.Settings.{
  Json, Values, Properties, Format, null, boolean, number, text, array, object, no_elements,
  element, no_fields, field,
}
use strata_pvr.Program.{Program, program_channel_id, program_channel_type}
use strata_pvr.Program.Title.{program_title}
use strata_pvr.Guide.Channels.{Entry}
use strata_pvr.Rules.Fields.{Reading, accepted, refused, ◌>>=◌, get_field, set_field, is_true}
use strata_pvr.Rules.Form.{Fraction, Form, read_rule_form}
use strata_pvr.Rules.Options.{
  Scheduled, Choices, choose, render_category_options, render_channel_select_options,
}

-- What the code takes from the browser, and what it reads of the application's state.
pub record World : Type 0 where
  pub compare : String → String → Ordering
  pub read : String → Option Fraction
  pub format : Format
  pub schedule : List Scheduled
  pub search_channels : List Entry
  pub is_search : Bool
  -- the hours and minutes of a time, and the text of its day
  pub hours : ℕ → ℕ
  pub minutes : ℕ → ℕ
  pub date_key : ℕ → String

-- The page's form: its values, the options of its lists, the source of their channels, and the number
-- of the rule that is edited.
pub record Editor : Type 0 where
  pub form : Form
  pub category_options : List String
  pub channel_options : List String
  pub ignore_channel_options : List String
  pub source_channels : List Entry
  pub editing : Option ℕ

-- `String(value)`, and the elements of an array as `join` writes them.
unfoldable mutual
  pub to_text : Json → String
  to_text null = "null"
  to_text (boolean true) = "true"
  to_text (boolean false) = "false"
  to_text (number n) = show n
  to_text (text s) = s
  to_text (array vs) = joined "," vs
  to_text (object o) = "[object Object]"

  pub joined : String → Values → String
  joined sep no_elements = ""
  joined sep (element v no_elements) = element_text v
  joined sep (element v (element w vs)) = element_text v ⧺ sep ⧺ joined sep (element w vs)

  pub element_text : Json → String
  element_text null = ""
  element_text (boolean true) = "true"
  element_text (boolean false) = "false"
  element_text (number n) = show n
  element_text (text s) = s
  element_text (array vs) = joined "," vs
  element_text (object o) = "[object Object]"

-- `setFormValue` and `setListFormValue` of a text field.
abbrev pub form_value : Option Json → String
form_value none = ""
form_value (some null) = ""
form_value (some (boolean b)) = to_text (boolean b)
form_value (some (number n)) = to_text (number n)
form_value (some (text s)) = s
form_value (some (array vs)) = to_text (array vs)
form_value (some (object o)) = to_text (object o)

abbrev pub list_form_value : Option Json → String
list_form_value none = ""
list_form_value (some null) = ""
list_form_value (some (boolean b)) = to_text (boolean b)
list_form_value (some (number n)) = to_text (number n)
list_form_value (some (text s)) = s
list_form_value (some (array vs)) = joined ", " vs
list_form_value (some (object o)) = to_text (object o)

-- The values that `setListFormValue` selects in a list, of an array or a text.
abbrev pub choice_values : Option Json → List String
choice_values none = []
choice_values (some null) = []
choice_values (some (boolean b)) = []
choice_values (some (number n)) = []
choice_values (some (text s)) = split_list s
choice_values (some (array vs)) = split_list (joined ", " vs)
choice_values (some (object o)) = []

-- The values of an array, as options.
abbrev pub texts_of : Values → List String
texts_of no_elements = []
texts_of (element v vs) = element_text v ∷ texts_of vs

abbrev pub option_values : Option Json → List String
option_values none = []
option_values (some null) = []
option_values (some (boolean b)) = []
option_values (some (number n)) = []
option_values (some (text s)) = []
option_values (some (array vs)) = texts_of vs
option_values (some (object o)) = []

-- The options of the list of types, and the value that the list takes.
abbrev pub rule_types : List String
rule_types = "" ∷ "GR" ∷ "BS" ∷ "CS" ∷ "EX" ∷ []

abbrev pub select_value : String → String
select_value value = if member value rule_types then value else ""

abbrev pub single_type : Option Json → String
single_type none = ""
single_type (some null) = ""
single_type (some (boolean b)) = ""
single_type (some (number n)) = ""
single_type (some (text s)) = ""
single_type (some (array no_elements)) = ""
single_type (some (array (element v no_elements))) = form_value (some v)
single_type (some (array (element v (element w vs)))) = ""
single_type (some (object o)) = ""

-- `value && value.length`
abbrev pub has_length : Option Json → Bool
has_length none = false
has_length (some null) = false
has_length (some (boolean b)) = false
has_length (some (number n)) = false
has_length (some (text s)) = truthy s
has_length (some (array no_elements)) = false
has_length (some (array (element v vs))) = true
has_length (some (object o)) = false

abbrev pub known_names : List String
known_names =
    "isDisabled" ∷ "sid" ∷ "types" ∷ "channels" ∷ "ignore_channels" ∷ "category" ∷ "categories"
    ∷ "hour" ∷ "duration" ∷ "reserve_titles" ∷ "ignore_titles" ∷ "reserve_descriptions"
    ∷ "ignore_descriptions" ∷ "reserve_flags" ∷ "ignore_flags" ∷ "recorded_format" ∷ "createdAt"
    ∷ []

-- The properties that no field of the form shows.
unfoldable pub legacy_rule_extra : Properties → Properties
legacy_rule_extra no_fields = no_fields
legacy_rule_extra (field k v rule) =
    let rest = legacy_rule_extra rule in if seen_in k known_names then rest else field k v rest

abbrev pub rule_extra_text : Format → Properties → String
rule_extra_text format no_fields = ""
rule_extra_text format (field k v extra) = format.stringify (object (field k v extra))

-- The types of a rule that the list cannot show stand among the extra properties.
abbrev pub with_types : Option Json → Properties → Properties
with_types none extra = extra
with_types (some types) extra = set_field "types" types extra

abbrev pub extra_with : Format → Properties → String
extra_with format rule =
    let types = get_field "types" rule in
    let extra = legacy_rule_extra rule in
    if select_value (single_type types) == "" && has_length types
    then rule_extra_text format (with_types types extra)
    else rule_extra_text format extra

-- `rule[name] && rule[name][inner]`
abbrev pub inner_of : String → Option Json → Option Json
inner_of inner none = none
inner_of inner (some null) = none
inner_of inner (some (boolean b)) = none
inner_of inner (some (number n)) = none
inner_of inner (some (text s)) = none
inner_of inner (some (array vs)) = none
inner_of inner (some (object o)) = get_field inner o

-- `Math.round(Number(seconds) / 60)`; the server sends numbers.
abbrev pub minutes_text : Option Json → String
minutes_text none = ""
minutes_text (some null) = "0"
minutes_text (some (boolean b)) = "0"
minutes_text (some (number n)) = show ((n + 30) / 60)
minutes_text (some (text s)) = "NaN"
minutes_text (some (array vs)) = "NaN"
minutes_text (some (object o)) = "NaN"

abbrev pub categories_of_rule : Properties → Option Json
categories_of_rule rule =
    let categories = get_field "categories" rule in
    if has_length categories
    then categories
    else (if is_true (get_field "category" rule)
        then some (array (element (text (form_value (get_field "category" rule))) no_elements))
        else some (array no_elements))

-- `renderRuleFormOptions`, with the selection that it leaves.
abbrev pub render_options :
    World → List String → List String → List String → List Entry → Editor → Editor
render_options w categories channels ignored source e =
    let c =
      render_category_options w.compare w.schedule categories
        (record { options = e.category_options; selected = e.form.categories }) in
    let a =
      render_channel_select_options w.schedule source channels
        (record { options = e.channel_options; selected = e.form.channels }) in
    let b =
      render_channel_select_options w.schedule source ignored
        (record { options = e.ignore_channel_options; selected = e.form.ignore_channels }) in
    record e {
      form = record e.form {
        categories = c.selected;
        channels = a.selected;
        ignore_channels = b.selected;
      };
      category_options = c.options;
      channel_options = a.options;
      ignore_channel_options = b.options;
      source_channels = source;
    }

abbrev pub selected_of : List String → List String → List String
selected_of options values = (choose options values).selected

unfoldable pub fill_rule_form_from_rule : World → Properties → ℕ → Editor → Editor
fill_rule_form_from_rule w rule index e =
    let categories = categories_of_rule rule in
    let channels = get_field "channels" rule in
    let ignored = get_field "ignore_channels" rule in
    let o =
      render_options w (option_values categories) (option_values channels) (option_values ignored)
        [] e in
    let form : Form = record {
      title = list_form_value (get_field "reserve_titles" rule);
      ignore_title = list_form_value (get_field "ignore_titles" rule);
      description = list_form_value (get_field "reserve_descriptions" rule);
      ignore_description = list_form_value (get_field "ignore_descriptions" rule);
      type = select_value (single_type (get_field "types" rule));
      sid = if is_true (get_field "sid" rule) then form_value (get_field "sid" rule) else "";
      categories = selected_of o.category_options (choice_values categories);
      channels = selected_of o.channel_options (choice_values channels);
      ignore_channels = selected_of o.ignore_channel_options (choice_values ignored);
      flags = list_form_value (get_field "reserve_flags" rule);
      ignore_flags = list_form_value (get_field "ignore_flags" rule);
      duration_min = minutes_text (inner_of "min" (get_field "duration" rule));
      duration_max = minutes_text (inner_of "max" (get_field "duration" rule));
      hour_start = form_value (inner_of "start" (get_field "hour" rule));
      hour_end = form_value (inner_of "end" (get_field "hour" rule));
      recorded_format =
          if is_true (get_field "recorded_format" rule)
          then form_value (get_field "recorded_format" rule)
          else "";
      is_disabled = is_true (get_field "isDisabled" rule);
      extra = extra_with w.format rule;
    } in
    record o { form = form; editing = some index }
