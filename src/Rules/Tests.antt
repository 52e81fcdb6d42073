-- ===== src/Rules/Tests.antt =====
-- Concrete rules and forms.
use Prim.Native.Nat.{Ordering}
use strata_pvr.Base.{
  String, true, false, ◌||◌, Option, none, some, List, [], ◌∷◌, ◌==◌, All, map, member, is_distinct,
  is_inherited, sort, show, trim, trim_start, trim_end, is_space, ◌≡◌, refl, if◌then◌else◌,
}
use strata_pvr.Settings.{
  Properties, Format, boolean, number, array, object, no_fields, field, texts,
}
use strata_pvr.Status.{split_list}
use strata_pvr.Listing.Programs.{Filter}
use strata_pvr.Program.{Channel, missing}
use strata_pvr.Guide.Channels.{Entry}
use strata_pvr.Rules.Fields.{accepted, get_field, set_field}
use strata_pvr.Rules.Form.{
  Fraction, Form, read_rule_form, read_extra_rule_json, with_sid, with_duration, with_hours,
  list_form_values, has_condition,
}
use strata_pvr.Rules.Form.Checked.{HasHours, read_rule_form-HasHours}
use strata_pvr.Rules.Form.Accepted.{is_accepted, accepts, is_accepted-read_rule_form}
use strata_pvr.Rules.Options.{
  Scheduled, ids, channel_option_entries, category_option_entries, render_category_options,
  render_channel_select_options,
}
use strata_pvr.Rules.Options.Laws.{has_channel, channel_option_entries_lem}
use strata_pvr.Rules.Fill.{World, Editor, joined, legacy_rule_extra, fill_rule_form_from_rule}
use strata_pvr.Rules.Fill.Kept.{
  hours, whole, fill_rule_form_from_rule-titles, fill_rule_form_from_rule-hours,
}
use strata_pvr.Rules.Actions.{empty_form}
use strata_pvr.Rules.List.{Words, filtered_rules, sorted_rule_entries}
use strata_pvr.Rules.List.Laws.{IsNumbered, entries-IsNumbered}

abbrev read_some : String → Option Fraction
read_some s =
    if s == "9"
    then some (whole 9)
    else (if s == "18" then some (whole 18) else (if s == "30" then some (whole 30) else none))

abbrev no_format : Format
no_format = record { parse = λ s. none; stringify = λ v. "{}" }

abbrev world : World
world = record {
  compare = λ a b. Ordering.eq;
  read = read_some;
  format = no_format;
  schedule = [];
  search_channels = [];
  is_search = false;
  hours = λ t. 0;
  minutes = λ t. 0;
  date_key = λ t. "";
}

-- News from nine to six in programmes of half an hour.
abbrev form : Form
form = record empty_form {
  title = "News, Weather";
  duration_min = "30";
  duration_max = "30";
  hour_start = "9";
  hour_end = "18";
}

accepted_example :
    is_accepted (read_rule_form read_some no_format form)
    ≡ accepts read_some form (read_extra_rule_json no_format form.extra)
accepted_example = is_accepted-read_rule_form read_some no_format form

abbrev rule : Properties
rule = field "reserve_titles" (array (texts ("News" ∷ "Weather" ∷ []))) (
    field "duration" (object (field "min" (number 1800) (field "max" (number 1800) no_fields)))
      (field "hour" (hours 9 18) no_fields))

form_rule : read_rule_form read_some no_format form ≡ accepted rule
unfolding read_rule_form read_extra_rule_json with_sid with_duration with_hours list_form_values
    has_condition get_field set_field trim trim_start trim_end is_space split_list
form_rule = refl

hours_example : HasHours rule
unfolding trim trim_start trim_end is_space
hours_example = read_rule_form-HasHours read_some no_format form rule refl form_rule

abbrev editor : Editor
editor = record {
  form = empty_form;
  category_options = [];
  channel_options = [];
  ignore_channel_options = [];
  source_channels = [];
  editing = none;
}

-- The rule as the server keeps it.
abbrev stored_rule : Properties
stored_rule = field "createdAt" (number 5) rule

filled_rule :
    read_rule_form world.read world.format
      (fill_rule_form_from_rule world stored_rule 3 editor).form
    ≡ accepted rule
unfolding read_rule_form read_extra_rule_json with_sid with_duration with_hours list_form_values
    has_condition get_field set_field trim trim_start trim_end is_space split_list
    fill_rule_form_from_rule joined legacy_rule_extra show is_inherited render_category_options
    render_channel_select_options channel_option_entries category_option_entries sort
filled_rule = refl

titles_example : get_field "reserve_titles" rule ≡ get_field "reserve_titles" stored_rule
unfolding get_field trim trim_start trim_end is_space
titles_example =
    fill_rule_form_from_rule-titles world stored_rule rule 3 editor "News" ("Weather" ∷ []) refl
      ((refl, refl, refl), ((refl, refl, refl), tt)) filled_rule

kept_hours_example : get_field "hour" rule ≡ get_field "hour" stored_rule
unfolding get_field show
kept_hours_example =
    fill_rule_form_from_rule-hours world stored_rule rule 3 editor 9 18 refl refl refl filled_rule

abbrev no_channel : Channel
no_channel = record {
  id = "gr27";
  service_id = "";
  sid = "1024";
  channel = "";
  name = "News";
  service_name = "";
  display_name = "";
  type = "GR";
  channel_type = "";
}

abbrev entry : Entry
entry = record {
  own = no_channel;
  channel_name = "";
  channel = missing;
  has_logo_data = none;
  channel_has_logo_data = none;
}

abbrev guide : List Scheduled
guide = record { entry = entry; programs = [] } ∷ []

offered_example :
    (is_distinct (ids (channel_option_entries guide ("bs1" ∷ "gr27" ∷ []) [])) ≡ true)
    × (member "bs1" (ids (channel_option_entries guide ("bs1" ∷ "gr27" ∷ []) [])) ≡ (
        has_channel "bs1" (map (λ s. s.entry) guide)
        || (has_channel "bs1" [] || member "bs1" ("bs1" ∷ "gr27" ∷ []))))
unfolding is_inherited
offered_example = channel_option_entries_lem guide ("bs1" ∷ "gr27" ∷ []) [] "bs1" refl refl

abbrev words : Words
words = record {
  locale = record { lower = λ s. s; compare_text = λ a b. Ordering.eq };
  format = no_format;
  format_time = λ v. "";
}

abbrev no_filter : Filter
no_filter = record { query = ""; category = ""; type = ""; sort = "" }

abbrev rules : List Properties
rules = field "isDisabled" (boolean true) rule ∷ rule ∷ []

numbers_example :
    All
      (IsNumbered rules)
      (sorted_rule_entries words no_filter (filtered_rules words no_filter rules))
numbers_example = entries-IsNumbered words no_filter rules
