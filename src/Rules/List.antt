-- ===== src/Rules/List.antt =====
-- The list of the rules (web/app.js: `filteredRules`, `sortedRuleEntries`, `ruleSummary`,
-- `ruleValidationIssues`).
pub mod Laws
use Prim.Native.Nat.{Ordering, compare}
use strata_pvr.Base.{
  ℕ, zero, suc, String, Bool, true, false, not, ◌&&◌, ◌||◌, Option, none, some, List, [], ◌∷◌, ◌++◌,
  ◌==◌, ◌or◌, ◌⧺◌, truthy, filter, any, join, map, includes, show, sort, then_by, length,
  if◌then◌else◌,
}
use strata_pvr.Settings.{
  Json, Values, Properties, Format, null, boolean, number, text, array, object, no_elements,
  element,
}
use strata_pvr.Listing.Programs.{Locale, Filter, normalize_search_text}
use strata_pvr.Program.{Channel, ChannelRef, missing, named}
use strata_pvr.Guide.Channels.{Entry, schedule_channel_id, schedule_channel_type}
use strata_pvr.Rules.Fields.{get_field, is_true}
use strata_pvr.Rules.Fill.{has_length, joined, element_text, texts_of, form_value}

-- An entry of the list: the rule and its number.
pub record Numbered : Type 0 where
  pub index : ℕ
  pub rule : Properties

-- The words of a time in the language of the browser, and the rest that it decides.
pub record Words : Type 0 where
  pub locale : Locale
  pub format : Format
  pub format_time : Json → String

-- `map((rule, index) => ({ index, rule }))`
abbrev pub numbered : ℕ → List Properties → List Numbered
numbered index [] = []
numbered index (rule ∷ rules) = record { index = index; rule = rule } ∷ numbered (suc index) rules

-- `value.join(",")` of a list, and a text as it is (it has no `join`, and no rule has one).
abbrev pub comma_list : Option Json → String
comma_list none = ""
comma_list (some null) = ""
comma_list (some (boolean b)) = ""
comma_list (some (number n)) = ""
comma_list (some (text s)) = s
comma_list (some (array vs)) = joined "," vs
comma_list (some (object o)) = ""

abbrev pub part : String → Option Json → List String
part label value = if has_length value then (label ⧺ " " ⧺ comma_list value) ∷ [] else []

abbrev pub created_part : Words → Option Json → List String
created_part w none = []
created_part w (some value) =
    if is_true (some value) && truthy (w.format_time value)
    then ("追加 " ⧺ w.format_time value) ∷ []
    else []

unfoldable pub rule_summary : Words → Properties → String
rule_summary w rule =
    join " / " (
      created_part w (get_field "createdAt" rule)
      ++ part "types" (get_field "types" rule)
      ++ part "categories" (get_field "categories" rule)
      ++ part "channels" (get_field "channels" rule)
      ++ part "titles" (get_field "reserve_titles" rule)
      ++ part "ignores" (get_field "ignore_titles" rule))
    or w.format.stringify (object rule)

abbrev pub is_disabled : Properties → Bool
is_disabled rule = is_true (get_field "isDisabled" rule)

abbrev pub rule_text : Words → Numbered → String
rule_text w e =
    "#" ⧺ show e.index ⧺ " " ⧺ rule_summary w e.rule ⧺ " " ⧺ w.format.stringify (object e.rule)

-- The test of `filteredRules`; the state of the filter stands in `type`.
unfoldable pub rule_passes : Words → Filter → Numbered → Bool
unfolding rule_summary
rule_passes w f e =
    let query = normalize_search_text w.locale f.query in
    if f.type == "enabled" && is_disabled e.rule
    then false
    else (if f.type == "disabled" && not (is_disabled e.rule)
        then false
        else (if not (truthy query)
            then true
            else includes (normalize_search_text w.locale (rule_text w e)) query))

unfoldable pub filtered_rules : Words → Filter → List Properties → List Numbered
unfolding rule_passes
filtered_rules w f rules = filter (rule_passes w f) (numbered 0 rules)

-- `Number(Boolean(...))`
abbrev pub rank : Bool → ℕ
rank true = 1
rank false = 0

unfoldable pub compare_rules : Words → String → Numbered → Numbered → Ordering
unfolding rule_summary
compare_rules w order a b =
    if order == "indexDesc"
    then compare b.index a.index
    else (if order == "state"
        then then_by (compare (rank (is_disabled a.rule)) (rank (is_disabled b.rule)))
            (compare a.index b.index)
        else (if order == "title"
            then then_by (w.locale.compare_text (rule_summary w a.rule) (rule_summary w b.rule))
                (compare a.index b.index)
            else compare a.index b.index))

unfoldable pub sorted_rule_entries : Words → Filter → List Numbered → List Numbered
unfolding compare_rules
sorted_rule_entries w f items = sort (compare_rules w (f.sort or "indexAsc")) items

-- The physical channel, where it is a text.
abbrev pub physical_of : ChannelRef → String
physical_of missing = ""
physical_of (named s) = s
physical_of (strata_pvr.Program.object c) = ""

-- `matchesChannel` for one channel; the ids of a channel are texts.
abbrev pub matches_channel : String → Entry → Bool
matches_channel value c =
    let type = schedule_channel_type c in
    let sid = c.own.sid in
    value == schedule_channel_id c
    || value == physical_of c.channel
    || (truthy type && truthy sid && value == type ⧺ "_" ⧺ sid)

abbrev pub values_of : Option Json → List String
values_of none = []
values_of (some null) = []
values_of (some (boolean b)) = []
values_of (some (number n)) = []
values_of (some (text s)) = []
values_of (some (array vs)) = texts_of vs
values_of (some (object o)) = []

abbrev pub unknown : List Entry → List String → List String
unknown channels values = filter (λ v. not (any (matches_channel v) channels)) values

abbrev pub issue_of : String → List String → List String
issue_of label [] = []
issue_of label (v ∷ vs) = ("⚠ " ⧺ label ⧺ "未登録: " ⧺ join ", " (v ∷ vs)) ∷ []

abbrev pub sid_issue : List Entry → Option Json → List String
sid_issue channels value =
    if is_true value && not (any (λ c. truthy c.own.sid && c.own.sid == form_value value) channels)
    then ("⚠ sid未登録: " ⧺ form_value value) ∷ []
    else []

unfoldable pub rule_validation_issues : List Entry → Properties → List String
rule_validation_issues [] rule = []
rule_validation_issues (c ∷ channels) rule =
    issue_of "channels" (unknown (c ∷ channels) (values_of (get_field "channels" rule)))
    ++ issue_of "ignore_channels"
        (unknown (c ∷ channels) (values_of (get_field "ignore_channels" rule)))
    ++ sid_issue (c ∷ channels) (get_field "sid" rule)
