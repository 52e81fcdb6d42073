-- ===== src/Rules/Options.antt =====
-- The options of the form's lists (web/app.js: `channelOptionEntries`, `categoryOptionEntries`,
-- `renderChannelSelectOptions`, `renderRuleFormOptions`).
pub mod Laws
use Prim.Native.Nat.{Ordering}
use strata_pvr.Base.{
  ℕ, String, Bool, true, false, not, ◌&&◌, ◌||◌, List, [], ◌∷◌, ◌++◌, ◌==◌, ◌or◌, ◌⧺◌, truthy,
  filter, map, member, seen_in, is_inherited, is_distinct, is_distinct-concat, sort, member-append,
  All, All-append, ◌≡◌, refl, sym, ap, ◌∙◌, inl, inr, Bool-cases, if◌then◌else◌, arith,
}
use strata_pvr.Program.{Program}
use strata_pvr.Guide.Channels.{Entry, schedule_channel_id, schedule_channel_name}
use strata_pvr.Listing.Programs.{with_category}
use strata_pvr.Rules.Form.{list_form_values}

-- `state.schedule`: the channels of the guide with their programmes.
pub record Scheduled : Type 0 where
  pub entry : Entry
  pub programs : List Program

-- An option: its value and its text.
abbrev pub Option' : Type 0
Option' = String × String

abbrev pub ids : List Option' → List String
ids entries = map (λ e. e.0) entries

unfoldable pub with_option : String → String → List Option' → List Option'
with_option id name entries =
    if not (truthy id) || seen_in id (ids entries) then entries else entries ++ (id, name) ∷ []

abbrev pub add_channels : List Entry → List Option' → List Option'
add_channels [] entries = entries
add_channels (c ∷ cs) entries =
    add_channels cs (
      with_option (schedule_channel_id c) (schedule_channel_name c or schedule_channel_id c)
        entries)

abbrev pub add_missing : List String → List Option' → List Option'
add_missing [] entries = entries
add_missing (id ∷ extra) entries =
    add_missing extra (with_option id (id ⧺ "（現在の番組表にありません）") entries)

unfoldable pub channel_option_entries : List Scheduled → List String → List Entry → List Option'
unfolding with_option
channel_option_entries schedule extra source =
    add_missing extra (add_channels source (add_channels (map (λ s. s.entry) schedule) []))

abbrev pub add_texts : List String → List String → List String
add_texts [] values = values
add_texts (t ∷ ts) values = add_texts ts (with_category t values)

abbrev pub categories_of : List Scheduled → List String
categories_of [] = []
categories_of (s ∷ schedule) = map (λ p. p.category) s.programs ++ categories_of schedule

-- `compare` is `localeCompare` of the browser's own language.
unfoldable pub category_option_entries :
    (String → String → Ordering) → List Scheduled → List String → List String
category_option_entries compare schedule extra =
    sort compare (add_texts extra (add_texts (categories_of schedule) []))

-- A list with several choices: the values of its options, in order, and the selected ones.
pub record Choices : Type 0 where
  pub options : List String
  pub selected : List String

abbrev pub choose : List String → List String → Choices
choose options values = record {
  options = options;
  selected = filter (λ o. member o values) options;
}

unfoldable pub render_channel_select_options :
    List Scheduled → List Entry → List String → Choices → Choices
unfolding list_form_values channel_option_entries
render_channel_select_options schedule source extra c =
    let values = extra ++ list_form_values c.selected ++ list_form_values c.selected in
    choose (ids (channel_option_entries schedule values source)) values

unfoldable pub render_category_options :
    (String → String → Ordering) → List Scheduled → List String → Choices → Choices
unfolding list_form_values category_option_entries
render_category_options compare schedule extra c =
    let values = extra ++ list_form_values c.selected in
    choose (category_option_entries compare schedule values) values
