-- ===== src/Guide/Filters.antt =====
-- The filters of the guide (web/app.js: `scheduleActiveFilterLabels`, `resetScheduleFilters`) and the
-- hours of a search (`matchesSearchHours`). The label of an option that is selected, and the hour of a
-- time, are given by the browser.
use strata_pvr.Base.{
  ℕ, ◌+◌, String, Bool, true, false, not, ◌&&◌, ◌||◌, Option, none, some, List, [], ◌∷◌, ◌++◌, ◌==◌,
  ltb, length, show, truthy, ◌⧺◌, ◌≡◌, refl, if◌then◌else◌,
}
use strata_pvr.Program.{Program, program_end}

-- The part of `state` that filters the guide.
pub record GuideFilter : Type 0 where
  pub channel : String
  pub is_channel_touched : Bool
  pub type : String
  pub day : String
  pub genre : String
  pub window_mode : String
  pub hidden_channels : List String

abbrev label_if : Bool → String → List String
label_if b label = if b then label ∷ [] else []

-- `option` gives the text of the selected option of a control, or else its value.
unfoldable schedule_active_filter_labels : (String → String → String) → GuideFilter → List String
schedule_active_filter_labels option f =
    label_if (truthy f.channel) ("チャンネル: " ⧺ option "scheduleChannel" f.channel)
    ++ label_if (truthy f.type) ("種別: " ⧺ option "scheduleType" f.type)
    ++ label_if (truthy f.day) ("日付: " ⧺ option "scheduleDay" f.day)
    ++ label_if (truthy f.genre) ("ジャンル: " ⧺ option "scheduleGenre" f.genre)
    ++ label_if (truthy f.window_mode && not (f.window_mode == "all"))
        ("範囲: " ⧺ option "scheduleWindow" f.window_mode)
    ++ label_if (ltb 0 (length f.hidden_channels))
        ("非表示: " ⧺ show (length f.hidden_channels) ⧺ "ch")

-- The guide is filtered by nothing; what is stored and shown then is not modelled here.
unfoldable reset_schedule_filters : GuideFilter → GuideFilter
reset_schedule_filters f = record {
  channel = "";
  is_channel_touched = false;
  type = "";
  day = "";
  genre = "";
  window_mode = "all";
  hidden_channels = [];
}

reset_test :
    (option : String → String → String) (f : GuideFilter)
    → schedule_active_filter_labels option (reset_schedule_filters f) ≡ []
unfolding schedule_active_filter_labels reset_schedule_filters
reset_test option f = refl

-- An hour of the search: a text that is no finite number is none.
abbrev hour_rule : (String → Option ℕ) → ℕ → String → Option ℕ
hour_rule number_of default hour = if hour == "" then some default else number_of hour

abbrev within : Option ℕ → Option ℕ → ℕ → ℕ → Bool
within none end_rule start end = true
within (some s) none start end = true
within (some start_rule) (some end_rule) start end =
    if ltb end_rule start_rule
    then not (ltb start start_rule && ltb end_rule end)
    else not (ltb start start_rule || ltb end_rule end)

unfoldable matches_search_hours : (String → Option ℕ) → (ℕ → ℕ) → Program → String → String → Bool
matches_search_hours number_of hour_of p start_hour end_hour =
    let start = hour_of p.start in
    let end = hour_of (program_end p) in
    if not (truthy start_hour) && not (truthy end_hour)
    then true
    else within (hour_rule number_of 0 start_hour) (hour_rule number_of 24 end_hour) start
        (if ltb end start then end + 24 else end)
