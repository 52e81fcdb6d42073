-- ===== src/Settings/Filters.antt =====
-- The filters of the lists and the view of the recorded list in the storage (web/app.js:
-- `defaultListFilters`, `normalizeListFilters`, `loadListFilters`,
-- `saveListFilters`, `normalizeRecordedViewMode`, `loadRecordedViewMode`, `saveRecordedViewMode`).
use strata_pvr.Base.{String, Option, none, some, ◌==◌, truthy, ◌>>=◌, if◌then◌else◌}
use strata_pvr.Listing.Search.{SearchFilter, default_search_filter}
use strata_pvr.Settings.{
  Json, null, boolean, number, text, array, object, Properties, no_fields, field, Storage, Format,
  get_item, set_item,
}

pub record RulesFilter : Type 0 where
  pub query : String
  pub state : String
  pub sort : String

pub record RecordedFilter : Type 0 where
  pub query : String
  pub category : String
  pub sort : String

pub record ReservesFilter : Type 0 where
  pub query : String
  pub category : String
  pub type : String
  pub sort : String

-- `state.listFilters`
pub record ListFilters : Type 0 where
  pub rules : RulesFilter
  pub recorded : RecordedFilter
  pub reserves : ReservesFilter
  pub search : SearchFilter

pub default_list_filters : ListFilters
default_list_filters = record {
  rules = record { query = ""; state = ""; sort = "indexAsc" };
  recorded = record { query = ""; category = ""; sort = "startDesc" };
  reserves = record { query = ""; category = ""; type = ""; sort = "startAsc" };
  search = default_search_filter;
}

-- The value of a property.
abbrev property_of : String → Properties → Option Json
property_of key no_fields = none
property_of key (field k v properties) = if k == key then some v else property_of key properties

-- `value && typeof value[name] === "object" ? value[name] : {}`, as its properties. The type of `null`
-- is "object" too: its properties cannot be read, and the result is none.
abbrev source_of : Option Json → Option Properties
source_of none = some no_fields
source_of (some null) = none
source_of (some (boolean b)) = some no_fields
source_of (some (number n)) = some no_fields
source_of (some (text s)) = some no_fields
source_of (some (array values)) = some no_fields
source_of (some (object properties)) = some properties

abbrev properties_of : Json → Properties
properties_of null = no_fields
properties_of (boolean b) = no_fields
properties_of (number n) = no_fields
properties_of (text s) = no_fields
properties_of (array values) = no_fields
properties_of (object properties) = properties

abbrev source : String → Json → Option Properties
source name value = source_of (property_of name (properties_of value))

-- `typeof source[key] === "string" ? source[key] : ""`
abbrev as_text : Option Json → String
as_text none = ""
as_text (some null) = ""
as_text (some (boolean b)) = ""
as_text (some (number n)) = ""
as_text (some (text s)) = s
as_text (some (array values)) = ""
as_text (some (object properties)) = ""

abbrev text_at : String → Properties → String
text_at key properties = as_text (property_of key properties)

-- None stands for an error, a property that is read of `null`.
unfoldable pub normalize_list_filters : Json → Option ListFilters
normalize_list_filters value = do
  rules ← source "rules" value
  recorded ← source "recorded" value
  reserves ← source "reserves" value
  search ← source "search" value
  some (record {
    rules = record {
      query = text_at "query" rules;
      state = text_at "state" rules;
      sort = text_at "sort" rules;
    };
    recorded = record {
      query = text_at "query" recorded;
      category = text_at "category" recorded;
      sort = text_at "sort" recorded;
    };
    reserves = record {
      query = text_at "query" reserves;
      category = text_at "category" reserves;
      type = text_at "type" reserves;
      sort = text_at "sort" reserves;
    };
    search = record {
      query = text_at "query" search;
      category = text_at "category" search;
      type = text_at "type" search;
      title = text_at "title" search;
      description = text_at "description" search;
      program_id = text_at "programID" search;
      channel_id = text_at "channelID" search;
      start_hour = text_at "startHour" search;
      end_hour = text_at "endHour" search;
    };
  })

abbrev pub or_default : Option ListFilters → ListFilters
or_default none = default_list_filters
or_default (some f) = f

abbrev search_json : SearchFilter → Json
search_json f = object (
    field "query" (text f.query) (
      field "category" (text f.category) (
        field "type" (text f.type) (
          field "title" (text f.title) (
            field "description" (text f.description) (
              field "programID" (text f.program_id) (
                field "channelID" (text f.channel_id) (
                  field "startHour" (text f.start_hour)
                    (field "endHour" (text f.end_hour) no_fields)))))))))

abbrev pub filters_from : Format → Option String → ListFilters
filters_from format none = default_list_filters
filters_from format (some raw) =
    if truthy raw
    then or_default (format.parse raw >>= normalize_list_filters)
    else or_default (normalize_list_filters (object no_fields))

abbrev pub list_filters_storage_key : String
list_filters_storage_key = "strata-pvr.listFilters"

-- Without a storage object the script takes the filters of an empty object, not the default ones.
unfoldable pub load_list_filters : Format → Storage → ListFilters
unfolding normalize_list_filters get_item default_list_filters
load_list_filters format storage = filters_from format (get_item list_filters_storage_key storage)

-- `state.listFilters`, as `JSON.stringify` reads it.
unfoldable pub filters_json : ListFilters → Json
filters_json f = object (
    field "rules"
      (object (
        field "query" (text f.rules.query)
          (field "state" (text f.rules.state) (field "sort" (text f.rules.sort) no_fields))))
      (field "recorded"
        (object (
          field "query" (text f.recorded.query) (
            field "category" (text f.recorded.category)
              (field "sort" (text f.recorded.sort) no_fields))))
        (field "reserves"
          (object (
            field "query" (text f.reserves.query) (
              field "category" (text f.reserves.category) (
                field "type" (text f.reserves.type)
                  (field "sort" (text f.reserves.sort) no_fields)))))
          (field "search" (search_json f.search) no_fields))))

-- `saveListFilters`: the state's filters are texts, so they are their own normal form.
unfoldable pub save_list_filters : Format → ListFilters → Storage → Storage
unfolding filters_json set_item
save_list_filters format f storage =
    set_item list_filters_storage_key (format.stringify (filters_json f)) storage

unfoldable pub normalize_recorded_view_mode : String → String
normalize_recorded_view_mode value = if value == "tile" then "tile" else "list"

abbrev pub recorded_view_mode_storage_key : String
recorded_view_mode_storage_key = "strata-pvr.recordedViewMode"

abbrev pub mode_from : Option String → String
mode_from none = "list"
mode_from (some raw) = normalize_recorded_view_mode raw

unfoldable pub load_recorded_view_mode : Storage → String
unfolding normalize_recorded_view_mode get_item
load_recorded_view_mode storage = mode_from (get_item recorded_view_mode_storage_key storage)

unfoldable pub save_recorded_view_mode : String → Storage → String × Storage
unfolding normalize_recorded_view_mode set_item
save_recorded_view_mode mode storage =
    let normalized = normalize_recorded_view_mode mode in
    (normalized, set_item recorded_view_mode_storage_key normalized storage)
