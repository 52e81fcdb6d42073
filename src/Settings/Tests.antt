-- ===== src/Settings/Tests.antt =====
-- A storage that holds the settings, with the texts of two values.
use strata_pvr.Base.{true, false, none, some, [], ◌∷◌, ◌==◌, ◌≡◌, refl, is_inherited, if◌then◌else◌}
use strata_pvr.Settings.{
  Json, Storage, Format, boolean, text, array, object, no_elements, element, texts,
  normalize_hidden_channels, load_hidden_channels, save_hidden_channels,
}
use strata_pvr.Settings.Filters.{
  default_list_filters, filters_json, load_list_filters, save_list_filters,
}
use strata_pvr.Settings.Laws.{
  normalize_hidden_channels_idem, load_hidden_channels-save, load_list_filters-save,
}

abbrev storage : Storage
storage = record {
  is_available = true;
  is_full = false;
  entries = ("strata-pvr.scheduleZoomLevel", "wide") ∷ [];
}

-- A list with a value that is no text, an empty text and a text that stands twice.
abbrev stored : Json
stored = array (
    element (text "gr27") (
      element (boolean true)
        (element (text "") (element (text "bs101") (element (text "gr27") no_elements)))))

idem_hidden_example :
    normalize_hidden_channels (array (texts (normalize_hidden_channels stored)))
    ≡ normalize_hidden_channels stored
idem_hidden_example = normalize_hidden_channels_idem stored

-- The format of arrays of the texts "gr27" and "bs101", and of the default filters.
abbrev format : Format
format = record {
  parse = λ raw.
      if raw == "[\"gr27\",\"bs101\"]"
      then some (array (texts ("gr27" ∷ "bs101" ∷ [])))
      else (if raw == "{}" then some (filters_json default_list_filters) else none);
  stringify = elim [
    | array values ↦ "[\"gr27\",\"bs101\"]"
    | object properties ↦ "{}"
    | _ ↦ "null"
  ];
}

hidden_example :
    load_hidden_channels format (save_hidden_channels format ("gr27" ∷ "" ∷ "bs101" ∷ []) storage).1
    ≡ (save_hidden_channels format ("gr27" ∷ "" ∷ "bs101" ∷ []) storage).0
unfolding normalize_hidden_channels is_inherited
hidden_example =
    load_hidden_channels-save storage refl refl format ("gr27" ∷ "" ∷ "bs101" ∷ []) refl refl

filters_example :
    load_list_filters format (save_list_filters format default_list_filters storage)
    ≡ default_list_filters
unfolding filters_json
filters_example = load_list_filters-save storage refl refl format default_list_filters refl refl
