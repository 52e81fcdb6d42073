-- ===== src/Settings/Laws.antt =====
-- Saving a setting and loading it (web/app.js: `saveHiddenChannels`, `saveListFilters`).
use mathlib.Core.Path.{subst}
use strata_pvr.Base.{
  String, Bool, true, false, not, ◌&&◌, some, List, [], ◌∷◌, ◌==◌, eq_refl, truthy, seen_in, ◌≡◌,
  refl, sym, ap, ◌∙◌, inl, inr, Bool-cases, if◌then◌else◌, arith,
}
use strata_pvr.Settings.{
  Json, Values, null, boolean, number, text, array, object, no_elements, element, Storage, Format,
  entry, with_entry, get_item, set_item, distinct_texts, normalize_hidden_channels,
  hidden_channels_storage_key, hidden_from, texts, load_hidden_channels, save_hidden_channels,
}
use strata_pvr.Settings.Filters.{
  ListFilters, or_default, filters_from, mode_from, list_filters_storage_key,
  recorded_view_mode_storage_key, normalize_list_filters, load_list_filters, filters_json,
  save_list_filters, normalize_recorded_view_mode, load_recorded_view_mode, save_recorded_view_mode,
}

entry-with_entry :
    (key value : String) (entries : List (String × String))
    → entry key (with_entry key value entries) ≡ value
entry-with_entry key value [] = rw (eq_refl key) refl
entry-with_entry key value ((k, v) ∷ entries) = elim (Bool-cases (k == key)) [
  | inl e ↦ rw (e, e) refl
  | inr e ↦ rw (e, e) (entry-with_entry key value entries)
]

-- What was set is read, if the browser gives access and does not refuse the entry.
get-set_item :
    (key value : String) (storage : Storage)
    → storage.is_available ≡ true
    → storage.is_full ≡ false
    → get_item key (set_item key value storage) ≡ some value
unfolding get_item set_item
get-set_item key value storage a f =
    rw (a, f) (ap some (entry-with_entry key value storage.entries))

-- The texts that the loop keeps when it starts behind `seen`.
abbrev is_normal : List String → List String → Bool
is_normal seen [] = true
is_normal seen (s ∷ rest) = truthy s && not (seen_in s seen) && is_normal (s ∷ seen) rest

distinct_texts-is_normal :
    (seen : List String) (vs : Values) → is_normal seen (distinct_texts seen vs) ≡ true
unfolding distinct_texts
distinct_texts-is_normal seen no_elements = refl
distinct_texts-is_normal seen (element (text s) vs) =
    ground (arith, distinct_texts-is_normal (s ∷ seen) vs, distinct_texts-is_normal seen vs)
distinct_texts-is_normal seen (element null vs) = distinct_texts-is_normal seen vs
distinct_texts-is_normal seen (element (boolean b) vs) = distinct_texts-is_normal seen vs
distinct_texts-is_normal seen (element (number n) vs) = distinct_texts-is_normal seen vs
distinct_texts-is_normal seen (element (array a) vs) = distinct_texts-is_normal seen vs
distinct_texts-is_normal seen (element (object o) vs) = distinct_texts-is_normal seen vs

distinct_texts-texts :
    (seen ss : List String) → is_normal seen ss ≡ true → distinct_texts seen (texts ss) ≡ ss
unfolding distinct_texts
distinct_texts-texts seen [] h = refl
distinct_texts-texts seen (s ∷ ss) h = ground (arith, distinct_texts-texts (s ∷ seen) ss)

-- Normal lists are their own normal form.
pub normalize_hidden_channels_idem :
    (v : Json)
    → normalize_hidden_channels (array (texts (normalize_hidden_channels v)))
      ≡ normalize_hidden_channels v
unfolding normalize_hidden_channels distinct_texts
normalize_hidden_channels_idem (array vs) =
    distinct_texts-texts [] (distinct_texts [] vs) (distinct_texts-is_normal [] vs)
normalize_hidden_channels_idem null = refl
normalize_hidden_channels_idem (boolean b) = refl
normalize_hidden_channels_idem (number n) = refl
normalize_hidden_channels_idem (text s) = refl
normalize_hidden_channels_idem (object o) = refl

filters-json : (f : ListFilters) → normalize_list_filters (filters_json f) ≡ some f
unfolding normalize_list_filters filters_json
filters-json f = refl

normalize_recorded_view_mode_idem :
    (m : String)
    → normalize_recorded_view_mode (normalize_recorded_view_mode m) ≡ normalize_recorded_view_mode m
unfolding normalize_recorded_view_mode
normalize_recorded_view_mode_idem m = elim (Bool-cases (m == "tile")) [
  | inl e ↦ rw e refl
  | inr e ↦ rw e refl
]

hidden_from-back :
    (format : Format) (raw : String) (v : Json)
    → truthy raw ≡ true
    → format.parse raw ≡ some v
    → hidden_from format (some raw) ≡ normalize_hidden_channels v
hidden_from-back format raw v filled back = rw (filled, back) refl

filters_from-back :
    (format : Format) (raw : String) (filters : ListFilters)
    → truthy raw ≡ true
    → format.parse raw ≡ some (filters_json filters)
    → filters_from format (some raw) ≡ filters
filters_from-back format raw filters filled back =
    rw (filled, back) (ap or_default (filters-json filters))

module _ (storage : Storage) (a : storage.is_available ≡ true) (f : storage.is_full ≡ false) where
  -- The hidden channels that were saved are loaded again as the state has them after saving, if the
  -- storage gives access and takes the entry, and the text of the saved list is not empty and is
  -- parsed as that list.
  pub load_hidden_channels-save :
      (format : Format) (hidden : List String)
      → let saved = array (texts (normalize_hidden_channels (array (texts hidden)))) in
        truthy (format.stringify saved) ≡ true
        → format.parse (format.stringify saved) ≡ some saved
        → load_hidden_channels format (save_hidden_channels format hidden storage).1
          ≡ (save_hidden_channels format hidden storage).0
  unfolding load_hidden_channels save_hidden_channels
  load_hidden_channels-save format hidden filled back =
      let normalized = normalize_hidden_channels (array (texts hidden)) in
      let raw = format.stringify (array (texts normalized)) in
      subst
        (λ (b : Bool).
          let r : List String × Storage =
            if b
            then (normalized, set_item hidden_channels_storage_key raw storage)
            else (hidden, storage) in
          load_hidden_channels format r.1 ≡ r.0)
        (sym a)
        (ap (hidden_from format) (get-set_item hidden_channels_storage_key raw storage a f)
          ∙ hidden_from-back format raw (array (texts normalized)) filled back
          ∙ normalize_hidden_channels_idem (array (texts hidden)))

  -- The filters of the lists that were saved are loaded again, under the same conditions.
  pub load_list_filters-save :
      (format : Format) (filters : ListFilters)
      → truthy (format.stringify (filters_json filters)) ≡ true
      → format.parse (format.stringify (filters_json filters)) ≡ some (filters_json filters)
      → load_list_filters format (save_list_filters format filters storage) ≡ filters
  unfolding load_list_filters save_list_filters
  load_list_filters-save format filters filled back =
      let raw = format.stringify (filters_json filters) in
      ap (filters_from format) (get-set_item list_filters_storage_key raw storage a f)
      ∙ filters_from-back format raw filters filled back

  load_recorded_view_mode-save :
      (mode : String)
      → load_recorded_view_mode (save_recorded_view_mode mode storage).1
        ≡ (save_recorded_view_mode mode storage).0
  unfolding load_recorded_view_mode save_recorded_view_mode
  load_recorded_view_mode-save mode =
      ap mode_from (
        get-set_item recorded_view_mode_storage_key (normalize_recorded_view_mode mode) storage a f)
      ∙ normalize_recorded_view_mode_idem mode
