-- ===== src/Settings.antt =====
-- What web/app.js keeps in the local storage: the storage itself and the hidden channels
-- (`normalizeHiddenChannels`, `loadHiddenChannels`, `saveHiddenChannels`).
mod Tests
pub mod Laws
pub mod Filters
pub mod Zoom
use strata_pvr.Base.{
  ℕ, suc, ◌+◌, ◌-◌, min, max, String, Bool, true, false, not, ◌&&◌, ◌||◌, Option, none, some, List,
  [], ◌∷◌, ◌++◌, ◌==◌, map, any, truthy, seen_in, length, get_elem?, if◌then◌else◌,
}

-- What `JSON.parse` gives. The properties of an object are in their order; a name stands once.
mutual
  pub data Json : Type 0 where
    null : Json
    boolean : Bool → Json
    number : ℕ → Json
    text : String → Json
    array : Values → Json
    object : Properties → Json

  pub data Values : Type 0 where
    no_elements : Values
    element : Json → Values → Values

  pub data Properties : Type 0 where
    no_fields : Properties
    field : String → Json → Properties → Properties

-- The local storage: whether the browser gives access to it, whether a new entry is refused (the call
-- throws), and what it holds.
pub record Storage : Type 0 where
  pub is_available : Bool
  pub is_full : Bool
  pub entries : List (String × String)

abbrev pub entry : String → List (String × String) → String
entry key [] = ""
entry key ((k, v) ∷ entries) = if k == key then v else entry key entries

abbrev with_entry : String → String → List (String × String) → List (String × String)
with_entry key value [] = (key, value) ∷ []
with_entry key value ((k, v) ∷ entries) =
    if k == key then (k, value) ∷ entries else (k, v) ∷ with_entry key value entries

-- `getItem`: a missing entry reads as the empty text, which is as false as `null`. Without access the
-- result is none: the call throws, or there is no storage.
get_item : String → Storage → Option String
get_item key storage = if storage.is_available then some (entry key storage.entries) else none

set_item : String → String → Storage → Storage
set_item key value storage =
    if storage.is_available && not storage.is_full
    then (record storage { entries = with_entry key value storage.entries })
    else storage

-- `JSON.parse` and `JSON.stringify`; `none` stands for an error of the first.
pub record Format : Type 0 where
  pub parse : String → Option Json
  pub stringify : Json → String

-- The filter's loop: `seen` holds the values that were kept, in reverse.
distinct_texts : List String → Values → List String
distinct_texts seen no_elements = []
distinct_texts seen (element (text s) values) =
    let kept = distinct_texts (s ∷ seen) values in
    let rest = distinct_texts seen values in
    if not (truthy s) || seen_in s seen then rest else s ∷ kept
distinct_texts seen (element null values) = distinct_texts seen values
distinct_texts seen (element (boolean b) values) = distinct_texts seen values
distinct_texts seen (element (number n) values) = distinct_texts seen values
distinct_texts seen (element (array a) values) = distinct_texts seen values
distinct_texts seen (element (object o) values) = distinct_texts seen values

unfoldable pub normalize_hidden_channels : Json → List String
unfolding distinct_texts
normalize_hidden_channels null = []
normalize_hidden_channels (boolean b) = []
normalize_hidden_channels (number n) = []
normalize_hidden_channels (text s) = []
normalize_hidden_channels (array values) = distinct_texts [] values
normalize_hidden_channels (object o) = []

abbrev pub texts : List String → Values
texts [] = no_elements
texts (s ∷ rest) = element (text s) (texts rest)

abbrev from_parsed {ℓ} : {A : Type ℓ} → (Json → A) → A → Option Json → A
from_parsed f otherwise none = otherwise
from_parsed f otherwise (some v) = f v

abbrev hidden_from : Format → Option String → List String
hidden_from format none = []
hidden_from format (some raw) =
    if truthy raw
    then from_parsed normalize_hidden_channels [] (format.parse raw)
    else normalize_hidden_channels (array no_elements)

abbrev hidden_channels_storage_key : String
hidden_channels_storage_key = "strata-pvr.scheduleHiddenChannels"

pub load_hidden_channels : Format → Storage → List String
unfolding normalize_hidden_channels get_item
load_hidden_channels format storage =
    hidden_from format (get_item hidden_channels_storage_key storage)

-- The state's list, and the storage.
pub save_hidden_channels : Format → List String → Storage → List String × Storage
unfolding normalize_hidden_channels set_item
save_hidden_channels format hidden storage =
    let normalized = normalize_hidden_channels (array (texts hidden)) in
    if storage.is_available
    then (
      normalized,
      set_item hidden_channels_storage_key (format.stringify (array (texts normalized))) storage,
    )
    else (hidden, storage)
