-- ===== src/Settings/Zoom.antt =====
-- The zoom of the guide (web/app.js: `scheduleZoomIndex`, `scheduleZoomConfig`,
-- `loadScheduleZoomLevel`, `saveScheduleZoomLevel`, `changeScheduleZoom`, `syncScheduleZoomControls`).
pub mod Moves
use mathlib.Core.Option
use strata_pvr.Base.{
  ℕ, zero, suc, ◌+◌, ◌-◌, ◌≤◌, ◌<◌, min, max, String, Bool, true, false, Option, none, some, List,
  [], ◌∷◌, ◌==◌, leb, eqb, any, length, get_elem?, truthy, ◌≡◌, refl, if◌then◌else◌,
}
use strata_pvr.Settings.{Storage, get_item, set_item, with_entry}

-- The pixels of a minute are counted in hundredths.
pub record Level : Type 0 where
  pub id : String
  pub label : String
  pub minute_pixels : ℕ

abbrev schedule_zoom_levels : List Level
schedule_zoom_levels =
    record { id = "wide"; label = "広域"; minute_pixels = 75 }
    ∷ record { id = "standard"; label = "標準"; minute_pixels = 115 }
    ∷ record { id = "detail"; label = "詳細"; minute_pixels = 240 }
    ∷ record { id = "precise"; label = "精密"; minute_pixels = 500 }
    ∷ []

abbrev schedule_default_zoom_level : String
schedule_default_zoom_level = "standard"

abbrev index_of : String → List Level → Option ℕ
index_of level [] = none
index_of level (l ∷ levels) =
    let later = index_of level levels in if l.id == level then some 0 else Option.map suc later

-- The default level is one of the levels, so that its own index is found.
pub schedule_zoom_index : String → ℕ
schedule_zoom_index level = elim (index_of level schedule_zoom_levels) [
  | some i ↦ i
  | none ↦ elim (index_of schedule_default_zoom_level schedule_zoom_levels) [
    | some i ↦ i
    | none ↦ 0
  ]
]

-- `scheduleZoomConfig`; both indexes are within the levels.
unfoldable schedule_zoom_config : String → Option Level
unfolding schedule_zoom_index
schedule_zoom_config level = get_elem? schedule_zoom_levels (schedule_zoom_index level)

abbrev schedule_zoom_storage_key : String
schedule_zoom_storage_key = "strata-pvr.scheduleZoomLevel"

abbrev level_from : Option String → String
level_from none = schedule_default_zoom_level
level_from (some raw) =
    if any (λ l. l.id == raw) schedule_zoom_levels then raw else schedule_default_zoom_level

unfoldable load_schedule_zoom_level : Storage → String
unfolding get_item
load_schedule_zoom_level storage = level_from (get_item schedule_zoom_storage_key storage)

save_schedule_zoom_level : String → Storage → Storage
unfolding set_item
save_schedule_zoom_level level storage = set_item schedule_zoom_storage_key level storage

-- The level's id at an index that is within the levels.
abbrev id_at : Option Level → String
id_at none = ""
id_at (some l) = l.id

-- `setScheduleZoomLevel` without the scroll position: the state's level, and the storage.
set_schedule_zoom_level : String → String × Storage → String × Storage
unfolding save_schedule_zoom_level schedule_zoom_index
set_schedule_zoom_level next (level, storage) =
    if eqb (schedule_zoom_index next) (schedule_zoom_index level)
    then (level, storage)
    else (let chosen = id_at (get_elem? schedule_zoom_levels (schedule_zoom_index next)) in
        (chosen, save_schedule_zoom_level chosen storage))

pub data Direction : Type 0 where
  out inward : Direction

abbrev moved : Direction → ℕ → ℕ
moved out i = i - 1
moved inward i = min 3 (i + 1)

pub change_schedule_zoom : Direction → String × Storage → String × Storage
unfolding set_schedule_zoom_level
change_schedule_zoom d (level, storage) =
    let next = moved d (schedule_zoom_index level) in
    set_schedule_zoom_level (id_at (get_elem? schedule_zoom_levels next)) (level, storage)

-- Whether the button of a direction is disabled.
pub is_disabled : Direction → String → Bool
is_disabled out level = leb (schedule_zoom_index level) 0
is_disabled inward level = leb 3 (schedule_zoom_index level)
