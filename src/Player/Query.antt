-- ===== src/Player/Query.antt =====
-- The query of a playback address (web/app.js: `cloneQuery`, `presetQuery`, `applyQualityToQuery`,
-- `applyAudioToQuery`, `audioFromQuery`, `qualityFromQuery`, `mp4Presets`). A JavaScript object is
-- the list of its properties in the order of `Object.keys`.
pub mod Distinct
pub mod Laws
pub mod Roundtrip
use strata_pvr.Base.{
  String, Bool, false, true, ◌&&◌, ◌||◌, Option, none, some, List, [], ◌∷◌, ◌==◌, is_inherited, ◌≡◌,
  if◌then◌else◌,
}

-- What a property holds, and what a missing one reads as.
pub data Value : Type 0 where
  undefined null : Value
  text : String → Value

abbrev pub Query : Type 0
Query = List (String × Value)

unfoldable pub get : String → Query → Value
get j [] = undefined
get j ((k, v) ∷ q) = if k == j then v else get j q

unfoldable pub has : String → Query → Bool
has j [] = false
has j ((k, v) ∷ q) = k == j || has j q

-- Assignment to a property: in place, or behind the others.
unfoldable pub set : String → Value → Query → Query
set j w [] = (j, w) ∷ []
set j w ((k, v) ∷ q) = if k == j then (k, w) ∷ q else (k, v) ∷ set j w q

-- `delete`
pub remove : String → Query → Query
remove j [] = []
remove j ((k, v) ∷ q) = if k == j then remove j q else (k, v) ∷ remove j q

-- An object has each key once.
abbrev pub HasDistinctKeys : Query → Type 0
HasDistinctKeys [] = Unit
HasDistinctKeys ((k, v) ∷ q) = (has k q ≡ false) × HasDistinctKeys q

-- `value !== undefined && value !== null && value !== ""`
abbrev pub is_set : Value → Bool
is_set undefined = false
is_set null = false
is_set (text s) = if s == "" then false else true

-- `value === s`, and the truth of a value
abbrev pub is_text : Value → String → Bool
is_text undefined s = false
is_text null s = false
is_text (text t) s = t == s

clone_from : Query → Query → Query
clone_from clone [] = clone
clone_from clone ((k, v) ∷ q) = clone_from (if is_set v then set k v clone else clone) q

-- `query || {}`
abbrev pub or_empty : Option Query → Query
or_empty none = []
or_empty (some q) = q

unfoldable pub clone_query : Option Query → Query
unfolding clone_from
clone_query query = clone_from [] (or_empty query)

pub record Preset : Type 0 where
  pub s : String
  pub video : String
  pub audio : String

abbrev mp4_presets : List (String × Preset)
mp4_presets =
    ("1080p", record { s = "1920x1080"; video = "2600k"; audio = "96k" })
    ∷ ("720p", record { s = "1280x720"; video = "1400k"; audio = "96k" })
    ∷ ("540p", record { s = "960x540"; video = "900k"; audio = "64k" })
    ∷ ("360p", record { s = "640x360"; video = "550k"; audio = "64k" })
    ∷ []

find_preset : String → List (String × Preset) → Option Preset
find_preset name [] = none
find_preset name ((n, p) ∷ ps) = if n == name then some p else find_preset name ps

-- The names that every object inherits are presets too, whose properties are all missing.
abbrev preset_fields : Option Preset → Bool → Query
preset_fields none false = []
preset_fields none true = ("s", undefined) ∷ ("b:v", undefined) ∷ ("b:a", undefined) ∷ []
preset_fields (some p) inherited =
    ("s", text p.s) ∷ ("b:v", text p.video) ∷ ("b:a", text p.audio) ∷ []

preset_query : String → Query
preset_query name = preset_fields (find_preset name mp4_presets) (is_inherited name)

abbrev set_all : Query → Query → Query
set_all [] q = q
set_all ((k, v) ∷ more) q = set_all more (set k v q)

-- `Object.keys(next).length ? next : null`
abbrev null_if_empty : Query → Option Query
null_if_empty [] = none
null_if_empty (x ∷ q) = some (x ∷ q)

pub apply_quality_to_query : Option Query → String → Option Query
unfolding preset_query
apply_quality_to_query query quality =
    let next = remove "b:a" (remove "b:v" (remove "s" (clone_query query))) in
    null_if_empty (set_all (preset_query quality) next)

pub apply_audio_to_query : Option Query → String → Option Query
apply_audio_to_query query audio =
    let next = remove "audio" (clone_query query) in
    null_if_empty (if audio == "secondary" then set "audio" (text "secondary") next else next)

unfoldable pub audio_from_query : Option Query → String
audio_from_query query =
    if is_text (get "audio" (or_empty query)) "secondary" then "secondary" else ""

abbrev fits : Query → Preset → Bool
fits q p = is_text (get "s" q) p.s && is_text (get "b:v" q) p.video && is_text (get "b:a" q) p.audio

abbrev matched_preset : Query → List (String × Preset) → String
matched_preset q [] = ""
matched_preset q ((name, p) ∷ ps) = if fits q p then name else matched_preset q ps

unfoldable pub quality_from_query : Option Query → String
quality_from_query query =
    let q = or_empty query in
    let matched = matched_preset q mp4_presets in
    if matched == ""
    then (if is_set (get "s" q) || is_set (get "b:v" q) || is_set (get "b:a" q)
        then "custom"
        else "")
    else matched
