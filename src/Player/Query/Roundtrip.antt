-- ===== src/Player/Query/Roundtrip.antt =====
-- Choosing a quality or an audio track and reading the choice back (web/app.js:
-- `applyQualityToQuery`, `applyAudioToQuery`, `qualityFromQuery`, `audioFromQuery`).
use mathlib.Core.Path.{subst}
use strata_pvr.Base.{
  All, Bool-cases, inl, inr, sym, ◌∙◌, ◌||◌, String, Bool, false, Option, none, some, List, [], ◌∷◌,
  ◌==◌, is_inherited, true, eq_iff, ◌≡◌, refl, if◌then◌else◌, arith,
}
use strata_pvr.Player.Query.{
  Value, undefined, null, text, Query, get, remove, HasDistinctKeys, is_set, is_text, or_empty,
  clone_query, Preset, mp4_presets, find_preset, preset_fields, set_all, apply_quality_to_query,
  apply_audio_to_query, audio_from_query, matched_preset, quality_from_query,
}
use strata_pvr.Player.Query.Laws.{get-set, get-remove, get-null_if_empty, get-clone_query}

-- A value as a clone keeps it.
abbrev pub kept : Value → Value
kept v = if is_set v then v else undefined

-- The property `j` after the choice of a preset, from the property `v` before.
abbrev pub chosen : Option Preset → String → Value → Value
chosen none j v = if "s" == j || "b:v" == j || "b:a" == j then undefined else v
chosen (some p) j v =
    if "b:a" == j
    then text p.audio
    else if "b:v" == j
    then text p.video
    else if "s" == j
    then text p.s
    else v

get-set_all :
    (o : Option Preset) (b : Bool) (j : String) (q : Query)
    → get j (set_all (preset_fields o b) (remove "b:a" (remove "b:v" (remove "s" q))))
      ≡ chosen o j (get j q)
get-set_all none false j q =
    rw (get-remove, get-remove, get-remove)
      (ground (arith, eq_iff "s" j, eq_iff "b:v" j, eq_iff "b:a" j))
get-set_all none true j q =
    rw (get-set, get-set, get-set, get-remove, get-remove, get-remove)
      (ground (arith, eq_iff "s" j, eq_iff "b:v" j, eq_iff "b:a" j))
get-set_all (some p) b j q =
    rw (get-set, get-set, get-set, get-remove, get-remove, get-remove)
      (ground (arith, eq_iff "s" j, eq_iff "b:v" j, eq_iff "b:a" j))

get-apply_quality_to_query :
    (j name : String) (query : Option Query)
    → HasDistinctKeys (or_empty query)
    → get j (or_empty (apply_quality_to_query query name))
      ≡ chosen (find_preset name mp4_presets) j (kept (get j (or_empty query)))
unfolding apply_quality_to_query
get-apply_quality_to_query j name query d =
    rw (get-null_if_empty, get-set_all, get-clone_query j query d)

get-apply_audio_to_query :
    (j audio : String) (query : Option Query)
    → HasDistinctKeys (or_empty query)
    → get j (or_empty (apply_audio_to_query query audio)) ≡ (
        if "audio" == j
        then (if audio == "secondary" then text "secondary" else undefined)
        else kept (get j (or_empty query)))
unfolding apply_audio_to_query
get-apply_audio_to_query j audio query d =
    rw (get-null_if_empty, ← get-clone_query j query d)
      (ground (
        arith,
        get-set j "audio" (text "secondary") (remove "audio" (clone_query query)),
        get-remove j "audio" (clone_query query),
      ))

-- Reading the audio track back gives the track that was chosen, whatever the query held before.
pub audio_from_query-apply_audio_to_query :
    (query : Option Query) (audio : String)
    → HasDistinctKeys (or_empty query)
    → audio_from_query (apply_audio_to_query query audio)
      ≡ (if audio == "secondary" then "secondary" else "")
unfolding audio_from_query
audio_from_query-apply_audio_to_query query audio d =
    rw (get-apply_audio_to_query "audio" audio query d) (ground arith)

is_text-kept : (v : Value) (s : String) → (s == "") ≡ false → is_text (kept v) s ≡ is_text v s
is_text-kept undefined s h = refl
is_text-kept null s h = refl
is_text-kept (text t) s h = ground (arith, eq_iff t "", eq_iff t s, eq_iff s "")

is_set-kept : (v : Value) → is_set (kept v) ≡ is_set v
is_set-kept undefined = refl
is_set-kept null = refl
is_set-kept (text t) = ground arith

chosen-audio : (o : Option Preset) (v : Value) → chosen o "audio" v ≡ v
chosen-audio none v = refl
chosen-audio (some p) v = refl

-- Choosing a quality does not change the audio track that is read back.
pub audio_from_query-apply_quality_to_query :
    (query : Option Query) (quality : String)
    → HasDistinctKeys (or_empty query)
    → audio_from_query (apply_quality_to_query query quality) ≡ audio_from_query query
unfolding audio_from_query
audio_from_query-apply_quality_to_query query quality d =
    rw (get-apply_quality_to_query "audio" quality query d, chosen-audio)
      (rw (is_text-kept (get "audio" (or_empty query)) "secondary" refl))

abbrev pub is_preset : String → Bool
is_preset name = "1080p" == name || "720p" == name || "540p" == name || "360p" == name

-- What is read back is the quality of the preset alone.
quality_from_query_chosen :
    (query : Option Query) (quality : String) (o : Option Preset)
    → HasDistinctKeys (or_empty query)
    → find_preset quality mp4_presets ≡ o
    → quality_from_query (apply_quality_to_query query quality)
      ≡ quality_from_query (some (preset_fields o (is_inherited quality)))
unfolding quality_from_query get
quality_from_query_chosen query quality none d e = elim (Bool-cases (is_inherited quality)) [
  | inl h ↦
      rw
        (
          h,
          get-apply_quality_to_query "s" quality query d,
          get-apply_quality_to_query "b:v" quality query d,
          get-apply_quality_to_query "b:a" quality query d,
          e,
        )
        refl
  | inr h ↦
      rw
        (
          h,
          get-apply_quality_to_query "s" quality query d,
          get-apply_quality_to_query "b:v" quality query d,
          get-apply_quality_to_query "b:a" quality query d,
          e,
        )
        refl
]
quality_from_query_chosen query quality (some p) d e = rw (
  get-apply_quality_to_query "s" quality query d,
  get-apply_quality_to_query "b:v" quality query d,
  get-apply_quality_to_query "b:a" quality query d,
  e,
)

abbrev ReadsBack : String → Type 0
ReadsBack quality =
    quality_from_query
      (some (preset_fields (find_preset quality mp4_presets) (is_inherited quality)))
    ≡ (if is_preset quality then quality else "")

find_preset-none :
    (quality : String) → is_preset quality ≡ false → find_preset quality mp4_presets ≡ none
unfolding find_preset
find_preset-none quality h = ground arith

none_left : (quality : String) → is_preset quality ≡ false → ReadsBack quality
unfolding quality_from_query get
none_left quality h = elim (Bool-cases (is_inherited quality)) [
  | inl e ↦ rw (e, h, find_preset-none quality h) refl
  | inr e ↦ rw (e, h, find_preset-none quality h) refl
]

preset-ReadsBack : (quality : String) → ReadsBack quality
unfolding quality_from_query find_preset get
preset-ReadsBack quality = elim (Bool-cases ("1080p" == quality)) [
  | inl e ↦ subst ReadsBack ((eq_iff "1080p" quality).0 e) refl
  | inr n₁ ↦ elim (Bool-cases ("720p" == quality)) [
    | inl e ↦ subst ReadsBack ((eq_iff "720p" quality).0 e) refl
    | inr n₂ ↦ elim (Bool-cases ("540p" == quality)) [
      | inl e ↦ subst ReadsBack ((eq_iff "540p" quality).0 e) refl
      | inr n₃ ↦ elim (Bool-cases ("360p" == quality)) [
        | inl e ↦ subst ReadsBack ((eq_iff "360p" quality).0 e) refl
        | inr n₄ ↦ none_left quality (rw (n₁, n₂, n₃, n₄))
      ]
    ]
  ]
]

-- Choosing a preset and reading the quality back gives that preset; choosing any other text gives
-- the empty quality. The query before does not matter.
pub quality_from_query-apply_quality_to_query :
    (query : Option Query) (quality : String)
    → HasDistinctKeys (or_empty query)
    → quality_from_query (apply_quality_to_query query quality)
      ≡ (if is_preset quality then quality else "")
quality_from_query-apply_quality_to_query query quality d =
    quality_from_query_chosen query quality (find_preset quality mp4_presets) d refl
    ∙ preset-ReadsBack quality

abbrev IsFilled : List (String × Preset) → Type 0
IsFilled =
    All (λ n. ((n.1).s == "" ≡ false) × ((n.1).video == "" ≡ false) × ((n.1).audio == "" ≡ false))

mp4_presets-IsFilled : IsFilled mp4_presets
mp4_presets-IsFilled =
    ((refl, refl, refl), ((refl, refl, refl), ((refl, refl, refl), ((refl, refl, refl), tt))))

-- Two queries that hold the same set values for the three quality keys have one quality.
module _ (q r : Query) (hs : get "s" r ≡ kept (get "s" q)) (hv : get "b:v" r ≡ kept (get "b:v" q))
    (ha : get "b:a" r ≡ kept (get "b:a" q)) where
  matched_preset-kept :
      (ps : List (String × Preset)) → IsFilled ps → matched_preset r ps ≡ matched_preset q ps
  matched_preset-kept [] f = refl
  matched_preset-kept ((name, p) ∷ ps) (f, fs) = ground (
    arith,
    is_text-kept (get "s" q) p.s f.0,
    is_text-kept (get "b:v" q) p.video f.1,
    is_text-kept (get "b:a" q) p.audio f.2,
    matched_preset-kept ps fs,
  )

  quality_from_query-kept : quality_from_query (some r) ≡ quality_from_query (some q)
  unfolding quality_from_query
  quality_from_query-kept = rw (
    matched_preset-kept mp4_presets mp4_presets-IsFilled,
    hs,
    hv,
    ha,
    is_set-kept (get "s" q),
    is_set-kept (get "b:v" q),
    is_set-kept (get "b:a" q),
  )

quality_from_query-or_empty :
    (query : Option Query) → quality_from_query (some (or_empty query)) ≡ quality_from_query query
unfolding quality_from_query
quality_from_query-or_empty none = refl
quality_from_query-or_empty (some q) = refl

-- Choosing an audio track does not change the quality that is read back.
pub quality_from_query-apply_audio_to_query :
    (query : Option Query) (audio : String)
    → HasDistinctKeys (or_empty query)
    → quality_from_query (apply_audio_to_query query audio) ≡ quality_from_query query
quality_from_query-apply_audio_to_query query audio d =
    sym (quality_from_query-or_empty (apply_audio_to_query query audio))
    ∙ quality_from_query-kept (or_empty query) (or_empty (apply_audio_to_query query audio))
        (get-apply_audio_to_query "s" audio query d) (get-apply_audio_to_query "b:v" audio query d)
        (get-apply_audio_to_query "b:a" audio query d)
    ∙ quality_from_query-or_empty query
