-- ===== src/Player/Tests.antt =====
-- Concrete queries and addresses of the player.
use strata_pvr.Base.Double.{whole, IsAtMost}
use strata_pvr.Base.{◌⊎◌, false, true, false, Option, none, some, [], ◌∷◌, all_chars, ◌≡◌, refl}
use strata_pvr.Player.Query.{
  Query, text, undefined, has, HasDistinctKeys, or_empty, apply_quality_to_query,
  quality_from_query,
}
use strata_pvr.Player.Query.Roundtrip.{quality_from_query-apply_quality_to_query}
use strata_pvr.Player.Timeline.{
  Timeline, Video, player_finite_duration, player_current_time, player_prefers_configured_duration,
}
use strata_pvr.Player.Timeline.Bounds.{player_current_time_lem}
use strata_pvr.Player.Url.{Browser}
use strata_pvr.Player.Url.Encode.{
  encode_uri_component, is_component, encode_uri_component-component,
}

-- From the second minute on, with the second audio track of "1080p".
abbrev sought : Option Query
sought = some (
    ("ss", text "120")
    ∷ ("s", text "1920x1080")
    ∷ ("audio", text "secondary")
    ∷ ("t", undefined)
    ∷ [])

sought-HasDistinctKeys : HasDistinctKeys (or_empty sought)
unfolding has
sought-HasDistinctKeys = (refl, (refl, (refl, (refl, tt))))

quality_applied_example : quality_from_query (apply_quality_to_query sought "720p") ≡ "720p"
quality_applied_example =
    quality_from_query-apply_quality_to_query sought "720p" sought-HasDistinctKeys

abbrev phone : Browser
phone = record { can_play = true; user_agent = "Mozilla/5.0 (iPhone)"; live_mse = false }

encode_example : all_chars is_component (encode_uri_component "a/b?c=あ") ≡ true
encode_example = encode_uri_component-component "a/b?c=あ"

-- A recorded programme of an hour, played from its third minute on.
abbrev timeline : Timeline
timeline = record {
  is_seekable = true;
  start = 0;
  duration = 3600;
  fallback = 0;
  known = 0;
  query_start = some 120;
  query_limit = none;
}

abbrev video : Video
video = record { duration = none; current_time = some (whole 3500) }

time_example :
    let (duration, t) = player_finite_duration video timeline in
    (t.known ≡ duration)
    × (player_finite_duration video t ≡ (duration, t))
    × (IsAtMost (player_current_time video duration t) duration
        ⊎ ((player_prefers_configured_duration timeline ≡ false)
            × (video.current_time ≡ some (player_current_time video duration t))))
time_example = player_current_time_lem video timeline
