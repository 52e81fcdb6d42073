-- ===== src/Player/Url.antt =====
-- The addresses of streams, subtitles and logos (web/app.js: `recordedWatchURL`,
-- `programSubtitlesURL`, `recordedHLSURL`, `recordedPlaybackURL`, `recordedNativeHLSSupported`,
-- `recordingWatchURL`, `channelURL`, `channelLogoURL`, `liveChannelPlaybackURL`,
-- `liveChannelSubtitlesURL`, `isLiveMSEURL`, `playerWindowURL`).
pub mod Encode
pub mod Stop
use strata_pvr.Base.{
  ℕ, String, Bool, true, false, not, ◌&&◌, ◌||◌, Option, none, some, List, [], ◌∷◌, ◌==◌, eqb, leb,
  ◌++◌, show, ◌⧺◌, ◌or◌, truthy, codes, map, ◌+◌, if◌then◌else◌, ◌≢◌, ⧺-ne-empty, if-ne-empty,
}
use strata_pvr.Player.Url.Encode.{encode_uri_component, serialize}
use strata_pvr.Player.Query.{
  Value, undefined, null, text, Query, get, set, remove, is_set, is_text, clone_query, or_empty,
  quality_from_query,
}

-- `String(value)`
abbrev pub as_text : Value → String
as_text undefined = "undefined"
as_text null = "null"
as_text (text s) = s

-- `new URLSearchParams(query).toString()`
abbrev search_params : Query → String
search_params query = serialize (map (λ p. (p.0, as_text p.1)) query)

-- `query ? url + "?" + … : url`
abbrev with_query : String → Option Query → String
with_query url none = url
with_query url (some query) = url ⧺ "?" ⧺ search_params query

pub recorded_watch_url : String → String → Option Query → String
recorded_watch_url id ext query =
    with_query ("/api/recorded/" ⧺ encode_uri_component id ⧺ "/watch." ⧺ ext) query

pub recording_watch_url : String → String → Option Query → String
recording_watch_url id ext query =
    with_query ("/api/recording/" ⧺ encode_uri_component id ⧺ "/watch." ⧺ ext) query

-- `keys.forEach(key => { if (query[key]) params.set(key, query[key]); })`
abbrev pick : List String → Query → List (String × String)
pick [] query = []
pick (k ∷ ks) query =
    if is_set (get k query) then (k, as_text (get k query)) ∷ pick ks query else pick ks query

pub program_subtitles_url : String → String → Option Query → String
program_subtitles_url collection id query =
    let url = "/api/" ⧺ collection ⧺ "/" ⧺ encode_uri_component id ⧺ "/subtitles.vtt" in
    let encoded = serialize (pick ("ss" ∷ "t" ∷ []) (or_empty query)) in
    if truthy encoded then url ⧺ "?" ⧺ encoded else url

-- The quality that an HLS stream is asked for: never "custom", which has no HLS rendition.
hls_quality : Option Query → String
hls_quality query =
    let quality = quality_from_query query or "540p" in
    if quality == "custom" then "540p" else quality

recorded_hls_url : String → Option Query → String
unfolding hls_quality
recorded_hls_url id query =
    let q = clone_query query in
    let params = ("quality", hls_quality (some q)) ∷ pick ("ss" ∷ "t" ∷ "audio" ∷ []) q in
    "/api/recorded/" ⧺ encode_uri_component id ⧺ "/hls/index.m3u8?" ⧺ serialize params

-- The ASCII letters without their case, as the flag `i` of a regular expression compares them.
abbrev fold_case : ℕ → ℕ
fold_case c = if leb b'A' c && leb c b'Z' then c + 32 else c

abbrev begins : List ℕ → List ℕ → Bool
begins [] s = true
begins (c ∷ p) [] = false
begins (c ∷ p) (d ∷ s) = eqb (fold_case c) (fold_case d) && begins p s

abbrev found_in : List ℕ → List ℕ → Bool
found_in p [] = begins p []
found_in p (d ∷ s) = begins p (d ∷ s) || found_in p s

abbrev mentions : String → String → Bool
mentions agent word = found_in (codes word) (codes agent)

-- `can_play` is what `video.canPlayType("application/vnd.apple.mpegurl")` answers.
unfoldable pub recorded_native_hls_supported : Bool → String → Bool
recorded_native_hls_supported can_play agent =
    if not can_play
    then false
    else (if mentions agent "iPhone" || mentions agent "iPad" || mentions agent "iPod"
        then true
        else (mentions agent "Macintosh"
            && mentions agent "Safari"
            && not (mentions agent "Chrome" || mentions agent "Chromium" || mentions agent "Edg")))

-- What the code asks the browser for.
pub record Browser : Type 0 where
  pub can_play : Bool
  pub user_agent : String
  pub live_mse : Bool

pub recorded_playback_url : Browser → String → Option Query → String
recorded_playback_url b id query =
    if recorded_native_hls_supported b.can_play b.user_agent
    then recorded_hls_url id query
    else recorded_watch_url id "mp4" query

channel_url : String → String → String → Option Query → String
channel_url channel_id resource ext query =
    let url = "/api/channel/" ⧺ encode_uri_component channel_id ⧺ "/" ⧺ resource in
    with_query (if truthy ext then url ⧺ "." ⧺ ext else url) query

unfoldable channel_logo_url : ℕ → String → String
channel_logo_url cache_version channel_id =
    if eqb cache_version 0
    then channel_url channel_id "logo" "" none
    else channel_url channel_id "logo" "" (some (("cache", text (show cache_version)) ∷ []))

abbrev live_hls_query : Option Query → Query
live_hls_query query =
    let hls_query = ("quality", text (quality_from_query query or "540p")) ∷ [] in
    if is_text (get "audio" (or_empty query)) "secondary"
    then set "audio" (text "secondary") hls_query
    else hls_query

abbrev live_mse_query : Option Query → Query
live_mse_query query = set "mode" (text "mse") (clone_query query)

pub live_channel_playback_url : Browser → String → Option Query → String
live_channel_playback_url b channel_id query =
    if recorded_native_hls_supported b.can_play b.user_agent
    then channel_url channel_id "hls/index" "m3u8" (some (live_hls_query query))
    else (if b.live_mse
        then channel_url channel_id "watch" "m2ts" (some (live_mse_query query))
        else channel_url channel_id "watch" "mp4" query)

-- The page of the stand-alone player.
pub player_window_url : String → String → String → String
player_window_url url meta subtitles =
    let titled = if truthy meta then ("title", meta) ∷ [] else [] in
    let subtitled = if truthy subtitles then ("subtitles", subtitles) ∷ [] else [] in
    "/player.html?" ⧺ serialize (("src", url) ∷ titled ++ subtitled)

unfoldable recorded_subtitles_url : String → Option Query → String
recorded_subtitles_url id query = program_subtitles_url "recorded" id query

unfoldable recording_subtitles_url : String → Option Query → String
recording_subtitles_url id query = program_subtitles_url "recording" id query

unfoldable recorded_xspf_url : String → String
recorded_xspf_url id = recorded_watch_url id "xspf" none

channel_subtitles_url : String → Option Query → String
channel_subtitles_url channel_id query = channel_url channel_id "subtitles" "vtt" query

-- `isLiveMSEURL` of the address that `liveChannelPlaybackURL` gives for an id that is not empty: the
-- path ends in "/watch.m2ts" and the mode is "mse" for media source extensions alone, since an HLS
-- or MP4 address has another path. An empty id leaves an empty segment, which the test refuses.
abbrev plays_live_mse : Browser → String → Bool
plays_live_mse b channel_id =
    truthy channel_id && not (recorded_native_hls_supported b.can_play b.user_agent) && b.live_mse

pub live_channel_subtitles_url : Browser → String → Option Query → String
unfolding channel_subtitles_url
live_channel_subtitles_url b channel_id query =
    let q = clone_query query in
    let q' = if plays_live_mse b channel_id then set "mode" (text "mse") q else remove "mode" q in
    channel_subtitles_url channel_id (some q')

-- No address is empty.
with_query-ne-empty : (url : String) (query : Option Query) → url ≢ "" → with_query url query ≢ ""
with_query-ne-empty url none h = h
with_query-ne-empty url (some q) h = ⧺-ne-empty url _ h

pub recording_watch_url-ne-empty :
    (id ext : String) (query : Option Query) → recording_watch_url id ext query ≢ ""
unfolding recording_watch_url
recording_watch_url-ne-empty id ext query = with_query-ne-empty _ query λ e. cc

pub recorded_playback_url-ne-empty :
    (b : Browser) (id : String) (query : Option Query) → recorded_playback_url b id query ≢ ""
unfolding recorded_playback_url recorded_hls_url recorded_watch_url
recorded_playback_url-ne-empty b id query =
    if-ne-empty (recorded_native_hls_supported b.can_play b.user_agent) _ _ (λ e. cc)
      (with_query-ne-empty _ query λ e. cc)

channel_url-ne-empty :
    (channel_id resource ext : String) (query : Option Query)
    → channel_url channel_id resource ext query ≢ ""
unfolding channel_url
channel_url-ne-empty channel_id resource ext query =
    with_query-ne-empty _ query (if-ne-empty (truthy ext) _ _ (λ e. cc) λ e. cc)

pub live_channel_playback_url-ne-empty :
    (b : Browser) (channel_id : String) (query : Option Query)
    → live_channel_playback_url b channel_id query ≢ ""
unfolding live_channel_playback_url
live_channel_playback_url-ne-empty b channel_id query =
    if-ne-empty (recorded_native_hls_supported b.can_play b.user_agent) _ _
      (channel_url-ne-empty channel_id "hls/index" "m3u8" _)
      (if-ne-empty b.live_mse _ _ (channel_url-ne-empty channel_id "watch" "m2ts" _)
        (channel_url-ne-empty channel_id "watch" "mp4" query))
