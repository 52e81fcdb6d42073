-- ===== src/Player/Url/Stop.antt =====
-- `stopPlaybackRequest` of web/app.js: the addresses for which the server is asked to stop, by the
-- regular expression of the function, and those that the player opens.
use Prim.Native.Char.{code}
use Prim.Native.String.{◌∷◌, []}
use mathlib.Core.Bool.{and-eq-true_iff}
use strata_pvr.Player.Url.Encode.{
  encode_uri_component, is_component, slash-not-component, encode_uri_component-component,
  encode_uri_component-ne-empty,
}
use strata_pvr.Player.Query.{Query}
use strata_pvr.Player.Url.{
  Browser, with_query, recorded_native_hls_supported, recording_watch_url,
  live_channel_playback_url, program_subtitles_url, channel_url, live_hls_query, live_mse_query,
}
use strata_pvr.Base.{
  not, ◌==◌, eq_iff, String, Bool, true, false, ◌||◌, Option, none, some, ◌⧺◌, eqb, all_chars,
  truthy, eqb_iff, ⧺_assoc, ap, ◌∙◌, ◌≡◌, ◌≢◌, refl, inl, inr, Bool-cases, if◌then◌else◌, arith,
}

-- The rest behind a prefix.
abbrev pub strip_prefix : String → String → Option String
strip_prefix [] s = some s
strip_prefix (c ∷ p) [] = none
strip_prefix (c ∷ p) (d ∷ s) = if eqb (code c) (code d) then strip_prefix p s else none

-- `a|b` of two patterns that are tried in turn, and a pattern behind another.
abbrev either : Option String → Option String → Option String
either none b = b
either (some r) b = some r

abbrev pub behind : Option String → (String → Bool) → Bool
behind none k = false
behind (some rest) k = k rest

-- `[^/]+\/`: behind the next slash, if a character stands before it.
abbrev pub after_segment : Bool → String → Option String
after_segment seen [] = none
after_segment seen (c ∷ s) =
    if eqb (code c) b'/' then (if seen then some s else none) else after_segment true s

-- `(?:\?|$)`
abbrev at_end : String → Bool
at_end [] = true
at_end (c ∷ s) = eqb (code c) b'?'

-- `(?:hls\/index\.m3u8|watch\.(?:mp4|m2ts)|subtitles\.vtt)(?:\?|$)`
abbrev is_resource : String → Bool
is_resource s =
    behind (strip_prefix "hls/index.m3u8" s) at_end
    || behind (strip_prefix "watch.mp4" s) at_end
    || behind (strip_prefix "watch.m2ts" s) at_end
    || behind (strip_prefix "subtitles.vtt" s) at_end

-- The whole pattern at one place.
abbrev matches_here : String → Bool
matches_here s = behind (strip_prefix "/api/" s) λ r.
    behind
      (either (strip_prefix "recorded/" r)
        (either (strip_prefix "recording/" r) (strip_prefix "channel/" r)))
      λ t. behind (after_segment false t) is_resource

-- `test`: at some place of the text. The empty address is not asked for.
unfoldable pub is_stoppable : String → Bool
is_stoppable [] = false
is_stoppable (c ∷ s) = matches_here (c ∷ s) || is_stoppable s

-- Behind an encoded part the pattern goes on where the part ends.
after_segment-append :
    (seen : Bool) (s t : String)
    → all_chars is_component s ≡ true
    → (seen || not (s == "")) ≡ true
    → after_segment seen (s ⧺ "/" ⧺ t) ≡ some t
after_segment-append seen [] t p h = ground arith
after_segment-append seen (c ∷ s) t p h = elim (Bool-cases (eqb (code c) b'/')) [
  | inl e ↦
      let kept : is_component (code c) ≡ true = ((and-eq-true_iff _ _).0 p).0 in
      cc (kept, slash-not-component, (eqb_iff (code c) b'/').0 e)
  | inr n ↦ rw n (after_segment-append true s t (((and-eq-true_iff _ _).0 p).1) refl)
]

after_segment-encode :
    (id t : String) → id ≢ "" → after_segment false (encode_uri_component id ⧺ "/" ⧺ t) ≡ some t
after_segment-encode id t h =
    after_segment-append false (encode_uri_component id) t (encode_uri_component-component id)
      (ground (arith, eq_iff (encode_uri_component id) "", encode_uri_component-ne-empty id h))

module _ (id rest : String) (named : id ≢ "") (resource : is_resource rest ≡ true) where
  recorded-is_stoppable :
      is_stoppable ("/api/recorded/" ⧺ encode_uri_component id ⧺ "/" ⧺ rest) ≡ true
  unfolding is_stoppable
  recorded-is_stoppable = rw (after_segment-encode id rest named, resource)

  recording-is_stoppable :
      is_stoppable ("/api/recording/" ⧺ encode_uri_component id ⧺ "/" ⧺ rest) ≡ true
  unfolding is_stoppable
  recording-is_stoppable = rw (after_segment-encode id rest named, resource)

  channel-is_stoppable :
      is_stoppable ("/api/channel/" ⧺ encode_uri_component id ⧺ "/" ⧺ rest) ≡ true
  unfolding is_stoppable
  channel-is_stoppable = rw (after_segment-encode id rest named, resource)

with_query-⧺ :
    (a e t : String) (query : Option Query)
    → with_query (a ⧺ e ⧺ t) query ≡ a ⧺ e ⧺ with_query t query
with_query-⧺ a e t none = refl
with_query-⧺ a e t (some q) = ⧺_assoc a (e ⧺ t) _ ∙ ap (λ r. a ⧺ r) (⧺_assoc e t _)

-- The names of the resources, with any query behind them.
abbrev IsResourceName : String → Type 0
IsResourceName t = (query : Option Query) → is_resource (with_query t query) ≡ true

mp4-IsResourceName : IsResourceName "watch.mp4"
mp4-IsResourceName none = refl
mp4-IsResourceName (some q) = refl

m2ts-IsResourceName : IsResourceName "watch.m2ts"
m2ts-IsResourceName none = refl
m2ts-IsResourceName (some q) = refl

hls-IsResourceName : IsResourceName "hls/index.m3u8"
hls-IsResourceName none = refl
hls-IsResourceName (some q) = refl

vtt-IsResourceName : IsResourceName "subtitles.vtt"
vtt-IsResourceName none = refl
vtt-IsResourceName (some q) = refl

with_query-slash :
    (t : String) (query : Option Query) → with_query ("/" ⧺ t) query ≡ "/" ⧺ with_query t query
with_query-slash t none = refl
with_query-slash t (some q) = refl

module _ (id : String) (named : id ≢ "") (t : String) (known : IsResourceName t)
    (query : Option Query) where
  recording-with_query :
      is_stoppable (with_query ("/api/recording/" ⧺ encode_uri_component id ⧺ "/" ⧺ t) query) ≡ true
  recording-with_query =
      rw
        (with_query-⧺ "/api/recording/" (encode_uri_component id) ("/" ⧺ t) query, with_query-slash)
        (recording-is_stoppable id (with_query t query) named (known query))

  channel-with_query :
      is_stoppable (with_query ("/api/channel/" ⧺ encode_uri_component id ⧺ "/" ⧺ t) query) ≡ true
  channel-with_query =
      rw (with_query-⧺ "/api/channel/" (encode_uri_component id) ("/" ⧺ t) query, with_query-slash)
        (channel-is_stoppable id (with_query t query) named (known query))

-- So is the MP4 address of a recording in progress.
pub recording_watch_url-is_stoppable :
    (id : String) (query : Option Query)
    → id ≢ ""
    → is_stoppable (recording_watch_url id "mp4" query) ≡ true
unfolding recording_watch_url
recording_watch_url-is_stoppable id query named =
    recording-with_query id named "watch.mp4" mp4-IsResourceName query

channel_url-is_stoppable :
    (id resource ext : String) (query : Option Query)
    → id ≢ ""
    → truthy ext ≡ true
    → IsResourceName (resource ⧺ "." ⧺ ext)
    → is_stoppable (channel_url id resource ext query) ≡ true
unfolding channel_url
channel_url-is_stoppable id resource ext query named h known = rw h (
    rw (⧺_assoc (encode_uri_component id) ("/" ⧺ resource) ("." ⧺ ext))
      (channel-with_query id named (resource ⧺ "." ⧺ ext) known query))

-- Every address that the player opens for a live channel with an id, by HLS, by media source
-- extensions or as MP4, with any query and in any browser, is one for which a stop is sent.
pub live_channel_playback_url-is_stoppable :
    (b : Browser) (channel_id : String) (query : Option Query)
    → channel_id ≢ ""
    → is_stoppable (live_channel_playback_url b channel_id query) ≡ true
unfolding live_channel_playback_url
live_channel_playback_url-is_stoppable b id query named =
    elim (Bool-cases (recorded_native_hls_supported b.can_play b.user_agent)) [
      | inl hls ↦ rw hls (
          channel_url-is_stoppable id "hls/index" "m3u8" (some (live_hls_query query)) named refl
            hls-IsResourceName)
      | inr other ↦ rw other (elim (Bool-cases b.live_mse) [
        | inl mse ↦ rw mse (
            channel_url-is_stoppable id "watch" "m2ts" (some (live_mse_query query)) named refl
              m2ts-IsResourceName)
        | inr mp4 ↦
            rw mp4 (channel_url-is_stoppable id "watch" "mp4" query named refl mp4-IsResourceName)
      ])
    ]

abbrev subtitles_at : String → String → String
subtitles_at url encoded = if truthy encoded then url ⧺ "?" ⧺ encoded else url

module _ (id : String) (named : id ≢ "") (encoded : String) where
  recorded-subtitles_at :
      is_stoppable
        (subtitles_at ("/api/recorded/" ⧺ encode_uri_component id ⧺ "/subtitles.vtt") encoded)
      ≡ true
  recorded-subtitles_at = elim (Bool-cases (truthy encoded)) [
    | inl h ↦
        rw (h, ⧺_assoc (encode_uri_component id) "/subtitles.vtt" ("?" ⧺ encoded))
          (recorded-is_stoppable id _ named refl)
    | inr h ↦ rw h (recorded-is_stoppable id "subtitles.vtt" named refl)
  ]

  recording-subtitles_at :
      is_stoppable
        (subtitles_at ("/api/recording/" ⧺ encode_uri_component id ⧺ "/subtitles.vtt") encoded)
      ≡ true
  recording-subtitles_at = elim (Bool-cases (truthy encoded)) [
    | inl h ↦
        rw (h, ⧺_assoc (encode_uri_component id) "/subtitles.vtt" ("?" ⧺ encoded))
          (recording-is_stoppable id _ named refl)
    | inr h ↦ rw h (recording-is_stoppable id "subtitles.vtt" named refl)
  ]

-- So are the subtitles of a recorded programme and of a recording in progress.
pub program_subtitles_url-is_stoppable :
    (id : String) (query : Option Query)
    → id ≢ ""
    → (is_stoppable (program_subtitles_url "recorded" id query) ≡ true)
      × (is_stoppable (program_subtitles_url "recording" id query) ≡ true)
unfolding program_subtitles_url
program_subtitles_url-is_stoppable id query named =
    (recorded-subtitles_at id named _, recording-subtitles_at id named _)
