-- ===== src/Player/Source/Dialog.antt =====
-- What opens, changes and closes the player (web/app.js: `openPlayerDialog`, `openAdjustablePlayer`,
-- `openLiveChannelPlayer`, `ensureMPEGTSLoaded`, `closePlayerDialog`, `stopPlayerVideo`,
-- `changePlayerQuality`, `changePlayerAudio`, `seekPlayerToRange`, `retryPlayerSource`), and the
-- events that reach it. Messages outside of the dialog and the focus are left out.
use strata_pvr.Base.Double.{Double, whole, floor, thousandths, times, plus, minus}
use strata_pvr.Base.{
  ℕ, suc, ◌+◌, ◌-◌, max, String, Bool, true, false, not, ◌&&◌, ◌||◌, Option, none, some, List, [],
  ◌∷◌, ◌++◌, ◌==◌, eqb, ltb, show, if◌then◌else◌,
}
use strata_pvr.Player.Query.{
  Query, text, get, set, or_empty, clone_query, apply_quality_to_query, apply_audio_to_query,
  quality_from_query, audio_from_query,
}
use strata_pvr.Player.Timeline.{
  Timeline, Video, player_finite_duration, player_current_time, player_prefers_configured_duration,
}
use strata_pvr.Player.Url.{
  recorded_native_hls_supported, live_channel_playback_url, live_channel_subtitles_url,
  player_window_url,
}
use strata_pvr.Player.Source.{
  Page, Builder, live, build, visited, Waiting, Library, absent, loading, ready, Player,
  queue_playback_stop, destroy_player_mse, update_player_controls, set_player_source, no_url_text,
  Outcome, settle, play_refused, mse_failed,
}

abbrev no_timeline : Timeline
no_timeline = record {
  is_seekable = false;
  start = 0;
  duration = 0;
  fallback = 0;
  known = 0;
  query_start = none;
  query_limit = none;
}

-- A stop of what is played, which also ends every load that runs.
unfoldable pub stop_player_video : Player → Player
unfolding queue_playback_stop destroy_player_mse update_player_controls quality_from_query
    audio_from_query
stop_player_video p =
    let p' = destroy_player_mse (
      queue_playback_stop p.current_url none
        (record p { generation = suc p.generation; retry = none })) in
    update_player_controls (record p' {
      current_url = "";
      token = "";
      builder = none;
      base_query = none;
      timeline = no_timeline;
      quality = quality_from_query none;
      audio = audio_from_query none;
    })

-- What `openPlayerDialog` is given beside the title.
pub record Options : Type 0 where
  pub builder : Option Builder
  pub query : Option Query
  pub is_seekable : Bool
  pub duration : ℕ
  pub start : Option ℕ
  pub limit : Option ℕ
  pub defers_source : Bool
  pub status : String

abbrev seconds_of : Option ℕ → ℕ
seconds_of none = 0
seconds_of (some n) = n

abbrev opened_timeline : Options → Timeline → Timeline
opened_timeline o t =
    let given = if o.is_seekable then seconds_of o.limit else 0 in
    record t {
      is_seekable = o.is_seekable;
      start = if o.is_seekable then seconds_of o.start else 0;
      duration = if o.is_seekable && eqb given 0 then o.duration else given;
      fallback = o.duration;
      known = o.duration;
    }

abbrev pub with_status : String → Player → Player
with_status status p = if status == "" then p else (record p { status = status })

abbrev pub opened_with : String → Player × Bool → Player
opened_with status (p, true) = with_status status p
opened_with status (p, false) = p

unfoldable pub open_player_dialog : Page → String → Options → Player → Player
unfolding set_player_source quality_from_query audio_from_query
open_player_dialog page url o p =
    if not page.has_dialog
    then (record p { retry = none; log = p.log ++ visited url ∷ [] })
    else (let shown : Player = record p {
      retry = none;
      builder = o.builder;
      timeline = opened_timeline o p.timeline;
      quality = quality_from_query o.query;
      audio = audio_from_query o.query;
      is_open = true;
    } in
        if o.defers_source
        then with_status o.status shown
        else opened_with o.status (set_player_source page url o.query shown))

abbrev pub adjustable_options : Page → Builder → Option Query → Bool → ℕ → String → Options
adjustable_options page builder query is_seekable duration status = record {
  builder = some builder;
  query = query;
  is_seekable = is_seekable;
  duration = duration;
  start = page.seconds (get "ss" (or_empty query));
  limit = page.seconds (get "t" (or_empty query));
  defers_source = false;
  status = status;
}

unfoldable pub open_adjustable_player :
    Page → Builder → Option Query → Bool → ℕ → String → Player → Player
unfolding open_player_dialog build
open_adjustable_player page builder query is_seekable duration status p =
    open_player_dialog page (build page.browser builder query)
      (adjustable_options page builder query is_seekable duration status) p

-- The handler of a library that is there.
unfoldable pub on_library : Page → Waiting → Player → Player
unfolding set_player_source build
on_library page w p =
    if w.in_dialog
    then (if not (eqb w.generation p.generation) || not p.is_open
        then p
        else (set_player_source page (build page.browser (live w.channel_id) none) none (record p {
          retry = none;
          builder = some (live w.channel_id);
          quality = "";
          audio = "";
        })).0)
    else (if eqb w.generation p.generation
        then (record p {
          log =
              p.log
              ++ visited (
                  player_window_url (live_channel_playback_url page.browser w.channel_id none)
                    w.meta (live_channel_subtitles_url page.browser w.channel_id none))
                ∷ [];
        })
        else p)

-- And that of one that failed, with the message of the error.
unfoldable pub on_library_error : String → Waiting → Player → Player
on_library_error message w p =
    if w.in_dialog && eqb w.generation p.generation && p.is_open
    then (record p { status = message })
    else p

-- The library is loaded once for all that wait for it; nothing comes between if it is there.
abbrev pub wait_for : Page → Waiting → Player → Library → Player
wait_for page w p ready = on_library page w p
wait_for page w p loading = record p { waiting = p.waiting ++ w ∷ [] }
wait_for page w p absent = record p { library = loading; waiting = p.waiting ++ w ∷ [] }

unfoldable pub ensure_mpegts_loaded : Page → Waiting → Player → Player
unfolding on_library
ensure_mpegts_loaded page w p = wait_for page w p p.library

abbrev pub each_waiting : (Waiting → Player → Player) → List Waiting → Player → Player
each_waiting f [] p = p
each_waiting f (w ∷ ws) p = each_waiting f ws (f w p)

unfoldable pub library_answered : Page → Option String → Player → Player
unfolding on_library on_library_error
library_answered page none p =
    each_waiting (on_library page) p.waiting (record p { library = ready; waiting = [] })
library_answered page (some message) p =
    each_waiting (on_library_error message) p.waiting (record p { library = absent; waiting = [] })

abbrev pub load_text : String
load_text = "視聴機能を読み込んでいます。"

abbrev pub when_loaded : Page → Waiting → Player → Player
when_loaded page w p =
    if recorded_native_hls_supported page.browser.can_play page.browser.user_agent
    then on_library page w p
    else ensure_mpegts_loaded page w p

abbrev pub live_waiting : ℕ → String → Waiting
live_waiting generation channel_id = record {
  generation = generation;
  channel_id = channel_id;
  meta = "";
  in_dialog = true;
}

unfoldable pub start_live : Page → String → Player → Player
unfolding on_library ensure_mpegts_loaded
start_live page channel_id p =
    when_loaded page (live_waiting (suc p.generation) channel_id)
      (record p { generation = suc p.generation; status = load_text })

abbrev pub live_options : Options
live_options = record {
  builder = none;
  query = none;
  is_seekable = false;
  duration = 0;
  start = none;
  limit = none;
  defers_source = true;
  status = load_text;
}

unfoldable pub open_live_channel_player : Page → String → String → Player → Player
unfolding stop_player_video open_player_dialog start_live on_library ensure_mpegts_loaded
open_live_channel_player page meta channel_id p =
    let p' = stop_player_video p in
    if page.has_dialog
    then (let shown = open_player_dialog page "" live_options p' in
        start_live page channel_id (record shown { retry = some channel_id }))
    else when_loaded page
        (record {
          generation = p'.generation;
          channel_id = channel_id;
          meta = meta;
          in_dialog = false;
        })
        p'

unfoldable pub close_player_dialog : Page → Player → Player
unfolding stop_player_video
close_player_dialog page p =
    if page.has_dialog
    then (record p { is_open = false })
    else stop_player_video (record p { is_open = false })

-- The query behind `ss` and `t`, which go on from the whole seconds of the shown time.
abbrev pub from_time : Bool → ℕ → ℕ → ℕ → Option Query → Option Query
from_time is_seekable start elapsed duration query =
    if is_seekable
    then (let q = set "ss" (text (show (start + elapsed))) (or_empty query) in
        some (if ltb 0 duration then set "t" (text (show (max 1 (duration - elapsed)))) q else q))
    else query

abbrev with_controls : Option Query → Player → Player
with_controls query p = record p {
  quality = quality_from_query query;
  audio = audio_from_query query;
}

abbrev pub controls_with : Option Query → Player × Bool → Player × Bool
controls_with query (p, true) = (with_controls query p, true)
controls_with query (p, false) = (p, false)

-- What both changes do with the query that they make.
abbrev pub change_query :
    Page → (Option Query → Option Query) → Player → Option Builder → Player × Bool
change_query page change p none = (p, true)
change_query page change p (some builder) =
    let (duration, t) = player_finite_duration p.video p.timeline in
    let elapsed = floor (player_current_time p.video duration t) in
    let query = from_time t.is_seekable t.start elapsed duration (change p.base_query) in
    controls_with query
      (set_player_source page (build page.browser builder query) query (record p { timeline = t }))

unfoldable pub change_player_quality : Page → String → Player → Player × Bool
unfolding set_player_source build player_finite_duration player_current_time quality_from_query
    audio_from_query
change_player_quality page quality p =
    change_query page (λ query. apply_quality_to_query query quality) p p.builder

unfoldable pub change_player_audio : Page → String → Player → Player × Bool
unfolding set_player_source build player_finite_duration player_current_time quality_from_query
    audio_from_query
change_player_audio page audio p =
    change_query page (λ query. apply_audio_to_query query audio) p p.builder

-- `(Number(seek.value) / 1000) * duration`
unfoldable pub next_time : ℕ → ℕ → Double
unfolding thousandths times
next_time value duration = times (thousandths value) duration

-- `next` is the time that is sought, behind the timeline's start.
unfoldable pub sought_query : Option Query → ℕ → Double → ℕ → Query
unfolding plus minus
sought_query base start next duration =
    set "t" (text (show (max 1 (floor (minus duration next)))))
      (set "ss" (text (show (floor (plus start next)))) (clone_query base))

abbrev pub quality_with : Option Query → Player × Bool → Player × Bool
quality_with query (p, true) = (record p { quality = quality_from_query query }, true)
quality_with query (p, false) = (p, false)

abbrev pub moved : Double → Player → Player × Bool
moved next p = (
  update_player_controls (record p { video = record p.video { current_time = some next } }),
  true,
)

abbrev pub seek_with : Page → Double → ℕ → Player → Option Builder → Player × Bool
seek_with page next duration p none = moved next p
seek_with page next duration p (some builder) =
    let query = some (sought_query p.base_query p.timeline.start next duration) in
    if p.timeline.is_seekable && player_prefers_configured_duration p.timeline
    then quality_with query (set_player_source page (build page.browser builder query) query p)
    else moved next p

-- `value` is that of the range, in thousandths of the duration.
unfoldable pub seek_player_to_range : Page → ℕ → Player → Player × Bool
unfolding next_time sought_query
seek_player_to_range page value p =
    let (duration, t) = player_finite_duration p.video p.timeline in
    let p' = record p { timeline = t } in
    if eqb duration 0
    then (p', true)
    else seek_with page (next_time value duration) duration p' p.builder

abbrev null_without_keys : Query → Option Query
null_without_keys [] = none
null_without_keys (x ∷ q) = some (x ∷ q)

abbrev pub caught : Player × Bool → Player
caught (p, true) = p
caught (p, false) = record p { status = no_url_text }

abbrev pub retry_with : Page → Player → Option String → Option Builder → Player
retry_with page p (some channel_id) builder = start_live page channel_id p
retry_with page p none none = p
retry_with page p none (some builder) =
    let query = clone_query p.base_query in
    caught
      (set_player_source page (build page.browser builder (null_without_keys query)) (some query) p)

unfoldable pub retry_player_source : Page → Player → Player
unfolding start_live set_player_source build clone_query
retry_player_source page p = retry_with page p p.retry p.builder

-- What reaches the player from outside.
pub data Event : Type 0 where
  stop_answered : Outcome → Event
  refused : ℕ → Bool → Event
  failed : ℕ → Event
  reported : Video → Event
  library_loaded : Option String → Event
  opened_program : Builder → Option Query → Bool → ℕ → String → Event
  opened_channel : String → String → Event
  closed dialog_closed page_hidden retried : Event
  quality_changed audio_changed : String → Event
  sought : ℕ → Event

unfoldable pub step : Page → Event → Player → Player
unfolding settle play_refused mse_failed update_player_controls library_answered
    open_adjustable_player open_live_channel_player close_player_dialog stop_player_video
    retry_player_source change_player_quality change_player_audio seek_player_to_range
step page (stop_answered outcome) p = settle page outcome p.chain p
step page (refused generation is_not_allowed) p = play_refused generation is_not_allowed p
step page (failed generation) p = mse_failed generation p
step page (reported video) p = update_player_controls (record p { video = video })
step page (library_loaded answer) p = library_answered page answer p
step page (opened_program builder query is_seekable duration status) p =
    open_adjustable_player page builder query is_seekable duration status p
step page (opened_channel meta channel_id) p = open_live_channel_player page meta channel_id p
step page closed p = close_player_dialog page p
step page dialog_closed p = stop_player_video (record p { is_open = false })
step page page_hidden p = stop_player_video p
step page retried p = retry_player_source page p
step page (quality_changed quality) p = (change_player_quality page quality p).0
step page (audio_changed audio) p = (change_player_audio page audio p).0
step page (sought value) p = (seek_player_to_range page value p).0

unfoldable pub run : Page → List Event → Player → Player
unfolding step
run page [] p = p
run page (e ∷ events) p = run page events (step page e p)

unfoldable pub initial : Player
initial = record {
  generation = 0;
  current_url = "";
  token = "";
  mse = none;
  video_src = "";
  video = record { duration = none; current_time = some (whole 0) };
  chain = [];
  log = [];
  builder = none;
  base_query = none;
  timeline = no_timeline;
  quality = "";
  audio = "";
  status = "";
  is_open = false;
  retry = none;
  library = absent;
  waiting = [];
}
