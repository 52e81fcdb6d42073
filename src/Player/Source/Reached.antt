-- ===== src/Player/Source/Reached.antt =====
-- The sessions over every run of the player (web/app.js: all that reaches the player, in any order).
use strata_pvr.Base.Double.{Double}
use strata_pvr.Player.Source.Dialog.{next_time}
use strata_pvr.Base.{
  ℕ, suc, String, Bool, true, false, not, ◌&&◌, ◌||◌, Option, none, some, List, [], ◌∷◌, ◌==◌, eqb,
  refl, inl, inr, Bool-cases, if◌then◌else◌,
}
use strata_pvr.Player.Query.{Query, apply_quality_to_query, apply_audio_to_query}
use strata_pvr.Player.Timeline.{player_finite_duration, player_prefers_configured_duration}
use strata_pvr.Player.Url.{recorded_native_hls_supported}
use strata_pvr.Player.Source.{
  Page, Builder, live, build, Player, Waiting, Library, absent, loading, ready, set_player_source,
  update_player_controls, play_refused, mse_failed,
}
use strata_pvr.Player.Source.Sessions.{Runs, done}
use strata_pvr.Player.Source.Dialog.{
  Event, stop_answered, refused, failed, reported, library_loaded, opened_program, opened_channel,
  closed, dialog_closed, page_hidden, retried, quality_changed, audio_changed, sought, step, run,
  initial, stop_player_video, with_status, opened_with, open_player_dialog, adjustable_options,
  open_adjustable_player, on_library, on_library_error, ensure_mpegts_loaded, each_waiting,
  library_answered, when_loaded, start_live, open_live_channel_player, close_player_dialog,
  change_query, controls_with, quality_with, caught, wait_for, live_waiting, load_text,
  live_options, seek_with, retry_with, change_player_quality, change_player_audio,
  seek_player_to_range, retry_player_source, Options,
}
use strata_pvr.Player.Source.Single.{
  IsSingle, bumped-SingleAt, visited-SingleAt, set_player_source-IsSingle,
  stop_player_video-IsSingle, settle-IsSingle,
}

with_status-IsSingle : (status : String) (p : Player) → IsSingle p → IsSingle (with_status status p)
with_status-IsSingle status p h = elim (Bool-cases (status == "")) [
  | inl e ↦ rw e h
  | inr e ↦ rw e h
]

opened_with-IsSingle :
    (status : String) (r : Player × Bool) → IsSingle r.0 → IsSingle (opened_with status r)
opened_with-IsSingle status (p, true) h = with_status-IsSingle status p h
opened_with-IsSingle status (p, false) h = h

if-IsSingle : (b : Bool) (p q : Player) → IsSingle p → IsSingle q → IsSingle (if b then p else q)
if-IsSingle true p q h k = h
if-IsSingle false p q h k = k

open_player_dialog-IsSingle :
    (page : Page) (url : String) (o : Options) (p : Player)
    → IsSingle p
    → IsSingle (open_player_dialog page url o p)
unfolding open_player_dialog
open_player_dialog-IsSingle page url o p h =
    if-IsSingle (not page.has_dialog) _ _
      (visited-SingleAt p.generation p.current_url p.chain p.log url h)
      (if-IsSingle o.defers_source _ _ (with_status-IsSingle o.status _ h) (
        opened_with-IsSingle o.status (set_player_source page url o.query _)
          (set_player_source-IsSingle page url o.query _ h)))

on_library-IsSingle :
    (page : Page) (w : Waiting) (p : Player) → IsSingle p → IsSingle (on_library page w p)
unfolding on_library
on_library-IsSingle page w p h =
    if-IsSingle w.in_dialog _ _
      (if-IsSingle (not (eqb w.generation p.generation) || not p.is_open) _ _ h (
        set_player_source-IsSingle page (build page.browser (live w.channel_id) none) none
          (record p { retry = none; builder = some (live w.channel_id); quality = ""; audio = "" })
          h))
      (if-IsSingle (eqb w.generation p.generation) _ _
        (visited-SingleAt p.generation p.current_url p.chain p.log _ h) h)

on_library_error-IsSingle :
    (message : String) (w : Waiting) (p : Player)
    → IsSingle p
    → IsSingle (on_library_error message w p)
unfolding on_library_error
on_library_error-IsSingle message w p h =
    if-IsSingle (w.in_dialog && eqb w.generation p.generation && p.is_open) _ _ h h

each_waiting-IsSingle :
    (f : Waiting → Player → Player)
    → ((w : Waiting) (p : Player) → IsSingle p → IsSingle (f w p))
    → (ws : List Waiting) (p : Player) → IsSingle p
    → IsSingle (each_waiting f ws p)
each_waiting-IsSingle f k [] p h = h
each_waiting-IsSingle f k (w ∷ ws) p h = each_waiting-IsSingle f k ws (f w p) (k w p h)

library_answered-IsSingle :
    (page : Page) (answer : Option String) (p : Player)
    → IsSingle p
    → IsSingle (library_answered page answer p)
unfolding library_answered
library_answered-IsSingle page none p h =
    each_waiting-IsSingle (on_library page) (on_library-IsSingle page) p.waiting _ h
library_answered-IsSingle page (some message) p h =
    each_waiting-IsSingle (on_library_error message) (on_library_error-IsSingle message) p.waiting _
      h

wait_for-IsSingle :
    (page : Page) (w : Waiting) (p : Player) (l : Library)
    → IsSingle p
    → IsSingle (wait_for page w p l)
wait_for-IsSingle page w p absent h = h
wait_for-IsSingle page w p loading h = h
wait_for-IsSingle page w p ready h = on_library-IsSingle page w p h

when_loaded-IsSingle :
    (page : Page) (w : Waiting) (p : Player) → IsSingle p → IsSingle (when_loaded page w p)
unfolding ensure_mpegts_loaded
when_loaded-IsSingle page w p h =
    if-IsSingle (recorded_native_hls_supported page.browser.can_play page.browser.user_agent) _ _
      (on_library-IsSingle page w p h) (wait_for-IsSingle page w p p.library h)

start_live-IsSingle :
    (page : Page) (channel_id : String) (p : Player)
    → IsSingle p
    → IsSingle (start_live page channel_id p)
unfolding start_live
start_live-IsSingle page channel_id p h =
    when_loaded-IsSingle page (live_waiting (suc p.generation) channel_id)
      (record p { generation = suc p.generation; status = load_text })
      (bumped-SingleAt p.generation p.current_url p.chain p.log h)

open_live_channel_player-IsSingle :
    (page : Page) (meta channel_id : String) (p : Player)
    → IsSingle p
    → IsSingle (open_live_channel_player page meta channel_id p)
unfolding open_live_channel_player
open_live_channel_player-IsSingle page meta channel_id p h =
    let p' = stop_player_video p in
    let k = stop_player_video-IsSingle p h in
    let shown = open_player_dialog page "" live_options p' in
    let offered : Player = record shown { retry = some channel_id } in
    let w : Waiting = record {
      generation = p'.generation;
      channel_id = channel_id;
      meta = meta;
      in_dialog = false;
    } in
    if-IsSingle page.has_dialog (start_live page channel_id offered) (when_loaded page w p')
      (start_live-IsSingle page channel_id offered
        (open_player_dialog-IsSingle page "" live_options p' k))
      (when_loaded-IsSingle page w p' k)

controls_with-IsSingle :
    (query : Option Query) (r : Player × Bool) → IsSingle r.0 → IsSingle (controls_with query r).0
controls_with-IsSingle query (p, true) h = h
controls_with-IsSingle query (p, false) h = h

quality_with-IsSingle :
    (query : Option Query) (r : Player × Bool) → IsSingle r.0 → IsSingle (quality_with query r).0
quality_with-IsSingle query (p, true) h = h
quality_with-IsSingle query (p, false) h = h

caught-IsSingle : (r : Player × Bool) → IsSingle r.0 → IsSingle (caught r)
caught-IsSingle (p, true) h = h
caught-IsSingle (p, false) h = h

change_query-IsSingle :
    (page : Page) (change : Option Query → Option Query) (p : Player) (b : Option Builder)
    → IsSingle p
    → IsSingle (change_query page change p b).0
change_query-IsSingle page change p none h = h
change_query-IsSingle page change p (some b) h =
    controls_with-IsSingle _ (set_player_source page _ _ _)
      (set_player_source-IsSingle page _ _ (record p { timeline = _ }) h)

if-IsSingle_of :
    (b : Bool) (r s : Player × Bool) → IsSingle r.0 → IsSingle s.0 → IsSingle (if b then r else s).0
if-IsSingle_of true r s h k = h
if-IsSingle_of false r s h k = k

seek_with-IsSingle :
    (page : Page) (next : Double) (duration : ℕ) (p : Player) (b : Option Builder)
    → IsSingle p
    → IsSingle (seek_with page next duration p b).0
unfolding update_player_controls
seek_with-IsSingle page next duration p none h = h
seek_with-IsSingle page next duration p (some b) h =
    if-IsSingle_of (p.timeline.is_seekable && player_prefers_configured_duration p.timeline) _ _
      (quality_with-IsSingle _ (set_player_source page _ _ p)
        (set_player_source-IsSingle page _ _ p h))
      h

seek_player_to_range-IsSingle :
    (page : Page) (value : ℕ) (p : Player)
    → IsSingle p
    → IsSingle (seek_player_to_range page value p).0
unfolding seek_player_to_range
seek_player_to_range-IsSingle page value p h =
    elim (Bool-cases (eqb (player_finite_duration p.video p.timeline).0 0)) [
      | inl e ↦ rw e h
      | inr e ↦ rw e (
          seek_with-IsSingle page (next_time value _) _
            (record p { timeline = (player_finite_duration p.video p.timeline).1 }) p.builder h)
    ]

retry_with-IsSingle :
    (page : Page) (p : Player) (r : Option String) (b : Option Builder)
    → IsSingle p
    → IsSingle (retry_with page p r b)
retry_with-IsSingle page p (some channel_id) b h = start_live-IsSingle page channel_id p h
retry_with-IsSingle page p none none h = h
retry_with-IsSingle page p none (some b) h =
    caught-IsSingle (set_player_source page _ _ p) (set_player_source-IsSingle page _ _ p h)

step-IsSingle : (page : Page) (e : Event) (p : Player) → IsSingle p → IsSingle (step page e p)
unfolding step retry_player_source open_adjustable_player close_player_dialog change_player_quality
    change_player_audio play_refused mse_failed update_player_controls
step-IsSingle page (stop_answered outcome) p h = settle-IsSingle page outcome p.chain p refl h
step-IsSingle page (refused generation is_not_allowed) p h =
    if-IsSingle (not (eqb generation p.generation) || is_not_allowed) _ _ h h
step-IsSingle page (failed generation) p h = if-IsSingle (eqb generation p.generation) _ _ h h
step-IsSingle page (reported video) p h = h
step-IsSingle page (library_loaded answer) p h = library_answered-IsSingle page answer p h
step-IsSingle page (opened_program builder query is_seekable duration status) p h =
    open_player_dialog-IsSingle page (build page.browser builder query)
      (adjustable_options page builder query is_seekable duration status) p h
step-IsSingle page (opened_channel meta channel_id) p h =
    open_live_channel_player-IsSingle page meta channel_id p h
step-IsSingle page closed p h =
    if-IsSingle page.has_dialog _ _ h (stop_player_video-IsSingle (record p { is_open = false }) h)
step-IsSingle page dialog_closed p h = stop_player_video-IsSingle (record p { is_open = false }) h
step-IsSingle page page_hidden p h = stop_player_video-IsSingle p h
step-IsSingle page retried p h = retry_with-IsSingle page p p.retry p.builder h
step-IsSingle page (quality_changed quality) p h =
    change_query-IsSingle page (λ q. apply_quality_to_query q quality) p p.builder h
step-IsSingle page (audio_changed audio) p h =
    change_query-IsSingle page (λ q. apply_audio_to_query q audio) p p.builder h
step-IsSingle page (sought value) p h = seek_player_to_range-IsSingle page value p h

pub run-IsSingle_from :
    (page : Page) (events : List Event) (p : Player) → IsSingle p → IsSingle (run page events p)
unfolding run
run-IsSingle_from page [] p h = h
run-IsSingle_from page (e ∷ events) p h =
    run-IsSingle_from page events (step page e p) (step-IsSingle page e p h)

pub run-IsSingle : (page : Page) (events : List Event) → IsSingle (run page events initial)
unfolding initial
run-IsSingle page events = run-IsSingle_from page events initial (none, done, tt, tt)

-- Whatever is opened, changed, sought, retried and closed, in any order with the answers of the
-- stops and of the library: the requests of the player are a run of the machine with at most one
-- open session, so a stream is opened only after the stop of the one before was answered.
pub requests-Runs :
    (page : Page) (events : List Event)
    → (o : Option String) × Runs none (run page events initial).log o
requests-Runs page events = let (o, r, h, f) = run-IsSingle page events in (o, r)
