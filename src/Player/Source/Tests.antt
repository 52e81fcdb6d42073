-- ===== src/Player/Source/Tests.antt =====
-- Concrete runs of the player.
use strata_pvr.Base.Double.{whole, floor, thousandths, times, plus, rounded, excess}
use strata_pvr.Base.{
  ℕ, String, true, false, Option, none, some, List, [], ◌∷◌, ◌==◌, show, ◌⧺◌, ◌≡◌, refl, suc, inl,
  inr, ◌∙◌, Bool-cases, if◌then◌else◌, arith,
}
use strata_pvr.Player.Query.{Value, text, undefined, null, Query, apply_quality_to_query}
use strata_pvr.Player.Timeline.{
  player_finite_duration, player_current_time, player_prefers_configured_duration,
  player_configured_duration,
}
use strata_pvr.Player.Source.{
  Page, recorded, Player, started, not_loaded, set_player_source, with_playback_session,
}
use strata_pvr.Player.Source.Dialog.{
  Event, stop_answered, reported, library_loaded, opened_program, opened_channel, dialog_closed,
  quality_changed, run, initial, stop_player_video, seek_player_to_range, change_player_quality,
  from_time, next_time,
}
use strata_pvr.Player.Source.Sessions.{Runs}
use strata_pvr.Player.Source.Reached.{requests-Runs}
use strata_pvr.Player.Source.Settled.{
  PlaysAfter, RestsAfter, set_player_source-PlaysAfter, stop_player_video-RestsAfter,
}
use strata_pvr.Player.Source.Position.{
  shown, sought, seek_player_to_range-shown, change_player_quality-shown, quality_with_lem,
  controls_with_lem,
}

abbrev seconds_read : Value → Option ℕ
seconds_read undefined = none
seconds_read null = none
seconds_read (text s) =
    if s == "1016"
    then some 1016
    else (if s == "60" then some 60 else (if s == "0" then some 0 else none))

-- A browser without HLS, whose addresses are paths without a query.
abbrev desk : Page
desk = record {
  browser = record { can_play = false; user_agent = "Chrome"; live_mse = true };
  parse = λ url. some (record { pathname = url; params = []; hash = "" });
  seconds = seconds_read;
  new_token = λ n. "t" ⧺ show n;
  has_dialog = true;
}

-- A programme of half an hour is opened and played from its first minute on.
abbrev film : List Event
film =
    opened_program (recorded "7") none true 1800 ""
    ∷ stop_answered started
    ∷ reported (record { duration = some 1800; current_time = some (whole 60) })
    ∷ []

-- Then a channel, the library for it, a change of quality and the end.
abbrev evening : List Event
evening =
    opened_program (recorded "7") none true 1800 ""
    ∷ stop_answered started
    ∷ opened_channel "News" "gr1"
    ∷ library_loaded none
    ∷ quality_changed "360p"
    ∷ stop_answered started
    ∷ stop_answered not_loaded
    ∷ stop_answered started
    ∷ dialog_closed
    ∷ []

requests_example : (o : Option String) × Runs none (run desk evening initial).log o
requests_example = requests-Runs desk evening

abbrev session_of : Option String → String
session_of none = ""
session_of (some url) = url

-- The address of the next session of "/api/recorded/7/watch.mp4" after `evening`.
abbrev next_url : String
next_url = session_of (
    with_playback_session desk "/api/recorded/7/watch.mp4"
      (desk.new_token (suc (run desk evening initial).generation)))

next_url_lem :
    with_playback_session desk "/api/recorded/7/watch.mp4"
      (desk.new_token (suc (run desk evening initial).generation))
    ≡ some next_url
unfolding with_playback_session
next_url_lem = refl

plays_example :
    PlaysAfter desk
      (set_player_source desk "/api/recorded/7/watch.mp4" none (run desk evening initial)).0
      next_url
plays_example =
    set_player_source-PlaysAfter desk evening "/api/recorded/7/watch.mp4" next_url none (λ e. cc)
      next_url_lem

rests_example : RestsAfter desk (stop_player_video (run desk film initial))
rests_example = stop_player_video-RestsAfter desk film

-- The same programme half a second after its first minute.
abbrev half : Player
half = record initial {
  builder = some (recorded "7");
  video = record { duration = none; current_time = some (record { mantissa = 121; exponent = 1 }) };
  timeline = record {
    is_seekable = true;
    start = 0;
    duration = 1800;
    fallback = 1800;
    known = 1800;
    query_start = none;
    query_limit = none;
  };
}

set_player_source-desk :
    (url : String) (query : Option Query) (p : Player)
    → (set_player_source desk url query p).1 ≡ true
unfolding set_player_source with_playback_session
set_player_source-desk url query p = elim (Bool-cases (url == "")) [
  | inl e ↦ rw e refl
  | inr e ↦ rw e refl
]

seek-desk : (seek_player_to_range desk 565 half).1 ≡ true
unfolding seek_player_to_range player_finite_duration player_prefers_configured_duration
    player_configured_duration initial
seek-desk = (quality_with_lem _ _).1 ∙ set_player_source-desk _ _ _

-- 565 thousandths of 1800 seconds are 1017 seconds, and one less as the script computes them.
sought_test : sought half 565 1800 ≡ 1016
unfolding initial next_time thousandths times plus rounded excess
sought_test = refl

sought_example : shown (seek_player_to_range desk 565 half).0 ≡ (1800, whole 1016)
unfolding initial next_time thousandths times plus rounded excess show
sought_example =
    seek_player_to_range-shown desk half (recorded "7") 565 1800 refl (omega arith) refl
      (refl, refl, omega arith) (omega arith) seek-desk

quality-desk : (change_player_quality desk "360p" half).1 ≡ true
unfolding change_player_quality initial
quality-desk =
    let (duration, t) = player_finite_duration half.video half.timeline in
    let query =
      from_time t.is_seekable t.start (floor (player_current_time half.video duration t)) duration
        (apply_quality_to_query none "360p") in
    (controls_with_lem query (set_player_source desk _ query (record half { timeline = t }))).1
    ∙ set_player_source-desk _ query (record half { timeline = t })

quality_example : shown (change_player_quality desk "360p" half).0 ≡ (1800, whole 60)
unfolding initial player_finite_duration player_current_time player_prefers_configured_duration
    player_configured_duration plus rounded excess show
quality_example =
    change_player_quality-shown desk half (recorded "7") "360p" 1800 refl (omega arith) refl
      (refl, refl, omega arith) quality-desk
