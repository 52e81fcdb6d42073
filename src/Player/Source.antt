-- ===== src/Player/Source.antt =====
-- The source of the player (web/app.js: `setPlayerSource`, `startPlayerMSE`, `destroyPlayerMSE`,
-- `queuePlaybackStop`, `withPlaybackSession`, `retryPlayerSource` and the handlers of a stop). A new
-- source waits for the stop of the one before; a stop is a request, so anything may happen meanwhile.
-- The subtitles of a source and the elements are not modelled; the page has its `video`.
pub mod Dialog
pub mod Sessions
pub mod Single
pub mod Reached
pub mod Settled
mod Tests
pub mod Position
use strata_pvr.Base.Double.{whole}
use strata_pvr.Base.{
  ℕ, suc, String, Bool, true, false, not, ◌&&◌, ◌||◌, Option, none, some, List, [], ◌∷◌, ◌++◌, ◌==◌,
  eqb, truthy, ◌⧺◌, if◌then◌else◌,
}
use strata_pvr.Player.Query.{Query, Value, get, clone_query}
use strata_pvr.Player.Timeline.{Timeline, Video, player_configured_duration, player_finite_duration}
use strata_pvr.Player.Url.{
  Browser, recorded_playback_url, recording_watch_url, live_channel_playback_url,
}
use strata_pvr.Player.Url.Encode.{serialize}
use strata_pvr.Player.Url.Stop.{is_stoppable, strip_prefix, after_segment, behind}

-- What `new URL(url, location)` gives of an address.
pub record Address : Type 0 where
  pub pathname : String
  pub params : List (String × String)
  pub hash : String

-- What the code takes from the browser: the reading of addresses (none is an exception), `Number` of
-- a property of a query, the random session tokens, and whether there are dialogs.
pub record Page : Type 0 where
  pub browser : Browser
  pub parse : String → Option Address
  pub seconds : Value → Option ℕ
  pub new_token : ℕ → String
  pub has_dialog : Bool

-- The functions that the player is opened with, by the programme or channel they speak of.
pub data Builder : Type 0 where
  recorded recording live : String → Builder

abbrev pub recorded_source : Browser → String → Option Query → String
recorded_source b id query = recorded_playback_url b id query

abbrev pub recording_source : String → Option Query → String
recording_source id query = recording_watch_url id "mp4" query

abbrev pub live_source : Browser → String → Option Query → String
live_source b id query = live_channel_playback_url b id query

-- A call of such a function.
unfoldable pub build : Browser → Builder → Option Query → String
build b (recorded id) query = recorded_source b id query
build b (recording id) query = recording_source id query
build b (live id) query = live_source b id query

-- What waits for a stop: the source that is to be played then.
pub record Start : Type 0 where
  pub generation : ℕ
  pub url : String
  pub token : String

-- A link of `playerSourceStopPromise`: the address to stop, and its `finally` handler.
pub record Link : Type 0 where
  pub url : String
  pub next : Option Start

-- What reaches the server, in order. `stopped` is the stop of an address, answered.
pub data Effect : Type 0 where
  opened stopped visited : String → Effect

-- A continuation of `ensureMPEGTSLoaded`.
pub record Waiting : Type 0 where
  pub generation : ℕ
  pub channel_id : String
  pub meta : String
  pub in_dialog : Bool

pub data Library : Type 0 where
  absent loading ready : Library

pub record Player : Type 0 where
  pub generation : ℕ
  pub current_url : String
  pub token : String
  pub mse : Option String
  pub video_src : String
  pub video : Video
  pub chain : List Link
  pub log : List Effect
  pub builder : Option Builder
  pub base_query : Option Query
  pub timeline : Timeline
  pub quality : String
  pub audio : String
  pub status : String
  pub is_open : Bool
  pub retry : Option String
  pub library : Library
  pub waiting : List Waiting

abbrev search_of : List (String × String) → String
search_of [] = ""
search_of (p ∷ params) = "?" ⧺ serialize (p ∷ params)

abbrev drop_param : String → List (String × String) → List (String × String)
drop_param name [] = []
drop_param name ((k, v) ∷ params) =
    if k == name then drop_param name params else (k, v) ∷ drop_param name params

-- `searchParams.set`: the first of that name is written, others of it are removed.
unfoldable set_param : String → String → List (String × String) → List (String × String)
set_param name value [] = (name, value) ∷ []
set_param name value ((k, v) ∷ params) =
    if k == name then (k, value) ∷ drop_param name params else (k, v) ∷ set_param name value params

abbrev param : String → List (String × String) → String
param name [] = ""
param name ((k, v) ∷ params) = if k == name then v else param name params

unfoldable pub with_playback_session : Page → String → String → Option String
unfolding set_param
with_playback_session page url token = if url == "" then some url else elim (page.parse url) [
  | none ↦ none
  | some a ↦ some (a.pathname ⧺ search_of (set_param "session" token a.params) ⧺ a.hash)
]

-- `/\/api\/channel\/[^/]+\/watch\.m2ts$/` at some place
abbrev is_watch : String → Bool
is_watch rest = behind (after_segment false rest) λ r. r == "watch.m2ts"

abbrev channel_watch : String → Bool
channel_watch String.[] = false
channel_watch (String.◌∷◌ c s) =
    behind (strip_prefix "/api/channel/" (String.◌∷◌ c s)) is_watch || channel_watch s

unfoldable pub is_live_mse_url : Page → String → Bool
is_live_mse_url page url = if url == "" then false else elim (page.parse url) [
  | none ↦ false
  | some a ↦ channel_watch a.pathname && param "mode" a.params == "mse"
]

unfoldable pub queue_playback_stop : String → Option Start → Player → Player
queue_playback_stop url next p =
    let link : Link = record { url = url; next = next } in record p { chain = p.chain ++ link ∷ [] }

unfoldable pub stop_playback_request : String → List Effect
stop_playback_request url = if is_stoppable url then stopped url ∷ [] else []

-- The video forgets its source, and with it the duration and the time.
unfoldable pub destroy_player_mse : Player → Player
destroy_player_mse p = record p {
  mse = none;
  video_src = "";
  video = record { duration = none; current_time = some (whole 0) };
}

unfoldable pub update_player_controls : Player → Player
unfolding player_finite_duration
update_player_controls p = record p { timeline = (player_finite_duration p.video p.timeline).1 }

abbrev pub with_base_query : Page → Option Query → Timeline → Timeline
with_base_query page query t =
    let q = clone_query query in
    record t { query_start = page.seconds (get "ss" q); query_limit = page.seconds (get "t" q) }

abbrev pub knowing : Timeline → Timeline
knowing t = record t { known = player_configured_duration t }

abbrev no_url_text : String
no_url_text = "再生URLを作成できませんでした。録画状態を確認して再試行してください"

-- `setPlayerSource` once it has the address of the new session.
unfoldable pub begin_source : Page → String → Option Query → Player → Player
unfolding queue_playback_stop destroy_player_mse update_player_controls
begin_source page url query p =
    let start : Start = record {
      generation = suc p.generation;
      url = url;
      token = page.new_token (suc p.generation);
    } in
    let p' = record (destroy_player_mse p) {
      generation = suc p.generation;
      status = "";
      current_url = "";
      token = "";
      base_query = some (clone_query query);
      timeline = knowing (with_base_query page query p.timeline);
    } in
    queue_playback_stop p.current_url (some start) (update_player_controls p')

abbrev pub source_with : Page → Option Query → Player → Option String → Player × Bool
source_with page query p none = (record p { generation = suc p.generation }, false)
source_with page query p (some next) = (begin_source page next query p, true)

-- The player, and whether the call returned: the address may be one that the browser cannot read.
unfoldable pub set_player_source : Page → String → Option Query → Player → Player × Bool
set_player_source page url query p =
    if url == ""
    then (record p { status = no_url_text }, true)
    else source_with page query p
        (with_playback_session page url (page.new_token (suc p.generation)))

-- How the MSE player starts: it may fail to be created, or to be attached and loaded.
pub data Outcome : Type 0 where
  started not_created not_loaded : Outcome

abbrev pub failed_start : String → Player → Player
failed_start url p = record (queue_playback_stop url none (destroy_player_mse p)) {
  current_url = "";
  token = "";
  status = "ライブ再生を初期化できませんでした。再試行してください。";
}

unfoldable pub start_player_mse : String → Outcome → Player → Player × Bool
start_player_mse url started p = (record p { mse = some url; log = p.log ++ opened url ∷ [] }, true)
start_player_mse url not_created p = (p, false)
start_player_mse url not_loaded p =
    (record p { mse = some url; log = p.log ++ opened url ∷ [] }, false)

abbrev pub start_source : Page → String → Outcome → Player → Player × Bool
start_source page url outcome p =
    if is_live_mse_url page url
    then start_player_mse url outcome p
    else (record p { video_src = url; log = p.log ++ opened url ∷ [] }, true)

abbrev pub finish_start : String → Player × Bool → Player
finish_start url (p, true) = update_player_controls p
finish_start url (p, false) = failed_start url p

-- The handler behind the stop: only the last source that was asked for starts.
unfoldable pub on_stopped : Page → Outcome → Start → Player → Player
unfolding start_player_mse is_live_mse_url queue_playback_stop destroy_player_mse
    update_player_controls
on_stopped page outcome start p =
    if not (eqb start.generation p.generation)
    then p
    else finish_start start.url (
        start_source page start.url outcome
          (record p { current_url = start.url; token = start.token }))

abbrev pub continue_with : Page → Outcome → Option Start → Player → Player
continue_with page outcome none p = p
continue_with page outcome (some start) p = on_stopped page outcome start p

-- The first stop of the queue is answered.
unfoldable pub settle : Page → Outcome → List Link → Player → Player
unfolding on_stopped stop_playback_request
settle page outcome [] p = p
settle page outcome (link ∷ chain) p =
    continue_with page outcome link.next
      (record p { chain = chain; log = p.log ++ stop_playback_request link.url })

-- `play()` was refused, with the name "NotAllowedError" or another.
unfoldable pub play_refused : ℕ → Bool → Player → Player
play_refused generation is_not_allowed p =
    if not (eqb generation p.generation) || is_not_allowed
    then p
    else (record p { status = "再生を開始できませんでした。録画が開始直後の場合は、数秒後に再試行してください" })

-- The MSE player reports an error.
unfoldable pub mse_failed : ℕ → Player → Player
mse_failed generation p =
    if eqb generation p.generation then (record p { status = "ライブ配信が中断されました。再試行してください。" }) else p
