-- ===== src/Loading/Refresh.antt =====
-- The refresh of the application's data (web/app.js: `refresh`, `programDataPathsForView`, and the
-- choice of `loadProgramDataForView`). What a refresh calls is listed in `calls`: the data of a reply
-- is not modelled, nor are the elements of the page.
pub mod Served
use strata_pvr.Base.{
  ℕ, suc, String, Bool, true, false, not, ◌&&◌, Option, none, some, List, [], ◌∷◌, ◌++◌, ◌==◌, eqb,
  if◌then◌else◌,
}

unfoldable pub program_data_paths_for_view : String → List String
program_data_paths_for_view view =
    if view == "dashboard"
    then "recorded/recent" ∷ "schedule/broadcasting" ∷ []
    else (if view == "schedule"
        then "schedule" ∷ "schedule/broadcasting" ∷ []
        else (if view == "recorded" then "recorded" ∷ [] else []))

-- A call of another function.
pub data Call : Type 0 where
  apply_program_data render load_search_page start_metrics_refresh refresh_metrics show_error : Call
  load_view_data : String → Call
  load_program_data_for_view : String → Bool → Call

-- The requests of a refresh that are not answered yet, with what the refresh remembers.
pub record Load : Type 0 where
  pub version : ℕ
  pub view : String
  pub paths : List String

pub record Refresh : Type 0 where
  pub current_view : String
  pub is_loading : Bool
  pub is_queued : Bool
  pub shows_loading : Bool
  pub has_loaded : Bool
  pub has_error : Bool
  pub search_loaded : Bool
  pub version : ℕ
  pub loads : List Load
  pub calls : List Call

abbrev start : Refresh → Refresh
start s =
    let load : Load = record {
      version = suc s.version;
      view = s.current_view;
      paths = "status" ∷ "reserves" ∷ "recording" ∷ program_data_paths_for_view s.current_view;
    } in
    record s {
      version = suc s.version;
      is_loading = true;
      shows_loading = true;
      has_error = false;
      loads = s.loads ++ load ∷ [];
    }

refresh : Refresh → Refresh
unfolding program_data_paths_for_view
refresh s = if s.is_loading then (record s { is_queued = true }) else start s

-- What the view needs after a refresh, once the data of the lists is there.
abbrev view_calls : String → List Call
view_calls view =
    if view == "status"
    then load_view_data "status" ∷ start_metrics_refresh ∷ []
    else (if view == "rules"
        then load_view_data "rules" ∷ []
        else (if view == "settings" then load_view_data "settings" ∷ [] else []))

-- The handler of the replies.
on_reply : Load → Refresh → Refresh
on_reply load s = if not (eqb load.version s.version) then s else (record s {
  has_loaded = true;
  has_error = false;
  calls = s.calls ++ apply_program_data ∷ render ∷ view_calls s.current_view;
})

-- `catch`, with `renderInitialLoadError`, which shows the error too before anything was loaded.
on_error : Refresh → Refresh
on_error s = record s {
  shows_loading = false;
  has_error = true;
  calls = s.calls ++ (if s.has_loaded then show_error ∷ [] else show_error ∷ show_error ∷ []);
}

-- `finally`, before it looks at `refreshQueued`
abbrev after_load : Load → Refresh → Refresh
after_load load s =
    let metrics = if s.current_view == "status" then refresh_metrics ∷ [] else [] in
    let is_search = s.has_loaded && s.current_view == "search" in
    let lists =
      if is_search
      then load_search_page ∷ []
      else (if s.has_loaded
          then load_program_data_for_view s.current_view (not (s.current_view == load.view)) ∷ []
          else []) in
    record s {
      is_loading = false;
      shows_loading = false;
      search_loaded = if is_search then false else s.search_loaded;
      calls = s.calls ++ metrics ++ lists;
    }

on_finally : Load → Refresh → Refresh
unfolding refresh
on_finally load s =
    let s' = after_load load s in
    if s'.is_queued then refresh (record s' { is_queued = false }) else s'

-- The replies of a refresh are there, or one of its requests failed.
abbrev answer : Bool → List Load → Refresh → Refresh
answer is_ok [] s = s
answer is_ok (load ∷ rest) s =
    let s' = record s { loads = rest } in
    on_finally load (if is_ok then on_reply load s' else on_error s')

pub data Event : Type 0 where
  refreshed : Event
  answered : Bool → Event
  view_changed : String → Event

unfoldable pub step : Event → Refresh → Refresh
unfolding refresh on_reply on_error on_finally
step refreshed s = refresh s
step (answered is_ok) s = answer is_ok s.loads s
step (view_changed view) s = record s { current_view = view }

unfoldable pub run : List Event → Refresh → Refresh
unfolding step
run [] s = s
run (e ∷ events) s = run events (step e s)

unfoldable pub initial : String → Refresh
initial view = record {
  current_view = view;
  is_loading = false;
  is_queued = false;
  shows_loading = false;
  has_loaded = false;
  has_error = false;
  search_loaded = false;
  version = 0;
  loads = [];
  calls = [];
}
