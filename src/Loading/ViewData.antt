-- ===== src/Loading/ViewData.antt =====
-- The data of the views for rules, settings and status (web/app.js: `loadViewData`). What a view draws
-- is not modelled: `calls` lists that it is drawn, and the errors that are shown.
mod Tests
pub mod Laws
use strata_pvr.Base.{
  String, Bool, true, false, not, ◌&&◌, Option, none, some, List, [], ◌∷◌, ◌++◌, ◌==◌,
  if◌then◌else◌,
}

-- The views that have data of their own.
pub data Section : Type 0 where
  rules settings status : Section

abbrev pub section_of : String → Option Section
section_of view =
    if view == "rules"
    then some rules
    else (if view == "settings"
        then some settings
        else (if view == "status" then some status else none))

abbrev pub name_of : Section → String
name_of rules = "rules"
name_of settings = "settings"
name_of status = "status"

-- The request that is not answered yet: the one for the data, or the one for the tokens behind it.
pub data Stage : Type 0 where
  for_data for_tokens : Stage

-- `state[readyKey]`, `state.viewDataRequests[view]` and `state.viewDataErrors[view]`
pub record Slot : Type 0 where
  pub is_ready : Bool
  pub request : Option Stage
  pub error : Option String

pub data Call : Type 0 where
  render : Section → Call
  show_error : String → Call

-- Of the configuration its text and whether authentication is enabled.
pub record Configuration : Type 0 where
  pub text : String
  pub has_authentication : Bool

pub record Views : Type 0 where
  pub current_view : String
  pub of_rules : Slot
  pub of_settings : Slot
  pub of_status : Slot
  pub rule_texts : List String
  pub config : Configuration
  pub storage : Option String
  pub api_tokens : List String
  pub calls : List Call

-- The value of a reply, as each of the requests reads it.
pub record Value : Type 0 where
  pub rule_texts : List String
  pub config : Configuration
  pub storage : Option String
  pub tokens : List String

abbrev pub slot : Section → Views → Slot
slot rules s = s.of_rules
slot settings s = s.of_settings
slot status s = s.of_status

abbrev pub put : Section → Slot → Views → Views
put rules v s = record s { of_rules = v }
put settings v s = record s { of_settings = v }
put status v s = record s { of_status = v }

abbrev pub call : List Call → Views → Views
call cs s = record s { calls = s.calls ++ cs }

-- A view is drawn if it is the one that is shown.
abbrev pub draw : Section → Views → Views
draw p s = if s.current_view == name_of p then call (render p ∷ []) s else s

abbrev pub begin_request : Section → Option Stage → Views → Views
begin_request p none s =
    call (render p ∷ [])
      (put p (record { is_ready = false; request = some for_data; error = none }) s)
begin_request p (some stage) s = s

unfoldable pub load_section : Section → Bool → Views → Views
load_section p force s =
    if not force && (slot p s).is_ready then s else begin_request p (slot p s).request s

abbrev pub load_in : Option Section → Bool → Views → Views
load_in none force s = s
load_in (some p) force s = load_section p force s

unfoldable pub load_view_data : String → Bool → Views → Views
load_view_data view force s = load_in (section_of view) force s

-- The last handlers of a request that succeeded: the view is ready, and has no request.
abbrev pub finish : Section → Views → Views
finish p s = draw p (put p (record (slot p s) { is_ready = true; request = none }) s)

abbrev pub on_config : Configuration → Bool → Views → Views
on_config c true s =
    put settings (record s.of_settings { request = some for_tokens }) (record s { config = c })
on_config c false s = finish settings (record s { config = c; api_tokens = [] })

-- The handler of the data. The tokens are emptied by the data of every view, but for a configuration
-- with authentication, which asks for them.
unfoldable pub on_data : Section → Value → Views → Views
on_data rules v s = finish rules (record s { rule_texts = v.rule_texts; api_tokens = [] })
on_data settings v s = on_config v.config v.config.has_authentication s
on_data status v s = finish status (record s { storage = v.storage; api_tokens = [] })

abbrev pub on_value : Section → Value → Option Stage → Views → Views
on_value p v none s = s
on_value p v (some for_data) s = on_data p v s
on_value p v (some for_tokens) s = finish p (record s { api_tokens = v.tokens })

abbrev pub failed_with : Section → String → Option Stage → Views → Views
failed_with p message none s = s
failed_with p message (some stage) s =
    call (show_error message ∷ [])
      (draw p (put p (record (slot p s) { request = none; error = some message }) s))

-- The reply to a request of a view.
pub data Reply : Type 0 where
  answered : Value → Reply
  failed : String → Reply

unfoldable pub on_reply : Section → Reply → Views → Views
on_reply p (answered v) s = on_value p v (slot p s).request s
on_reply p (failed message) s = failed_with p message (slot p s).request s

pub data Event : Type 0 where
  loaded : String → Bool → Event
  replied : Section → Reply → Event
  viewed : String → Event

unfoldable pub step : Event → Views → Views
unfolding load_view_data load_section on_reply on_data
step (loaded view force) s = load_view_data view force s
step (replied p reply) s = on_reply p reply s
step (viewed view) s = record s { current_view = view }

unfoldable pub run : List Event → Views → Views
unfolding step
run [] s = s
run (e ∷ events) s = run events (step e s)
