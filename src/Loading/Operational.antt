-- ===== src/Loading/Operational.antt =====
-- The periodic refreshes (web/app.js: `refreshOperationalData`, `refreshMetrics`). The values of the
-- storage and the metrics are texts.
mod Tests
pub mod Laws
use strata_pvr.Base.{
  ℕ, suc, String, Bool, true, false, not, ◌&&◌, ◌||◌, Option, none, some, List, [], ◌∷◌, ◌++◌, ◌==◌,
  eqb, if◌then◌else◌,
}
use strata_pvr.Loading.ProgramData.{
  Value, Answer, Data, Call, render, show_error, request_program_data, apply_program_data,
}

-- What a refresh remembers until its replies are there.
pub record Round : Type 0 where
  pub version : ℕ
  pub paths : List String
  pub wants_storage : Bool

-- `in_flight` is none while `operationalRefreshInFlight` is false, `metrics_version` while
-- `metricsRefreshInFlight` is.
pub record Window : Type 0 where
  pub lists : Data
  pub is_hidden : Bool
  pub is_loading : Bool
  pub in_flight : Option Round
  pub storage : Option String
  pub is_storage_loaded : Bool
  pub storage_error : Option String
  pub metrics_version : Option ℕ
  pub metrics : Option String

abbrev pub operational_refresh_required : String → Bool
operational_refresh_required view =
    view == "dashboard" || view == "schedule" || view == "reserves" || view == "recorded"

abbrev pub refresh_paths : String → List String
refresh_paths view =
    "status"
      ∷ "reserves"
      ∷ "recording"
      ∷ (if view == "dashboard" || view == "schedule" then "schedule/broadcasting" ∷ [] else [])
    ++ (if view == "dashboard"
        then "recorded/recent" ∷ []
        else (if view == "recorded" then "recorded" ∷ [] else []))

abbrev pub round_of : Data → Round
round_of d = record {
  version = d.version;
  paths = refresh_paths d.current_view;
  wants_storage = d.current_view == "status";
}

abbrev pub begin_round : Option Round → Window → Window
begin_round (some round) s = s
begin_round none s = record s { in_flight = some (round_of s.lists) }

unfoldable pub refresh_operational_data : Window → Window
refresh_operational_data s =
    if not (operational_refresh_required s.lists.current_view) || s.is_hidden || s.is_loading
    then s
    else begin_round s.in_flight s

-- The reply about the storage: its value, or an error, which keeps the value of the state.
pub data StorageReply : Type 0 where
  stored : Option String → StorageReply
  unknown : String → StorageReply

abbrev pub take_storage : Bool → StorageReply → Window → Window
take_storage false reply s = s
take_storage true (stored value) s = record s {
  storage = value;
  is_storage_loaded = true;
  storage_error = none;
}
take_storage true (unknown error) s = record s {
  is_storage_loaded = false;
  storage_error = some error;
}

abbrev pub call : Call → Data → Data
call c d = record d { calls = d.calls ++ c ∷ [] }

-- The handlers behind the replies, or behind the failure of one.
abbrev pub settle_round : Round → Option (List Answer) → StorageReply → Window → Window
settle_round round none reply s = record s {
  lists = call show_error (record s.lists { has_error = true });
}
settle_round round (some answers) reply s =
    if eqb round.version s.lists.version
    then (let d = record (apply_program_data answers s.lists) { has_error = false } in
        take_storage round.wants_storage reply
          (record s { lists = if s.is_hidden then d else call render d }))
    else s

abbrev pub answer_round : (String → Option Value) → StorageReply → Option Round → Window → Window
answer_round replies reply none s = s
answer_round replies reply (some round) s =
    record (settle_round round (request_program_data replies s.lists.broadcasting round.paths) reply
      s) { in_flight = none }

unfoldable pub on_round : (String → Option Value) → StorageReply → Window → Window
on_round replies reply s = answer_round replies reply s.in_flight s

abbrev pub begin_metrics : Option ℕ → Window → Window
begin_metrics (some version) s = s
begin_metrics none s = record s { metrics_version = some s.lists.version }

unfoldable pub refresh_metrics : Window → Window
refresh_metrics s =
    if s.is_hidden || not (s.lists.current_view == "status") || s.is_loading
    then s
    else begin_metrics s.metrics_version s

-- The reply with the metrics; a failure leaves them as they are.
abbrev pub settle_metrics : ℕ → Option (Option String) → Window → Window
settle_metrics version none s = s
settle_metrics version (some metrics) s =
    if eqb version s.lists.version then (record s { metrics = metrics }) else s

abbrev pub answer_metrics : Option (Option String) → Option ℕ → Window → Window
answer_metrics reply none s = s
answer_metrics reply (some version) s = record (settle_metrics version reply s) {
  metrics_version = none;
}

unfoldable pub on_metrics : Option (Option String) → Window → Window
on_metrics reply s = answer_metrics reply s.metrics_version s

-- What happens in a window; a view is shown, the page is hidden or not, and `refresh` counts the
-- version up and loads.
pub data Event : Type 0 where
  asked asked_metrics refreshed : Event
  replied : (String → Option Value) → StorageReply → Event
  replied_metrics : Option (Option String) → Event
  viewed : String → Event
  turned : Bool → Bool → Event

unfoldable pub step : Event → Window → Window
unfolding refresh_operational_data on_round refresh_metrics on_metrics
step asked s = refresh_operational_data s
step asked_metrics s = refresh_metrics s
step refreshed s = record s {
  lists = record s.lists { version = suc s.lists.version };
  is_loading = true;
}
step (replied replies reply) s = on_round replies reply s
step (replied_metrics reply) s = on_metrics reply s
step (viewed view) s = record s { lists = record s.lists { current_view = view } }
step (turned is_hidden is_loading) s = record s { is_hidden = is_hidden; is_loading = is_loading }

unfoldable pub run : List Event → Window → Window
unfolding step
run [] s = s
run (e ∷ events) s = run events (step e s)
