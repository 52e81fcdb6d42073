-- ===== src/Loading/Operational/Tests.antt =====
-- A window that shows the dashboard, and one that shows the status.
use strata_pvr.Base.{String, true, false, Option, none, some, [], ◌∷◌, ◌≡◌, refl}
use strata_pvr.Loading.ProgramData.{
  Value, request_program_data, request_program_data_path, apply_program_data,
}
use strata_pvr.Loading.Operational.{
  Window, Event, unknown, asked, replied, viewed, refresh_operational_data, on_round, step, run,
}
use strata_pvr.Loading.Operational.Laws.{IsUntouched, run-IsUntouched}

abbrev window : String → Window
window view = record {
  lists = record {
    current_view = view;
    version = 1;
    status = "";
    reserves = [];
    recording = [];
    recorded = [];
    schedule = [];
    broadcasting = none;
    is_loaded = λ path. false;
    requests = [];
    has_error = false;
    calls = [];
  };
  is_hidden = false;
  is_loading = false;
  in_flight = none;
  storage = some "disk";
  is_storage_loaded = true;
  storage_error = none;
  metrics_version = none;
  metrics = none;
}

abbrev replies : String → Option Value
replies path = some (record { text = "ok"; items = some ("a" ∷ []) })

-- The dashboard shows the recent items, the recorded list is not asked for.
recent_test :
    (run (asked ∷ replied replies (unknown "no") ∷ []) (window "dashboard")).lists.recorded
    ≡ "a" ∷ []
unfolding run step refresh_operational_data on_round request_program_data request_program_data_path
    apply_program_data
recent_test = refl

-- A refresh that is answered after another one was counted changes nothing.
outdated_test :
    (run
      (asked ∷ Event.refreshed ∷ replied replies (unknown "no") ∷ [])
      (window "dashboard")).lists.recorded
    ≡ []
unfolding run step refresh_operational_data on_round request_program_data request_program_data_path
    apply_program_data
outdated_test = refl

storage_example : IsUntouched (some "disk") true none (
    run
      (asked ∷ viewed "status" ∷ replied replies (unknown "no") ∷ asked ∷ [])
      (window "dashboard"))
storage_example =
    run-IsUntouched (asked ∷ viewed "status" ∷ replied replies (unknown "no") ∷ asked ∷ [])
      (window "dashboard") refl
