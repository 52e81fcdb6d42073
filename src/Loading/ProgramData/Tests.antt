-- ===== src/Loading/ProgramData/Tests.antt =====
-- The dashboard, behind a recorded list that was loaded.
use strata_pvr.Base.{
  String, true, false, ◌==◌, Option, none, some, [], ◌∷◌, ◌≡◌, refl, if◌then◌else◌,
}
use strata_pvr.Loading.Refresh.{program_data_paths_for_view}
use strata_pvr.Loading.ProgramData.{
  Value, Data, load_program_data_for_view, on_replies, request_program_data,
  request_program_data_path,
}
use strata_pvr.Loading.ProgramData.Laws.{IsStored, load_program_data_for_view-IsStored}

abbrev recent : Value
recent = record { text = ""; items = some ("c" ∷ []) }

abbrev replies : String → Option Value
replies path = if path == "recorded" then none else some recent

abbrev listed : Data
listed = record {
  current_view = "dashboard";
  version = 1;
  status = "";
  reserves = [];
  recording = [];
  recorded = "a" ∷ "b" ∷ "c" ∷ [];
  schedule = [];
  broadcasting = none;
  is_loaded = λ path. path == "recorded";
  requests = [];
  has_error = false;
  calls = [];
}

-- A failed request for the recorded list leaves it as it was, and marks the error.
failed_test :
    (on_replies "recorded" replies (load_program_data_for_view "recorded" true listed)).has_error
    ≡ true
unfolding on_replies load_program_data_for_view program_data_paths_for_view request_program_data
    request_program_data_path
failed_test = refl

stored_example :
    IsStored "dashboard"
      (program_data_paths_for_view "dashboard")
      (on_replies "dashboard" replies (load_program_data_for_view "dashboard" true listed))
unfolding program_data_paths_for_view
stored_example =
    load_program_data_for_view-IsStored "dashboard" replies listed refl
      ((recent, refl), ((recent, refl), tt))
