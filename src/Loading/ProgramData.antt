-- ===== src/Loading/ProgramData.antt =====
-- The programme data of the views (web/app.js: `requestProgramDataPath`, `requestProgramData`,
-- `applyProgramData`, `loadProgramDataForView`). The items of the lists are texts; `calls` lists what
-- is drawn. The replies of one load are there together, with the state they are read in.
mod Tests
pub mod Marks
pub mod Laws
use strata_pvr.Base.{
  ℕ, suc, String, Bool, true, false, not, ◌&&◌, ◌||◌, Option, none, some, List, [], ◌∷◌, ◌++◌, ◌==◌,
  eqb, filter, member, find?, ◌>>=◌, if◌then◌else◌,
}
use strata_pvr.Loading.Refresh.{program_data_paths_for_view}

-- The value of a reply: a list of items, or something else.
pub record Value : Type 0 where
  pub text : String
  pub items : Option (List String)

abbrev pub list_of : Option (List String) → List String
list_of none = []
list_of (some items) = items

abbrev pub list_or : Option (List String) → Option (List String) → Option (List String)
list_or none former = former
list_or (some items) former = some items

pub record Answer : Type 0 where
  pub path : String
  pub value : Value
  pub is_loaded : Bool

-- `state.programDataRequests[view]`, with what its promise remembers.
pub record Load : Type 0 where
  pub view : String
  pub version : ℕ
  pub paths : List String

pub data Call : Type 0 where
  set_busy render show_error : Call

pub record Data : Type 0 where
  pub current_view : String
  pub version : ℕ
  pub status : String
  pub reserves : List String
  pub recording : List String
  pub recorded : List String
  pub schedule : List String
  pub broadcasting : Option (List String)
  pub is_loaded : String → Bool
  pub requests : List Load
  pub has_error : Bool
  pub calls : List Call

-- A failed request for what is broadcast keeps the value of the state; any other fails the load.
unfoldable pub request_program_data_path :
    Option (List String) → String → Option Value → Option Answer
request_program_data_path broadcasting path (some v) =
    some (record { path = path; value = v; is_loaded = true })
request_program_data_path broadcasting path none =
    if path == "schedule/broadcasting"
    then some (record {
      path = path;
      value = record { text = ""; items = broadcasting };
      is_loaded = false;
    })
    else none

unfoldable pub request_program_data :
    (String → Option Value) → Option (List String) → List String → Option (List Answer)
unfolding request_program_data_path
request_program_data replies broadcasting [] = some []
request_program_data replies broadcasting (path ∷ paths) =
    let rest = request_program_data replies broadcasting paths in
    request_program_data_path broadcasting path (replies path) >>= λ answer.
    rest >>= λ answers. some (answer ∷ answers)

abbrev pub store : String → Value → Data → Data
store path v d =
    if path == "status"
    then (record d { status = v.text })
    else (if path == "reserves"
        then (record d { reserves = list_of v.items })
        else (if path == "recording"
            then (record d { recording = list_of v.items })
            else (if path == "recorded" || path == "recorded/recent"
                then (record d { recorded = list_of v.items })
                else (if path == "schedule"
                    then (record d { schedule = list_of v.items })
                    else (if path == "schedule/broadcasting"
                        then (record d { broadcasting = list_or v.items d.broadcasting })
                        else d)))))

-- The own properties of `state.programDataLoaded`.
abbrev pub tracked : List String
tracked = "recorded" ∷ "recorded/recent" ∷ "schedule" ∷ "schedule/broadcasting" ∷ []

abbrev pub mark : Answer → Data → Data
mark a d =
    if member a.path tracked
    then (record d { is_loaded = λ path. if path == a.path then a.is_loaded else d.is_loaded path })
    else d

unfoldable pub apply_program_data : List Answer → Data → Data
apply_program_data [] d = d
apply_program_data (a ∷ answers) d = apply_program_data answers (mark a (store a.path a.value d))

abbrev pub wanted : Bool → Data → String → Bool
wanted force d path = force || not (d.is_loaded path)

abbrev pub request_of : String → List Load → Option Load
request_of view loads = find? (λ l. l.view == view) loads

abbrev pub begin_load : String → List String → Option Load → Data → Data
begin_load view [] load d = d
begin_load view (path ∷ paths) (some load) d = d
begin_load view (path ∷ paths) none d = record d {
  requests = d.requests ++ (record { view = view; version = d.version; paths = path ∷ paths }) ∷ [];
  calls = d.calls ++ set_busy ∷ [];
}

unfoldable pub load_program_data_for_view : String → Bool → Data → Data
load_program_data_for_view view force d =
    begin_load view (filter (wanted force d) (program_data_paths_for_view view))
      (request_of view d.requests) d

-- The handlers behind the replies, or behind the failure of one.
abbrev pub settle_load : Load → Option (List Answer) → Data → Data
settle_load load none d = record d { has_error = true; calls = d.calls ++ show_error ∷ [] }
settle_load load (some answers) d =
    if eqb load.version d.version
    then (let d' = record (apply_program_data answers d) { has_error = false } in
        if d'.current_view == load.view
        then (record d' { calls = d'.calls ++ render ∷ [] })
        else d')
    else d

abbrev pub clear : String → Data → Data
clear view d = record d { requests = filter (λ l. not (l.view == view)) d.requests }

abbrev pub answer_load : (String → Option Value) → Option Load → Data → Data
answer_load replies none d = d
answer_load replies (some load) d =
    clear load.view (settle_load load (request_program_data replies d.broadcasting load.paths) d)

unfoldable pub on_replies : String → (String → Option Value) → Data → Data
on_replies view replies d = answer_load replies (request_of view d.requests) d
