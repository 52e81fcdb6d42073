-- ===== src/Program/State.antt =====
-- The state of a programme (web/app.js: `programByID`, `isRecordedProgram`, `recordedProgramFor`,
-- `activeRecordingPrograms`, `reserveConflictCount`, `decorateProgramState`, `programDialogActions`,
-- `programStateLabels`, `programStateLabelText`). An index by id holds the ids that were set; no id
-- of a programme is a name that every object inherits. The properties `_reserveState` and
-- `_recordingState`, which nothing reads, are left out of a decorated programme.
pub mod Decorate
use strata_pvr.Base.{
  ℕ, String, Bool, true, false, not, ◌&&◌, ◌||◌, Option, none, some, List, [], ◌∷◌, ◌==◌, ◌or◌,
  truthy, filter, any, find?, length, join, map, if◌then◌else◌,
}
use strata_pvr.Program.{Program}

abbrev Index : Type 0
Index = List (String × Program)

unfoldable pub get : String → Index → Option Program
get k [] = none
get k ((j, p) ∷ index) = if j == k then some p else get k index

unfoldable pub set : String → Program → Index → Index
set k p [] = (k, p) ∷ []
set k p ((j, q) ∷ index) = if j == k then (j, p) ∷ index else (j, q) ∷ set k p index

program_by_id_from : Index → List Program → Index
program_by_id_from index [] = index
program_by_id_from index (p ∷ items) =
    program_by_id_from (if truthy p.id then set p.id p index else index) items

pub program_by_id : List Program → Index
unfolding program_by_id_from
program_by_id items = program_by_id_from [] items

-- The part of `state` that the functions read; the index is made from the lists by `refresh`.
pub record Lists : Type 0 where
  pub reserves : List Program
  pub recording : List Program
  pub recorded : List Program
  pub reserve_index : Index
  pub recording_index : Index

unfoldable pub is_recorded_program : Lists → Program → Bool
is_recorded_program state p = truthy p.id && any (λ r. r.id == p.id) state.recorded

unfoldable recorded_program_for : Lists → Program → Option Program
recorded_program_for state p =
    if truthy p.id then find? (λ r. r.id == p.id) state.recorded else none

unfoldable active_recording_programs : Lists → List Program
active_recording_programs state = filter (λ p. not p.abort) state.recording

unfoldable reserve_conflict_count : Lists → ℕ
reserve_conflict_count state = length (filter (λ p. p.is_conflict) state.reserves)

-- The first `if` that writes to the copy.
abbrev with_reserve : Option Program → Bool → Program → Program
with_reserve none is_recorded d = d
with_reserve (some reserve) is_recorded d = if is_recorded then d else (record d {
  is_reserved = true;
  is_manual_reserved = reserve.is_manual_reserved;
  is_skip = reserve.is_skip;
  is_conflict = reserve.is_conflict;
})

-- The two that follow it.
abbrev with_active : Option Program → Program → Program
with_active none d = d
with_active (some active) d = if active.abort then (record d { abort = true }) else (record d {
  abort = false;
  is_recording = true;
  is_manual_reserved = active.is_manual_reserved || d.is_manual_reserved;
  pid = active.pid;
  recorded = active.recorded or d.recorded;
})

pub decorate_program_state : Lists → Program → Program
unfolding get
decorate_program_state state p =
    if truthy p.id
    then with_active (get p.id state.recording_index)
        (with_reserve (get p.id state.reserve_index) (is_recorded_program state p) p)
    else p

unfoldable pub program_dialog_actions : Lists → Program → List String
program_dialog_actions state p =
    if is_recorded_program state p
    then "watch-mp4" ∷ "download" ∷ "xspf" ∷ "delete-recorded" ∷ "create-rule-from-program" ∷ []
    else "reserve" ∷ "unreserve" ∷ "skip" ∷ "unskip" ∷ "watch-recording-mp4" ∷ "preview-recording"
      ∷ "stop" ∷ "watch-channel-mp4" ∷ "create-rule-from-program" ∷ []

pub record Label : Type 0 where
  pub text : String
  pub type : String

abbrev label : String → String → Label
label text type = record { text = text; type = type }

abbrev label_if : Bool → String → String → List Label → List Label
label_if b text type rest = if b then label text type ∷ rest else rest

unfoldable pub program_state_labels : Program → List Label
program_state_labels p =
    let aborted = label_if (p.abort_reason == "user") "途中終了" "aborted" [] in
    let skipped = label_if p.is_skip "スキップ" "skip" aborted in
    let others = label_if p.is_conflict "競合" "conflict" skipped in
    if p.is_recording
    then label "録画中" "recording" ∷ others
    else (if p.is_reserved
        then (if p.is_manual_reserved
            then label "手動予約" "manual-reserved" ∷ others
            else label "自動予約" "auto-reserved" ∷ others)
        else others)

unfoldable program_state_label_text : Program → String
unfolding program_state_labels
program_state_label_text p = join " / " (map (λ l. l.text) (program_state_labels p))
