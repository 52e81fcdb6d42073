-- ===== src/Program/State/Decorate.antt =====
-- What the index and the decoration of a programme say.
use strata_pvr.Base.{
  String, Bool, true, false, not, ◌&&◌, ◌||◌, Option, none, some, List, [], ◌∷◌, map, ◌==◌, eq_iff,
  truthy, is_distinct, member, ◌≡◌, ap, refl, ◌∙◌, if◌then◌else◌, arith,
}
use strata_pvr.Program.{Program}
use strata_pvr.Program.State.{
  Index, get, set, program_by_id_from, program_by_id, Lists, is_recorded_program, with_reserve,
  with_active, decorate_program_state, program_state_labels,
}

get-set :
    (k j : String) (p : Program) (index : Index)
    → get k (set j p index) ≡ (if j == k then some p else get k index)
unfolding get set
get-set k j p [] = refl
get-set k j p ((i, q) ∷ index) =
    ground (arith, eq_iff i j, eq_iff i k, eq_iff j k, get-set k j p index)

-- The last programme of a list with that id.
abbrev pub last_with : String → Option Program → List Program → Option Program
last_with k found [] = found
last_with k found (p ∷ items) = last_with k (if p.id == k then some p else found) items

get-add :
    (k : String) (index : Index) (p : Program)
    → truthy k ≡ true
    → get k (if truthy p.id then set p.id p index else index)
      ≡ (if p.id == k then some p else get k index)
get-add k index p h =
    ground (arith, get-set k p.id p index, eq_iff p.id k, eq_iff p.id "", eq_iff k "")

get-program_by_id_from :
    (k : String) (index : Index) (items : List Program)
    → truthy k ≡ true
    → get k (program_by_id_from index items) ≡ last_with k (get k index) items
unfolding program_by_id_from
get-program_by_id_from k index [] h = refl
get-program_by_id_from k index (p ∷ items) h =
    get-program_by_id_from k (if truthy p.id then set p.id p index else index) items h
    ∙ ap (λ found. last_with k found items) (get-add k index p h)

-- The index by id gives the last programme of the list that has the id, and nothing for an id that
-- no programme has. The id must not be empty.
pub get-program_by_id :
    (k : String) (items : List Program)
    → truthy k ≡ true
    → get k (program_by_id items) ≡ last_with k none items
unfolding program_by_id get
get-program_by_id k items h = get-program_by_id_from k [] items h

abbrev pub is_active : Option Program → Bool
is_active none = false
is_active (some p) = not p.abort

abbrev pub is_found : Option Program → Bool
is_found none = false
is_found (some p) = true

copy_flags :
    (active reserve : Option Program) (is_recorded : Bool) (p : Program)
    → ((with_active active (with_reserve reserve is_recorded p)).is_recording
        ≡ (is_active active || p.is_recording))
      × ((with_active active (with_reserve reserve is_recorded p)).is_reserved
          ≡ (is_found reserve && not is_recorded || p.is_reserved))
copy_flags none none b p = (refl, refl)
copy_flags none (some r) b p = ground arith
copy_flags (some a) none b p = ground arith
copy_flags (some a) (some r) b p = ground arith

-- A programme with an id is shown as recording exactly if it was before or the index of recordings
-- has it and it is not aborted there; and as reserved exactly if it was before or the index of
-- reserves has it and it is not recorded yet.
pub decorate_program_state_flags :
    (state : Lists) (p : Program)
    → truthy p.id ≡ true
    → ((decorate_program_state state p).is_recording
        ≡ (is_active (get p.id state.recording_index) || p.is_recording))
      × ((decorate_program_state state p).is_reserved ≡ (
          is_found (get p.id state.reserve_index) && not (is_recorded_program state p)
          || p.is_reserved))
unfolding decorate_program_state
decorate_program_state_flags state p named = rw named (
    copy_flags (get p.id state.recording_index) (get p.id state.reserve_index)
      (is_recorded_program state p) p)

-- The types of the labels of a programme.
abbrev pub types : Program → List String
types p = map (λ l. l.type) (program_state_labels p)

abbrev pub both : String → String → Program → Bool
both a b p = member a (types p) && member b (types p)

-- No type of label is shown twice, and of "recording", "manual-reserved" and "auto-reserved" never
-- two together.
pub program_state_labels-is_distinct :
    (p : Program)
    → (is_distinct (types p) ≡ true)
      × (both "recording" "manual-reserved" p ≡ false)
      × (both "recording" "auto-reserved" p ≡ false)
      × (both "manual-reserved" "auto-reserved" p ≡ false)
unfolding program_state_labels
program_state_labels-is_distinct p = ground arith
