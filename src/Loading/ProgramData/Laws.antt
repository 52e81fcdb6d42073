-- ===== src/Loading/ProgramData/Laws.antt =====
-- What becomes of the programme data of a view (web/app.js: `loadProgramDataForView`).
use mathlib.Core.Path.{subst}
use strata_pvr.Base.{
  String, Bool, true, Option, none, some, List, [], ◌∷◌, ◌==◌, eqb, All, ◌≡◌, refl, sym, ap, ◌∙◌,
  arith,
}
use strata_pvr.Loading.Refresh.{program_data_paths_for_view}
use strata_pvr.Loading.ProgramData.{
  Value, Answer, Load, Data, request_program_data, list_of, apply_program_data, request_of,
  begin_load, load_program_data_for_view, settle_load, answer_load, on_replies,
}
use strata_pvr.Loading.ProgramData.Marks.{
  if-kept, AreTracked, apply-own, AreAnswered, request-AreLoaded, paths-AreTracked, filter-forced,
  find-last, find-cleared,
}

is_loaded-settle :
    (load : Load) (answers : List Answer) (d : Data)
    → eqb load.version d.version ≡ true
    → (settle_load load (some answers) d).is_loaded ≡ (apply_program_data answers d).is_loaded
is_loaded-settle load answers d e =
    let f : Data → (String → Bool) = λ d. d.is_loaded in
    rw e (
      if-kept f (apply_program_data answers d).is_loaded
        ((apply_program_data answers d).current_view == load.view) _ _ refl refl)

-- Nothing of a view is missing, and no request for it is left.
abbrev pub IsStored : String → List String → Data → Type 0
IsStored view paths d =
    All (λ (path : String). d.is_loaded path ≡ true) paths × (request_of view d.requests ≡ none)

answered-IsStored :
    (replies : String → Option Value) (load : Load) (d : Data)
    → eqb load.version d.version ≡ true
    → AreTracked load.paths
    → AreAnswered replies load.paths
    → IsStored load.view load.paths (answer_load replies (some load) d)
answered-IsStored replies load d e t h =
    let (answers, made, own, loaded) = request-AreLoaded replies d.broadcasting load.paths h in
    let all_loaded =
      subst
        (λ paths.
          All (λ (path : String). (apply_program_data answers d).is_loaded path ≡ true) paths)
        own (apply-own answers d loaded (subst AreTracked (sym own) t)) in
    (
      subst (λ (f : String → Bool). All (λ (path : String). f path ≡ true) load.paths)
          (sym
            (ap (λ o. (settle_load load o d).is_loaded) made ∙ is_loaded-settle load answers d e))
          all_loaded,
      find-cleared load.view
          (settle_load load (request_program_data replies d.broadcasting load.paths) d).requests,
    )

begun-IsStored :
    (view : String) (replies : String → Option Value) (paths : List String) (d : Data)
    → request_of view d.requests ≡ none
    → AreTracked paths
    → AreAnswered replies paths
    → IsStored view paths (on_replies view replies (begin_load view paths none d))
unfolding on_replies
begun-IsStored view replies [] d h t a = (tt, rw (h, h) refl)
begun-IsStored view replies (path ∷ paths) d h t a =
    let load : Load = record { view = view; version = d.version; paths = path ∷ paths } in
    let d' = begin_load view (path ∷ paths) none d in
    subst (λ o. IsStored view (path ∷ paths) (answer_load replies o d'))
      (sym (find-last view d.requests load refl h))
      (answered-IsStored replies load d' (ground arith) t a)

-- Where no load of the view runs, a forced load whose requests are all answered, in the state that it
-- left, leaves all paths of the view marked as loaded, and no load of the view behind.
pub load_program_data_for_view-IsStored :
    (view : String) (replies : String → Option Value) (d : Data)
    → request_of view d.requests ≡ none
    → AreAnswered replies (program_data_paths_for_view view)
    → IsStored view
        (program_data_paths_for_view view)
        (on_replies view replies (load_program_data_for_view view true d))
unfolding load_program_data_for_view
load_program_data_for_view-IsStored view replies d h a =
    rw (filter-forced d (program_data_paths_for_view view), h)
      (begun-IsStored view replies (program_data_paths_for_view view) d h (paths-AreTracked view) a)

abbrev ShowsRecent : Value → Data → Type 0
ShowsRecent v d = (d.recorded ≡ list_of v.items) × (d.is_loaded "recorded" ≡ true)
