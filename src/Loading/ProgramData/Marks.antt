-- ===== src/Loading/ProgramData/Marks.antt =====
-- Which paths count as loaded behind the replies of a load (web/app.js: `applyProgramData`).
use strata_pvr.Base.{
  String, Bool, true, false, not, ◌||◌, Option, none, some, List, [], ◌∷◌, ◌++◌, ◌==◌, filter, map,
  member, All, eq_refl, ◌≡◌, refl, ap, ◌∙◌, inl, inr, Bool-cases, if◌then◌else◌,
}
use strata_pvr.Loading.Refresh.{program_data_paths_for_view}
use strata_pvr.Loading.ProgramData.{
  Value, Answer, Load, Data, request_program_data_path, request_program_data, store, tracked, mark,
  apply_program_data, wanted, request_of,
}

pub if-kept {ℓ κ} :
    {A : Type ℓ} {B : Type κ} (f : A → B) (k : B) (b : Bool) (x y : A)
    → f x ≡ k
    → f y ≡ k
    → f (if b then x else y) ≡ k
if-kept f k true x y h e = h
if-kept f k false x y h e = e

-- What a reply stores is no mark of what was loaded.
pub is_loaded-store :
    (path : String) (v : Value) (d : Data) → (store path v d).is_loaded ≡ d.is_loaded
is_loaded-store path v d =
    let f : Data → (String → Bool) = λ d. d.is_loaded in
    let k = d.is_loaded in
    if-kept f k (path == "status") _ _ refl (
      if-kept f k (path == "reserves") _ _ refl (
        if-kept f k (path == "recording") _ _ refl (
          if-kept f k (path == "recorded" || path == "recorded/recent") _ _ refl (
            if-kept f k (path == "schedule") _ _ refl
              (if-kept f k (path == "schedule/broadcasting") _ _ refl refl)))))

pub mark-kept :
    (a : Answer) (d : Data) (path : String)
    → a.is_loaded ≡ true
    → d.is_loaded path ≡ true
    → (mark a d).is_loaded path ≡ true
mark-kept a d path h k =
    if-kept (λ (d : Data). d.is_loaded path) true (member a.path tracked) _ _
      (if-kept (λ (b : Bool). b) true (path == a.path) a.is_loaded (d.is_loaded path) h k) k

abbrev pub AreLoaded : List Answer → Type 0
AreLoaded answers = All (λ (a : Answer). a.is_loaded ≡ true) answers

pub apply-kept :
    (answers : List Answer) (d : Data) (path : String)
    → AreLoaded answers
    → d.is_loaded path ≡ true
    → (apply_program_data answers d).is_loaded path ≡ true
unfolding apply_program_data
apply-kept [] d path h k = k
apply-kept (a ∷ answers) d path h k =
    apply-kept answers (mark a (store a.path a.value d)) path h.1 (
      mark-kept a (store a.path a.value d) path h.0
        (ap (λ f. f path) (is_loaded-store a.path a.value d) ∙ k))

pub mark-own :
    (a : Answer) (d : Data)
    → a.is_loaded ≡ true
    → member a.path tracked ≡ true
    → (mark a d).is_loaded a.path ≡ true
mark-own a d h m = rw m (rw (eq_refl a.path) h)

abbrev pub AreTracked : List String → Type 0
AreTracked paths = All (λ (path : String). member path tracked ≡ true) paths

-- After the replies every path of theirs counts as loaded.
pub apply-own :
    (answers : List Answer) (d : Data)
    → AreLoaded answers
    → AreTracked (map (λ (a : Answer). a.path) answers)
    → All
        (λ (path : String). (apply_program_data answers d).is_loaded path ≡ true)
        (map (λ (a : Answer). a.path) answers)
unfolding apply_program_data
apply-own [] d h t = tt
apply-own (a ∷ answers) d h t =
    let d' = mark a (store a.path a.value d) in
    (
      apply-kept answers d' a.path h.1 (mark-own a (store a.path a.value d) h.0 t.0),
      apply-own answers d' h.1 t.1,
    )

abbrev pub AreAnswered : (String → Option Value) → List String → Type 0
AreAnswered replies paths = All (λ (path : String). (v : Value) × (replies path ≡ some v)) paths

pub request-AreLoaded :
    (replies : String → Option Value) (broadcasting : Option (List String)) (paths : List String)
    → AreAnswered replies paths
    → (answers : List Answer) × (request_program_data replies broadcasting paths ≡ some answers)
      × (map (λ (a : Answer). a.path) answers ≡ paths)
      × AreLoaded answers
unfolding request_program_data request_program_data_path
request-AreLoaded replies broadcasting [] h = ([], refl, refl, tt)
request-AreLoaded replies broadcasting (path ∷ paths) ((v, e), h) =
    let (answers, made, own, loaded) = request-AreLoaded replies broadcasting paths h in
    let answer : Answer = record { path = path; value = v; is_loaded = true } in
    (answer ∷ answers, rw (e, made) refl, ap (path ∷◌) own, (refl, loaded))

pub if-AreTracked :
    (b : Bool) (x y : List String) → AreTracked x → AreTracked y → AreTracked (if b then x else y)
if-AreTracked true x y h k = h
if-AreTracked false x y h k = k

pub paths-AreTracked : (view : String) → AreTracked (program_data_paths_for_view view)
unfolding program_data_paths_for_view
paths-AreTracked view =
    if-AreTracked (view == "dashboard") _ _ (refl, (refl, tt))
      (if-AreTracked (view == "schedule") _ _ (refl, (refl, tt))
        (if-AreTracked (view == "recorded") _ _ (refl, tt) tt))

pub filter-forced : (d : Data) (paths : List String) → filter (wanted true d) paths ≡ paths
filter-forced d [] = refl
filter-forced d (path ∷ paths) = ap (path ∷◌) (filter-forced d paths)

pub find-last :
    (view : String) (loads : List Load) (l : Load)
    → l.view ≡ view
    → request_of view loads ≡ none
    → request_of view (loads ++ l ∷ []) ≡ some l
find-last view [] l e h = rw (e, eq_refl view) refl
find-last view (m ∷ loads) l e h = elim (Bool-cases (m.view == view)) [
  | inl same ↦ cc
  | inr other ↦ rw other (find-last view loads l e (rw other at h))
]

pub find-cleared :
    (view : String) (loads : List Load)
    → request_of view (filter (λ l. not (l.view == view)) loads) ≡ none
find-cleared view [] = refl
find-cleared view (m ∷ loads) = elim (Bool-cases (m.view == view)) [
  | inl same ↦ rw same (find-cleared view loads)
  | inr other ↦ rw (other, other) (find-cleared view loads)
]

-- The state behind the replies to a load of the version that is still current.
