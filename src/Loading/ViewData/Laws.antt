-- ===== src/Loading/ViewData/Laws.antt =====
-- What becomes of the data of the views (web/app.js: `loadViewData`).
use mathlib.Core.Path.{subst}
use strata_pvr.Base.{
  String, Bool, true, false, none, some, List, [], ◌∷◌, ◌==◌, ◌≡◌, ◌⊎◌, refl, sym, ap, ◌∙◌, inl,
  inr, Bool-cases, if◌then◌else◌,
}
use strata_pvr.Loading.ViewData.{
  Call, render, show_error, name_of, Section, rules, settings, status, Stage, for_data, for_tokens,
  Slot, Views, Value, Configuration, slot, put, draw, call, finish, failed_with, load_section,
  load_view_data, on_config, on_data, on_reply, Reply, answered, failed, loaded, replied, step, run,
}

-- A view that was loaded: it is ready without an error, or has an error and is not ready.
abbrev pub IsLoaded : Slot → Type 0
IsLoaded v =
    (v.request ≡ none)
    × (((v.is_ready ≡ true) × (v.error ≡ none))
        ⊎ ((v.is_ready ≡ false) × ((message : String) × (v.error ≡ some message))))

-- A view with a request, which is neither ready nor in error.
abbrev Waits : Stage → Slot → Type 0
Waits stage v = (v.is_ready ≡ false) × (v.request ≡ some stage) × (v.error ≡ none)

slot-put : (p : Section) (v : Slot) (s : Views) → slot p (put p v s) ≡ v
slot-put rules v s = refl
slot-put settings v s = refl
slot-put status v s = refl

slot-call : (p : Section) (cs : List Call) (s : Views) → slot p (call cs s) ≡ slot p s
slot-call rules cs s = refl
slot-call settings cs s = refl
slot-call status cs s = refl

slot-if :
    (p : Section) (b : Bool) (cs : List Call) (s : Views)
    → slot p (if b then call cs s else s) ≡ slot p s
slot-if p true cs s = slot-call p cs s
slot-if p false cs s = refl

slot-draw : (p : Section) (s : Views) → slot p (draw p s) ≡ slot p s
slot-draw p s = slot-if p (s.current_view == name_of p) (render p ∷ []) s

finish-IsLoaded :
    (p : Section) (s : Views) → (slot p s).error ≡ none → IsLoaded (slot p (finish p s))
finish-IsLoaded p s h =
    let v : Slot = record (slot p s) { is_ready = true; request = none } in
    subst IsLoaded (sym (slot-draw p (put p v s) ∙ slot-put p v s)) (refl, inl (refl, h))

failed_with-IsLoaded :
    (p : Section) (message : String) (stage : Stage) (s : Views)
    → (slot p s).is_ready ≡ false
    → IsLoaded (slot p (failed_with p message (some stage) s))
failed_with-IsLoaded p message stage s h =
    let v : Slot = record (slot p s) { request = none; error = some message } in
    subst IsLoaded
      (sym (
        slot-call p (show_error message ∷ []) (draw p (put p v s))
        ∙ slot-draw p (put p v s)
        ∙ slot-put p v s))
      (refl, inr (h, (message, refl)))

-- The slot takes no other value of the state in.
slot-tokens :
    (p : Section) (tokens : List String) (s : Views)
    → slot p (record s { api_tokens = tokens }) ≡ slot p s
slot-tokens rules tokens s = refl
slot-tokens settings tokens s = refl
slot-tokens status tokens s = refl

tokens-IsLoaded :
    (p : Section) (a : Reply) (s : Views)
    → Waits for_tokens (slot p s)
    → IsLoaded (slot p (on_reply p a s))
unfolding on_reply
tokens-IsLoaded p (answered v) s (ready, request, error) = rw request (
    finish-IsLoaded p (record s { api_tokens = v.tokens })
      (ap (λ v. v.error) (slot-tokens p v.tokens s) ∙ error))
tokens-IsLoaded p (failed message) s (ready, request, error) =
    rw request (failed_with-IsLoaded p message for_tokens s ready)

-- The configuration may lead to a second request.
on_config-Goes :
    (c : Configuration) (b : Bool) (s : Views)
    → Waits for_data s.of_settings
    → IsLoaded (on_config c b s).of_settings ⊎ Waits for_tokens (on_config c b s).of_settings
on_config-Goes c true s (ready, request, error) = inr (ready, refl, error)
on_config-Goes c false s (ready, request, error) =
    inl (finish-IsLoaded settings (record s { config = c; api_tokens = [] }) error)

on_data-Goes :
    (p : Section) (v : Value) (s : Views)
    → Waits for_data (slot p s)
    → IsLoaded (slot p (on_data p v s)) ⊎ Waits for_tokens (slot p (on_data p v s))
unfolding on_data
on_data-Goes rules v s (ready, request, error) =
    inl (finish-IsLoaded rules (record s { rule_texts = v.rule_texts; api_tokens = [] }) error)
on_data-Goes settings v s w = on_config-Goes v.config v.config.has_authentication s w
on_data-Goes status v s (ready, request, error) =
    inl (finish-IsLoaded status (record s { storage = v.storage; api_tokens = [] }) error)

data-Goes :
    (p : Section) (a : Reply) (s : Views)
    → Waits for_data (slot p s)
    → IsLoaded (slot p (on_reply p a s)) ⊎ Waits for_tokens (slot p (on_reply p a s))
unfolding on_reply
data-Goes p (answered v) s (ready, request, error) =
    rw request (on_data-Goes p v s (ready, request, error))
data-Goes p (failed message) s (ready, request, error) =
    rw request (inl (failed_with-IsLoaded p message for_data s ready))

-- A reply that nobody waits for changes nothing.
on_reply-quiet :
    (p : Section) (a : Reply) (s : Views) → (slot p s).request ≡ none → on_reply p a s ≡ s
unfolding on_reply
on_reply-quiet p (answered v) s h = rw h refl
on_reply-quiet p (failed message) s h = rw h refl

twice-IsLoaded :
    (p : Section) (a b : Reply) (s : Views)
    → Waits for_data (slot p s)
    → IsLoaded (slot p (on_reply p b (on_reply p a s)))
twice-IsLoaded p a b s w = elim (data-Goes p a s w) [
  | inl h ↦ rw (on_reply-quiet p b (on_reply p a s) (h.0)) h
  | inr h ↦ tokens-IsLoaded p b (on_reply p a s) h
]

load-Waits :
    (p : Section) (s : Views)
    → (slot p s).request ≡ none
    → Waits for_data (slot p (load_view_data (name_of p) true s))
unfolding load_view_data load_section
load-Waits rules s h = rw h (refl, refl, refl)
load-Waits settings s h = rw h (refl, refl, refl)
load-Waits status s h = rw h (refl, refl, refl)

-- Data that is asked for, where no request for it is there, is loaded after two replies at most,
-- whatever they are: the view is ready and has no error, or it is not ready and has the error, and no
-- request is left behind.
pub load_view_data-IsLoaded :
    (p : Section) (a b : Reply) (s : Views)
    → (slot p s).request ≡ none
    → IsLoaded (slot p (run (loaded (name_of p) true ∷ replied p a ∷ replied p b ∷ []) s))
unfolding run step
load_view_data-IsLoaded p a b s h =
    twice-IsLoaded p a b (load_view_data (name_of p) true s) (load-Waits p s h)

-- The tokens of the settings are lost: if the status is asked for and answered, where no request for it
-- is there, and the settings were ready, then a load of the settings that is not forced sends no
-- request, and the tokens are empty, whatever they were before.
pub load_view_data-tokens :
    (v : Value) (s : Views)
    → s.of_status.request ≡ none
    → s.of_settings.is_ready ≡ true
    → let s' =
        run (loaded "status" true ∷ replied status (answered v) ∷ loaded "settings" false ∷ []) s in
      (s'.api_tokens ≡ []) × (slot settings s' ≡ slot settings s) × (s'.config ≡ s.config)
unfolding run step load_view_data load_section on_reply on_data
load_view_data-tokens v s h k = elim (Bool-cases (s.current_view == "status")) [
  | inl e ↦ rw (h, e, k) (refl, refl, refl)
  | inr e ↦ rw (h, e, k) (refl, refl, refl)
]
