-- ===== src/Loading/Operational/Laws.antt =====
-- What the periodic refreshes change (web/app.js: `refreshOperationalData`).
use mathlib.Core.Path.{subst}
use strata_pvr.Base.{
  ℕ, String, Bool, true, false, not, ◌||◌, Option, none, some, List, [], ◌∷◌, ◌==◌, eqb, eq_iff,
  ◌≡◌, refl, sym, ap, ◌∙◌, inl, inr, Bool-cases, true-ne-false,
}
use strata_pvr.Loading.ProgramData.{Value, Answer, request_program_data}
use strata_pvr.Loading.Operational.{
  Round, Window, Event, StorageReply, asked, asked_metrics, refreshed, replied, replied_metrics,
  viewed, turned, operational_refresh_required, begin_round, begin_metrics,
  refresh_operational_data, refresh_metrics, settle_round, answer_round, on_round, answer_metrics,
  on_metrics, step, run,
}

abbrev pub Asks : Option Round → Type 0
Asks none = Unit
Asks (some round) = round.wants_storage ≡ false

-- What is known of the storage, and a round that does not ask for more.
abbrev pub IsUntouched : Option String → Bool → Option String → Window → Type 0
IsUntouched storage is_loaded error s =
    Asks s.in_flight
    × (s.storage ≡ storage)
    × (s.is_storage_loaded ≡ is_loaded)
    × (s.storage_error ≡ error)

required-ne-status :
    (view : String) → operational_refresh_required view ≡ true → (view == "status") ≡ false
required-ne-status view h = elim (Bool-cases (view == "status")) [
  | inl e ↦
      absurd (true-ne-false (sym h ∙ ap operational_refresh_required ((eq_iff view "status").0 e)))
  | inr e ↦ e
]

module _ (storage : Option String) (is_loaded : Bool) (error : Option String) where
  abbrev Holds : Window → Type 0
  Holds s = IsUntouched storage is_loaded error s

  begin_round-Holds :
      (o : Option Round) (s : Window)
      → s.in_flight ≡ o
      → operational_refresh_required s.lists.current_view ≡ true
      → Holds s
      → Holds (begin_round o s)
  begin_round-Holds (some round) s e r h = h
  begin_round-Holds none s e r h = (required-ne-status s.lists.current_view r, h.1, h.2, h.3)

  refresh-Holds : (s : Window) → Holds s → Holds (refresh_operational_data s)
  unfolding refresh_operational_data
  refresh-Holds s h = elim (Bool-cases (operational_refresh_required s.lists.current_view)) [
    | inr e ↦ rw e h
    | inl e ↦ elim (Bool-cases (s.is_hidden || s.is_loading)) [
      | inl skips ↦ rw (e, skips) h
      | inr runs ↦ rw (e, runs) (begin_round-Holds s.in_flight s refl e h)
    ]
  ]

  settle_round-kept :
      (round : Round) (o : Option (List Answer)) (reply : StorageReply) (s : Window)
      → round.wants_storage ≡ false
      → Holds s
      → Holds (record (settle_round round o reply s) { in_flight = none })
  settle_round-kept round none reply s e h = (tt, h.1, h.2, h.3)
  settle_round-kept round (some answers) reply s e h =
      elim (Bool-cases (eqb round.version s.lists.version)) [
        | inl current ↦ rw (current, e) (tt, h.1, h.2, h.3)
        | inr old ↦ rw old (tt, h.1, h.2, h.3)
      ]

  answer_round-Holds :
      (replies : String → Option Value) (reply : StorageReply) (o : Option Round) (s : Window)
      → Asks o
      → Holds s
      → Holds (answer_round replies reply o s)
  answer_round-Holds replies reply none s a h = h
  answer_round-Holds replies reply (some round) s a h =
      settle_round-kept round (request_program_data replies s.lists.broadcasting round.paths) reply
        s a h

  begin_metrics-Holds : (o : Option ℕ) (s : Window) → Holds s → Holds (begin_metrics o s)
  begin_metrics-Holds (some version) s h = h
  begin_metrics-Holds none s h = h

  refresh_metrics-Holds : (s : Window) → Holds s → Holds (refresh_metrics s)
  unfolding refresh_metrics
  refresh_metrics-Holds s h =
      elim (Bool-cases (s.is_hidden || not (s.lists.current_view == "status") || s.is_loading)) [
        | inl skips ↦ rw skips h
        | inr runs ↦ rw runs (begin_metrics-Holds s.metrics_version s h)
      ]

  answer_metrics-Holds :
      (reply : Option (Option String)) (o : Option ℕ) (s : Window)
      → Holds s
      → Holds (answer_metrics reply o s)
  answer_metrics-Holds reply none s h = h
  answer_metrics-Holds none (some version) s h = h
  answer_metrics-Holds (some metrics) (some version) s h =
      elim (Bool-cases (eqb version s.lists.version)) [
        | inl current ↦ rw current h
        | inr old ↦ rw old h
      ]

  step-Holds : (e : Event) (s : Window) → Holds s → Holds (step e s)
  unfolding step on_round on_metrics
  step-Holds asked s h = refresh-Holds s h
  step-Holds asked_metrics s h = refresh_metrics-Holds s h
  step-Holds refreshed s h = h
  step-Holds (replied replies reply) s h = answer_round-Holds replies reply s.in_flight s h.0 h
  step-Holds (replied_metrics reply) s h = answer_metrics-Holds reply s.metrics_version s h
  step-Holds (viewed view) s h = h
  step-Holds (turned is_hidden is_loading) s h = h

  run-Holds : (events : List Event) (s : Window) → Holds s → Holds (run events s)
  unfolding run
  run-Holds [] s h = h
  run-Holds (e ∷ events) s h = run-Holds events (step e s) (step-Holds e s h)

-- The periodic refreshes never ask for the storage: where none is in flight, after any events of the
-- two periodic refreshes, whatever view is shown and whatever the replies say, no refresh in flight
-- waits for the storage, and its value, its mark and its error are as they were.
pub run-IsUntouched :
    (events : List Event) (s : Window)
    → s.in_flight ≡ none
    → IsUntouched s.storage s.is_storage_loaded s.storage_error (run events s)
run-IsUntouched events s e =
    run-Holds s.storage s.is_storage_loaded s.storage_error events s
      (subst Asks (sym e) tt, refl, refl, refl)
