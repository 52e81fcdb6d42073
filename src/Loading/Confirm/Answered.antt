-- ===== src/Loading/Confirm/Answered.antt =====
-- Which answers the questions before an action get.
use mathlib.Core.List.{append-nil}
use strata_pvr.Base.{
  ℕ, zero, suc, ◌<◌, String, Bool, true, false, Option, none, some, List, [], ◌∷◌, ◌++◌, map, All,
  All-append, any, ◌≡◌, ◌≢◌, ◌⊎◌, inl, inr, refl, sym, ap, ◌∙◌, arith,
}
use strata_pvr.Loading.Confirm.{
  Confirm, Options, Event, asked, agreed, refused, closed, answer, close_confirm_dialog,
  closed_if_pending, confirm_action, fires, step, run, initial,
}

-- The numbers below `n`, in order.
abbrev pub below : ℕ → List ℕ
below zero = []
below (suc n) = below n ++ n ∷ []

abbrev pub waiting : Option ℕ → List ℕ
waiting none = []
waiting (some i) = i ∷ []

-- The promises that were resolved, and then the one that is not, are all that were made.
abbrev IsOrdered : Confirm → Type 0
IsOrdered s = map (λ a. a.0) s.answers ++ waiting s.pending ≡ below s.made

map-concat :
    (answers : List (ℕ × Bool)) (i : ℕ) (b : Bool)
    → map (λ a. a.0) (answers ++ (i, b) ∷ []) ≡ map (λ a. a.0) answers ++ i ∷ []
map-concat [] i b = refl
map-concat (x ∷ answers) i b = ap (x.0 ∷◌) (map-concat answers i b)

answer-IsOrdered :
    (b : Bool) (pending : Option ℕ) (s : Confirm)
    → IsOrdered (record s { pending = pending })
    → IsOrdered (answer b pending (record s { pending = pending }))
answer-IsOrdered b none s h = h
answer-IsOrdered b (some i) s h =
    append-nil (map (λ a. a.0) (s.answers ++ (i, b) ∷ [])) ∙ map-concat s.answers i b ∙ h

asked-IsOrdered :
    (pending : Option ℕ) (s : Confirm)
    → IsOrdered (record s { pending = pending })
    → map (λ a. a.0) (closed_if_pending pending s).answers
        ++ (closed_if_pending pending s).made ∷ []
      ≡ below (suc (closed_if_pending pending s).made)
asked-IsOrdered none s h =
    ap (λ ids. ids ++ s.made ∷ []) (sym (append-nil (map (λ a. a.0) s.answers)) ∙ h)
asked-IsOrdered (some i) s h = ap (λ ids. ids ++ s.made ∷ []) (map-concat s.answers i false ∙ h)

fires-IsOrdered : (n : ℕ) (s : Confirm) → IsOrdered s → IsOrdered (fires n s)
fires-IsOrdered zero s h = h
fires-IsOrdered (suc n) s h = answer-IsOrdered false s.pending (record s { close_events = n }) h

step-IsOrdered : (e : Event) (s : Confirm) → IsOrdered s → IsOrdered (step e s)
unfolding step close_confirm_dialog confirm_action
step-IsOrdered (asked message options active) s h = asked-IsOrdered s.pending s h
step-IsOrdered agreed s h = answer-IsOrdered true s.pending s h
step-IsOrdered refused s h = answer-IsOrdered false s.pending s h
step-IsOrdered closed s h = fires-IsOrdered s.close_events s h

run-IsOrdered : (events : List Event) (s : Confirm) → IsOrdered s → IsOrdered (run events s)
unfolding run
run-IsOrdered [] s h = h
run-IsOrdered (e ∷ events) s h = run-IsOrdered events (step e s) (step-IsOrdered e s h)

-- Whatever happens to the dialog, the questions are answered in the order in which they were asked,
-- each at most once, and at most the last one is still without an answer.
pub run-answers :
    (events : List Event)
    → map (λ a. a.0) (run events initial).answers ++ waiting (run events initial).pending
      ≡ below (run events initial).made
unfolding initial
run-answers events = run-IsOrdered events initial refl

-- An answer that comes only if it was given.
abbrev IsRefused : ℕ × Bool → Type 0
IsRefused a = a.1 ≡ false

abbrev pub is_agreed : Event → Bool
is_agreed (asked message options active) = false
is_agreed agreed = true
is_agreed refused = false
is_agreed closed = false

answer-All :
    (pending : Option ℕ) (s : Confirm)
    → All IsRefused s.answers
    → All IsRefused (answer false pending s).answers
answer-All none s h = h
answer-All (some i) s h = All-append IsRefused s.answers ((i, false) ∷ []) h (refl, tt)

closed_if_pending-All :
    (pending : Option ℕ) (s : Confirm)
    → All IsRefused s.answers
    → All IsRefused (closed_if_pending pending s).answers
closed_if_pending-All none s h = h
closed_if_pending-All (some i) s h = answer-All (some i) s h

fires-All : (n : ℕ) (s : Confirm) → All IsRefused s.answers → All IsRefused (fires n s).answers
fires-All zero s h = h
fires-All (suc n) s h = answer-All s.pending (record s { close_events = n }) h

step-All :
    (e : Event) (s : Confirm)
    → is_agreed e ≡ false
    → All IsRefused s.answers
    → All IsRefused (step e s).answers
unfolding step close_confirm_dialog confirm_action
step-All (asked message options active) s n h = closed_if_pending-All s.pending s h
step-All agreed s n h = cc
step-All refused s n h = answer-All s.pending s h
step-All closed s n h = fires-All s.close_events s h

run-All_from :
    (events : List Event) (s : Confirm)
    → any is_agreed events ≡ false
    → All IsRefused s.answers
    → All IsRefused (run events s).answers
unfolding run
run-All_from [] s n h = h
run-All_from (e ∷ events) s n h =
    run-All_from events (step e s) (ground arith) (step-All e s (ground arith) h)

-- No question is agreed to unless the button that agrees is pressed.
pub run-refused :
    (events : List Event)
    → any is_agreed events ≡ false
    → All (λ a. a.1 ≡ false) (run events initial).answers
unfolding initial
run-refused events n = run-All_from events initial n tt

still_to_close :
    (pending : Option ℕ) (s : Confirm)
    → (0 < s.close_events) ⊎ ((pending ≢ none) × (s.is_open ≡ true))
    → 0 < (closed_if_pending pending s).close_events
still_to_close none s (inl h) = h
still_to_close none s (inr (p, _)) = absurd (p refl)
still_to_close (some i) s (inl h) = ground (arith, h)
still_to_close (some i) s (inr (_, o)) = ground (arith, o)

made-kept : (pending : Option ℕ) (s : Confirm) → (closed_if_pending pending s).made ≡ s.made
made-kept none s = refl
made-kept (some i) s = refl

fires-some :
    (n i : ℕ) (s : Confirm)
    → 0 < n
    → s.pending ≡ some i
    → ((fires n s).pending ≡ none)
      × ((fires n s).is_open ≡ s.is_open)
      × ((fires n s).return_focus ≡ none)
      × ((fires n s).answers ≡ s.answers ++ (i, false) ∷ [])
fires-some zero i s h e = absurd (omega (arith, h))
fires-some (suc n) i s h e = rw e (refl, refl, refl, refl)

-- A question that is asked while an event "close" is still to come, because the dialog was closed
-- just before or because the question replaces another one, is refused by that event, while the
-- dialog stays open without a question.
pub asked-closed :
    (message : String) (options : Options) (active : Option ℕ) (s : Confirm)
    → (0 < s.close_events) ⊎ ((s.pending ≢ none) × (s.is_open ≡ true))
    → let s' = step closed (step (asked message options active) s) in
      (s'.pending ≡ none)
      × (s'.is_open ≡ true)
      × (s'.return_focus ≡ none)
      × (s'.answers ≡ (step (asked message options active) s).answers ++ (s.made, false) ∷ [])
unfolding step confirm_action
asked-closed message options active s h =
    fires-some (closed_if_pending s.pending s).close_events s.made
      (confirm_action message options active s) (still_to_close s.pending s h)
      (ap some (made-kept s.pending s))
