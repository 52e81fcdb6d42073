-- ===== src/Loading/Refresh/Served.antt =====
-- What becomes of a call of `refresh` (web/app.js).
use mathlib.Core.Path.{subst}
use strata_pvr.Base.{
  ℕ, suc, String, Bool, true, false, List, [], ◌∷◌, eqb, length, ◌≡◌, refl, Bool-cases,
  true-ne-false, sym, ◌∙◌, ◌⊎◌, inl, inr, if◌then◌else◌, arith,
}
use strata_pvr.Loading.Refresh.{
  Load, Refresh, Event, refreshed, answered, view_changed, start, refresh, on_reply, on_error,
  on_finally, answer, step, run, initial,
}

-- Exactly while the state says so, one load runs, and it is the last one that was started; another
-- refresh is queued only behind it.
abbrev pub IsSingle : Refresh → Type 0
IsSingle s =
    ((s.is_loading ≡ true) × (length s.loads ≡ 1) × (s.shows_loading ≡ true))
    ⊎ ((s.is_loading ≡ false) × (s.loads ≡ []) × (s.is_queued ≡ false) × (s.shows_loading ≡ false))

abbrev Settles : Bool → ℕ → Refresh → Type 0
Settles is_queued version s =
    IsSingle s
    × (s.version ≡ (if is_queued then suc version else version))
    × (s.is_loading ≡ is_queued)
    × (s.is_queued ≡ false)

finally-Settles :
    (load : Load) (b : Bool) (s : Refresh)
    → s.loads ≡ []
    → Settles b s.version (on_finally load (record s { is_queued = b }))
unfolding on_finally refresh
finally-Settles load true s h = (inl (refl, rw h refl, refl), refl, refl, refl)
finally-Settles load false s h = (inr (refl, h, refl, refl), refl, refl, refl)

-- What the handler of the replies leaves as it is.
on_reply-kept :
    (load : Load) (s : Refresh)
    → ((on_reply load s).loads ≡ s.loads)
      × ((on_reply load s).is_queued ≡ s.is_queued)
      × ((on_reply load s).version ≡ s.version)
unfolding on_reply
on_reply-kept load s = elim (Bool-cases (eqb load.version s.version)) [
  | inl e ↦ rw e (refl, refl, refl)
  | inr e ↦ rw e (refl, refl, refl)
]

answer-Settles :
    (is_ok : Bool) (loads : List Load) (s : Refresh)
    → length loads ≡ 1
    → Settles s.is_queued s.version (answer is_ok loads s)
unfolding on_error
answer-Settles is_ok [] s h = absurd (omega (arith, h))
answer-Settles false (load ∷ []) s h =
    finally-Settles load s.is_queued (on_error (record s { loads = [] })) refl
answer-Settles true (load ∷ []) s h =
    let t = on_reply load (record s { loads = [] }) in
    let (loads, queued, version) = on_reply-kept load (record s { loads = [] }) in
    subst (λ v. Settles s.is_queued v (on_finally load t)) version
      (subst (λ b. Settles b t.version (on_finally load t)) queued
        (finally-Settles load t.is_queued t loads))
answer-Settles is_ok (load ∷ more ∷ rest) s h = absurd (omega (arith, h))

refresh-IsSingle :
    (b : Bool) (s : Refresh)
    → IsSingle (record s { is_loading = b })
    → IsSingle (if b then (record s { is_loading = b; is_queued = true }) else start s)
refresh-IsSingle true s (inl (q, l, w)) = inl (refl, l, w)
refresh-IsSingle true s (inr (q, _, _, _)) = cc
refresh-IsSingle false s (inl (q, _, _)) = cc
refresh-IsSingle false s (inr (q, l, _, _)) = inl (refl, rw l refl, refl)

answered-IsSingle : (is_ok : Bool) (s : Refresh) → IsSingle s → IsSingle (answer is_ok s.loads s)
answered-IsSingle is_ok s (inl (q, l, w)) = (answer-Settles is_ok s.loads s l).0
answered-IsSingle is_ok s (inr (q, l, h, w)) =
    subst (λ ls. IsSingle (answer is_ok ls s)) (sym l) (inr (q, l, h, w))

step-IsSingle : (e : Event) (s : Refresh) → IsSingle s → IsSingle (step e s)
unfolding step refresh
step-IsSingle refreshed s h = refresh-IsSingle s.is_loading s h
step-IsSingle (answered is_ok) s h = answered-IsSingle is_ok s h
step-IsSingle (view_changed view) s h = h

run-IsSingle_from : (events : List Event) (s : Refresh) → IsSingle s → IsSingle (run events s)
unfolding run
run-IsSingle_from [] s h = h
run-IsSingle_from (e ∷ events) s h = run-IsSingle_from events (step e s) (step-IsSingle e s h)

-- Whatever happens, exactly while the state says that it is loading one load runs and the buttons
-- show it, and no refresh is queued otherwise.
pub run-IsSingle : (view : String) (events : List Event) → IsSingle (run events (initial view))
unfolding initial
run-IsSingle view events = run-IsSingle_from events (initial view) (inr (refl, refl, refl, refl))

-- At rest after a load of that version.
abbrev pub IsServed : ℕ → Refresh → Type 0
IsServed version s =
    (s.is_loading ≡ false) × (s.is_queued ≡ false) × (s.loads ≡ []) × (s.version ≡ version)

rest-IsServed : (version : ℕ) (s : Refresh) → Settles false version s → IsServed version s
rest-IsServed version s (inl (q, _, _), e, o, z) = absurd (true-ne-false (sym q ∙ o))
rest-IsServed version s (inr (q, l, _, _), e, o, z) = (o, z, l, e)

late_answer-IsServed :
    (b : Bool) (version : ℕ) (s : Refresh)
    → IsServed version s
    → IsServed version (answer b s.loads s)
late_answer-IsServed b version s h = subst (λ ls. IsServed version (answer b ls s)) (sym h.2) h

-- The answer of a load behind which nothing is queued.
last_answer-IsServed :
    (b : Bool) (version : ℕ) (s : Refresh)
    → Settles true version s
    → IsServed (suc version) (answer b s.loads s)
last_answer-IsServed b version s (inl (q, l, _), e, o, z) =
    rest-IsServed (suc version) (answer b s.loads s) (
      subst (λ v. Settles false v (answer b s.loads s)) e
        (subst (λ c. Settles c s.version (answer b s.loads s)) z (answer-Settles b s.loads s l)))
last_answer-IsServed b version s (inr (q, _, _, _), e, o, z) = absurd (true-ne-false (sym o ∙ q))

twice-IsServed :
    (a b q : Bool) (s : Refresh)
    → IsSingle (record s { is_loading = q })
    → IsServed (suc s.version) (
        step (answered b) (
          step
            (answered a)
            (if q then (record s { is_loading = q; is_queued = true }) else start s)))
unfolding step
twice-IsServed a b true s (inl (q, l, w)) =
    last_answer-IsServed b s.version
      (answer a s.loads (record s { is_loading = true; is_queued = true }))
      (answer-Settles a s.loads (record s { is_loading = true; is_queued = true }) l)
twice-IsServed a b true s (inr (q, _, _, _)) = cc
twice-IsServed a b false s (inl (q, _, _)) = cc
twice-IsServed a b false s (inr (q, l, z, _)) =
    late_answer-IsServed b (suc s.version) (answer a (start s).loads (start s)) (
      rest-IsServed (suc s.version) (answer a (start s).loads (start s)) (
        subst (λ c. Settles c (suc s.version) (answer a (start s).loads (start s))) z
          (answer-Settles a (start s).loads (start s) (rw l refl))))

-- From every state that is reached, and whether the requests fail or not: after a call of `refresh`
-- two answers lead to a state that rests, and exactly one load was started after the call, also when
-- another load ran at the time of the call.
pub refresh-IsServed :
    (view : String) (events : List Event) (a b : Bool)
    → IsServed
        (suc (run events (initial view)).version)
        (step (answered b) (step (answered a) (step refreshed (run events (initial view)))))
unfolding step refresh
refresh-IsServed view events a b =
    let s = run events (initial view) in
    twice-IsServed a b s.is_loading s (run-IsSingle view events)
