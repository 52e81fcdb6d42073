-- ===== src/Loading/Tests.antt =====
-- Logos, of which one was taken out of the document, and questions that follow each other closely.
use strata_pvr.Base.{
  true, false, none, some, List, map, inl, arith, [], ◌∷◌, ◌++◌, suc, length, filter, eqb, not, ◌≡◌,
  ltb,
}
use strata_pvr.Loading.Confirm
use strata_pvr.Loading.Confirm.{Options, Confirm, asked, agreed, refused, closed}
use strata_pvr.Loading.Confirm.Answered.{below, waiting, run-answers, asked-closed}
use strata_pvr.Loading.Refresh
use strata_pvr.Loading.Refresh.{refreshed, answered, view_changed}
use strata_pvr.Loading.Refresh.Served.{IsServed, IsSingle, run-IsSingle, refresh-IsServed}
use strata_pvr.Loading.Logos.{Event, wanted, idle, is_current, run, initial}
use strata_pvr.Loading.Logos.Drained.{IsLive, run-IsLive, rounds, rounds-all}

abbrev wanted_logos : List Event
wanted_logos =
    wanted 0 "/api/channel/a/logo"
    ∷ wanted 1 "/api/channel/b/logo"
    ∷ idle (λ n. not (eqb n 0))
    ∷ wanted 2 "/api/channel/c/logo"
    ∷ wanted 3 "/api/channel/d/logo"
    ∷ []

queue_example : IsLive (run wanted_logos initial)
queue_example = run-IsLive wanted_logos

all_logos_example :
    let s = run wanted_logos initial in
    let end = rounds (suc (length s.queue)) (λ n. ltb n 3) true s in
    (end.started ≡ s.started ++ filter (is_current (λ n. ltb n 3) s.cache_version) s.queue)
    × (end.queue ≡ [])
    × (end.in_flight ≡ [])
all_logos_example = rounds-all wanted_logos (λ n. ltb n 3) true

abbrev options : Options
options = record { title = ""; meta = "GR27"; cancel_label = ""; ok_label = "削除"; danger = true }

abbrev questions : List Confirm.Event
questions = asked "削除しますか？" options (some 4) ∷ refused ∷ asked "" options none ∷ closed ∷ []

answers_example :
    map (λ a. a.0) (Confirm.run questions Confirm.initial).answers
      ++ waiting (Confirm.run questions Confirm.initial).pending
    ≡ below (Confirm.run questions Confirm.initial).made
answers_example = run-answers questions

-- The dialog of the first question was closed, and its event is still to come.
abbrev just_refused : Confirm
just_refused = record Confirm.initial { close_events = 1; made = 1; answers = (0, false) ∷ [] }

asked_closed_example :
    let s = Confirm.step closed (Confirm.step (asked "" options none) just_refused) in
    (s.pending ≡ none)
    × (s.is_open ≡ true)
    × (s.return_focus ≡ none)
    × (s.answers ≡ (Confirm.step (asked "" options none) just_refused).answers ++ (1, false) ∷ [])
unfolding Confirm.initial
asked_closed_example = asked-closed "" options none just_refused (inl (omega arith))

-- A refresh that is answered after another view was chosen and another refresh was asked for.
abbrev refreshes : List Refresh.Event
refreshes = refreshed ∷ view_changed "search" ∷ refreshed ∷ answered true ∷ []

single_example : IsSingle (Refresh.run refreshes (Refresh.initial "dashboard"))
single_example = run-IsSingle "dashboard" refreshes

two_answers_example : IsServed (suc (Refresh.run refreshes (Refresh.initial "dashboard")).version) (
    Refresh.step (answered false) (
      Refresh.step
        (answered true)
        (Refresh.step refreshed (Refresh.run refreshes (Refresh.initial "dashboard")))))
two_answers_example = refresh-IsServed "dashboard" refreshes true false
