-- ===== src/Program/Actions/Shown.antt =====
-- Which buttons a programme has.
use strata_pvr.Base.{
  ℕ, String, Bool, true, false, Option, none, some, List, [], ◌∷◌, map, length, filter, ◌≡◌, arith,
}
use strata_pvr.Program.{Program}
use strata_pvr.Program.State.{Lists, is_recorded_program, program_dialog_actions}
use strata_pvr.Program.Actions.{Button, action_button, render_actions}

abbrev pub is_shown : Option Button → Bool
is_shown none = false
is_shown (some b) = true

-- The five actions that change what is recorded.
abbrev pub controls : List String
controls = "reserve" ∷ "unreserve" ∷ "skip" ∷ "unskip" ∷ "stop" ∷ []

abbrev pub control_count : ℕ → Program → ℕ
control_count now p = length (filter (λ name. is_shown (action_button now p name)) controls)

-- A programme whose manual reservation counts as a reservation has exactly one of the buttons that
-- reserve, delete the reservation, skip, take back the skip and stop; and it is the last one exactly
-- while the programme is being recorded.
pub one_control :
    (now : ℕ) (p : Program)
    → (p.is_manual_reserved ≡ true → p.is_reserved ≡ true)
    → (control_count now p ≡ 1) × (is_shown (action_button now p "stop") ≡ p.is_recording)
unfolding action_button
one_control now p h = ground arith

-- The dialog of a programme that is recorded offers playing, downloading, the playlist and a new rule,
-- and the deletion behind them, whatever else the programme says of itself.
pub render_actions_recorded :
    (now : ℕ) (state : Lists) (p : Program)
    → is_recorded_program state p ≡ true
    → map (λ b. b.label) (render_actions now p (program_dialog_actions state p))
      ≡ "視聴" ∷ "ダウンロード" ∷ "XSPF" ∷ "ルール作成" ∷ "削除" ∷ []
unfolding render_actions program_dialog_actions
render_actions_recorded now state p h = rw h
