-- ===== src/Loading/Confirm.antt =====
-- The question before an action (web/app.js: `confirmAction`, `closeConfirmDialog`, and the listeners
-- of the dialog). The browser fires the event "close" of a dialog later, as a task of its own:
-- `close_events` counts those that are still to come. The dialog has `showModal` and `close`; an open
-- modal dialog that is shown again stays as it is.
pub mod Answered
use strata_pvr.Base.{
  ℕ, zero, suc, ◌+◌, ◌-◌, String, Bool, true, false, Option, none, some, List, [], ◌∷◌, ◌++◌, ◌or◌,
  if◌then◌else◌,
}

-- The texts that the dialog shows, and whether its button is marked as dangerous.
pub record Question : Type 0 where
  pub title : String
  pub message : String
  pub meta : String
  pub cancel_label : String
  pub ok_label : String
  pub is_dangerous : Bool

-- `options`, where a missing text is empty; `danger` is false only if it is given as false.
pub record Options : Type 0 where
  pub title : String
  pub meta : String
  pub cancel_label : String
  pub ok_label : String
  pub danger : Bool

-- The promises are numbered in the order in which they are made: `pending` is the one that
-- `pendingConfirmResolve` belongs to, and `answers` lists those that were resolved.
pub record Confirm : Type 0 where
  pub pending : Option ℕ
  pub is_open : Bool
  pub close_events : ℕ
  pub shown : Option Question
  pub return_focus : Option ℕ
  pub made : ℕ
  pub answers : List (ℕ × Bool)

-- `if (pendingConfirmResolve) { pendingConfirmResolve(result); pendingConfirmResolve = null; }`
abbrev pub answer : Bool → Option ℕ → Confirm → Confirm
answer result none s = s
answer result (some i) s = record s { pending = none; answers = s.answers ++ (i, result) ∷ [] }

-- `dialog.close()`
abbrev close : Confirm → Confirm
close s = record s {
  is_open = false;
  close_events = if s.is_open then suc s.close_events else s.close_events;
}

close_confirm_dialog : Bool → Confirm → Confirm
close_confirm_dialog result s = close (answer result s.pending s)

abbrev closed_if_pending : Option ℕ → Confirm → Confirm
closed_if_pending none s = s
closed_if_pending (some i) s = close (answer false (some i) s)

confirm_action : String → Options → Option ℕ → Confirm → Confirm
confirm_action message options active s =
    let question : Question = record {
      title = options.title or "確認";
      message = message or "実行しますか？";
      meta = options.meta;
      cancel_label = options.cancel_label or "キャンセル";
      ok_label = options.ok_label or "実行";
      is_dangerous = options.danger;
    } in
    let s' = closed_if_pending s.pending s in
    record s' {
      pending = some s'.made;
      is_open = true;
      shown = some question;
      return_focus = active;
      made = suc s'.made;
    }

-- The listener of "close".
abbrev on_close : Confirm → Confirm
on_close s = record (answer false s.pending s) { return_focus = none }

pub data Event : Type 0 where
  -- An action asks, while an element has the focus.
  asked : String → Options → Option ℕ → Event
  -- The button of the dialog that agrees.
  agreed : Event
  -- The other button, a click beside the dialog, or the key Escape.
  refused : Event
  closed : Event

abbrev fires : ℕ → Confirm → Confirm
fires zero s = s
fires (suc n) s = on_close (record s { close_events = n })

unfoldable pub step : Event → Confirm → Confirm
unfolding close_confirm_dialog confirm_action
step (asked message options active) s = confirm_action message options active s
step agreed s = close_confirm_dialog true s
step refused s = close_confirm_dialog false s
step closed s = fires s.close_events s

unfoldable pub run : List Event → Confirm → Confirm
unfolding step
run [] s = s
run (e ∷ events) s = run events (step e s)

unfoldable pub initial : Confirm
initial = record {
  pending = none;
  is_open = false;
  close_events = 0;
  shown = none;
  return_focus = none;
  made = 0;
  answers = [];
}
