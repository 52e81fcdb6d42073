-- ===== src/Requests/Realtime.antt =====
-- The messages between windows (web/app.js: `publishMutation`, `publishRealtime`, and `handle` of
-- `subscribeRealtimeRefresh`). A browser may lack either way, and a message arrives by each.
use strata_pvr.Base.{
  ℕ, suc, ◌+◌, any, String, Bool, true, false, not, ◌&&◌, ◌||◌, List, [], ◌∷◌, ◌++◌, ◌==◌, truthy,
  seen_in, is_inherited, length, eq_iff, eq_refl, ◌≡◌, ◌≢◌, ◌⊎◌, refl, sym, ap, ◌∙◌, true-ne-false,
  inl, inr, Bool-cases, if◌then◌else◌, arith,
}
use strata_pvr.Requests.{notify_event_for_path, word_first}
use text.Mathlib.Text.{starts_with}

pub record Message : Type 0 where
  pub event : String
  pub source : String

-- What the window can send by: `BroadcastChannel`, and a local storage that takes the entry.
pub record Ways : Type 0 where
  pub has_channel : Bool
  pub has_storage : Bool

abbrev pub by : Bool → Message → List Message
by true message = message ∷ []
by false message = []

-- The messages that reach each of the other windows.
unfoldable pub publish_realtime : Ways → String → String → List Message
publish_realtime ways source event =
    if not (truthy event)
    then []
    else (let message : Message = record { event = event; source = source } in
        by ways.has_channel message ++ by ways.has_storage message)

unfoldable pub publish_mutation : Ways → String → String → String → List Message
unfolding publish_realtime
publish_mutation ways source path method =
    publish_realtime ways source (notify_event_for_path path method)

abbrev pub refresh_events : List String
refresh_events =
    "notify-config" ∷ "notify-recorded" ∷ "notify-recording" ∷ "notify-reserves" ∷ "notify-rules"
    ∷ "notify-schedule" ∷ "notify-storage" ∷ []

-- Whether a message makes a window refresh.
unfoldable pub handle : String → Message → Bool
handle own message = not (message.source == own) && seen_in message.event refresh_events

-- The refreshes that messages lead to.
abbrev pub refreshes : String → List Message → ℕ
refreshes own [] = 0
refreshes own (m ∷ ms) = if handle own m then suc (refreshes own ms) else refreshes own ms

-- No event, or one that the other windows know.
abbrev IsKnown : String → Type 0
IsKnown event = (event ≡ "") ⊎ (seen_in event refresh_events ≡ true)

if-IsKnown : (b : Bool) (x y : String) → IsKnown x → IsKnown y → IsKnown (if b then x else y)
if-IsKnown true x y h k = h
if-IsKnown false x y h k = k

notify_event-IsKnown : (path method : String) → IsKnown (notify_event_for_path path method)
unfolding notify_event_for_path is_inherited
notify_event-IsKnown path method =
    if-IsKnown (not (truthy method) || method == "GET") _ _ (inl refl) (
      if-IsKnown
        (starts_with path "program/" || word_first "reserve" path || word_first "reserves" path) _ _
        (inr refl)
        (if-IsKnown (starts_with path "recording/") _ _ (inr refl) (
          if-IsKnown (starts_with path "recorded/") _ _ (inr refl) (
            if-IsKnown (word_first "rules" path) _ _ (inr refl)
              (if-IsKnown (starts_with path "scheduler/") _ _ (inr refl) (inl refl))))))

handled :
    (event source own : String) (h : Bool)
    → IsKnown event
    → truthy event ≡ true
    → (source == own) ≡ not h
    → handle own (record { event = event; source = source }) ≡ h
unfolding handle
handled event source own h (inl e) t o = absurd (true-ne-false (sym t ∙ ap truthy e))
handled event source own true (inr k) t o = rw (o, k) refl
handled event source own false (inr k) t o = rw o refl

refreshes-by :
    (own : String) (a b : Bool) (m : Message) (h : Bool)
    → handle own m ≡ h
    → refreshes own (by a m ++ by b m) ≡ (if h then length (by a m ++ by b m) else 0)
refreshes-by own true true m h e = rw e (ground arith)
refreshes-by own true false m h e = rw e (ground arith)
refreshes-by own false true m h e = rw e (ground arith)
refreshes-by own false false m h e = ground arith

published :
    (ways : Ways) (source own event : String) (h : Bool)
    → IsKnown event
    → (source == own) ≡ not h
    → refreshes own (publish_realtime ways source event)
      ≡ (if h then length (publish_realtime ways source event) else 0)
unfolding publish_realtime
published ways source own event h known other = elim (Bool-cases (truthy event)) [
  | inr e ↦ rw e (ground arith)
  | inl e ↦ rw e (
      refreshes-by own ways.has_channel ways.has_storage (record { event = event; source = source })
        h (handled event source own h known e other))
]

-- Whether a request is one that the other windows are told of: its method is not "GET", and its path is
-- below one of the four kinds of objects, or begins with one of the three words.
abbrev pub is_announced : String → String → Bool
is_announced path method =
    truthy method
    && not (method == "GET")
    && (any (λ area. starts_with path area)
          ("program/" ∷ "recording/" ∷ "recorded/" ∷ "scheduler/" ∷ [])
        || any (λ word. word_first word path) ("reserve" ∷ "reserves" ∷ "rules" ∷ []))

-- The ways that a browser has.
abbrev pub ways_count : Ways → ℕ
ways_count ways = (if ways.has_channel then 1 else 0) + (if ways.has_storage then 1 else 0)

-- The choice of the event, over the tests that it makes.
truthy-choice :
    (named get program one more recording recorded ruled scheduled : Bool)
    → truthy (
        if not named || get
        then ""
        else (if program || one || more
            then "notify-reserves"
            else (if recording
                then "notify-recording"
                else (if recorded
                    then "notify-recorded"
                    else (if ruled
                        then "notify-rules"
                        else (if scheduled then "notify-schedule" else ""))))))
      ≡ (named
          && not get
          && ((program || (recording || (recorded || (scheduled || false))))
              || (one || (more || (ruled || false)))))
truthy-choice false get program one more recording recorded ruled scheduled = refl
truthy-choice true true program one more recording recorded ruled scheduled = refl
truthy-choice true false true one more recording recorded ruled scheduled = refl
truthy-choice true false false true more true recorded ruled scheduled = refl
truthy-choice true false false true more false true ruled scheduled = refl
truthy-choice true false false true more false false ruled true = refl
truthy-choice true false false true more false false ruled false = refl
truthy-choice true false false false true true recorded ruled scheduled = refl
truthy-choice true false false false true false true ruled scheduled = refl
truthy-choice true false false false true false false ruled true = refl
truthy-choice true false false false true false false ruled false = refl
truthy-choice true false false false false true recorded ruled scheduled = refl
truthy-choice true false false false false false true ruled scheduled = refl
truthy-choice true false false false false false false true true = refl
truthy-choice true false false false false false false true false = refl
truthy-choice true false false false false false false false true = refl
truthy-choice true false false false false false false false false = refl

truthy-notify_event :
    (path method : String) → truthy (notify_event_for_path path method) ≡ is_announced path method
unfolding notify_event_for_path
truthy-notify_event path method =
    truthy-choice (truthy method) (method == "GET") (starts_with path "program/")
      (word_first "reserve" path) (word_first "reserves" path) (starts_with path "recording/")
      (starts_with path "recorded/") (word_first "rules" path) (starts_with path "scheduler/")

length-by :
    (a b : Bool) (m : Message)
    → length (by a m ++ by b m) ≡ (if a then 1 else 0) + (if b then 1 else 0)
length-by true true m = refl
length-by true false m = refl
length-by false true m = refl
length-by false false m = refl

length-publish_realtime :
    (ways : Ways) (source event : String)
    → length (publish_realtime ways source event) ≡ (if truthy event then ways_count ways else 0)
unfolding publish_realtime
length-publish_realtime ways source event = elim (Bool-cases (truthy event)) [
  | inr e ↦ rw e refl
  | inl e ↦
      rw e (length-by ways.has_channel ways.has_storage (record { event = event; source = source }))
]

-- After a request that is announced every other window refreshes once for each way that the browser
-- has, and after any other request none does. The window itself never refreshes for its own request.
pub publish_mutation-refreshes :
    (ways : Ways) (source other path method : String)
    → source ≢ other
    → (refreshes other (publish_mutation ways source path method)
        ≡ (if is_announced path method then ways_count ways else 0))
      × (refreshes source (publish_mutation ways source path method) ≡ 0)
unfolding publish_mutation
publish_mutation-refreshes ways source other path method apart =
    let event = notify_event_for_path path method in
    let known = notify_event-IsKnown path method in
    (
      published ways source other event true known (ground (arith, eq_iff source other, apart))
          ∙ length-publish_realtime ways source event
          ∙ ap (λ b. if b then ways_count ways else 0) (truthy-notify_event path method),
      published ways source source event false known (eq_refl source),
    )
