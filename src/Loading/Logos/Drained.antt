-- ===== src/Loading/Logos/Drained.antt =====
-- What becomes of the logos in the queue (web/app.js: `drainChannelLogoLoadQueue`).
use mathlib.Core.List.{append_assoc, append-nil}
use mathlib.Core.Path.{subst}
use strata_pvr.Base.{
  ℕ, zero, suc, ◌≤◌, ◌<◌, Bool, true, false, List, [], ◌∷◌, ◌++◌, length, filter, ◌≡◌, ◌≢◌, refl,
  sym, ap, ◌∙◌, ◌⊎◌, inl, inr, Bool-cases, if◌then◌else◌, arith,
}
use strata_pvr.Loading.Logos.{
  Entry, Loads, Event, wanted, idle, settles, cache_cleared, is_current, drain_loop, drain_queue,
  schedule_load, step, run, initial, channel_logo_load_concurrency, settle,
}

-- At most as many loads as allowed run at once, and what is in the queue will be looked at again: a
-- callback is scheduled, or a load runs whose end schedules one.
abbrev pub IsLive : Loads → Type 0
IsLive s =
    (length s.in_flight ≤ channel_logo_load_concurrency)
    × (s.queue ≢ [] → s.is_scheduled ≡ false → s.in_flight ≢ [])

-- What one round of the loop starts.
drain_loop-busy :
    (current : Entry → Bool) (queue : List Entry) → drain_loop current 1 queue ≡ ([], queue)
unfolding drain_loop
drain_loop-busy current [] = refl
drain_loop-busy current (e ∷ queue) = refl

abbrev first_current : (Entry → Bool) → List Entry → List Entry × List Entry
first_current current [] = ([], [])
first_current current (e ∷ queue) =
    if current e then (e ∷ [], queue) else first_current current queue

drain_loop-free :
    (current : Entry → Bool) (queue : List Entry)
    → drain_loop current 0 queue ≡ first_current current queue
unfolding drain_loop
drain_loop-free current [] = refl
drain_loop-free current (e ∷ queue) =
    rw (drain_loop-busy current queue, drain_loop-free current queue) refl

-- Either no entry is current, or the first current one is taken and those before it are dropped.
first_current-cases :
    (current : Entry → Bool) (queue : List Entry)
    → ((first_current current queue ≡ ([], [])) × (filter current queue ≡ []))
      ⊎ ((x : Entry) × (q : List Entry) × (first_current current queue ≡ (x ∷ [], q))
          × (filter current queue ≡ x ∷ filter current q)
          × (length q < length queue))
first_current-cases current [] = inl (refl, refl)
first_current-cases current (e ∷ queue) = elim (Bool-cases (current e)) [
  | inl c ↦ inr (e, queue, rw c refl, rw c refl, omega arith)
  | inr c ↦ elim (first_current-cases current queue) [
    | inl (a, b) ↦ inl (rw c a, rw c b)
    | inr (x, q, a, b, l) ↦ inr (x, q, rw c a, rw c b, omega (arith, l))
  ]
]

-- The state in which no load runs.
abbrev resting : List Entry → Bool → ℕ → List Entry → List (Entry × Bool) → Loads
resting queue is_scheduled version started settled = record {
  queue = queue;
  in_flight = [];
  is_scheduled = is_scheduled;
  cache_version = version;
  started = started;
  settled = settled;
}

first_current-IsLive :
    (current : Entry → Bool) (queue : List Entry)
    → (length (first_current current queue).0 ≤ channel_logo_load_concurrency)
      × ((first_current current queue).1 ≢ [] → (first_current current queue).0 ≢ [])
first_current-IsLive current queue = elim (first_current-cases current queue) [
  | inl (a, _) ↦ rw a (omega arith, λ h. absurd (h refl))
  | inr (x, q, a, _, _) ↦ rw a (omega arith, λ _ e. cc)
]

drained-IsLive :
    (is_connected : ℕ → Bool) (s : Loads) (in_flight : List Entry)
    → length in_flight ≤ channel_logo_load_concurrency
    → IsLive (drain_queue is_connected (record s { in_flight = in_flight; is_scheduled = false }))
unfolding drain_queue
drained-IsLive is_connected s [] k =
    let (room, busy) = first_current-IsLive (is_current is_connected s.cache_version) s.queue in
    rw (drain_loop-free (is_current is_connected s.cache_version) s.queue) (room, λ h _. busy h)
drained-IsLive is_connected s (x ∷ []) k =
    rw (drain_loop-busy (is_current is_connected s.cache_version) s.queue)
      (omega arith, λ _ _ e. cc)
drained-IsLive is_connected s (x ∷ y ∷ more) k = absurd (omega (arith, k))

idle-IsLive :
    (is_connected : ℕ → Bool) (s : Loads) (is_scheduled : Bool)
    → IsLive (record s { is_scheduled = is_scheduled })
    → IsLive (
        if is_scheduled
        then drain_queue is_connected (record s { is_scheduled = false })
        else (record s { is_scheduled = is_scheduled }))
idle-IsLive is_connected s true h = drained-IsLive is_connected s s.in_flight h.0
idle-IsLive is_connected s false h = h

settle-IsLive :
    (available : Bool) (s : Loads) (in_flight : List Entry)
    → length in_flight ≤ channel_logo_load_concurrency
    → IsLive s
    → IsLive (settle available in_flight s)
unfolding schedule_load
settle-IsLive available s [] k h = h
settle-IsLive available s (e ∷ rest) k h = (omega (arith, k), λ _ e. cc)

step-IsLive : (e : Event) (s : Loads) → IsLive s → IsLive (step e s)
unfolding step schedule_load
step-IsLive (wanted logo url) s h = (h.0, λ _ e. cc)
step-IsLive (idle is_connected) s h = idle-IsLive is_connected s s.is_scheduled h
step-IsLive (settles available) s h = settle-IsLive available s s.in_flight h.0 h
step-IsLive (cache_cleared version) s h = h

run-IsLive_from : (events : List Event) (s : Loads) → IsLive s → IsLive (run events s)
unfolding run
run-IsLive_from [] s h = h
run-IsLive_from (e ∷ events) s h = run-IsLive_from events (step e s) (step-IsLive e s h)

-- Whatever is wanted and whenever the loads end: no more loads run at once than allowed, and as long
-- as the queue holds an entry, the callback is scheduled or a load runs whose end schedules it.
pub run-IsLive : (events : List Event) → IsLive (run events initial)
unfolding initial
run-IsLive events = run-IsLive_from events initial (omega arith, λ h. absurd (h refl))

-- In a round the callback comes, and then the load in flight ends.
abbrev pub rounds : ℕ → (ℕ → Bool) → Bool → Loads → Loads
rounds zero is_connected available s = s
rounds (suc n) is_connected available s =
    rounds n is_connected available (step (settles available) (step (idle is_connected) s))

module _ (is_connected : ℕ → Bool) (available : Bool) (version : ℕ) where
  abbrev current : Entry → Bool
  current = is_current is_connected version

  -- Nothing is left, and `started` is what was started.
  abbrev Ends : List Entry → Loads → Type 0
  Ends started s = (s.started ≡ started) × (s.queue ≡ []) × (s.in_flight ≡ [])

  -- A round, from what the loop takes and leaves.
  abbrev after : List Entry → List (Entry × Bool) → List Entry × List Entry → Loads
  after started settled r =
      settle available r.0
        (record (resting r.1 false version (started ++ r.0) settled) { in_flight = r.0 })

  round-resting :
      (queue started : List Entry) (settled : List (Entry × Bool)) (r : List Entry × List Entry)
      → first_current current queue ≡ r
      → step
          (settles available)
          (step (idle is_connected) (resting queue true version started settled))
        ≡ after started settled r
  unfolding step drain_queue
  round-resting queue started settled r e =
      ap (after started settled) (drain_loop-free current queue ∙ e)

  next_round :
      (n : ℕ) (queue started : List Entry) (settled : List (Entry × Bool))
      (r : List Entry × List Entry) (P : Loads → Type 0)
      → first_current current queue ≡ r
      → P (rounds n is_connected available (after started settled r))
      → P (rounds (suc n) is_connected available (resting queue true version started settled))
  next_round n queue started settled r P e =
      subst (λ s. P (rounds n is_connected available s))
        (sym (round-resting queue started settled r e))

  rounds-empty :
      (n : ℕ) (b : Bool) (started : List Entry) (settled : List (Entry × Bool))
      → Ends started (rounds n is_connected available (resting [] b version started settled))
  unfolding step
  rounds-empty zero b started settled = (refl, refl, refl)
  rounds-empty (suc n) true started settled =
      next_round n [] started settled ([], []) (Ends started) refl
        (subst
          (λ st.
            Ends st
              (rounds n is_connected available (resting [] false version (started ++ []) settled)))
          (append-nil started) (rounds-empty n false (started ++ []) settled))
  rounds-empty (suc n) false started settled = rounds-empty n false started settled

  rounds-resting :
      (n : ℕ) (queue started : List Entry) (settled : List (Entry × Bool))
      → length queue ≤ n
      → Ends
          (started ++ filter current queue)
          (rounds n is_connected available (resting queue true version started settled))
  unfolding schedule_load
  rounds-resting zero [] started settled h = (sym (append-nil started), refl, refl)
  rounds-resting zero (x ∷ queue) started settled h = absurd (omega (arith, h))
  rounds-resting (suc n) queue started settled h = elim (first_current-cases current queue) [
    | inl (a, b) ↦
        next_round n queue started settled ([], []) (Ends (started ++ filter current queue)) a
          (rw b (rounds-empty n false (started ++ []) settled))
    | inr (x, q, a, b, l) ↦
        next_round n queue started settled (x ∷ [], q) (Ends (started ++ filter current queue)) a
          (rw (b, ← append_assoc started (x ∷ []) (filter current q))
            (rounds-resting n q (started ++ x ∷ []) (settled ++ (x, available) ∷ [])
              (omega (arith, h, l))))
  ]

  busy-round :
      (queue started : List Entry) (settled : List (Entry × Bool)) (x : Entry)
      → step (settles available) (
          step
            (idle is_connected)
            (record (resting queue true version started settled) { in_flight = x ∷ [] }))
        ≡ resting queue true version started (settled ++ (x, available) ∷ [])
  unfolding step schedule_load drain_queue
  busy-round queue started settled x =
      ap
        (λ (r : List Entry × List Entry).
          settle available (x ∷ r.0)
            (record (resting r.1 false version (started ++ r.0) settled) { in_flight = x ∷ r.0 }))
        (drain_loop-busy current queue)
      ∙ ap (λ st. resting queue true version st (settled ++ (x, available) ∷ []))
          (append-nil started)

  rounds-IsLive :
      (queue in_flight started : List Entry) (b : Bool) (settled : List (Entry × Bool))
      → IsLive (record (resting queue b version started settled) { in_flight = in_flight })
      → Ends (started ++ filter current queue) (
          rounds
            (suc (length queue))
            is_connected
            available
            (record (resting queue b version started settled) { in_flight = in_flight }))
  unfolding step schedule_load drain_queue
  rounds-IsLive queue [] started true settled h =
      rounds-resting (suc (length queue)) queue started settled (omega arith)
  rounds-IsLive [] [] started false settled h = (sym (append-nil started), refl, refl)
  rounds-IsLive (e ∷ queue) [] started false settled h = absurd (h.1 (λ e. cc) refl refl)
  rounds-IsLive queue (x ∷ []) started false settled h =
      rounds-resting (length queue) queue started (settled ++ (x, available) ∷ []) (omega arith)
  rounds-IsLive queue (x ∷ []) started true settled h =
      subst
        (λ s.
          Ends (started ++ filter current queue) (rounds (length queue) is_connected available s))
        (sym (busy-round queue started settled x))
        (rounds-resting (length queue) queue started (settled ++ (x, available) ∷ []) (omega arith))
  rounds-IsLive queue (x ∷ y ∷ more) started b settled h = absurd (omega (arith, h.0))

-- From every state that is reached, if nothing else is wanted and the document stays as it is: after
-- one round more than the queue has entries, every entry of the queue that is current was started, in
-- the order in which they were wanted and after all that was started before, no other entry was, and
-- no load runs.
pub rounds-all :
    (events : List Event) (is_connected : ℕ → Bool) (available : Bool)
    → let s = run events initial in
      let end = rounds (suc (length s.queue)) is_connected available s in
      (end.started ≡ s.started ++ filter (is_current is_connected s.cache_version) s.queue)
      × (end.queue ≡ [])
      × (end.in_flight ≡ [])
rounds-all events is_connected available =
    let s = run events initial in
    rounds-IsLive is_connected available s.cache_version s.queue s.in_flight s.started
      s.is_scheduled s.settled (run-IsLive events)
