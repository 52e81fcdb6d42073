-- ===== src/Loading/Logos.antt =====
-- The queue of channel logos (web/app.js: `scheduleChannelLogoLoad`, `drainChannelLogoLoadQueue`,
-- `channelLogoElement`, and the new cache version of `clearStrataLogoCache`). The callback of
-- `requestIdleCallback` or `setTimeout` is the event `idle`; which elements are in the document by
-- then is its argument.
pub mod Drained
use strata_pvr.Base.{
  ℕ, suc, ◌+◌, String, Bool, true, false, ◌&&◌, List, [], ◌∷◌, ◌++◌, eqb, ltb, length,
  if◌then◌else◌,
}

-- `{ logo, url, cacheVersion }`, where the element has a number of its own.
pub record Entry : Type 0 where
  pub logo : ℕ
  pub url : String
  pub cache_version : ℕ

-- The variables of the script; `started` lists the entries whose address was set, and `settled`
-- those that were loaded or failed, each with what `settle` was told.
pub record Loads : Type 0 where
  pub queue : List Entry
  pub in_flight : List Entry
  pub is_scheduled : Bool
  pub cache_version : ℕ
  pub started : List Entry
  pub settled : List (Entry × Bool)

abbrev channel_logo_load_concurrency : ℕ
channel_logo_load_concurrency = 1

-- `logo.isConnected && entry.cacheVersion === state.logoCacheVersion`
abbrev pub is_current : (ℕ → Bool) → ℕ → Entry → Bool
is_current is_connected version e = is_connected e.logo && eqb e.cache_version version

schedule_load : Loads → Loads
schedule_load s = record s { is_scheduled = true }

-- The loop, by the queue: the entries that are started, and the queue that is left.
drain_loop : (Entry → Bool) → ℕ → List Entry → List Entry × List Entry
drain_loop current in_flight [] = ([], [])
drain_loop current in_flight (e ∷ queue) =
    let skipped = drain_loop current in_flight queue in
    let taken = drain_loop current (suc in_flight) queue in
    if ltb in_flight channel_logo_load_concurrency
    then (if current e then (e ∷ taken.0, taken.1) else skipped)
    else ([], e ∷ queue)

drain_queue : (ℕ → Bool) → Loads → Loads
unfolding drain_loop
drain_queue is_connected s =
    let (now, left) =
      drain_loop (is_current is_connected s.cache_version) (length s.in_flight) s.queue in
    record s { queue = left; in_flight = s.in_flight ++ now; started = s.started ++ now }

pub data Event : Type 0 where
  -- `channelLogoElement`
  wanted : ℕ → String → Event
  idle : (ℕ → Bool) → Event
  -- The load of the logo in flight ends.
  settles : Bool → Event
  cache_cleared : ℕ → Event

-- `settle`, for the entry that its listeners stand on.
abbrev settle : Bool → List Entry → Loads → Loads
settle available [] s = s
settle available (e ∷ rest) s =
    schedule_load (record s { in_flight = rest; settled = s.settled ++ (e, available) ∷ [] })

unfoldable pub step : Event → Loads → Loads
unfolding drain_queue schedule_load
step (wanted logo url) s =
    let entry : Entry = record { logo = logo; url = url; cache_version = s.cache_version } in
    schedule_load (record s { queue = s.queue ++ entry ∷ [] })
step (idle is_connected) s =
    if s.is_scheduled then drain_queue is_connected (record s { is_scheduled = false }) else s
step (settles available) s = settle available s.in_flight s
step (cache_cleared version) s = record s { cache_version = version }

unfoldable pub run : List Event → Loads → Loads
unfolding step
run [] s = s
run (e ∷ events) s = run events (step e s)

unfoldable pub initial : Loads
initial = record {
  queue = [];
  in_flight = [];
  is_scheduled = false;
  cache_version = 0;
  started = [];
  settled = [];
}
