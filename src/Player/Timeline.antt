-- ===== src/Player/Timeline.antt =====
-- The timeline of the player (web/app.js: `finitePositiveSeconds`,
-- `programDurationSeconds`, `playerNativeDuration`, `playerQueryStart`, `playerQueryLimit`,
-- `playerConfiguredDuration`, `playerPrefersConfiguredDuration`, `playerFiniteDuration`,
-- `playerCurrentTime`, `formatPlayerTime`). Durations and what a query
-- holds are whole seconds, the time of a video is a double. A value that is not finite, negative or
-- missing is none.
pub mod Bounds
use strata_pvr.Base.Double.{Double, whole, plus, least}
use strata_pvr.Base.{
  ℕ, zero, suc, ◌+◌, ◌-◌, ◌*◌, ◌/◌, ◌%◌, min, max, String, Bool, true, false, ◌&&◌, ◌||◌, Option,
  none, some, eqb, ltb, leb, show, ◌⧺◌, if◌then◌else◌,
}

-- The variables of the player: `playerSeekable`, `playerTimelineStart`, `playerTimelineDuration`,
-- `playerFallbackDuration`, `playerKnownDuration`, and what stands as `ss` and `t` in
-- `playerBaseQuery`.
pub record Timeline : Type 0 where
  pub is_seekable : Bool
  pub start : ℕ
  pub duration : ℕ
  pub fallback : ℕ
  pub known : ℕ
  pub query_start : Option ℕ
  pub query_limit : Option ℕ

-- The video's own duration and time.
pub record Video : Type 0 where
  pub duration : Option ℕ
  pub current_time : Option Double

abbrev pub finite_positive_seconds : Option ℕ → ℕ
finite_positive_seconds none = 0
finite_positive_seconds (some n) = n

-- The seconds of a programme, and its times in milliseconds; a half second is rounded up.
unfoldable program_duration_seconds : Option ℕ → ℕ → ℕ → ℕ
program_duration_seconds seconds start end =
    if ltb 0 (finite_positive_seconds seconds)
    then finite_positive_seconds seconds
    else (if ltb 0 start && ltb 0 end && ltb start end then (end - start + 500) / 1000 else 0)

abbrev pub or_number : ℕ → ℕ → ℕ
or_number a b = if eqb a 0 then b else a

unfoldable pub player_configured_duration : Timeline → ℕ
player_configured_duration t =
    if t.is_seekable && ltb 0 t.duration
    then t.duration
    else or_number (finite_positive_seconds t.query_limit) t.fallback

unfoldable pub player_prefers_configured_duration : Timeline → Bool
player_prefers_configured_duration t = t.is_seekable && ltb 0 (player_configured_duration t)

-- The duration, and the timeline that knows it.
unfoldable pub player_finite_duration : Video → Timeline → ℕ × Timeline
player_finite_duration v t =
    let configured = player_configured_duration t in
    let native = finite_positive_seconds v.duration in
    if player_prefers_configured_duration t
    then (configured, record t { known = configured })
    else (if ltb 0 native
        then (native, record t { known = native })
        else (if ltb 0 configured
            then (configured, record t { known = configured })
            else (t.known, t)))

-- `offset` is how far the query starts behind the timeline's start.
abbrev pub time_of : Bool → Option Double → ℕ → ℕ → Double
time_of prefers none offset duration = whole (min offset duration)
time_of prefers (some time) offset duration =
    if prefers then least duration (plus offset time) else time

unfoldable pub player_current_time : Video → ℕ → Timeline → Double
player_current_time v duration t =
    time_of (player_prefers_configured_duration t) v.current_time
      (finite_positive_seconds t.query_start - t.start) duration

-- `padStart(2, "0")` of a number below 100.
abbrev two_digits : ℕ → String
two_digits n = if ltb n 10 then "0" ⧺ show n else show n

-- Of a time in whole seconds; none is a time that is not finite or negative.
unfoldable format_player_time : Option ℕ → String
format_player_time none = "--:--"
format_player_time (some seconds) =
    let hours = seconds / 3600 in
    let minutes = seconds % 3600 / 60 in
    let prefix = if ltb 0 hours then show hours ⧺ ":" ⧺ two_digits minutes else show minutes in
    prefix ⧺ ":" ⧺ two_digits (seconds % 60)
