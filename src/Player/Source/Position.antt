-- ===== src/Player/Source/Position.antt =====
-- The time that the player shows before and after it asks for another source (web/app.js:
-- `seekPlayerToRange`, `changePlayerQuality`, `changePlayerAudio`).
use mathlib.Core.Path.{subst}
use Prim.Native.Nat.{◌^◌, ◌≤◌}
use strata_pvr.Base.Double.Bounds.{floor-plus_share}
use strata_pvr.Base.Double.{
  Double, whole, floor, plus, minus, least, IsAtMost, least-IsAtMost, plus-zero, floor-le,
  least-whole,
}
use strata_pvr.Base.{
  ℕ, suc, ◌+◌, ◌-◌, ◌<◌, max, String, Bool, true, false, ◌&&◌, Option, none, some, ◌==◌, eqb, ltb,
  eq_iff, show, ◌≡◌, ◌≢◌, refl, sym, ap, ◌∙◌, inl, inr, true-ne-false, Option-cases, show-ne-empty,
  if◌then◌else◌, arith,
}
use strata_pvr.Player.Query.{
  Query, text, get, set, HasDistinctKeys, is_set, or_empty, clone_query, apply_quality_to_query,
  apply_audio_to_query,
}
use strata_pvr.Player.Query.Laws.{get-set, get-clone_query}
use strata_pvr.Player.Query.Distinct.{
  set-HasDistinctKeys, clone_query-HasDistinctKeys, apply_quality_to_query-HasDistinctKeys,
  apply_audio_to_query-HasDistinctKeys,
}
use strata_pvr.Player.Timeline.{
  Timeline, Video, player_configured_duration, player_prefers_configured_duration,
  player_finite_duration, player_current_time, time_of, finite_positive_seconds,
}
use strata_pvr.Player.Url.{
  Browser, recorded_playback_url-ne-empty, recording_watch_url-ne-empty,
  live_channel_playback_url-ne-empty,
}
use strata_pvr.Player.Source.{
  Page, Builder, recorded, recording, live, build, Player, begin_source, set_player_source,
  with_playback_session, queue_playback_stop, destroy_player_mse, update_player_controls,
  with_base_query, knowing,
}
use strata_pvr.Player.Source.Dialog.{
  change_query, controls_with, quality_with, seek_with, seek_player_to_range, change_player_quality,
  change_player_audio, sought_query, next_time, from_time,
}

-- What the controls show: the duration and the time.
abbrev pub shown : Player → ℕ × Double
shown p =
    let (duration, t) = player_finite_duration p.video p.timeline in
    (duration, player_current_time p.video duration t)

-- A timeline of a known duration, as a recorded programme has it.
abbrev pub IsTimed : Player → ℕ → Type 0
IsTimed p duration =
    (p.timeline.is_seekable ≡ true) × (p.timeline.duration ≡ duration) × (0 < duration)

-- `Number` reads what `String` wrote of a number.
abbrev pub ReadsNumber : Page → ℕ → Type 0
ReadsNumber page n = page.seconds (text (show n)) ≡ some n

-- A number that stands in a query is still there in its clone.
get-clone-set :
    (j : String) (n : ℕ) (q : Query)
    → HasDistinctKeys q
    → get j q ≡ text (show n)
    → is_set (text (show n)) ≡ true
    → get j (clone_query (some q)) ≡ text (show n)
get-clone-set j n q d e s = get-clone_query j (some q) d ∙ rw (e, s) refl

module _ (v : Video) (t : Timeline) (duration : ℕ) (s : t.is_seekable ≡ true)
    (e : t.duration ≡ duration) (l : 0 < duration) where
  configured_lem : player_configured_duration t ≡ duration
  unfolding player_configured_duration
  configured_lem = ground (arith, s, e, l)

  prefers_lem : player_prefers_configured_duration t ≡ true
  unfolding player_prefers_configured_duration
  prefers_lem = ground (arith, s, configured_lem, l)

  finite_lem : player_finite_duration v t ≡ (duration, record t { known = duration })
  unfolding player_finite_duration
  finite_lem = rw (prefers_lem, configured_lem) refl

abbrev timed : Video → Timeline → ℕ × Double
timed v t =
    let (duration, t') = player_finite_duration v t in (duration, player_current_time v duration t')

module _ (v : Video) (t : Timeline) (duration : ℕ) (s : t.is_seekable ≡ true)
    (e : t.duration ≡ duration) (l : 0 < duration) where
  timed_lem :
      (n : ℕ)
      → v.current_time ≡ some (whole 0)
      → t.query_start ≡ some n
      → n < 2 ^ 53
      → timed v t ≡ (duration, least duration (whole (n - t.start)))
  unfolding player_current_time
  timed_lem n c h small =
      ap (λ r. (r.0, player_current_time v r.0 r.1)) (finite_lem v t duration s e l)
      ∙ rw (prefers_lem v (record t { known = duration }) duration s e l, c, h)
          (ap (λ x. (duration, least duration x)) (plus-zero (n - t.start) (omega (arith, small))))

  -- A duration that was computed shows the same.
  timed_again : timed v (player_finite_duration v t).1 ≡ timed v t
  timed_again =
      ap (λ r. timed v r.1) (finite_lem v t duration s e l)
      ∙ ap (λ r. (r.0, player_current_time v r.0 r.1))
          (finite_lem v (record t { known = duration }) duration s e l
            ∙ sym (finite_lem v t duration s e l))

time_of-true :
    (time : Option Double) (offset duration : ℕ)
    → IsAtMost (time_of true time offset duration) duration
time_of-true none offset duration = omega arith
time_of-true (some x) offset duration = least-IsAtMost duration (plus offset x)

within :
    (v : Video) (t : Timeline) (duration : ℕ)
    → t.is_seekable ≡ true
    → t.duration ≡ duration
    → 0 < duration
    → IsAtMost (player_current_time v duration t) duration
unfolding player_current_time
within v t duration s e l =
    subst
      (λ b.
        IsAtMost
          (time_of b v.current_time (finite_positive_seconds t.query_start - t.start) duration)
          duration)
      (sym (prefers_lem v t duration s e l))
      (time_of-true v.current_time (finite_positive_seconds t.query_start - t.start) duration)

-- The state right after a source was asked for: it shows where the query begins.
begun_lem :
    (page : Page) (next : String) (q : Query) (p : Player) (n duration : ℕ)
    → IsTimed p duration
    → page.seconds (get "ss" (clone_query (some q))) ≡ some n
    → n < 2 ^ 53
    → shown (begin_source page next (some q) p)
      ≡ (duration, least duration (whole (n - p.timeline.start)))
unfolding begin_source queue_playback_stop destroy_player_mse update_player_controls
begun_lem page next q p n duration (s, e, l) h small =
    let v : Video = record { duration = none; current_time = some (whole 0) } in
    let t = knowing (with_base_query page (some q) p.timeline) in
    timed_again v t duration s e l ∙ timed_lem v t duration s e l n refl h small

-- A call that returned has begun the source.
returned_lem :
    (page : Page) (url : String) (query : Option Query) (p : Player)
    → url ≢ ""
    → (set_player_source page url query p).1 ≡ true
    → (next : String) × (set_player_source page url query p
        ≡ (begin_source page next query p, true))
unfolding set_player_source
returned_lem page url query p named h =
    let n : (url == "") ≡ false = ground (arith, eq_iff url "", named) in
    elim (Option-cases (with_playback_session page url (page.new_token (suc p.generation)))) [
      | inl o ↦ absurd (true-ne-false (sym (rw (n, o) at h)))
      | inr (next, o) ↦ (next, rw (n, o) refl)
    ]

pub build-ne-empty :
    (b : Browser) (builder : Builder) (query : Option Query) → build b builder query ≢ ""
unfolding build
build-ne-empty b (recorded id) query = recorded_playback_url-ne-empty b id query
build-ne-empty b (recording id) query = recording_watch_url-ne-empty id "mp4" query
build-ne-empty b (live id) query = live_channel_playback_url-ne-empty b id query

pub quality_with_lem :
    (query : Option Query) (r : Player × Bool)
    → (shown (quality_with query r).0 ≡ shown r.0) × ((quality_with query r).1 ≡ r.1)
quality_with_lem query (p, true) = (refl, refl)
quality_with_lem query (p, false) = (refl, refl)

pub controls_with_lem :
    (query : Option Query) (r : Player × Bool)
    → (shown (controls_with query r).0 ≡ shown r.0) × ((controls_with query r).1 ≡ r.1)
controls_with_lem query (p, true) = (refl, refl)
controls_with_lem query (p, false) = (refl, refl)

-- The query of a new source, in which a number stands as the start.
asked_lem :
    (page : Page) (url : String) (q : Query) (p : Player) (n duration : ℕ)
    → ReadsNumber page n
    → n < 2 ^ 53
    → IsTimed p duration
    → url ≢ ""
    → HasDistinctKeys q
    → get "ss" q ≡ text (show n)
    → (set_player_source page url (some q) p).1 ≡ true
    → shown (set_player_source page url (some q) p).0
      ≡ (duration, least duration (whole (n - p.timeline.start)))
asked_lem page url q p n duration reads small t named d e h =
    let (next, o) = returned_lem page url (some q) p named h in
    let kept = get-clone-set "ss" n q d e (ground (arith, show-ne-empty n, eq_iff (show n) "")) in
    ap (λ r. shown r.0) o
    ∙ begun_lem page next q p n duration t (ap page.seconds kept ∙ reads) small

-- The query that a seek asks for.
sought_query-start :
    (base : Option Query) (start : ℕ) (next : Double) (duration : ℕ)
    → (get "ss" (sought_query base start next duration) ≡ text (show (floor (plus start next))))
      × HasDistinctKeys (sought_query base start next duration)
unfolding sought_query
sought_query-start base start next duration =
    let q = clone_query base in
    let v = text (show (floor (plus start next))) in
    let w = text (show (max 1 (floor (minus duration next)))) in
    (
      get-set "ss" "t" w (set "ss" v q) ∙ get-set "ss" "ss" v q,
      set-HasDistinctKeys "t" w (set "ss" v q)
          (set-HasDistinctKeys "ss" v q (clone_query-HasDistinctKeys base)),
    )

-- The second of the timeline that a seek to the range's thousandths `value` asks for.
abbrev pub sought : Player → ℕ → ℕ → ℕ
sought p value duration = floor (plus p.timeline.start (next_time value duration))

-- The time that is sought lies within the programme.
sought-le :
    (p : Player) (value duration : ℕ)
    → value ≤ 1000
    → p.timeline.start + duration < 2 ^ 53
    → sought p value duration ≤ p.timeline.start + duration
unfolding next_time
sought-le p value duration h small = floor-plus_share p.timeline.start value duration h small

-- A seek of a player that knows the duration of its programme, to the range's thousandths `value`: if
-- the call returns, the player shows the same duration, and as its time the whole seconds of the time
-- that the script computes from the range in its rounded numbers, counted from the timeline's start.
-- The seconds of the timeline are numbers that the script holds exactly.
pub seek_player_to_range-shown :
    (page : Page) (p : Player) (b : Builder) (value duration : ℕ)
    → ReadsNumber page (sought p value duration)
    → p.timeline.start + duration < 2 ^ 53
    → p.builder ≡ some b
    → IsTimed p duration
    → value ≤ 1000
    → (seek_player_to_range page value p).1 ≡ true
    → shown (seek_player_to_range page value p).0
      ≡ (duration, whole (sought p value duration - p.timeline.start))
unfolding seek_player_to_range
seek_player_to_range-shown page p b value duration reads small hb (s, e, l) bound returned =
    let t = record p.timeline { known = duration } in
    let next = next_time value duration in
    let q = sought_query p.base_query t.start next duration in
    let p' : Player = record p { timeline = t } in
    let r = set_player_source page (build page.browser b (some q)) (some q) p' in
    let both : (t.is_seekable && player_prefers_configured_duration t) ≡ true =
      ground (arith, s, prefers_lem p.video t duration s e l) in
    let nonzero : eqb duration 0 ≡ false = ground (arith, l) in
    let (start, distinct) = sought_query-start p.base_query t.start next duration in
    let step : seek_player_to_range page value p ≡ quality_with (some q) r =
      ap
        (λ f.
          if eqb f.0 0
          then (record p { timeline = f.1 }, true)
          else seek_with page (next_time value f.0) f.0 (record p { timeline = f.1 }) p.builder)
        (finite_lem p.video p.timeline duration s e l)
      ∙ rw nonzero (ap (seek_with page next duration p') hb ∙ rw both refl) in
    let ok = sym (quality_with_lem (some q) r).1 ∙ sym (ap (λ f. f.1) step) ∙ returned in
    ap (λ f. shown f.0) step
    ∙ (quality_with_lem (some q) r).0
    ∙ asked_lem page _ q p' (floor (plus t.start next)) duration reads
        (omega (arith, sought-le p value duration bound small, small)) (s, e, l)
        (build-ne-empty page.browser b (some q)) distinct start ok
    ∙ ap (λ x. (duration, x))
        (least-whole duration (sought p value duration - p.timeline.start)
          (omega (arith, sought-le p value duration bound small)))

-- The shown second of the timeline.
abbrev pub second_of : Player → ℕ
second_of p = floor (shown p).1

-- A change of the query goes on from the whole seconds of the time that is shown.
change_query-shown :
    (page : Page) (change : Option Query → Option Query) (p : Player) (b : Builder) (duration : ℕ)
    → ReadsNumber page (p.timeline.start + second_of p)
    → p.timeline.start + second_of p < 2 ^ 53
    → IsTimed p duration
    → HasDistinctKeys (or_empty (change p.base_query))
    → (change_query page change p (some b)).1 ≡ true
    → shown (change_query page change p (some b)).0 ≡ (duration, whole (second_of p))
change_query-shown page change p b duration reads small (s, e, l) distinct returned =
    let t = record p.timeline { known = duration } in
    let p' : Player = record p { timeline = t } in
    let elapsed = floor (player_current_time p.video duration t) in
    let before : second_of p ≡ elapsed =
      ap (λ r. floor (player_current_time p.video r.0 r.1))
        (finite_lem p.video p.timeline duration s e l) in
    let q = or_empty (change p.base_query) in
    let v = text (show (t.start + elapsed)) in
    let w = text (show (max 1 (duration - elapsed))) in
    let asked = set "t" w (set "ss" v q) in
    let positive : ltb 0 duration ≡ true = ground (arith, l) in
    let query : from_time t.is_seekable t.start elapsed duration (change p.base_query)
        ≡ some asked =
      rw (s, positive) refl in
    let r = set_player_source page (build page.browser b (some asked)) (some asked) p' in
    let step : change_query page change p (some b) ≡ controls_with (some asked) r =
      ap
        (λ f.
          let o =
            from_time f.1.is_seekable f.1.start (floor (player_current_time p.video f.0 f.1)) f.0
              (change p.base_query) in
          controls_with o
            (set_player_source page (build page.browser b o) o (record p { timeline = f.1 })))
        (finite_lem p.video p.timeline duration s e l)
      ∙ ap (λ o. controls_with o (set_player_source page (build page.browser b o) o p')) query in
    let ok = sym (controls_with_lem (some asked) r).1 ∙ sym (ap (λ f. f.1) step) ∙ returned in
    ap (λ f. shown f.0) step
    ∙ (controls_with_lem (some asked) r).0
    ∙ asked_lem page _ asked p' (t.start + elapsed) duration
        (subst (λ m. ReadsNumber page (t.start + m)) before reads)
        (subst (λ m. t.start + m < 2 ^ 53) before small) (s, e, l)
        (build-ne-empty page.browser b (some asked))
        (set-HasDistinctKeys "t" w (set "ss" v q) (set-HasDistinctKeys "ss" v q distinct))
        (get-set "ss" "t" w (set "ss" v q) ∙ get-set "ss" "ss" v q) ok
    ∙ ap (λ n. (duration, least duration (whole n))) (omega arith)
    ∙ ap (λ x. (duration, x))
        (least-whole duration elapsed (
          floor-le (player_current_time p.video duration t) duration
            (within p.video t duration s e l)))
    ∙ ap (λ n. (duration, whole n)) (sym before)

-- Choosing a quality, for a player that knows the duration of its programme: if the call returns, the
-- player shows the same duration, and as its time the whole seconds of the time before. The second that
-- is asked for is a number that the script holds exactly.
pub change_player_quality-shown :
    (page : Page) (p : Player) (b : Builder) (quality : String) (duration : ℕ)
    → ReadsNumber page (p.timeline.start + second_of p)
    → p.timeline.start + second_of p < 2 ^ 53
    → p.builder ≡ some b
    → IsTimed p duration
    → (change_player_quality page quality p).1 ≡ true
    → shown (change_player_quality page quality p).0 ≡ (duration, whole (second_of p))
unfolding change_player_quality
change_player_quality-shown page p b quality duration reads small hb timed returned =
    let f = change_query page (λ query. apply_quality_to_query query quality) p in
    ap (λ o. shown (f o).0) hb
    ∙ change_query-shown page (λ query. apply_quality_to_query query quality) p b duration reads
        small timed (apply_quality_to_query-HasDistinctKeys p.base_query quality)
        (sym (ap (λ o. (f o).1) hb) ∙ returned)

-- So does choosing an audio track.
pub change_player_audio-shown :
    (page : Page) (p : Player) (b : Builder) (audio : String) (duration : ℕ)
    → ReadsNumber page (p.timeline.start + second_of p)
    → p.timeline.start + second_of p < 2 ^ 53
    → p.builder ≡ some b
    → IsTimed p duration
    → (change_player_audio page audio p).1 ≡ true
    → shown (change_player_audio page audio p).0 ≡ (duration, whole (second_of p))
unfolding change_player_audio
change_player_audio-shown page p b audio duration reads small hb timed returned =
    let f = change_query page (λ query. apply_audio_to_query query audio) p in
    ap (λ o. shown (f o).0) hb
    ∙ change_query-shown page (λ query. apply_audio_to_query query audio) p b duration reads small
        timed (apply_audio_to_query-HasDistinctKeys p.base_query audio)
        (sym (ap (λ o. (f o).1) hb) ∙ returned)
