-- ===== src/Player/Timeline/Bounds.antt =====
-- The time that the player shows.
use mathlib.Core.Path.{subst, sym}
use strata_pvr.Base.Double.{Double, plus, IsAtMost, least-IsAtMost}
use strata_pvr.Base.{
  ℕ, ◌-◌, Bool, true, false, Option, none, some, ltb, ◌≡◌, refl, ◌⊎◌, inl, inr, if◌then◌else◌,
  arith,
}
use strata_pvr.Player.Timeline.{
  Timeline, Video, finite_positive_seconds, player_configured_duration,
  player_prefers_configured_duration, player_finite_duration, player_current_time, time_of,
}

abbrev choose : Bool → Bool → Bool → ℕ → ℕ → Timeline → ℕ × Timeline
choose prefers has_native has_configured configured native t =
    if prefers
    then (configured, record t { known = configured })
    else (if has_native
        then (native, record t { known = native })
        else (if has_configured
            then (configured, record t { known = configured })
            else (t.known, t)))

choose-known :
    (a b c : Bool) (m n : ℕ) (t : Timeline)
    → ((choose a b c m n t).1 ≡ (record t { known = (choose a b c m n t).0 }))
      × (choose a b c m n (record t { known = (choose a b c m n t).0 })
          ≡ ((choose a b c m n t).0, record t { known = (choose a b c m n t).0 }))
choose-known true b c m n t = (refl, refl)
choose-known false true c m n t = (refl, refl)
choose-known false false true m n t = (refl, refl)
choose-known false false false m n t = (refl, refl)

time_of-le :
    (prefers : Bool) (time : Option Double) (offset duration : ℕ)
    → IsAtMost (time_of prefers time offset duration) duration
      ⊎ ((prefers ≡ false) × (time ≡ some (time_of prefers time offset duration)))
time_of-le prefers none offset duration = inl (omega arith)
time_of-le true (some time) offset duration = inl (least-IsAtMost duration (plus offset time))
time_of-le false (some time) offset duration = inr (refl, refl)

-- The duration that was computed is the one that is known from then on; computed again it is the
-- same. The shown time is at most that duration, unless the video's own time is shown, and then it is
-- that time as it is.
pub player_current_time_lem :
    (v : Video) (t : Timeline)
    → let (duration, t') = player_finite_duration v t in
      (t'.known ≡ duration)
      × (player_finite_duration v t' ≡ (duration, t'))
      × (IsAtMost (player_current_time v duration t') duration
          ⊎ ((player_prefers_configured_duration t ≡ false)
              × (v.current_time ≡ some (player_current_time v duration t'))))
unfolding player_finite_duration player_current_time player_prefers_configured_duration
    player_configured_duration
player_current_time_lem v t =
    let known =
      choose-known (player_prefers_configured_duration t)
        (ltb 0 (finite_positive_seconds v.duration)) (ltb 0 (player_configured_duration t))
        (player_configured_duration t) (finite_positive_seconds v.duration) t in
    let duration = (player_finite_duration v t).0 in
    subst
      (λ (t' : Timeline).
        (t'.known ≡ duration)
        × (player_finite_duration v t' ≡ (duration, t'))
        × (IsAtMost (player_current_time v duration t') duration
            ⊎ ((player_prefers_configured_duration t ≡ false)
                × (v.current_time ≡ some (player_current_time v duration t')))))
      (sym known.0)
      (
        refl,
        known.1,
        time_of-le (player_prefers_configured_duration t) v.current_time
            (finite_positive_seconds t.query_start - t.start) duration,
      )
