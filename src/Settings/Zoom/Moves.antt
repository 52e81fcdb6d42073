-- ===== src/Settings/Zoom/Moves.antt =====
-- The levels of the zoom.
use strata_pvr.Base.{
  ℕ, zero, suc, ◌+◌, ◌-◌, ◌≤◌, min, String, get_elem?, eqb, eqb_iff, leb, ◌≡◌, refl, sym, ap, ◌∙◌,
  inl, inr, Bool-cases, arith,
}
use strata_pvr.Settings.{Storage}
use strata_pvr.Settings.Zoom.{
  Direction, out, inward, moved, id_at, schedule_zoom_levels, schedule_zoom_index,
  set_schedule_zoom_level, change_schedule_zoom, is_disabled,
}

-- Every text has the index of a level.
index-le : (level : String) → schedule_zoom_index level ≤ 3
unfolding schedule_zoom_index
index-le level = ground arith

index-id_at : (n : ℕ) → n ≤ 3 → schedule_zoom_index (id_at (get_elem? schedule_zoom_levels n)) ≡ n
unfolding schedule_zoom_index
index-id_at zero h = refl
index-id_at (suc zero) h = refl
index-id_at (suc (suc zero)) h = refl
index-id_at (suc (suc (suc zero))) h = refl
index-id_at (suc (suc (suc (suc n)))) h = absurd (omega (arith, h))

index-set :
    (next level : String) (storage : Storage)
    → schedule_zoom_index (set_schedule_zoom_level next (level, storage)).0
      ≡ schedule_zoom_index next
unfolding set_schedule_zoom_level
index-set next level storage =
    elim (Bool-cases (eqb (schedule_zoom_index next) (schedule_zoom_index level))) [
      | inl e ↦ rw e (sym ((eqb_iff _ _).0 e))
      | inr e ↦ rw e (index-id_at (schedule_zoom_index next) (index-le next))
    ]

moved-le : (d : Direction) (i : ℕ) → i ≤ 3 → moved d i ≤ 3
moved-le out i h = omega (arith, h)
moved-le inward i h = omega arith

ends_out : (i : ℕ) → leb i 0 ≡ eqb (i - 1) i
ends_out i = ground arith

ends_in : (i : ℕ) → i ≤ 3 → leb 3 i ≡ eqb (min 3 (i + 1)) i
ends_in i h = ground arith

disabled-moved :
    (d : Direction) (level : String)
    → is_disabled d level ≡ eqb (moved d (schedule_zoom_index level)) (schedule_zoom_index level)
unfolding is_disabled
disabled-moved out level = ends_out (schedule_zoom_index level)
disabled-moved inward level = ends_in (schedule_zoom_index level) (index-le level)

-- The level after a step in a direction.
abbrev pub Moves : Direction → String → String × Storage → Type 0
Moves d level r =
    (schedule_zoom_index r.0 ≡ moved d (schedule_zoom_index level))
    × (is_disabled d level ≡ eqb (schedule_zoom_index r.0) (schedule_zoom_index level))

-- A step of the zoom leads to the next level in its direction, and to none behind the last one; the
-- button of a direction is disabled exactly if its step keeps the level. A level that is none of the
-- levels counts as the default one.
pub change_schedule_zoom_lem :
    (d : Direction) (level : String) (storage : Storage)
    → Moves d level (change_schedule_zoom d (level, storage))
unfolding change_schedule_zoom
change_schedule_zoom_lem d level storage =
    let i = schedule_zoom_index level in
    let next = id_at (get_elem? schedule_zoom_levels (moved d i)) in
    let moves =
      index-set next level storage ∙ index-id_at (moved d i) (moved-le d i (index-le level)) in
    (moves, disabled-moved d level ∙ ap (λ n. eqb n i) (sym moves))
