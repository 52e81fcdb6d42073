-- ===== src/Subtitles/Stream/Whole.antt =====
-- The blocks of a body that is read whole, beside those that the reader of chunks hands over.
use strata_pvr.Base.{
  is_space, ℕ, zero, suc, ◌≤◌, true, none, some, List, [], ◌∷◌, ◌++◌, map, length, eqb, ◌≡◌, sym,
  ◌∙◌, refl, inl, inr, eqb_iff, Bool-cases, Option-cases, arith,
}
use strata_pvr.Subtitles.Stream.{
  Units, normalize, find_break, trim, emit_complete, flush, drop_lf, split_loop, whole_blocks,
  appended, pump,
}
use strata_pvr.Subtitles.Stream.Newlines.{no_double_cr}
use strata_pvr.Subtitles.Stream.Breaks.{length-find_break, emit_complete-none, emit_complete-some}
use strata_pvr.Subtitles.Stream.Chunks.{events, concat, all_at_once, pump-events}

-- What the reader appends for a text.
abbrev emitted : Units → List Units
emitted s = appended (all_at_once s)

trim-lf : (s : Units) → trim (10 ∷ s) ≡ trim s
unfolding trim is_space
trim-lf s = refl

appended-append : (xs ys : List Units) → appended (xs ++ ys) ≡ appended xs ++ appended ys
appended-append [] ys = refl
appended-append (x ∷ xs) ys = ground (arith, appended-append xs ys)

emitted-none : (s : Units) → find_break s ≡ none → emitted s ≡ appended (trim s ∷ [])
unfolding flush
emitted-none s e = rw (emit_complete-none s e) (ground arith)

emitted-some :
    (s block rest : Units)
    → find_break s ≡ some (block, rest)
    → emitted s ≡ appended (trim block ∷ []) ++ emitted rest
emitted-some s block rest e =
    rw (emit_complete-some s block rest e)
      (appended-append (trim block ∷ []) ((emit_complete rest).0 ++ flush (emit_complete rest).1))

no_block : (blocks : List Units) → appended (trim [] ∷ []) ++ blocks ≡ blocks
unfolding trim
no_block blocks = refl

-- A line feed in front of a text changes nothing.
emitted-lf : (s : Units) → emitted (10 ∷ s) ≡ emitted s
unfolding find_break
emitted-lf [] = emitted-none (10 ∷ []) refl ∙ rw (trim-lf []) (sym (emitted-none [] refl))
emitted-lf (d ∷ s) = elim (Bool-cases (eqb d 10)) [
  | inl lf ↦
      rw ((eqb_iff d 10).0 lf)
        (emitted-some (10 ∷ 10 ∷ s) [] s refl ∙ no_block (emitted s) ∙ sym (emitted-lf s))
  | inr other ↦ elim (Option-cases (find_break (d ∷ s))) [
    | inl e ↦
        emitted-none (10 ∷ d ∷ s) (rw (other, e))
        ∙ rw (trim-lf (d ∷ s)) (sym (emitted-none (d ∷ s) e))
    | inr ((b, r), e) ↦
        emitted-some (10 ∷ d ∷ s) (10 ∷ b) r (rw (other, e))
        ∙ rw (trim-lf b) (sym (emitted-some (d ∷ s) b r e))
  ]
]

emitted-drop_lf : (s : Units) → emitted (drop_lf s) ≡ emitted s
unfolding drop_lf
emitted-drop_lf [] = refl
emitted-drop_lf (c ∷ s) = elim (Bool-cases (eqb c 10)) [
  | inl lf ↦ rw (lf, emitted-drop_lf s, (eqb_iff c 10).0 lf) (sym (emitted-lf s))
  | inr other ↦ rw other
]

length-drop_lf : (s : Units) → length (drop_lf s) ≤ length s
unfolding drop_lf
length-drop_lf [] = omega arith
length-drop_lf (c ∷ s) = ground (arith, length-drop_lf s)

split_loop-some :
    (n : ℕ) (s block rest : Units)
    → find_break s ≡ some (block, rest)
    → split_loop (suc n) s ≡ block ∷ split_loop n (drop_lf rest)
unfolding split_loop
split_loop-some n s block rest e = rw (e, split_loop)

split_loop-none : (n : ℕ) (s : Units) → find_break s ≡ none → split_loop n s ≡ s ∷ []
unfolding split_loop
split_loop-none zero s e = refl
split_loop-none (suc n) s e = rw (e, split_loop)

-- Dividing at the runs of line feeds gives the same blocks, up to the empty ones.
split_loop_lem :
    (n : ℕ) (s : Units) → length s ≤ n → appended (map trim (split_loop n s)) ≡ emitted s
unfolding find_break
split_loop_lem n [] h = rw (split_loop-none n [] refl) (sym (emitted-none [] refl))
split_loop_lem zero (c ∷ s) h = absurd (omega arith)
split_loop_lem (suc n) (c ∷ s) h = elim (Option-cases (find_break (c ∷ s))) [
  | inl e ↦ rw (split_loop-none (suc n) (c ∷ s) e) (sym (emitted-none (c ∷ s) e))
  | inr ((b, r), e) ↦
      let shorter = length-find_break (c ∷ s) b r e in
      let short = length-drop_lf r in
      rw
        (
          split_loop-some n (c ∷ s) b r e,
          emitted-some (c ∷ s) b r e,
          ← emitted-drop_lf r,
          ← split_loop_lem n (drop_lf r) (omega arith),
        )
        (appended-append (trim b ∷ []) (map trim (split_loop n (drop_lf r))))
]

-- For every text that holds no carriage return directly behind another, and for every way to cut it
-- into chunks, the reader of chunks appends the same blocks in the same order as the division of the
-- whole body. (An empty block is not appended in either.)
pub pump-whole_blocks :
    (ss : List Units) (last : Units)
    → no_double_cr (concat ss last) ≡ true
    → appended (pump [] (events ss last)) ≡ appended (whole_blocks (concat ss last))
unfolding whole_blocks
pump-whole_blocks ss last h = rw (pump-events ss last h) (
    sym (
      split_loop_lem (length (normalize (concat ss last))) (normalize (concat ss last))
        (omega arith)))
