-- ===== src/Subtitles/Stream/Breaks.antt =====
-- Where a text is divided, and the fuel of the loops.
use strata_pvr.Base.{
  ℕ, zero, suc, ◌<◌, ◌≤◌, true, false, ◌&&◌, none, some, [], ◌∷◌, ◌++◌, length, eqb, ◌≡◌, sym, ◌∙◌,
  ◌⊎◌, refl, inl, inr, Bool-cases, Option-cases, arith,
}
use strata_pvr.Subtitles.Stream.{
  Units, starts_lf, normalize, find_break, trim, emit_loop, emit_complete,
}
use strata_pvr.Subtitles.Stream.Newlines.{no_crlf}

-- How a break of a text with two units or more was found.
find_break-cons :
    (c d : ℕ) (s block rest : Units)
    → find_break (c ∷ d ∷ s) ≡ some (block, rest)
    → ((c ≡ 10) × (d ≡ 10) × (block ≡ []) × (rest ≡ s))
      ⊎ ((b : Units) × (eqb c 10 && eqb d 10 ≡ false)
          × (find_break (d ∷ s) ≡ some (b, rest))
          × (block ≡ c ∷ b))
unfolding find_break
find_break-cons c d s block rest h = elim (Bool-cases (eqb c 10 && eqb d 10)) [
  | inl lf ↦ inl (ground arith, ground arith, ground arith, ground arith)
  | inr other ↦ elim (Option-cases (find_break (d ∷ s))) [
    | inl e ↦ ground arith
    | inr ((b, r), e) ↦ inr (b, other, ground arith, ground arith)
  ]
]

-- What is left behind a break is shorter.
pub length-find_break :
    (s block rest : Units) → find_break s ≡ some (block, rest) → length rest < length s
unfolding find_break
length-find_break [] block rest h = cc
length-find_break (c ∷ []) block rest h = cc
length-find_break (c ∷ d ∷ s) block rest h = elim (find_break-cons c d s block rest h) [
  | inl (_, _, _, e) ↦ rw e (omega arith)
  | inr (b, _, later, _) ↦ omega (arith, length-find_break (d ∷ s) b rest later)
]

pub no_crlf-find_break :
    (s block rest : Units)
    → find_break s ≡ some (block, rest)
    → no_crlf s ≡ true
    → no_crlf rest ≡ true
unfolding find_break
no_crlf-find_break [] block rest h n = cc
no_crlf-find_break (c ∷ []) block rest h n = cc
no_crlf-find_break (c ∷ d ∷ s) block rest h n = elim (find_break-cons c d s block rest h) [
  | inl (_, _, _, e) ↦ rw e (ground arith)
  | inr (b, _, later, _) ↦ no_crlf-find_break (d ∷ s) b rest later (ground arith)
]

find_break-keep :
    (c : ℕ) (s block rest : Units)
    → find_break s ≡ some (block, rest)
    → eqb c 10 && starts_lf s ≡ false
    → find_break (c ∷ s) ≡ some (c ∷ block, rest)
unfolding find_break
find_break-keep c [] block rest h k = cc
find_break-keep c (d ∷ s) block rest h k = rw (k, h)

starts_lf-kept :
    (d : ℕ) (s t block rest : Units)
    → no_crlf (d ∷ s) ≡ true
    → find_break (d ∷ s) ≡ some (block, rest)
    → starts_lf (normalize (d ∷ s ++ t)) ≡ eqb d 10
unfolding find_break normalize
starts_lf-kept d [] t block rest n h = cc
starts_lf-kept d (e ∷ s) t block rest n h = ground arith

normalize-cons :
    (c d : ℕ) (s : Units)
    → eqb c 13 && eqb d 10 ≡ false
    → normalize (c ∷ d ∷ s) ≡ c ∷ normalize (d ∷ s)
unfolding normalize
normalize-cons c d s h = rw h

-- A break stays where it is when more text comes.
pub find_break-normalize :
    (s t block rest : Units)
    → no_crlf s ≡ true
    → find_break s ≡ some (block, rest)
    → find_break (normalize (s ++ t)) ≡ some (block, normalize (rest ++ t))
unfolding find_break normalize
find_break-normalize [] t block rest n h = cc
find_break-normalize (c ∷ []) t block rest n h = cc
find_break-normalize (c ∷ d ∷ s) t block rest n h = elim (find_break-cons c d s block rest h) [
  | inl (e, e', be, re) ↦ rw (e, e', be, re)
  | inr (b, other, later, be) ↦
      rw (normalize-cons c d (s ++ t) (ground arith), be)
        (find_break-keep c (normalize (d ∷ s ++ t)) b (normalize (rest ++ t))
          (find_break-normalize (d ∷ s) t b rest (ground arith) later)
          (rw (starts_lf-kept d s t b rest (ground arith) later) other))
]

emit_loop-none : (f : ℕ) (s : Units) → find_break s ≡ none → emit_loop f s ≡ ([], s)
unfolding emit_loop
emit_loop-none zero s e = refl
emit_loop-none (suc f) s e = rw (e, emit_loop)

emit_loop-some :
    (f : ℕ) (s block rest : Units)
    → find_break s ≡ some (block, rest)
    → emit_loop (suc f) s ≡ (trim block ∷ (emit_loop f rest).0, (emit_loop f rest).1)
unfolding emit_loop
emit_loop-some f s block rest e = rw (e, emit_loop)

-- More fuel than the length of the text changes nothing.
pub emit_loop_enough :
    (f g : ℕ) (s : Units) → length s ≤ f → length s ≤ g → emit_loop f s ≡ emit_loop g s
unfolding find_break
emit_loop_enough f g [] h k = emit_loop-none f [] refl ∙ sym (emit_loop-none g [] refl)
emit_loop_enough zero g (c ∷ s) h k = absurd (omega arith)
emit_loop_enough (suc f) zero (c ∷ s) h k = absurd (omega arith)
emit_loop_enough (suc f) (suc g) (c ∷ s) h k = elim (Option-cases (find_break (c ∷ s))) [
  | inl e ↦ emit_loop-none (suc f) (c ∷ s) e ∙ sym (emit_loop-none (suc g) (c ∷ s) e)
  | inr ((b, r), e) ↦
      let shorter = length-find_break (c ∷ s) b r e in
      rw (
        emit_loop-some f (c ∷ s) b r e,
        emit_loop-some g (c ∷ s) b r e,
        emit_loop_enough f g r (omega arith) (omega arith),
      )
]

pub emit_complete-none : (s : Units) → find_break s ≡ none → emit_complete s ≡ ([], s)
unfolding emit_complete
emit_complete-none s e = emit_loop-none (length s) s e

pub emit_complete-some :
    (s block rest : Units)
    → find_break s ≡ some (block, rest)
    → emit_complete s ≡ (trim block ∷ (emit_complete rest).0, (emit_complete rest).1)
unfolding emit_complete find_break
emit_complete-some [] block rest e = cc
emit_complete-some (c ∷ s) block rest e =
    let shorter = length-find_break (c ∷ s) block rest e in
    rw (
      emit_loop-some (length s) (c ∷ s) block rest e,
      emit_loop_enough (length s) (length rest) rest (omega arith) (omega arith),
    )
