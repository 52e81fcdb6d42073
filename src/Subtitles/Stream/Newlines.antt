-- ===== src/Subtitles/Stream/Newlines.antt =====
-- Normalising line ends, when the text comes in parts.
use mathlib.Core.List.{append-nil}
use strata_pvr.Base.{Bool, true, false, not, ◌&&◌, [], ◌∷◌, ◌++◌, eqb, ◌≡◌, refl, arith}
use strata_pvr.Subtitles.Stream.{Units, starts_lf, normalize}

abbrev pub starts_cr : Units → Bool
starts_cr [] = false
starts_cr (c ∷ s) = eqb c 13

-- No carriage return directly behind another.
abbrev pub no_double_cr : Units → Bool
no_double_cr [] = true
no_double_cr (c ∷ s) = not (eqb c 13 && starts_cr s) && no_double_cr s

abbrev pub no_crlf : Units → Bool
no_crlf [] = true
no_crlf (c ∷ s) = not (eqb c 13 && starts_lf s) && no_crlf s

starts_lf-append : (s t : Units) → starts_lf s ≡ true → starts_lf (s ++ t) ≡ true
starts_lf-append [] t h = cc
starts_lf-append (c ∷ s) t h = h

-- The head is the same before and after, unless it is a carriage return.
starts_lf-normalize :
    (s t : Units) → starts_cr s ≡ false → starts_lf (normalize s ++ t) ≡ starts_lf (s ++ t)
unfolding normalize
starts_lf-normalize [] t h = refl
starts_lf-normalize (c ∷ s) t h = rw h

starts_cr-append : (s t : Units) → starts_cr (s ++ t) ≡ false → starts_cr s ≡ false
starts_cr-append [] t h = refl
starts_cr-append (c ∷ s) t h = h

pub normalize-append :
    (s t : Units) → no_double_cr (s ++ t) ≡ true → normalize (normalize s ++ t) ≡ normalize (s ++ t)
unfolding normalize
normalize-append [] t h = refl
normalize-append (c ∷ s) t h = ground (
  arith,
  normalize-append s t,
  starts_lf-append s t,
  starts_lf-normalize s t,
  starts_cr-append s t,
)

pub normalize-no_crlf : (s : Units) → no_double_cr s ≡ true → no_crlf (normalize s) ≡ true
unfolding normalize
normalize-no_crlf [] h = refl
normalize-no_crlf (c ∷ s) h =
    ground
      (arith, normalize-no_crlf s, starts_lf-normalize s [], append-nil s, append-nil (normalize s))
