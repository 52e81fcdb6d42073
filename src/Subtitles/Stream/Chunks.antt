-- ===== src/Subtitles/Stream/Chunks.antt =====
-- The blocks that the reader hands over, for the ways to cut a text into chunks.
use mathlib.Core.List.{append_assoc}
use strata_pvr.Base.{
  ℕ, zero, suc, ◌≤◌, true, List, [], ◌∷◌, ◌++◌, length, ◌≡◌, refl, inl, inr, Option-cases, arith,
}
use strata_pvr.Subtitles.Stream.{
  Units, normalize, find_break, emit_complete, feed, flush, Event, chunk, done, pump,
}
use strata_pvr.Subtitles.Stream.Newlines.{
  no_double_cr, no_crlf, normalize-append, normalize-no_crlf,
}
use strata_pvr.Subtitles.Stream.Breaks.{
  length-find_break, no_crlf-find_break, find_break-normalize, emit_complete-none,
  emit_complete-some,
}

-- The blocks of the longer text are those of the first part, and then those of what it left.
feed_lem :
    (n : ℕ) (s t : Units)
    → length s ≤ n
    → no_crlf s ≡ true
    → emit_complete (normalize (s ++ t))
      ≡ ((emit_complete s).0 ++ (feed (emit_complete s).1 t).0, (feed (emit_complete s).1 t).1)
unfolding feed find_break
feed_lem n [] t h k = rw (emit_complete-none [] refl)
feed_lem zero (c ∷ s) t h k = absurd (omega arith)
feed_lem (suc n) (c ∷ s) t h k = elim (Option-cases (find_break (c ∷ s))) [
  | inl e ↦ rw (emit_complete-none (c ∷ s) e)
  | inr ((b, r), e) ↦
      let shorter = length-find_break (c ∷ s) b r e in
      rw (
        emit_complete-some (normalize (c ∷ s ++ t)) b (normalize (r ++ t))
            (find_break-normalize (c ∷ s) t b r k e),
        emit_complete-some (c ∷ s) b r e,
        feed_lem n r t (omega arith) (no_crlf-find_break (c ∷ s) b r e k),
      )
]

-- The blocks of a text in one piece.
abbrev pub all_at_once : Units → List Units
all_at_once s = (emit_complete s).0 ++ flush (emit_complete s).1

abbrev pub concat : List Units → Units → Units
concat [] last = last
concat (s ∷ ss) last = s ++ concat ss last

-- The chunks, and the end with the last one.
abbrev pub events : List Units → Units → List Event
events [] last = done last ∷ []
events (s ∷ ss) last = chunk s ∷ events ss last

no_double_cr-prefix : (s t : Units) → no_double_cr (s ++ t) ≡ true → no_double_cr s ≡ true
no_double_cr-prefix [] t h = refl
no_double_cr-prefix (c ∷ []) t h = ground arith
no_double_cr-prefix (c ∷ d ∷ s) t h = ground (arith, no_double_cr-prefix (d ∷ s) t)

-- One step of the reader, from all the text that came so far.
feed-normalize :
    (s t : Units)
    → no_double_cr (s ++ t) ≡ true
    → emit_complete (normalize (s ++ t)) ≡ (
      (emit_complete (normalize s)).0 ++ (feed (emit_complete (normalize s)).1 t).0,
      (feed (emit_complete (normalize s)).1 t).1,
    )
feed-normalize s t h = rw (← normalize-append s t h) (
    feed_lem (length (normalize s)) (normalize s) t (omega arith)
      (normalize-no_crlf s (no_double_cr-prefix s t h)))

pump-after :
    (s : Units) (ss : List Units) (last : Units)
    → no_double_cr (s ++ concat ss last) ≡ true
    → (emit_complete (normalize s)).0 ++ pump (emit_complete (normalize s)).1 (events ss last)
      ≡ all_at_once (normalize (s ++ concat ss last))
unfolding pump
pump-after s [] last h = rw (feed-normalize s last h, append_assoc)
pump-after s (c ∷ ss) last h =
    let k = rw (← append_assoc s c (concat ss last)) at h in
    rw (
      ← append_assoc s c (concat ss last),
      ← pump-after (s ++ c) ss last k,
      feed-normalize s c (no_double_cr-prefix (s ++ c) (concat ss last) k),
      append_assoc,
    )

-- However the text is cut into chunks, the reader hands over the blocks of the whole text.
pub pump-events :
    (ss : List Units) (last : Units)
    → no_double_cr (concat ss last) ≡ true
    → pump [] (events ss last) ≡ all_at_once (normalize (concat ss last))
unfolding normalize find_break
pump-events ss last h = rw (emit_complete-none [] refl) at (pump-after [] ss last h)
