-- ===== src/Subtitles/Tests.antt =====
-- A body of WebVTT in chunks that divide a line break and a blank line.
use strata_pvr.Base.{List, [], ◌∷◌, ◌≡◌, refl}
use strata_pvr.Subtitles.Stream.{Units, pump, whole_blocks, appended}
use strata_pvr.Subtitles.Stream.Chunks.{concat, events}
use strata_pvr.Subtitles.Stream.Whole.{pump-whole_blocks}

-- "WEBVTT\r", "\n\r\n00:01" and "\n\nend"
abbrev chunks : List Units
chunks =
    (b'W' ∷ b'E' ∷ b'B' ∷ b'V' ∷ b'T' ∷ b'T' ∷ 13 ∷ [])
    ∷ (10 ∷ 13 ∷ 10 ∷ b'0' ∷ b'0' ∷ b':' ∷ b'0' ∷ b'1' ∷ [])
    ∷ []

abbrev last_chunk : Units
last_chunk = 10 ∷ 10 ∷ b'e' ∷ b'n' ∷ b'd' ∷ []

whole_example :
    appended (pump [] (events chunks last_chunk))
    ≡ appended (whole_blocks (concat chunks last_chunk))
whole_example = pump-whole_blocks chunks last_chunk refl
