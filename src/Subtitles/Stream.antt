-- ===== src/Subtitles/Stream.antt =====
-- The reader of live WebVTT (web/app.js: `consumePlayerLiveWebVTT`): the blocks of the text that
-- are handed to `appendPlayerLiveVTTBlock`, from a body that is read whole and from one that comes
-- in chunks. A text is the list of its UTF-16 code units, as the language has it; what the browser's
-- `TextDecoder` makes of the bytes are the chunks here, the one that it flushes at the end included.
mod Newlines
mod Breaks
pub mod Chunks
pub mod Whole
use mathlib.Core.Option
use strata_pvr.Base.{
  ℕ, zero, suc, Bool, true, false, not, ◌&&◌, Option, none, some, List, [], ◌∷◌, ◌++◌, map, length,
  filter, eqb, is_space, if◌then◌else◌,
}

abbrev pub Units : Type 0
Units = List ℕ

abbrev starts_lf : Units → Bool
starts_lf [] = false
starts_lf (c ∷ s) = eqb c 10

-- `replace(/\r\n/g, "\n")`: a carriage return goes if a line feed follows.
pub normalize : Units → Units
normalize [] = []
normalize (c ∷ s) = let rest = normalize s in if eqb c 13 && starts_lf s then rest else c ∷ rest

-- The text before the first `\n\n` and the text behind it.
pub find_break : Units → Option (Units × Units)
find_break [] = none
find_break (c ∷ []) = none
find_break (c ∷ d ∷ s) =
    let later = Option.map (λ p. (c ∷ p.0, p.1)) (find_break (d ∷ s)) in
    if eqb c 10 && eqb d 10 then some ([], s) else later

-- `trim`
abbrev is_blank : Units → Bool
is_blank [] = true
is_blank (c ∷ s) = false

trim_start : Units → Units
trim_start [] = []
trim_start (c ∷ s) = let rest = trim_start s in if is_space c then rest else c ∷ s

trim_end : Units → Units
trim_end [] = []
trim_end (c ∷ s) = let rest = trim_end s in if is_space c && is_blank rest then [] else c ∷ rest

pub trim : Units → Units
unfolding trim_start trim_end
trim s = trim_end (trim_start s)

-- The loop of `emitCompleteBlocks`: the blocks that are complete, and what is left of `pending`.
-- Each round makes `pending` shorter, so its length is fuel enough.
pub emit_loop : ℕ → Units → List Units × Units
emit_loop zero pending = ([], pending)
emit_loop (suc fuel) pending = elim (find_break pending) [
  | none ↦ ([], pending)
  | some (block, rest) ↦ let more = emit_loop fuel rest in (trim block ∷ more.0, more.1)
]

pub emit_complete : Units → List Units × Units
emit_complete pending = emit_loop (length pending) pending

-- `emitCompleteBlocks(false)` after a chunk was added to `pending`.
feed : Units → Units → List Units × Units
feed pending chunk = emit_complete (normalize (pending ++ chunk))

-- The flush at the end.
pub flush : Units → List Units
flush pending = if is_blank (trim pending) then [] else trim pending ∷ []

-- What `pump` meets in turn: a chunk, the end with the text that the decoder still held, or the
-- cancellation of the reader (the signal is aborted or the player has another source by then).
pub data Event : Type 0 where
  chunk done : Units → Event
  cancelled : Event

pub pump : Units → List Event → List Units
pump pending [] = []
pump pending (cancelled ∷ events) = []
pump pending (chunk s ∷ events) = let (blocks, rest) = feed pending s in blocks ++ pump rest events
pump pending (done s ∷ events) = let (blocks, rest) = feed pending s in blocks ++ flush rest

drop_lf : Units → Units
drop_lf [] = []
drop_lf (c ∷ s) = let rest = drop_lf s in if eqb c 10 then rest else c ∷ s

-- `split(/\n\n+/)`: a run of two or more line feeds divides.
split_loop : ℕ → Units → List Units
split_loop zero body = body ∷ []
split_loop (suc fuel) body = elim (find_break body) [
  | none ↦ body ∷ []
  | some (block, rest) ↦ block ∷ split_loop fuel (drop_lf rest)
]

-- The blocks of a body that is read whole.
pub whole_blocks : Units → List Units
whole_blocks body = let text = normalize body in map trim (split_loop (length text) text)

-- `appendPlayerLiveVTTBlock` returns at once for an empty block.
abbrev pub appended : List Units → List Units
appended blocks = filter (λ b. not (is_blank b)) blocks
