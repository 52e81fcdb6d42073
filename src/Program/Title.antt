-- ===== src/Program/Title.antt =====
-- Titles of web/app.js: `aribExternalFlagName`, `isAribExternalFlag`, `normalizeAribExternalFlags`,
-- `stripProgramFlags`, `programTitle`, `programFullTitle`.
pub mod Clean
use mathlib.Core.Option
use Prim.Native.Char.{Char, code}
use Prim.Native.String.{[], ◌∷◌}
use strata_pvr.Base.{
  ℕ, zero, suc, String, Bool, true, false, not, Option, none, some, List, ◌==◌, ◌⧺◌, ◌or◌, truthy,
  eqb, trim, length, ◌||◌, if◌then◌else◌,
}
use strata_pvr.Program.{Program}
use strata_pvr.Program.Tables.{names, legacy_names, known_flags}

abbrev lookup : ℕ → List (ℕ × String) → Option String
lookup k List.[] = none
lookup k (List.◌∷◌ (j, v) t) = if eqb j k then some v else lookup k t

-- The name of the symbol with that code point, or the empty text.
unfoldable pub symbol_name : ℕ → String
symbol_name k = elim (lookup k names) [
  | some name ↦ name
  | none ↦ elim (lookup k legacy_names) [ some name ↦ name | none ↦ "" ]
]

-- `aribExternalFlagName`: only a text of one character is a key of the tables.
unfoldable pub arib_external_flag_name : String → String
unfolding symbol_name
arib_external_flag_name [] = ""
arib_external_flag_name (c ∷ []) = symbol_name (code c)
arib_external_flag_name (c ∷ d ∷ s) = ""

unfoldable pub is_arib_external_flag : String → Bool
unfolding arib_external_flag_name
is_arib_external_flag [] = false
is_arib_external_flag (c ∷ s) = truthy (arib_external_flag_name (c ∷ s))

-- A character as a text, as `Array.from` gives it.
abbrev pub single : Char → String
single c = c ∷ ""

pub normalize_arib_external_flags : String → String
unfolding arib_external_flag_name
normalize_arib_external_flags [] = ""
normalize_arib_external_flags (c ∷ s) =
    (arib_external_flag_name (single c) or single c) ⧺ normalize_arib_external_flags s

abbrev pub is_opening : Char → Bool
is_opening c = single c == "[" || single c == "【" || single c == "("

abbrev is_closing : Char → Bool
is_closing c = single c == "]" || single c == "】" || single c == ")"

-- `flag` and a closing bracket at the head of a text: how many characters that is.
abbrev pub closes : String → String → Option ℕ
closes [] [] = none
closes [] (d ∷ s) = if is_closing d then some 1 else none
closes (c ∷ flag) [] = none
closes (c ∷ flag) (d ∷ s) = if single c == single d then Option.map suc (closes flag s) else none

abbrev first_flag : List String → String → Option ℕ
first_flag List.[] s = none
first_flag (List.◌∷◌ flag flags) s = elim (closes flag s) [
  | some n ↦ some n
  | none ↦ first_flag flags s
]

-- `replace(/[[【(](?:…)[\]】)]/g, "")`: the first number counts the characters that a match still covers.
remove_flags : ℕ → String → String
remove_flags skip [] = ""
remove_flags (suc skip) (c ∷ s) = remove_flags skip s
remove_flags zero (c ∷ s) = elim (if is_opening c then first_flag known_flags s else none) [
  | some n ↦ remove_flags n s
  | none ↦ c ∷ remove_flags zero s
]

-- `filter(character => !isAribExternalFlag(character))`
drop_symbols : String → String
drop_symbols [] = ""
drop_symbols (c ∷ s) =
    let rest = drop_symbols s in if is_arib_external_flag (single c) then rest else c ∷ rest

pub strip_program_flags : String → String
unfolding remove_flags drop_symbols
strip_program_flags title = trim (drop_symbols (remove_flags zero title))

pub program_title : Program → String
program_title p =
    normalize_arib_external_flags (strip_program_flags (p.title or p.full_title)) or p.id or "無題"

unfoldable program_full_title : Program → String
program_full_title p = normalize_arib_external_flags (p.full_title or p.title or p.id or "無題")
