-- ===== src/Program/Title/Clean.antt =====
-- The symbols of the broadcast in a title (web/app.js: `normalizeAribExternalFlags`, `programTitle`).
use Prim.Native.Char.{Char, code}
use Prim.Native.String.{[], ◌∷◌}
use mathlib.Core.Path.{subst}
use mathlib.Core.Bool.{and-eq-true_iff}
use strata_pvr.Base.{
  ℕ, zero, String, Bool, true, none, some, List, ◌==◌, ◌or◌, eqb, all_chars, all_chars-⧺,
  all_chars-trim, or-ne-empty, all_chars-if, All, ◌≡◌, ◌≢◌, refl, inl, inr, ap, Bool-cases,
  Option-cases, arith,
}
use strata_pvr.Program.{Program}
use strata_pvr.Program.Tables.{names, legacy_names}
use strata_pvr.Program.Title.{
  lookup, symbol_name, arib_external_flag_name, is_arib_external_flag, single,
  normalize_arib_external_flags, remove_flags, drop_symbols, strip_program_flags, program_title,
}

-- A character that is no symbol of the tables.
abbrev pub is_plain : ℕ → Bool
is_plain c = symbol_name c == ""

abbrev pub IsClean : String → Type 0
IsClean s = all_chars is_plain s ≡ true

abbrev AllClean : List (ℕ × String) → Type 0
AllClean = All (λ e. IsClean e.1)

names-AllClean : AllClean names
unfolding symbol_name
names-AllClean = ground arith

legacy_names-AllClean : AllClean legacy_names
unfolding symbol_name
legacy_names-AllClean = ground arith

lookup-All :
    (P : String → Type 0) (k : ℕ) (t : List (ℕ × String)) (v : String)
    → All (λ e. P e.1) t
    → lookup k t ≡ some v
    → P v
lookup-All P k List.[] v h e = cc
lookup-All P k (List.◌∷◌ (j, w) t) v h e = elim (Bool-cases (eqb j k)) [
  | inl same ↦ subst P (ground arith) h.0
  | inr other ↦ lookup-All P k t v h.1 (rw other at e)
]

module _ (k : ℕ) where
  symbol_name_new : (v : String) → lookup k names ≡ some v → symbol_name k ≡ v
  unfolding symbol_name
  symbol_name_new v e = rw (e, symbol_name)

  symbol_name_old :
      (v : String) → lookup k names ≡ none → lookup k legacy_names ≡ some v → symbol_name k ≡ v
  unfolding symbol_name
  symbol_name_old v e h = rw (e, h, symbol_name)

  symbol_name-none : lookup k names ≡ none → lookup k legacy_names ≡ none → symbol_name k ≡ ""
  unfolding symbol_name
  symbol_name-none e h = rw (e, h, symbol_name)

-- What holds of every name in the tables and of the empty text holds of the name of a symbol.
pub symbol_name_elim :
    (P : String → Type 0)
    → All (λ e. P e.1) names
    → All (λ e. P e.1) legacy_names
    → P ""
    → (k : ℕ) → P (symbol_name k)
symbol_name_elim P new old nothing k = elim (Option-cases (lookup k names)) [
  | inr (v, e) ↦ rw (symbol_name_new k v e) (lookup-All P k names v new e)
  | inl e ↦ elim (Option-cases (lookup k legacy_names)) [
    | inr (v, e') ↦ rw (symbol_name_old k v e e') (lookup-All P k legacy_names v old e')
    | inl e' ↦ rw (symbol_name-none k e e') nothing
  ]
]

symbol_name-IsClean : (k : ℕ) → IsClean (symbol_name k)
symbol_name-IsClean = symbol_name_elim (λ s. IsClean s) names-AllClean legacy_names-AllClean refl

name_or_self : Char → String
name_or_self c = arib_external_flag_name (single c) or single c

name_or_self-IsClean : (c : Char) → IsClean (name_or_self c)
unfolding name_or_self arib_external_flag_name
name_or_self-IsClean c = elim (Bool-cases (symbol_name (code c) == "")) [
  | inl plain ↦ rw plain (rw plain)
  | inr symbol ↦ rw symbol (symbol_name-IsClean (code c))
]

-- After the symbols are replaced by their names, no symbol of the tables is left in the text.
pub normalize_arib_external_flags-IsClean : (s : String) → IsClean (normalize_arib_external_flags s)
unfolding normalize_arib_external_flags name_or_self
normalize_arib_external_flags-IsClean [] = refl
normalize_arib_external_flags-IsClean (c ∷ s) = rw (
  all_chars-⧺ is_plain (name_or_self c) (normalize_arib_external_flags s),
  name_or_self-IsClean c,
  normalize_arib_external_flags-IsClean s,
)

normalize_of_clean : (s : String) → IsClean s → normalize_arib_external_flags s ≡ s
unfolding normalize_arib_external_flags arib_external_flag_name
normalize_of_clean [] h = refl
normalize_of_clean (c ∷ s) h =
    let (plain, later) = (and-eq-true_iff (is_plain (code c)) (all_chars is_plain s)).0 h in
    rw plain (ap (λ r. c ∷ r) (normalize_of_clean s later))

-- A second replacement changes nothing.
pub normalize_arib_external_flags_idem :
    (s : String)
    → normalize_arib_external_flags (normalize_arib_external_flags s)
      ≡ normalize_arib_external_flags s
normalize_arib_external_flags_idem s =
    normalize_of_clean (normalize_arib_external_flags s) (normalize_arib_external_flags-IsClean s)

drop_symbols-IsClean : (s : String) → IsClean (drop_symbols s)
unfolding drop_symbols is_arib_external_flag arib_external_flag_name
drop_symbols-IsClean [] = refl
drop_symbols-IsClean (c ∷ s) = elim (Bool-cases (symbol_name (code c) == "")) [
  | inl plain ↦ rw plain (ground (arith, drop_symbols-IsClean s))
  | inr symbol ↦ rw symbol (drop_symbols-IsClean s)
]

strip_program_flags-IsClean : (s : String) → IsClean (strip_program_flags s)
unfolding strip_program_flags
strip_program_flags-IsClean s =
    all_chars-trim is_plain (drop_symbols (remove_flags zero s))
      (drop_symbols-IsClean (remove_flags zero s))

-- The title of a programme is its title, or else its full title, without the flags; where nothing is
-- left of that, it is the id, and for an empty id a fixed text. The replacement of symbols that the
-- code makes after the stripping has nothing left to do.
pub program_title_lem :
    (p : Program)
    → program_title p ≡ (strip_program_flags (p.title or p.full_title) or p.id or "無題")
unfolding program_title
program_title_lem p = rw (
    normalize_of_clean (strip_program_flags (p.title or p.full_title))
      (strip_program_flags-IsClean (p.title or p.full_title)))

-- The title of a programme is never empty, and holds no symbol of the tables if its id holds none.
pub program_title-IsClean :
    (p : Program) → IsClean p.id → (program_title p ≢ "") × IsClean (program_title p)
unfolding program_title symbol_name
program_title-IsClean p h =
    let shown = normalize_arib_external_flags (strip_program_flags (p.title or p.full_title)) in
    (
      or-ne-empty shown (p.id or "無題") (or-ne-empty p.id "無題" (λ e. cc)),
      all_chars-if is_plain (shown == "") (p.id or "無題") shown
          (all_chars-if is_plain (p.id == "") "無題" p.id refl h)
          (normalize_arib_external_flags-IsClean (strip_program_flags (p.title or p.full_title))),
    )
