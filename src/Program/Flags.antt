-- ===== src/Program/Flags.antt =====
-- The flags of a programme (web/app.js: `programFlagNames`, `programFlagClass`).
pub mod Laws
use Prim.Native.Char.{Char}
use Prim.Native.String.{[], ◌∷◌}
use mathlib.Core.Bool.{and-eq-true_iff, or-true}
use strata_pvr.Base.{
  ℕ, String, Bool, true, false, not, ◌&&◌, ◌||◌, Option, none, some, List, ◌++◌, ◌==◌, eq_iff,
  eq_refl, ◌or◌, truthy, seen_in, member, is_inherited, is_distinct, is_distinct-concat,
  member-append, ◌≡◌, refl, inl, inr, Bool-cases, if◌then◌else◌, arith,
}
use strata_pvr.Program.{Program}
use strata_pvr.Program.Tables.{listed_flags, aliases}
use strata_pvr.Program.Title.{
  arib_external_flag_name, is_arib_external_flag, single, is_opening, closes,
}

-- The inner `add`: `found` holds the same texts as `flags`.
add : List String → String → List String
add flags flag = if seen_in flag flags then flags else flags ++ List.◌∷◌ flag List.[]

abbrev add_if : Bool → List String → String → List String
add_if b flags flag = if b then add flags flag else flags

-- `program.flags`, with the symbols by their names.
add_given : List String → List String → List String
add_given flags List.[] = flags
add_given flags (List.◌∷◌ value more) =
    add_given (add_if (truthy value) flags (arib_external_flag_name value or value)) more

abbrev is_some : Option ℕ → Bool
is_some none = false
is_some (some n) = true

-- `new RegExp("(?:\\[|【|\\()" + flag + "(?:\\]|】|\\))").test(raw)`
unfoldable pub in_brackets : String → String → Bool
in_brackets flag [] = false
in_brackets flag (c ∷ s) = (is_opening c && is_some (closes flag s)) || in_brackets flag s

add_known : String → List String → List String → List String
add_known raw flags List.[] = flags
add_known raw flags (List.◌∷◌ flag more) =
    add_known raw (add_if (in_brackets flag raw) flags flag) more

add_aliases : String → List String → List (String × String) → List String
add_aliases raw flags List.[] = flags
add_aliases raw flags (List.◌∷◌ (source, flag) more) =
    add_aliases raw (add_if (in_brackets source raw) flags flag) more

add_symbols : List String → String → List String
add_symbols flags [] = flags
add_symbols flags (c ∷ s) =
    add_symbols
      (add_if (is_arib_external_flag (single c)) flags (arib_external_flag_name (single c))) s

pub program_flag_names : Program → List String
unfolding add_given add_known add_aliases add_symbols in_brackets add
program_flag_names p =
    let raw = p.full_title or p.title in
    let given = add_given List.[] p.flags in
    let known = add_known raw given listed_flags in
    let aliased = add_aliases raw known aliases in add_symbols aliased raw

unfoldable program_flag_class : String → String
program_flag_class flag =
    if flag == "新"
    then "new"
    else (if flag == "終"
        then "end"
        else (if flag == "再"
            then "repeat"
            else (if flag == "字"
                then "caption"
                else (if flag == "無"
                    then "free"
                    else (if flag == "生" then "live" else "default")))))
