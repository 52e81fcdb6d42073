-- ===== src/Program/Flags/Laws.antt =====
-- What the list of a programme's flags holds.
use Prim.Native.Char.{Char, code}
use Prim.Native.String.{[], ◌∷◌}
use mathlib.Core.Path.{subst, sym}
use mathlib.Core.Bool.{and-eq-true_iff}
use strata_pvr.Base.{
  ℕ, String, Bool, true, false, ◌||◌, List, ◌==◌, eq_iff, eq_refl, ◌or◌, truthy, member,
  is_inherited, is_distinct, is_distinct-concat, member-All, member-append, all_chars, All, ◌≡◌,
  refl, inl, inr, Bool-cases, arith,
}
use strata_pvr.Program.{Program}
use strata_pvr.Program.Tables.{names, legacy_names, listed_flags, aliases}
use strata_pvr.Program.Title.{symbol_name, arib_external_flag_name, is_arib_external_flag, single}
use strata_pvr.Program.Title.Clean.{symbol_name_elim}
use strata_pvr.Program.Flags.{
  add, add_if, add_given, in_brackets, add_known, add_aliases, add_symbols, program_flag_names,
}

-- What every addition keeps, the four loops keep.
module _ (P : List String → Type 0)
    (keep : (flags : List String) (flag : String) → P flags → P (add flags flag)) where
  add_if-keep : (b : Bool) (flags : List String) (flag : String) → P flags → P (add_if b flags flag)
  add_if-keep true flags flag h = keep flags flag h
  add_if-keep false flags flag h = h

  add_given-keep : (flags values : List String) → P flags → P (add_given flags values)
  unfolding add_given
  add_given-keep flags List.[] h = h
  add_given-keep flags (List.◌∷◌ value more) h =
      let flag = arib_external_flag_name value or value in
      add_given-keep (add_if (truthy value) flags flag) more
        (add_if-keep (truthy value) flags flag h)

  add_known-keep :
      (raw : String) (flags known : List String) → P flags → P (add_known raw flags known)
  unfolding add_known
  add_known-keep raw flags List.[] h = h
  add_known-keep raw flags (List.◌∷◌ flag more) h =
      add_known-keep raw (add_if (in_brackets flag raw) flags flag) more
        (add_if-keep (in_brackets flag raw) flags flag h)

  add_aliases-keep :
      (raw : String) (flags : List String) (known : List (String × String))
      → P flags
      → P (add_aliases raw flags known)
  unfolding add_aliases
  add_aliases-keep raw flags List.[] h = h
  add_aliases-keep raw flags (List.◌∷◌ (source, flag) more) h =
      add_aliases-keep raw (add_if (in_brackets source raw) flags flag) more
        (add_if-keep (in_brackets source raw) flags flag h)

  add_symbols-keep : (flags : List String) (s : String) → P flags → P (add_symbols flags s)
  unfolding add_symbols
  add_symbols-keep flags [] h = h
  add_symbols-keep flags (c ∷ s) h =
      let b = is_arib_external_flag (single c) in
      let flag = arib_external_flag_name (single c) in
      add_symbols-keep (add_if b flags flag) s (add_if-keep b flags flag h)

add-is_distinct :
    (flags : List String) (flag : String)
    → is_distinct flags ≡ true
    → is_distinct (add flags flag) ≡ true
unfolding add
add-is_distinct flags flag d = ground (arith, is_distinct-concat flags flag d)

add-member :
    (j : String) (flags : List String) (flag : String)
    → member j flags ≡ true
    → member j (add flags flag) ≡ true
unfolding add
add-member j flags flag h = ground (arith, member-append j flags (List.◌∷◌ flag List.[]))

add-member_self :
    (flags : List String) (flag : String)
    → is_inherited flag ≡ false
    → member flag (add flags flag) ≡ true
unfolding add
add-member_self flags flag h =
    ground (arith, member-append flag flags (List.◌∷◌ flag List.[]), eq_refl flag)

abbrev Distinct : List String → Type 0
Distinct flags = is_distinct flags ≡ true

-- No flag of a programme is listed twice.
pub program_flag_names-is_distinct : (p : Program) → is_distinct (program_flag_names p) ≡ true
unfolding program_flag_names
program_flag_names-is_distinct p =
    let raw = p.full_title or p.title in
    let given = add_given List.[] p.flags in
    let known = add_known raw given listed_flags in
    let aliased = add_aliases raw known aliases in
    add_symbols-keep Distinct add-is_distinct aliased raw (
      add_aliases-keep Distinct add-is_distinct raw known aliases (
        add_known-keep Distinct add-is_distinct raw given listed_flags
          (add_given-keep Distinct add-is_distinct List.[] p.flags refl)))

add_known-member :
    (raw j : String) (flags known : List String)
    → is_inherited j ≡ false
    → in_brackets j raw ≡ true
    → member j known ≡ true
    → member j (add_known raw flags known) ≡ true
unfolding add_known
add_known-member raw j flags List.[] n b m = cc
add_known-member raw j flags (List.◌∷◌ flag more) n b m = elim (Bool-cases (flag == j)) [
  | inl same ↦
      let e = (eq_iff flag j).0 same in
      add_known-keep (λ fs. member j fs ≡ true) (add-member j) raw
        (add_if (in_brackets flag raw) flags flag) more (rw (e, b) (add-member_self flags j n))
  | inr other ↦
      add_known-member raw j (add_if (in_brackets flag raw) flags flag) more n b (rw other at m)
]

listed_flags-All : All (λ k. is_inherited k ≡ false) listed_flags
unfolding is_inherited
listed_flags-All = ground arith

listed_flags-not_inherited : (j : String) → member j listed_flags ≡ true → is_inherited j ≡ false
listed_flags-not_inherited j h =
    member-All (λ k. is_inherited k ≡ false) j listed_flags listed_flags-All h

-- A flag of the list that stands in brackets in the full title, or in the title where there is no
-- full title, is among the flags of the programme.
pub program_flag_names-bracketed :
    (p : Program) (flag : String)
    → member flag listed_flags ≡ true
    → in_brackets flag (p.full_title or p.title) ≡ true
    → member flag (program_flag_names p) ≡ true
unfolding program_flag_names
program_flag_names-bracketed p flag listed found =
    let raw = p.full_title or p.title in
    let given = add_given List.[] p.flags in
    let known = add_known raw given listed_flags in
    let aliased = add_aliases raw known aliases in
    let Holds = λ (fs : List String). member flag fs ≡ true in
    add_symbols-keep Holds (add-member flag) aliased raw (
      add_aliases-keep Holds (add-member flag) raw known aliases (
        add_known-member raw flag given listed_flags (listed_flags-not_inherited flag listed) found
          listed))

-- No name in the tables is one that every object inherits.
abbrev IsOwn : String → Type 0
IsOwn name = is_inherited name ≡ false

names-All : All (λ e. IsOwn e.1) names
unfolding is_inherited
names-All = ground arith

legacy_names-All : All (λ e. IsOwn e.1) legacy_names
unfolding is_inherited
legacy_names-All = ground arith

empty-IsOwn : IsOwn ""
unfolding is_inherited
empty-IsOwn = refl

symbol_name-IsOwn : (k : ℕ) → IsOwn (symbol_name k)
symbol_name-IsOwn = symbol_name_elim (λ s. IsOwn s) names-All legacy_names-All empty-IsOwn

-- Each character of the text is no symbol, or its name is among the flags.
abbrev pub NamedIn : List String → String → Type 0
NamedIn flags s = all_chars (λ k. symbol_name k == "" || member (symbol_name k) flags) s ≡ true

module _ (flags : List String) (c : Char) (s : String) where
  add_symbols-plain :
      symbol_name (code c) == "" ≡ true → add_symbols flags (c ∷ s) ≡ add_symbols flags s
  unfolding add_symbols is_arib_external_flag arib_external_flag_name
  add_symbols-plain plain = rw plain

  add_symbols-symbol :
      symbol_name (code c) == "" ≡ false
      → add_symbols flags (c ∷ s) ≡ add_symbols (add flags (symbol_name (code c))) s
  unfolding add_symbols is_arib_external_flag arib_external_flag_name
  add_symbols-symbol symbol = rw symbol

NamedIn-cons :
    (flags : List String) (c : Char) (s : String)
    → (symbol_name (code c) == "" || member (symbol_name (code c)) flags) ≡ true
    → NamedIn flags s
    → NamedIn flags (c ∷ s)
NamedIn-cons flags c s h k = (and-eq-true_iff _ _).1 (h, k)

add_symbols-NamedIn : (flags : List String) (s : String) → NamedIn (add_symbols flags s) s
add_symbols-NamedIn flags [] = refl
add_symbols-NamedIn flags (c ∷ s) = elim (Bool-cases (symbol_name (code c) == "")) [
  | inl plain ↦
      subst (λ fs. NamedIn fs (c ∷ s)) (sym (add_symbols-plain flags c s plain))
        (NamedIn-cons (add_symbols flags s) c s (rw plain) (add_symbols-NamedIn flags s))
  | inr symbol ↦
      let name = symbol_name (code c) in
      let there =
        add_symbols-keep (λ fs. member name fs ≡ true) (add-member name) (add flags name) s
          (add-member_self flags name (symbol_name-IsOwn (code c))) in
      subst (λ fs. NamedIn fs (c ∷ s)) (sym (add_symbols-symbol flags c s symbol))
        (NamedIn-cons (add_symbols (add flags name) s) c s (rw (symbol, there))
          (add_symbols-NamedIn (add flags name) s))
]

-- Every symbol of the tables in the full title, or in the title where there is no full title, has
-- its name among the flags of the programme.
pub program_flag_names-NamedIn :
    (p : Program) → NamedIn (program_flag_names p) (p.full_title or p.title)
unfolding program_flag_names
program_flag_names-NamedIn p = add_symbols-NamedIn _ (p.full_title or p.title)
