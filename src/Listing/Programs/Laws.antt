-- ===== src/Listing/Programs/Laws.antt =====
-- What the lists of programmes show, and in which order.
use Prim.Native.Nat.{Ordering}
use mathlib.Core.List.{Perm}
use strata_pvr.Base.{
  ◌+◌, ◌≤◌, String, Bool, true, false, not, ◌&&◌, ◌||◌, List, [], ◌∷◌, ◌++◌, ◌==◌, eq_iff, ◌or◌,
  truthy, any, is_inherited, is_distinct, is_distinct-concat, member, member-append, sort, insert,
  sort-perm, sort-IsSorted, IsSorted, is_gt, filter-partition, trim, ◌≡◌, refl, inl, inr,
  Bool-cases, if◌then◌else◌, arith,
}
use strata_pvr.Program.{Program, program_category, program_end}
use strata_pvr.Listing.Programs.{
  Locale, Filter, passes, filtered_programs, compare_programs, default_order, sorted_programs,
  with_category, categories_from, list_categories, selected_category,
}

-- A list is shown sorted with all its programmes, each as often as it is there.
pub sorted_programs-perm :
    (l : Locale) (f : Filter) (filter_name : String) (items : List Program)
    → Perm (sorted_programs l f filter_name items) items
unfolding sorted_programs
sorted_programs-perm l f filter_name items =
    sort-perm (compare_programs l (f.sort or default_order filter_name)) items

abbrev pub Earlier : Program → Program → Type 0
Earlier a b = a.start ≤ b.start

abbrev pub Later : Program → Program → Type 0
Later a b = b.start ≤ a.start

-- The duration of `a` is at most that of `b`.
abbrev pub Shorter : Program → Program → Type 0
Shorter a b = program_end a + b.start ≤ program_end b + a.start

module _ (l : Locale) (a b : Program) where
  start_desc-stays : is_gt (compare_programs l "startDesc" a b) ≡ false → Later a b
  unfolding compare_programs
  start_desc-stays h = ground arith

  start_desc-moves : is_gt (compare_programs l "startDesc" a b) ≡ true → Later b a
  unfolding compare_programs
  start_desc-moves h = ground arith

  start_asc-stays : is_gt (compare_programs l "startAsc" a b) ≡ false → Earlier a b
  unfolding compare_programs
  start_asc-stays h = ground arith

  start_asc-moves : is_gt (compare_programs l "startAsc" a b) ≡ true → Earlier b a
  unfolding compare_programs
  start_asc-moves h = ground arith

  duration-stays : is_gt (compare_programs l "duration" a b) ≡ false → Shorter a b
  unfolding compare_programs
  duration-stays h = ground arith

  duration-moves : is_gt (compare_programs l "duration" a b) ≡ true → Shorter b a
  unfolding compare_programs
  duration-moves h = ground arith

-- Without a chosen order the recorded programmes are shown from the latest start to the earliest,
-- and the reserves from the earliest to the latest; in the order "duration" each list is shown from
-- the shortest programme to the longest.
pub sorted_programs-IsSorted :
    (l : Locale) (f : Filter) (filter_name : String) (items : List Program)
    → IsSorted Later (sorted_programs l (record f { sort = "" }) "recorded" items)
      × IsSorted Earlier (sorted_programs l (record f { sort = "" }) "reserves" items)
      × IsSorted Shorter (sorted_programs l (record f { sort = "duration" }) filter_name items)
unfolding sorted_programs
sorted_programs-IsSorted l f filter_name items = (
  sort-IsSorted (compare_programs l "startDesc") Later (start_desc-stays l) (start_desc-moves l)
      (λ x y z h k. omega arith) items,
  sort-IsSorted (compare_programs l "startAsc") Earlier (start_asc-stays l) (start_asc-moves l)
      (λ x y z h k. omega arith) items,
  sort-IsSorted (compare_programs l "duration") Shorter (duration-stays l) (duration-moves l)
      (λ x y z h k. omega arith) items,
)

module _ (l : Locale) (f : Filter) (q : f.query ≡ "") (c : f.category ≡ "")
    (e : l.lower "" ≡ "") where
  passes_manual :
      (p : Program) → passes l (record f { type = "manual" }) "reserves" p ≡ p.is_manual_reserved
  unfolding passes trim
  passes_manual p = rw (q, c, e) (ground arith)

  passes_auto :
      (p : Program) → passes l (record f { type = "auto" }) "reserves" p ≡ not p.is_manual_reserved
  unfolding passes trim
  passes_auto p = rw (q, c, e) (ground arith)

  -- The reserves that are shown for "manual" and for "auto" are together all reserves, each once, if
  -- no text and no category is asked for and the empty text is its own lower case.
  pub filtered_programs-partition :
      (items : List Program)
      → Perm
          (filtered_programs l (record f { type = "manual" }) "reserves" items
            ++ filtered_programs l (record f { type = "auto" }) "reserves" items)
          items
  unfolding filtered_programs
  filtered_programs-partition items =
      filter-partition (passes l (record f { type = "manual" }) "reserves")
        (passes l (record f { type = "auto" }) "reserves")
        (λ p. rw (passes_manual p, passes_auto p)) items

-- A sort keeps what is a member, and distinct texts distinct.
module _ (cmp : String → String → Ordering) where
  member-insert :
      (k x : String) (xs : List String) → member k (insert cmp x xs) ≡ (x == k || member k xs)
  unfolding insert
  member-insert k x [] = refl
  member-insert k x (y ∷ ys) = ground (arith, member-insert k x ys)

  member-sort : (k : String) (xs : List String) → member k (sort cmp xs) ≡ member k xs
  unfolding sort
  member-sort k [] = refl
  member-sort k (x ∷ xs) = rw (member-insert k x (sort cmp xs), member-sort k xs)

  is_distinct-insert :
      (x : String) (xs : List String)
      → is_distinct xs ≡ true
      → member x xs ≡ false
      → is_distinct (insert cmp x xs) ≡ true
  unfolding insert
  is_distinct-insert x [] d n = refl
  is_distinct-insert x (y ∷ ys) d n =
      ground (arith, is_distinct-insert x ys, member-insert y x ys, eq_iff x y, eq_iff y x)

  is_distinct-sort : (xs : List String) → is_distinct xs ≡ true → is_distinct (sort cmp xs) ≡ true
  unfolding sort
  is_distinct-sort [] d = refl
  is_distinct-sort (x ∷ xs) d =
      is_distinct-insert x (sort cmp xs) (is_distinct-sort xs (ground arith))
        (rw (member-sort x xs) (ground arith))

abbrev pub has_category : String → List Program → Bool
has_category c = any (λ p. program_category p == c)

with_category-is_distinct :
    (c : String) (values : List String)
    → is_distinct values ≡ true
    → is_distinct (with_category c values) ≡ true
unfolding with_category
with_category-is_distinct c values d = ground (arith, is_distinct-concat values c d)

member-with_category :
    (k c : String) (values : List String)
    → truthy k ≡ true
    → is_inherited k ≡ false
    → member k (with_category c values) ≡ (member k values || c == k)
unfolding with_category
member-with_category k c values t n =
    ground (arith, member-append k values (c ∷ []), eq_iff c k, eq_iff c "", eq_iff k "")

categories_from-is_distinct :
    (values : List String) (items : List Program)
    → is_distinct values ≡ true
    → is_distinct (categories_from values items) ≡ true
unfolding categories_from
categories_from-is_distinct values [] d = d
categories_from-is_distinct values (p ∷ items) d =
    categories_from-is_distinct (with_category (program_category p) values) items
      (with_category-is_distinct (program_category p) values d)

member-categories_from :
    (c : String) (values : List String) (items : List Program)
    → truthy c ≡ true
    → is_inherited c ≡ false
    → member c (categories_from values items) ≡ (member c values || has_category c items)
unfolding categories_from
member-categories_from c values [] t n = ground arith
member-categories_from c values (p ∷ items) t n = ground (
  arith,
  member-categories_from c (with_category (program_category p) values) items t n,
  member-with_category c (program_category p) values t n,
)

list_categories-member :
    (l : Locale) (items : List Program) (c : String)
    → (member c (list_categories l items) && truthy c && not (is_inherited c))
      ≡ (has_category c items && truthy c && not (is_inherited c))
unfolding list_categories
list_categories-member l items c = elim (Bool-cases (truthy c)) [
  | inr e ↦ ground arith
  | inl t ↦ elim (Bool-cases (is_inherited c)) [
    | inl i ↦ ground arith
    | inr n ↦
        rw
          (
            member-sort l.compare_text c (categories_from [] items),
            member-categories_from c [] items t n,
          )
          refl
  ]
]

-- The categories that are offered are distinct, and a category that is not empty and no name that
-- every object inherits is offered exactly if a programme of the list has it.
pub list_categories_lem :
    (l : Locale) (items : List Program)
    → (is_distinct (list_categories l items) ≡ true)
      × ((c : String)
          → (member c (list_categories l items) && truthy c && not (is_inherited c))
            ≡ (has_category c items && truthy c && not (is_inherited c)))
unfolding list_categories
list_categories_lem l items = (
  is_distinct-sort l.compare_text (categories_from [] items)
      (categories_from-is_distinct [] items refl),
  list_categories-member l items,
)

when_selected :
    (b : Bool) (f : Filter) (P : String → Type 0)
    → (b ≡ false → truthy f.category ≡ true → P f.category)
    → truthy (if b then (record f { category = "" }) else f).category ≡ true
    → P (if b then (record f { category = "" }) else f).category
when_selected true f P h t = cc
when_selected false f P h t = h refl t

offered :
    (c : String) (in_list has : Bool)
    → (in_list && truthy c && not (is_inherited c)) ≡ (has && truthy c && not (is_inherited c))
    → (truthy c && not ("" == c || in_list)) ≡ false
    → truthy c ≡ true
    → is_inherited c ≡ false
    → has ≡ true
offered c in_list has same e t n = ground (arith, same, e, t, n, eq_iff "" c, eq_iff c "")

-- A category that is still selected after the options were made, and that is no name that every
-- object inherits, is the category of a programme of the list; no text selects every category.
pub selected_category_lem :
    (l : Locale) (f : Filter) (items : List Program)
    → truthy (selected_category l f items).category ≡ true
    → is_inherited (selected_category l f items).category ≡ false
    → has_category (selected_category l f items).category items ≡ true
unfolding selected_category
selected_category_lem l f items =
    when_selected (truthy f.category && not (member f.category ("" ∷ list_categories l items))) f
      (λ c. is_inherited c ≡ false → has_category c items ≡ true)
      (λ e t n. offered f.category _ _ (list_categories-member l items f.category) e t n)
