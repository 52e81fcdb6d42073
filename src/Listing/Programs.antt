-- ===== src/Listing/Programs.antt =====
-- Filtering and sorting programmes (web/app.js: `normalizeSearchText`, `programSearchText`,
-- `filteredPrograms`, `sortedPrograms`, `listCategories`, `updateListCategoryOptions`). What the
-- platform's language data decides is a parameter: the lower case of a text, and the order of two
-- texts, `localeCompare`.
pub mod Laws
use Prim.Native.Nat.{Ordering, compare}
use strata_pvr.Base.{
  ℕ, ◌+◌, String, Bool, true, false, not, ◌&&◌, ◌||◌, Option, none, some, List, [], ◌∷◌, ◌++◌, ◌==◌,
  ◌or◌, truthy, filter, includes, join, trim, seen_in, member, sort, then_by, flip, if◌then◌else◌,
}
use strata_pvr.Program.{
  Program, program_category, program_end, channel_name, program_channel_id, program_channel_type,
}
use strata_pvr.Program.Title.{program_title}

pub record Locale : Type 0 where
  -- `toLocaleLowerCase("ja")`
  pub lower : String → String
  -- `a.localeCompare(b, "ja")`
  pub compare_text : String → String → Ordering

-- A filter of `state.listFilters`; a key that the list has no use for is empty.
pub record Filter : Type 0 where
  pub query : String
  pub category : String
  pub type : String
  pub sort : String

abbrev pub normalize_search_text : Locale → String → String
normalize_search_text l value = trim (l.lower value)

unfoldable program_search_text : Program → String
program_search_text p = join " " (
    filter truthy (
      p.id
      ∷ program_title p
      ∷ p.title
      ∷ p.full_title
      ∷ p.detail
      ∷ p.description
      ∷ program_category p
      ∷ channel_name p.channel
      ∷ program_channel_id p.channel
      ∷ program_channel_type p.channel p.type
      ∷ []))

-- The test of `filteredPrograms`, with its early returns.
passes : Locale → Filter → String → Program → Bool
passes l f filter_name p =
    let query = normalize_search_text l f.query in
    let reservation_type = if filter_name == "reserves" then f.type else "" in
    if truthy f.category && not (program_category p == f.category)
    then false
    else (if reservation_type == "manual" && not p.is_manual_reserved
        then false
        else (if reservation_type == "auto" && p.is_manual_reserved
            then false
            else (if reservation_type == "skip" && (p.is_manual_reserved || not p.is_skip)
                then false
                else (not (truthy query)
                    || includes (normalize_search_text l (program_search_text p)) query))))

pub filtered_programs : Locale → Filter → String → List Program → List Program
unfolding passes
filtered_programs l f filter_name items = filter (passes l f filter_name) items

-- The comparator of `sortedPrograms`. Durations may be negative, so they are compared as sums.
compare_programs : Locale → String → Program → Program → Ordering
compare_programs l order a b =
    let start_order = compare a.start b.start in
    if order == "startDesc"
    then flip start_order
    else (if order == "category"
        then then_by (l.compare_text (program_category a) (program_category b)) start_order
        else (if order == "title"
            then then_by (l.compare_text (program_title a) (program_title b)) start_order
            else (if order == "duration"
                then then_by (compare (program_end a + b.start) (program_end b + a.start))
                    start_order
                else start_order)))

abbrev default_order : String → String
default_order filter_name = if filter_name == "recorded" then "startDesc" else "startAsc"

pub sorted_programs : Locale → Filter → String → List Program → List Program
unfolding compare_programs
sorted_programs l f filter_name items =
    sort (compare_programs l (f.sort or default_order filter_name)) items

-- `if (category && !seen[category]) { seen[category] = true; values.push(category); }`
unfoldable pub with_category : String → List String → List String
with_category category values =
    if truthy category && not (seen_in category values) then values ++ category ∷ [] else values

-- The loop of `listCategories`, and its sort.
categories_from : List String → List Program → List String
unfolding with_category
categories_from values [] = values
categories_from values (p ∷ items) =
    categories_from (with_category (program_category p) values) items

pub list_categories : Locale → List Program → List String
unfolding categories_from
list_categories l items = sort l.compare_text (categories_from [] items)

-- The category that is selected after `updateListCategoryOptions` has filled the options: the first
-- option, with the empty text, stands for every category.
unfoldable pub selected_category : Locale → Filter → List Program → Filter
unfolding list_categories
selected_category l f items =
    if truthy f.category && not (member f.category ("" ∷ list_categories l items))
    then (record f { category = "" })
    else f
