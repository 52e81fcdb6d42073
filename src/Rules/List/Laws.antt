-- ===== src/Rules/List/Laws.antt =====
-- The entries of the list of rules (web/app.js: `filteredRules`, `sortedRuleEntries`).
use Prim.Native.Nat.{Ordering}
use mathlib.Core.List.{Perm}
use strata_pvr.Base.{
  ℕ, suc, ◌+◌, ◌≤◌, ◌<◌, ◌⊎◌, true, false, not, some, List, [], ◌∷◌, ◌++◌, ◌or◌, get_elem?, trim,
  filter-partition, All, All-filter, sort, insert, is_gt, sort-IsSorted, IsSorted, ◌≡◌, ap, ◌∙◌,
  inl, inr, Bool-cases, arith,
}
use strata_pvr.Settings.{Properties}
use strata_pvr.Listing.Programs.{Filter}
use strata_pvr.Rules.List.{
  Numbered, Words, numbered, is_disabled, rank, rule_passes, filtered_rules, compare_rules,
  sorted_rule_entries,
}

-- The entry has the number of its rule.
abbrev pub IsNumbered : List Properties → Numbered → Type 0
IsNumbered rules e = get_elem? rules e.index ≡ some e.rule

numbered-All :
    (rules rest : List Properties) (n : ℕ)
    → ((i : ℕ) → get_elem? rules (n + i) ≡ get_elem? rest i)
    → All (IsNumbered rules) (numbered n rest)
numbered-All rules [] n h = tt
numbered-All rules (r ∷ rest) n h = (
  ap (get_elem? rules) (omega arith) ∙ h 0,
  numbered-All rules rest (suc n) λ i. ap (get_elem? rules) (omega arith) ∙ h (suc i),
)

All-insert :
    (P : Numbered → Type 0) (cmp : Numbered → Numbered → Ordering) (x : Numbered)
    (xs : List Numbered)
    → P x
    → All P xs
    → All P (insert cmp x xs)
unfolding insert
All-insert P cmp x [] p _ = (p, tt)
All-insert P cmp x (y ∷ ys) p (q, h) = elim (Bool-cases (is_gt (cmp x y))) [
  | inl e ↦ rw e (q, All-insert P cmp x ys p h)
  | inr e ↦ rw e (p, (q, h))
]

All-sort :
    (P : Numbered → Type 0) (cmp : Numbered → Numbered → Ordering) (xs : List Numbered)
    → All P xs
    → All P (sort cmp xs)
unfolding sort
All-sort P cmp [] h = tt
All-sort P cmp (x ∷ xs) (p, h) = All-insert P cmp x (sort cmp xs) p (All-sort P cmp xs h)

-- However the list is filtered and sorted, each entry stands for the rule that has its number in the
-- list of the server, so an action on an entry reaches the rule that is shown.
pub entries-IsNumbered :
    (w : Words) (f : Filter) (rules : List Properties)
    → All (IsNumbered rules) (sorted_rule_entries w f (filtered_rules w f rules))
unfolding sorted_rule_entries filtered_rules
entries-IsNumbered w f rules =
    All-sort (IsNumbered rules) (compare_rules w (f.sort or "indexAsc")) _ (
      All-filter (IsNumbered rules) (rule_passes w f) (numbered 0 rules)
        (numbered-All rules rules 0 λ i. ap (get_elem? rules) (omega arith)))

-- Rules that are on before rules that are off, and rules of one state by their numbers.
abbrev pub Before : Numbered → Numbered → Type 0
Before a b =
    (rank (is_disabled a.rule) ≤ rank (is_disabled b.rule))
    × ((rank (is_disabled a.rule) < rank (is_disabled b.rule)) ⊎ (a.index ≤ b.index))

Before-trans : (a b c : Numbered) → Before a b → Before b c → Before a c
Before-trans a b c (h, i) (k, l) = (omega arith, ground (arith, h, i, k, l))

state-stays :
    (w : Words) (a b : Numbered) → is_gt (compare_rules w "state" a b) ≡ false → Before a b
unfolding compare_rules
state-stays w a b h = ground (arith, h)

state-moves : (w : Words) (a b : Numbered) → is_gt (compare_rules w "state" a b) ≡ true → Before b a
unfolding compare_rules
state-moves w a b h = ground (arith, h)

-- In the order "state" the rules that are on stand before those that are off, and the rules of one
-- state in the order of their numbers.
pub sorted_rule_entries-IsSorted :
    (w : Words) (f : Filter) (items : List Numbered)
    → IsSorted Before (sorted_rule_entries w (record f { sort = "state" }) items)
unfolding sorted_rule_entries
sorted_rule_entries-IsSorted w f items =
    sort-IsSorted (compare_rules w "state") Before (state-stays w) (state-moves w) Before-trans
      items

module _ (w : Words) (f : Filter) (q : f.query ≡ "") (e : w.locale.lower "" ≡ "") where
  passes_enabled :
      (n : Numbered) → rule_passes w (record f { type = "enabled" }) n ≡ not (is_disabled n.rule)
  unfolding rule_passes trim
  passes_enabled n = rw (q, e) (ground arith)

  passes_disabled :
      (n : Numbered) → rule_passes w (record f { type = "disabled" }) n ≡ is_disabled n.rule
  unfolding rule_passes trim
  passes_disabled n = rw (q, e) (ground arith)

  -- The rules that are shown for "disabled" and for "enabled" are together all rules, each once, if no
  -- text is asked for and the empty text is its own lower case.
  pub filtered_rules-partition :
      (rules : List Properties)
      → Perm
          (filtered_rules w (record f { type = "disabled" }) rules
            ++ filtered_rules w (record f { type = "enabled" }) rules)
          (numbered 0 rules)
  unfolding filtered_rules
  filtered_rules-partition rules =
      filter-partition (rule_passes w (record f { type = "disabled" }))
        (rule_passes w (record f { type = "enabled" }))
        (λ n. rw (passes_enabled n, passes_disabled n)) (numbered 0 rules)
