-- ===== src/Listing/Pages/Laws.antt =====
-- The pages of the recorded list one behind the other, and the buttons that lead through them.
use strata_pvr.Base.{
  ℕ, zero, suc, ◌+◌, ◌-◌, ◌*◌, ◌≤◌, min, max, Option, none, some, List, [], ◌∷◌, ◌++◌, eqb, length,
  take, drop, ◌≡◌, refl, sym, ap, ◌∙◌, ◌⊎◌, inl, inr, arith, if◌then◌else◌,
}
use strata_pvr.Listing.Pages.{
  Pages, Action, normalize_recorded_page_size, recorded_page_count, clamp_recorded_page,
  recorded_page_items, update_recorded_pagination_controls, click, change_page_size, shown_controls,
}

-- The size is one that can be chosen, and the page one of the list.
unfoldable pub IsPages : Pages → ℕ → Type 0
unfolding recorded_page_count
IsPages s total =
    (normalize_recorded_page_size (some s.size) ≡ s.size)
    × (1 ≤ s.page)
    × (s.page ≤ recorded_page_count s total)

size-cases :
    (size : ℕ)
    → normalize_recorded_page_size (some size) ≡ size
    → (size ≡ 50) ⊎ ((size ≡ 100) ⊎ (size ≡ 200))
unfolding normalize_recorded_page_size
size-cases size h = ground arith

normalize-IsPageSize :
    (value : Option ℕ)
    → normalize_recorded_page_size (some (normalize_recorded_page_size value))
      ≡ normalize_recorded_page_size value
unfolding normalize_recorded_page_size
normalize-IsPageSize none = refl
normalize-IsPageSize (some size) = ground arith

-- An empty list has one page.
page_count-zero :
    (s : Pages) → normalize_recorded_page_size (some s.size) ≡ s.size → recorded_page_count s 0 ≡ 1
unfolding recorded_page_count
page_count-zero s h = elim (size-cases s.size h) [
  | inl e ↦ rw e (omega arith)
  | inr (inl e) ↦ rw e (omega arith)
  | inr (inr e) ↦ rw e (omega arith)
]

kept :
    (page count : ℕ)
    → 1 ≤ page
    → page ≤ count
    → max 1 (min count (if eqb page 0 then 1 else page)) ≡ page
kept page count h k = ground arith

-- What is a page of the list is kept.
clamp-IsPages :
    (s : Pages) (total : ℕ)
    → IsPages s total
    → clamp_recorded_page (record s { size = normalize_recorded_page_size (some s.size) }) total ≡ s
unfolding clamp_recorded_page IsPages
clamp-IsPages s total h =
    rw h.0
      (ap (λ page. record s { page = page }) (kept s.page (recorded_page_count s total) h.1 h.2))

shown-disabled :
    (a : Action) (s : Pages) (total : ℕ)
    → IsPages s total
    → (shown_controls s total).disabled a ≡ eqb (click a s total).page s.page
unfolding shown_controls click IsPages
shown-disabled Action.first s total h = ground (arith, page_count-zero s h.0)
shown-disabled Action.prev s total h = ground (arith, page_count-zero s h.0)
shown-disabled Action.next s total h = ground (arith, page_count-zero s h.0)
shown-disabled Action.last s total h = ground (arith, page_count-zero s h.0)

disabled_lem :
    (a : Action) (s : Pages) (total : ℕ)
    → IsPages s total
    → (update_recorded_pagination_controls s total).1.disabled a ≡ eqb (click a s total).page s.page
unfolding update_recorded_pagination_controls click IsPages
disabled_lem a s total h =
    ap (λ s'. (shown_controls s' total).disabled a) (clamp-IsPages s total h)
    ∙ shown-disabled a s total h

-- From a page of the list, every click leads to a page of the list, and so does every choice of a
-- size; a button is shown as disabled exactly if its click keeps the page.
pub click-IsPages :
    (a : Action) (s : Pages) (total : ℕ) (value : Option ℕ)
    → IsPages s total
    → IsPages (click a s total) total
      × IsPages (change_page_size value) total
      × ((update_recorded_pagination_controls s total).1.disabled a
          ≡ eqb (click a s total).page s.page)
unfolding IsPages click change_page_size recorded_page_count
click-IsPages a s total value h = (
  (h.0, omega arith, omega arith),
  (normalize-IsPageSize value, omega arith, omega arith),
  disabled_lem a s total h,
)

take-nil {ℓ} : {A : Type ℓ} (n : ℕ) → take {A = A} n [] ≡ []
take-nil zero = refl
take-nil (suc n) = refl

zero_add : (n : ℕ) → 0 + n ≡ n
zero_add n = omega arith

zero_mul : (n : ℕ) → 0 * n ≡ 0
zero_mul n = omega arith

pred_suc : (n : ℕ) → suc n - 1 ≡ n
pred_suc n = omega arith

suc_add : (m n : ℕ) → suc m + n ≡ suc (m + n)
suc_add m n = omega arith

suc_mul : (m n : ℕ) → suc m * n ≡ m * n + n
suc_mul m n = grind arith

-- `n` pages hold at least `total` items.
page_count-enough :
    (s : Pages) (total : ℕ)
    → normalize_recorded_page_size (some s.size) ≡ s.size
    → total ≤ recorded_page_count s total * s.size
unfolding recorded_page_count
page_count-enough s total h = elim (size-cases s.size h) [
  | inl e ↦ rw e (omega arith)
  | inr (inl e) ↦ rw e (omega arith)
  | inr (inr e) ↦ rw e (omega arith)
]

take-add {ℓ} :
    {A : Type ℓ} (m n : ℕ) (xs : List A) → take (m + n) xs ≡ take m xs ++ take n (drop m xs)
take-add zero n xs = ap (λ k. take k xs) (zero_add n)
take-add (suc m) n [] = take-nil (suc m + n) ∙ sym (take-nil n)
take-add (suc m) n (x ∷ xs) = ap (λ k. take k (x ∷ xs)) (suc_add m n) ∙ ap (x ∷◌) (take-add m n xs)

take-all {ℓ} : {A : Type ℓ} (n : ℕ) (xs : List A) → length xs ≤ n → take n xs ≡ xs
take-all zero [] h = refl
take-all zero (x ∷ xs) h = absurd (omega (arith, h))
take-all (suc n) [] h = refl
take-all (suc n) (x ∷ xs) h = ap (x ∷◌) (take-all n xs (omega (arith, h)))

-- The items of the first `n` pages, one page behind the other.
abbrev pub pages_up_to {ℓ} : {A : Type ℓ} → ℕ → Pages → List A → List A
pages_up_to zero s items = []
pages_up_to (suc n) s items =
    pages_up_to n s items ++ (recorded_page_items (record s { page = suc n }) items).1

pages_up_to-take {ℓ} :
    {A : Type ℓ} (n : ℕ) (s : Pages) (items : List A)
    → n ≤ recorded_page_count s (length items)
    → pages_up_to n s items ≡ take (n * s.size) items
unfolding recorded_page_items
pages_up_to-take zero s items h = sym (ap (λ k. take k items) (zero_mul s.size))
pages_up_to-take (suc n) s items h =
    rw
      (
        pages_up_to-take n s items (omega (arith, h)),
        suc_mul n s.size,
        take-add (n * s.size) s.size items,
        kept (suc n) (recorded_page_count s (length items)) (omega arith) h,
      )
      (rw (pred_suc n) refl)

-- The pages of a list, from the first to the last, are together the whole list in its order.
pub pages_up_to-all {ℓ} :
    {A : Type ℓ} (s : Pages) (items : List A)
    → normalize_recorded_page_size (some s.size) ≡ s.size
    → pages_up_to (recorded_page_count s (length items)) s items ≡ items
pages_up_to-all s items h =
    pages_up_to-take (recorded_page_count s (length items)) s items (omega arith)
    ∙ take-all (recorded_page_count s (length items) * s.size) items
        (page_count-enough s (length items) h)
