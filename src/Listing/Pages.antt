-- ===== src/Listing/Pages.antt =====
-- The pages of the recorded list (web/app.js: `normalizeRecordedPageSize`, `recordedPageCount`,
-- `clampRecordedPage`, `recordedPageItems`, `updateRecordedPaginationControls`,
-- `bindRecordedPagination`). What `Number` reads is given: `none` stands for what is no natural
-- number.
pub mod Laws
use strata_pvr.Base.{
  ℕ, suc, ◌+◌, ◌-◌, ◌*◌, ◌/◌, min, max, String, Bool, true, false, ◌||◌, Option, none, some, List,
  ltb, leb, eqb, length, take, drop, show, ◌⧺◌, if◌then◌else◌,
}

-- `state.recordedPage` and `state.recordedPageSize`
pub record Pages : Type 0 where
  pub page : ℕ
  pub size : ℕ

abbrev recorded_default_page_size : ℕ
recorded_default_page_size = 50

unfoldable pub normalize_recorded_page_size : Option ℕ → ℕ
normalize_recorded_page_size none = recorded_default_page_size
normalize_recorded_page_size (some size) =
    if eqb size 50 || eqb size 100 || eqb size 200 then size else recorded_default_page_size

unfoldable pub recorded_page_count : Pages → ℕ → ℕ
recorded_page_count s total = max 1 ((total + (s.size - 1)) / s.size)

clamp_recorded_page : Pages → ℕ → Pages
unfolding recorded_page_count
clamp_recorded_page s total =
    let page = if eqb s.page 0 then 1 else s.page in
    record s { page = max 1 (min (recorded_page_count s total) page) }

-- The new state, and the items of its page.
unfoldable pub recorded_page_items {ℓ} : {A : Type ℓ} → Pages → List A → Pages × List A
unfolding clamp_recorded_page
recorded_page_items s items =
    let s' = clamp_recorded_page s (length items) in
    (s', take s'.size (drop ((s'.page - 1) * s'.size) items))

pub data Action : Type 0 where
  first : Action
  prev : Action
  next : Action
  last : Action

pub record Controls : Type 0 where
  pub summary : String
  pub disabled : Action → Bool

-- What is shown for a page of the list.
shown_controls : Pages → ℕ → Controls
unfolding recorded_page_count
shown_controls s total =
    let max_page = recorded_page_count s total in
    let start = if ltb 0 total then (s.page - 1) * s.size + 1 else 0 in
    let end = if ltb 0 total then min total (s.page * s.size) else 0 in
    let at_first = leb s.page 1 || eqb total 0 in
    let at_last = leb max_page s.page || eqb total 0 in
    record {
      summary =
          if ltb 0 total then show start ⧺ "-" ⧺ show end ⧺ " / " ⧺ show total ⧺ "件" else "0件";
      disabled = elim [
        | Action.first ↦ at_first
        | Action.prev ↦ at_first
        | Action.next ↦ at_last
        | Action.last ↦ at_last
      ];
    }

pub update_recorded_pagination_controls : Pages → ℕ → Pages × Controls
unfolding clamp_recorded_page normalize_recorded_page_size shown_controls
update_recorded_pagination_controls s total =
    let page_size = normalize_recorded_page_size (some s.size) in
    let s' = clamp_recorded_page (record s { size = page_size }) total in
    (s', shown_controls s' total)

-- The page that a button asks for; `prev` on the first page asks for none.
abbrev asked_page : Action → Pages → ℕ → ℕ
asked_page Action.first s total = 1
asked_page Action.prev s total = s.page - 1
asked_page Action.next s total = s.page + 1
asked_page Action.last s total = recorded_page_count s total

-- A click on a button of the pagination; `total` counts the filtered list.
pub click : Action → Pages → ℕ → Pages
unfolding recorded_page_count
click action s total = record s {
  page = max 1 (min (recorded_page_count s total) (asked_page action s total));
}

-- Another page size is chosen.
pub change_page_size : Option ℕ → Pages
unfolding normalize_recorded_page_size
change_page_size value = record { page = 1; size = normalize_recorded_page_size value }
