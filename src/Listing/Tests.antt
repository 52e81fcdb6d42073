-- ===== src/Listing/Tests.antt =====
-- Two programmes in the lists, and a search that is answered out of order.
use Prim.Native.Nat.{Ordering}
use strata_pvr.Base.{some, true, List, [], ◌∷◌, eqb, length, IsSorted, ◌≡◌, refl, arith}
use strata_pvr.Program.{Program}
use strata_pvr.Program.Samples.{news, film}
use strata_pvr.Listing.Programs.{Locale, Filter, sorted_programs}
use strata_pvr.Listing.Programs.Laws.{Earlier, Later, Shorter, sorted_programs-IsSorted}
use strata_pvr.Listing.Pages.{
  Pages, Action, normalize_recorded_page_size, recorded_page_count, click, change_page_size,
  update_recorded_pagination_controls,
}
use strata_pvr.Listing.Pages.Laws.{IsPages, click-IsPages, pages_up_to, pages_up_to-all}
use strata_pvr.Listing.Search.{
  Field, Event, Sent, Search, default_search_filter, step, run, initial,
}
use strata_pvr.Listing.Search.Settled.{Follows, IsPage, run-Settled, channel_link-ignored}

-- Texts are compared as equal, and none has another lower case.
abbrev locale : Locale
locale = record { lower = λ s. s; compare_text = λ a b. Ordering.eq }

abbrev no_filter : Filter
no_filter = record { query = ""; category = ""; type = ""; sort = "title" }

abbrev items : List Program
items = news ∷ film ∷ news ∷ []

order_example :
    IsSorted Later (sorted_programs locale (record no_filter { sort = "" }) "recorded" items)
    × IsSorted Earlier (sorted_programs locale (record no_filter { sort = "" }) "reserves" items)
    × IsSorted Shorter
        (sorted_programs locale (record no_filter { sort = "duration" }) "reserves" items)
order_example = sorted_programs-IsSorted locale no_filter "reserves" items

abbrev cinema_filter : Filter
cinema_filter = record no_filter { category = "cinema" }

abbrev second : Pages
second = record { page = 2; size = 50 }

second-IsPages : IsPages second 120
unfolding IsPages normalize_recorded_page_size recorded_page_count
second-IsPages = (refl, omega arith, omega arith)

click_example :
    IsPages (click Action.next second 120) 120
    × IsPages (change_page_size (some 100)) 120
    × ((update_recorded_pagination_controls second 120).1.disabled Action.next
        ≡ eqb (click Action.next second 120).page 2)
click_example = click-IsPages Action.next second 120 (some 100) second-IsPages

pages_example : pages_up_to (recorded_page_count second (length items)) second items ≡ items
unfolding normalize_recorded_page_size
pages_example = pages_up_to-all second items refl

-- The first reply comes after the second request, and the second reply has one page.
abbrev events : List Event
events =
    Event.chosen Field.type "GR"
    ∷ Event.typed Field.query " film "
    ∷ Event.delay_ends
    ∷ Event.replied 1 (record { total = 80; items = news ∷ []; categories = []; channels = [] })
    ∷ Event.replied 0 (record { total = 1; items = film ∷ []; categories = []; channels = [] })
    ∷ []

settled_example :
    Follows
      (run events (initial default_search_filter)).asked
      (run events (initial default_search_filter)).page
      (run events (initial default_search_filter)).shown
    × IsPage
        (run events (initial default_search_filter)).page
        (run events (initial default_search_filter)).total
unfolding run initial
settled_example = run-Settled default_search_filter events refl refl refl refl

abbrev shown : Search
shown = record (initial default_search_filter) { is_loaded = true; items = film ∷ []; total = 1 }

linked_example :
    let s' = step (Event.opened true) (step (Event.linked "3273601024") shown) in
    (s'.asked.channel_id ≡ "3273601024")
    × (s'.items ≡ shown.items)
    × (s'.total ≡ shown.total)
    × (s'.sent ≡ shown.sent)
    × (s'.is_requested ≡ shown.is_requested)
unfolding initial
linked_example = channel_link-ignored "3273601024" shown refl

abbrev old_request : Sent
old_request = record { version = 3; asked = default_search_filter; page = 1 }
