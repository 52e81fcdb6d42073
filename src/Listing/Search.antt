-- ===== src/Listing/Search.antt =====
-- The search page (web/app.js: `searchRequestPath`, `loadSearchPage`, `renderSearch` with
-- `renderSearchFilterOptions`, `bindSearchControls`, and the other places that set the filter or send
-- its request: `channelLink`, `applyLegacySearchHash`, `setView`, `refresh`). Replies come in any order, and a reply or a
-- failure names the request that it belongs to by its place in `sent`. The listeners also keep the
-- filters in the storage, see Settings/Filters.
pub mod Settled
use strata_pvr.Base.{
  ℕ, suc, ◌+◌, ◌-◌, ◌*◌, ◌/◌, min, max, String, Bool, true, false, not, ◌&&◌, ◌||◌, Option, none,
  some, List, [], ◌∷◌, ◌==◌, eqb, get_elem?, filter, map, show, trim, truthy, member, join, ◌⧺◌,
  if◌then◌else◌,
}
use strata_pvr.Program.{Program, Channel}
use strata_pvr.Player.Url.Encode.{encode_uri_component}

-- `state.listFilters.search`
pub record SearchFilter : Type 0 where
  pub query : String
  pub category : String
  pub type : String
  pub title : String
  pub description : String
  pub program_id : String
  pub channel_id : String
  pub start_hour : String
  pub end_hour : String

abbrev pub default_search_filter : SearchFilter
default_search_filter = record {
  query = "";
  category = "";
  type = "";
  title = "";
  description = "";
  program_id = "";
  channel_id = "";
  start_hour = "";
  end_hour = "";
}

-- The keys of the filter, each with its control.
pub data Field : Type 0 where
  query : Field
  category : Field
  type : Field
  title : Field
  description : Field
  program_id : Field
  channel_id : Field
  start_hour : Field
  end_hour : Field

abbrev set_field : Field → String → SearchFilter → SearchFilter
set_field Field.query value f = record f { query = value }
set_field Field.category value f = record f { category = value }
set_field Field.type value f = record f { type = value }
set_field Field.title value f = record f { title = value }
set_field Field.description value f = record f { description = value }
set_field Field.program_id value f = record f { program_id = value }
set_field Field.channel_id value f = record f { channel_id = value }
set_field Field.start_hour value f = record f { start_hour = value }
set_field Field.end_hour value f = record f { end_hour = value }

abbrev search_page_size : ℕ
search_page_size = 50

-- `searchRequestPath`; the limit and the offset are numbers, and never left out.
unfoldable search_request_path : SearchFilter → ℕ → String
unfolding encode_uri_component show
search_request_path f page =
    let params : List (String × String) =
      ("query", f.query)
      ∷ ("title", f.title)
      ∷ ("description", f.description)
      ∷ ("category", f.category)
      ∷ ("type", f.type)
      ∷ ("programID", f.program_id)
      ∷ ("channelID", f.channel_id)
      ∷ ("startHour", f.start_hour)
      ∷ ("endHour", f.end_hour)
      ∷ ("limit", show search_page_size)
      ∷ ("offset", show ((page - 1) * search_page_size))
      ∷ [] in
    "search?"
    ⧺ join "&" (
        map (λ item. encode_uri_component item.0 ⧺ "=" ⧺ encode_uri_component item.1)
          (filter (λ item. truthy item.1) params))

-- A request that was sent: its `requestVersion`, and what its path asked for.
pub record Sent : Type 0 where
  pub version : ℕ
  pub asked : SearchFilter
  pub page : ℕ

-- A reply, where what is no number or no array reads as 0 or as empty.
pub record Reply : Type 0 where
  pub total : ℕ
  pub items : List Program
  pub categories : List String
  pub channels : List Channel

-- The state of the search. `latest`, `shown` and `failed` record what happened: the last request,
-- the request whose reply is shown, and the versions of the requests whose failure was shown;
-- `is_redirected` that since the last request was sent a link or an address has set the filter, or that
-- the page was drawn and the list that is there does not have its number.
pub record Search : Type 0 where
  pub asked : SearchFilter
  pub page : ℕ
  pub items : List Program
  pub total : ℕ
  pub categories : List String
  pub channels : List Channel
  pub is_loaded : Bool
  pub is_requested : Bool
  pub version : ℕ
  pub is_delayed : Bool
  pub sent : List Sent
  pub latest : Sent
  pub shown : Sent
  pub failed : List ℕ
  pub is_redirected : Bool

unfoldable pub search_page_count : ℕ → ℕ
search_page_count total = max 1 ((total + 49) / search_page_size)

-- `Math.max(1, Math.min(pageCount, Number(page) || 1))`
clamp_search_page : ℕ → ℕ → ℕ
unfolding search_page_count
clamp_search_page total page =
    max 1 (min (search_page_count total) (if eqb page 0 then 1 else page))

-- The state after `renderSearch`: a category that is not among the options is left.
render_search : Search → Search
unfolding clamp_search_page
render_search s =
    let f =
      if member s.asked.category ("" ∷ s.categories)
      then s.asked
      else (record s.asked { category = "" }) in
    record s { asked = f; page = clamp_search_page s.total s.page }

-- `loadSearchPage` until the request is sent.
pub load_search_page : Search → Search
load_search_page s =
    let request : Sent = record { version = suc s.version; asked = s.asked; page = s.page } in
    record s {
      version = suc s.version;
      is_requested = true;
      sent = request ∷ s.sent;
      latest = request;
      is_redirected = false;
    }

-- A reply to the request is accepted.
accept : Sent → Reply → Search → Search
unfolding render_search
accept request reply s =
    let shown = render_search (record s {
      items = reply.items;
      total = reply.total;
      categories = reply.categories;
      channels = reply.channels;
      is_loaded = true;
      shown = request;
    }) in
    record shown { is_requested = false }

-- The handler of a reply, with `finally`: after it has sent a request of its own, the version is
-- another.
pub receive : Sent → Reply → Search → Search
unfolding clamp_search_page load_search_page accept
receive request reply s =
    let next_page = clamp_search_page reply.total s.page in
    if not (eqb request.version s.version)
    then s
    else (if not (eqb next_page s.page)
        then load_search_page (record s { page = next_page })
        else accept request reply s)

-- `catch(showError)` and `finally`.
pub fail : Sent → Search → Search
fail request s =
    let requested = if eqb request.version s.version then false else s.is_requested in
    record s { failed = request.version ∷ s.failed; is_requested = requested }

pub data Action : Type 0 where
  first : Action
  prev : Action
  next : Action
  last : Action

abbrev pub asked_page : Action → Search → ℕ
asked_page Action.first s = 1
asked_page Action.prev s = s.page - 1
asked_page Action.next s = s.page + 1
asked_page Action.last s = search_page_count s.total

pub data Event : Type 0 where
  -- A text is typed: the request is sent later, `delay_ends`.
  typed : Field → String → Event
  -- An option is chosen.
  chosen : Field → String → Event
  reset : Event
  clicked : Action → Event
  delay_ends : Event
  replied : ℕ → Reply → Event
  refused : ℕ → Event
  -- The link of a channel is clicked.
  linked : String → Event
  -- An old address is read, with the filter and the number of the page that it gives.
  addressed : SearchFilter → ℕ → Event
  -- The page is gone to, before or after the first data was loaded.
  opened : Bool → Event
  -- A refresh ends while the page is shown, after the first data was loaded.
  refreshed : Bool → Event

-- What the listeners of the filter's controls have in common.
change_filter : SearchFilter → Search → Search
unfolding render_search
change_filter f s = render_search (record s { asked = f; page = 1; is_loaded = false })

-- The listener of a channel's link. The view that it goes to is an event of its own.
channel_link : String → Search → Search
unfolding render_search
channel_link id s =
    render_search
      (record s { asked = record s.asked { channel_id = id }; page = 1; is_redirected = true })

-- What `applyLegacySearchHash` sets.
apply_legacy_search_hash : SearchFilter → ℕ → Search → Search
apply_legacy_search_hash f page s = record s {
  asked = f;
  page = max 1 (page + 1);
  is_redirected = true;
}

-- The search is drawn with the other views, which may change the page.
draw_search : Search → Search
unfolding render_search
draw_search s =
    let shown = render_search s in
    record shown { is_redirected = s.is_redirected || not (eqb shown.page s.page) }

-- The part of `setView` for the search; only a list that was not loaded is asked for.
set_view : Bool → Search → Search
unfolding draw_search load_search_page
set_view false s = s
set_view true s =
    let shown = draw_search s in if shown.is_loaded then shown else load_search_page shown

-- The part of `refresh` for the search; a refresh that failed draws nothing.
refresh_search : Bool → Search → Search
unfolding load_search_page draw_search
refresh_search is_ok s =
    load_search_page (record (if is_ok then draw_search s else s) { is_loaded = false })

on_sent : (Sent → Search → Search) → Option Sent → Search → Search
on_sent handle none s = s
on_sent handle (some request) s = handle request s

unfoldable pub step : Event → Search → Search
unfolding change_filter load_search_page render_search receive fail on_sent trim search_page_count
    channel_link apply_legacy_search_hash set_view refresh_search draw_search
step (Event.typed field value) s = record (change_filter (set_field field (trim value) s.asked) s) {
  is_delayed = true;
}
step (Event.chosen field value) s =
    load_search_page (change_filter (set_field field (trim value) s.asked) s)
step Event.reset s = load_search_page (change_filter default_search_filter s)
step (Event.clicked action) s =
    load_search_page (render_search (record s { page = asked_page action s }))
step Event.delay_ends s =
    if s.is_delayed then load_search_page (record s { is_delayed = false }) else s
step (Event.replied i reply) s = on_sent (λ request. receive request reply) (get_elem? s.sent i) s
step (Event.refused i) s = on_sent fail (get_elem? s.sent i) s
step (Event.linked id) s = channel_link id s
step (Event.addressed f page) s = apply_legacy_search_hash f page s
step (Event.opened has_loaded) s = set_view has_loaded s
step (Event.refreshed is_ok) s = refresh_search is_ok s

unfoldable pub run : List Event → Search → Search
unfolding step
run [] s = s
run (e ∷ events) s = run events (step e s)

-- The first state, where `asked` was loaded from the storage.
unfoldable pub initial : SearchFilter → Search
initial f =
    let nothing : Sent = record { version = 0; asked = f; page = 1 } in
    record {
      asked = f;
      page = 1;
      items = [];
      total = 0;
      categories = [];
      channels = [];
      is_loaded = false;
      is_requested = false;
      version = 0;
      is_delayed = false;
      sent = [];
      latest = nothing;
      shown = nothing;
      failed = [];
      is_redirected = false;
    }
