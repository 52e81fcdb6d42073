-- ===== src/Listing/Search/Settled.antt =====
-- What the search page shows once its last request is answered.
use mathlib.Core.Path.{subst}
use strata_pvr.Base.{
  ℕ, suc, ◌≤◌, ◌<◌, String, Bool, true, false, not, ◌||◌, member, some, List, [], ◌∷◌, eqb, eqb_iff,
  any, zero, get_elem?, All, ◌≡◌, ◌≢◌, refl, sym, ap, ◌∙◌, ◌⊎◌, inl, inr, Bool-cases, Option-cases,
  arith, trim, if◌then◌else◌,
}
use strata_pvr.Listing.Search.{
  SearchFilter, Sent, Reply, Search, Event, search_page_count, clamp_search_page, render_search,
  load_search_page, accept, receive, fail, change_filter, step, run, initial, on_sent, asked_page,
  set_field, default_search_filter, set_view, channel_link, refresh_search, draw_search,
}

-- The filter and the page are those that the request asked for; the category may have been left
-- since, because the reply does not offer it.
abbrev pub Follows : SearchFilter → ℕ → Sent → Type 0
Follows f page request =
    ((f ≡ request.asked) ⊎ (f ≡ (record request.asked { category = "" }))) × (page ≡ request.page)

abbrev pub IsPage : ℕ → ℕ → Type 0
IsPage page total = (1 ≤ page) × (page ≤ search_page_count total)

-- What is shown when no request is waited for.
abbrev Answered : Search → Type 0
Answered s = (s.shown ≡ s.latest) × IsPage s.page s.total

-- The requests that were sent are older than the last one, or it.
abbrev IsOrdered : Search → Type 0
IsOrdered s =
    (s.latest.version ≡ s.version)
    × All (λ r. (r.version < s.version) ⊎ (r ≡ s.latest)) s.sent
    × ((s.shown.version < s.version) ⊎ (s.shown ≡ s.latest))

abbrev IsSound : Search → Type 0
IsSound s =
    IsOrdered s
    × (s.is_delayed ≡ false → s.is_redirected ≡ false → Follows s.asked s.page s.latest)
    × (s.is_redirected ≡ false
        → s.is_requested ≡ false
        → any (λ v. eqb v s.version) s.failed ≡ false
        → Answered s)

clamp-IsPage : (total page : ℕ) → IsPage (clamp_search_page total page) total
unfolding clamp_search_page search_page_count
clamp-IsPage total page = (omega arith, omega arith)

module _ (latest : Sent) (version : ℕ) (e : latest.version ≡ version) where
  older : (r : Sent) → (r.version < version) ⊎ (r ≡ latest) → r.version < suc version
  older r (inl h) = omega (arith, h)
  older r (inr h) = rw (h, e) (omega arith)

  sent_older :
      (new : Sent) (rs : List Sent)
      → All (λ r. (r.version < version) ⊎ (r ≡ latest)) rs
      → All (λ r. (r.version < suc version) ⊎ (r ≡ new)) rs
  sent_older new [] h = tt
  sent_older new (r ∷ rs) h = (inl (older r h.0), sent_older new rs h.1)

load-IsSound : (s : Search) → IsOrdered s → IsSound (load_search_page s)
unfolding load_search_page
load-IsSound s (e, sent, shown) = (
  (
    refl,
    (inr refl, sent_older s.latest s.version e _ s.sent sent),
    inl (older s.latest s.version e s.shown shown),
  ),
  (λ _ _. (inl refl, refl)),
  (λ _ h. cc),
)

Follows-render :
    (b : Bool) (f : SearchFilter) (page : ℕ) (r : Sent)
    → Follows f page r
    → Follows (if b then f else (record f { category = "" })) page r
Follows-render true f page r h = h
Follows-render false f page r (inl h, p) =
    (inr (ap {A = SearchFilter} (λ g. record g { category = "" }) h), p)
Follows-render false f page r (inr h, p) =
    (inr (ap {A = SearchFilter} (λ g. record g { category = "" }) h), p)

get-All :
    (P : Sent → Type 0) (i : ℕ) (rs : List Sent) (r : Sent)
    → All P rs
    → get_elem? rs i ≡ some r
    → P r
get-All P i [] r h e = cc
get-All P zero (x ∷ rs) r h e = let same : x ≡ r = cc in subst P same h.0
get-All P (suc i) (x ∷ rs) r h e = get-All P i rs r h.1 e

-- A request of the last version is the last request.
is_latest :
    (s : Search) (r : Sent)
    → (r.version < s.version) ⊎ (r ≡ s.latest)
    → eqb r.version s.version ≡ true
    → r ≡ s.latest
is_latest s r (inl h) e = absurd (ground (arith, h, e))
is_latest s r (inr h) e = h

accept-IsSound :
    (s : Search) (r : Sent) (reply : Reply)
    → IsSound s
    → r ≡ s.latest
    → clamp_search_page reply.total s.page ≡ s.page
    → IsSound (accept r reply s)
unfolding accept render_search
accept-IsSound s r reply ((e, sent, shown), follows, answered) h p = (
  (e, sent, inr h),
  (λ d g. Follows-render _ s.asked _ s.latest ((follows d g).0, p ∙ (follows d g).1)),
  (λ _ _ _. (h, clamp-IsPage reply.total s.page)),
)

receive-IsSound :
    (s : Search) (r : Sent) (reply : Reply)
    → IsSound s
    → (r.version < s.version) ⊎ (r ≡ s.latest)
    → IsSound (receive r reply s)
unfolding receive
receive-IsSound s r reply h o = elim (Bool-cases (eqb r.version s.version)) [
  | inr e ↦ rw e h
  | inl e ↦ elim (Bool-cases (eqb (clamp_search_page reply.total s.page) s.page)) [
    | inr n ↦
        rw (e, n) (load-IsSound (record s { page = clamp_search_page reply.total s.page }) h.0)
    | inl p ↦ rw (e, p) (accept-IsSound s r reply h (is_latest s r o e) ((eqb_iff _ _).0 p))
  ]
]

not_failed :
    (b requested failed : Bool) (A : Type 0)
    → (requested ≡ false → failed ≡ false → A)
    → (if b then false else requested) ≡ false
    → (b || failed) ≡ false
    → A
not_failed true requested failed A h q v = cc
not_failed false requested failed A h q v = h q v

fail-IsSound : (s : Search) (r : Sent) → IsSound s → IsSound (fail r s)
unfolding fail
fail-IsSound s r (o, follows, answered) = (
  o,
  follows,
  λ g. not_failed (eqb r.version s.version) s.is_requested _ (Answered s) (answered g),
)

if-IsSound : (b : Bool) (s t : Search) → IsSound s → IsSound t → IsSound (if b then s else t)
if-IsSound true s t h k = h
if-IsSound false s t h k = k

not_drawn :
    (redirected : Bool) (a b : ℕ)
    → (redirected || not (eqb a b)) ≡ false
    → (redirected ≡ false) × (a ≡ b)
not_drawn true a b h = cc
not_drawn false a b h = (refl, ground (arith, h))

-- Drawing leaves the page, or it counts as a redirection.
drawn-IsSound : (s : Search) → IsSound s → IsSound (draw_search s)
unfolding draw_search render_search
drawn-IsSound s (o, follows, answered) = (
  o,
  (λ d g.
      let (same, page) = not_drawn s.is_redirected (clamp_search_page s.total s.page) s.page g in
      let (filter, number) = follows d same in
      Follows-render _ s.asked _ s.latest (filter, page ∙ number)),
  (λ g q v.
      let (same, page) = not_drawn s.is_redirected (clamp_search_page s.total s.page) s.page g in
      ((answered same q v).0, clamp-IsPage s.total s.page)),
)

opened-IsSound : (b : Bool) (s : Search) → IsSound s → IsSound (set_view b s)
unfolding set_view
opened-IsSound false s h = h
opened-IsSound true s h =
    if-IsSound (draw_search s).is_loaded (draw_search s) (load_search_page (draw_search s))
      (drawn-IsSound s h) (load-IsSound (draw_search s) (drawn-IsSound s h).0)

refreshed-IsSound : (is_ok : Bool) (s : Search) → IsSound s → IsSound (refresh_search is_ok s)
unfolding refresh_search
refreshed-IsSound true s h =
    load-IsSound (record (draw_search s) { is_loaded = false }) (drawn-IsSound s h).0
refreshed-IsSound false s h = load-IsSound (record s { is_loaded = false }) h.0

step-IsSound : (e : Event) (s : Search) → IsSound s → IsSound (step e s)
unfolding step change_filter render_search on_sent
step-IsSound (Event.typed field value) s (o, follows, answered) =
    (o, (λ d. cc), λ g q v. ((answered g q v).0, clamp-IsPage s.total 1))
step-IsSound (Event.chosen field value) s h =
    load-IsSound (change_filter (set_field field (trim value) s.asked) s) h.0
step-IsSound Event.reset s h = load-IsSound (change_filter default_search_filter s) h.0
step-IsSound (Event.clicked action) s h =
    load-IsSound (render_search (record s { page = asked_page action s })) h.0
step-IsSound Event.delay_ends s h =
    if-IsSound s.is_delayed (load_search_page (record s { is_delayed = false })) s
      (load-IsSound (record s { is_delayed = false }) h.0) h
step-IsSound (Event.replied i reply) s h = elim (Option-cases (get_elem? s.sent i)) [
  | inl e ↦ rw e h
  | inr (r, e) ↦ rw e (receive-IsSound s r reply h (get-All _ i s.sent r h.0.1 e))
]
step-IsSound (Event.refused i) s h = elim (Option-cases (get_elem? s.sent i)) [
  | inl e ↦ rw e h
  | inr (r, e) ↦ rw e (fail-IsSound s r h)
]
step-IsSound (Event.linked id) s (o, follows, answered) = (o, (λ d g. cc), λ g. cc)
step-IsSound (Event.addressed f page) s (o, follows, answered) = (o, (λ d g. cc), λ g. cc)
step-IsSound (Event.opened has_loaded) s h = opened-IsSound has_loaded s h
step-IsSound (Event.refreshed is_ok) s h = refreshed-IsSound is_ok s h

run-IsSound : (events : List Event) (s : Search) → IsSound s → IsSound (run events s)
unfolding run
run-IsSound [] s h = h
run-IsSound (e ∷ events) s h = run-IsSound events (step e s) (step-IsSound e s h)

initial-IsSound : (f : SearchFilter) → IsSound (initial f)
unfolding initial search_page_count
initial-IsSound f =
    ((refl, tt, inr refl), (λ _ _. (inl refl, refl)), λ _ _ _. (refl, (omega arith, omega arith)))

-- Whatever is typed, chosen, clicked, linked, opened and refreshed, and in whatever order the replies
-- come: when no request is waited for, the timer of a typed text does not run, the last request did
-- not fail, and since it was sent no link or address has set the filter and drawing has not changed
-- the page, what is shown is the reply to a request for the filter and the page that the controls
-- show, and that page is one of the reply's pages. The category may have been left since the request
-- was sent, because the reply does not offer it.
pub run-Settled :
    (f : SearchFilter) (events : List Event)
    → (run events (initial f)).is_requested ≡ false
    → (run events (initial f)).is_delayed ≡ false
    → (run events (initial f)).is_redirected ≡ false
    → any (λ v. eqb v (run events (initial f)).version) (run events (initial f)).failed ≡ false
    → Follows
        (run events (initial f)).asked
        (run events (initial f)).page
        (run events (initial f)).shown
      × IsPage (run events (initial f)).page (run events (initial f)).total
run-Settled f events q d g v =
    let (_, follows, answered) = run-IsSound events (initial f) (initial-IsSound f) in
    let (same, page) = answered g q v in (subst (Follows _ _) (sym same) (follows d g), page)

channel-kept :
    (b : Bool) (f : SearchFilter)
    → (if b then f else (record f { category = "" })).channel_id ≡ f.channel_id
channel-kept true f = refl
channel-kept false f = refl

render_search-channel : (s : Search) → (render_search s).asked.channel_id ≡ s.asked.channel_id
unfolding render_search
render_search-channel s = channel-kept (member s.asked.category ("" ∷ s.categories)) s.asked

-- The link of a channel, once the list was loaded: the filter asks for the channel, but going to the
-- page behind it sends no request, and the list and its total stay as they were.
pub channel_link-ignored :
    (id : String) (s : Search)
    → s.is_loaded ≡ true
    → let s' = step (Event.opened true) (step (Event.linked id) s) in
      (s'.asked.channel_id ≡ id)
      × (s'.items ≡ s.items)
      × (s'.total ≡ s.total)
      × (s'.sent ≡ s.sent)
      × (s'.is_requested ≡ s.is_requested)
unfolding step set_view channel_link draw_search render_search
channel_link-ignored id s h =
    let linked : Search = record s {
      asked = record s.asked { channel_id = id };
      page = 1;
      is_redirected = true;
    } in
    rw h (
      render_search-channel (render_search linked) ∙ render_search-channel linked,
      refl,
      refl,
      refl,
      refl,
    )

-- A reply or a failure of another request than the last one leaves what is shown, and the request
-- that is waited for.
pub outdated :
    (s : Search) (request : Sent) (reply : Reply)
    → request.version ≢ s.version
    → (receive request reply s ≡ s) × ((fail request s).is_requested ≡ s.is_requested)
unfolding receive fail
outdated s request reply h = elim (Bool-cases (eqb request.version s.version)) [
  | inl e ↦ absurd (h ((eqb_iff _ _).0 e))
  | inr n ↦ rw n (refl, refl)
]
