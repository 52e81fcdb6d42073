-- ===== src/Player/Source/Settled.antt =====
-- What the player comes to once its stops are answered (web/app.js: `setPlayerSource`,
-- `stopPlayerVideo`).
use mathlib.Core.Path.{subst}
use strata_pvr.Base.{
  ℕ, zero, suc, String, false, Option, none, some, List, [], ◌∷◌, ◌++◌, ◌==◌, eqb, eqb_iff, eq_iff,
  length, ◌≡◌, ◌≢◌, refl, sym, ap, ◌∙◌, inl, inr, Bool-cases, arith,
}
use strata_pvr.Player.Query.{Query}
use strata_pvr.Player.Source.{
  Page, Start, Link, Effect, Player, started, continue_with, begin_source, set_player_source,
  on_stopped, settle, start_player_mse, is_live_mse_url, with_playback_session, queue_playback_stop,
  destroy_player_mse, update_player_controls, stop_playback_request,
}
use strata_pvr.Player.Source.Sessions.{Runs, AllBelow, IsFresh-AllBelow, Held-none}
use strata_pvr.Player.Source.Single.{IsSingle, stop_player_video-IsSingle}
use strata_pvr.Player.Source.Reached.{run-IsSingle, run-IsSingle_from}
use strata_pvr.Player.Source.Dialog.{Event, stop_answered, step, run, initial, stop_player_video}

-- So many stops are answered, and a source that starts does so without an error.
abbrev pub answers : ℕ → List Event
answers zero = []
answers (suc n) = stop_answered started ∷ answers n

-- A source that was replaced does not start.
stale_lem :
    (page : Page) (next : Option Start) (p : Player)
    → AllBelow p.generation (record { url = ""; next = next } ∷ [])
    → continue_with page started next p ≡ p
unfolding on_stopped
stale_lem page none p h = refl
stale_lem page (some s) p h =
    let other : eqb s.generation p.generation ≡ false = ground (arith, h.0) in rw other refl

-- Of a queue whose sources are replaced ones but for the last, the last decides.
drained_lem :
    (page : Page) (chain : List Link) (last : Link) (p : Player)
    → AllBelow p.generation chain
    → (log : List Effect) × (run page
          (answers (length (chain ++ last ∷ [])))
          (record p { chain = chain ++ last ∷ [] })
        ≡ continue_with page started last.next (record p { chain = []; log = log }))
unfolding run step settle
drained_lem page [] last p h = (p.log ++ stop_playback_request last.url, refl)
drained_lem page (link ∷ chain) last p (h, hs) =
    let after : Player = record p {
      chain = chain ++ last ∷ [];
      log = p.log ++ stop_playback_request link.url;
    } in
    let (log, e) = drained_lem page chain last after hs in
    (
      log,
      ap (λ q. run page (answers (length (chain ++ last ∷ []))) q)
            (stale_lem page link.next after (h, tt))
          ∙ e,
    )

-- A source starts to play.
plays_lem :
    (page : Page) (start : Start) (p : Player)
    → start.generation ≡ p.generation
    → ((continue_with page started (some start) p).current_url ≡ start.url)
      × ((continue_with page started (some start) p).token ≡ start.token)
      × ((continue_with page started (some start) p).chain ≡ p.chain)
unfolding on_stopped start_player_mse update_player_controls
plays_lem page start p e = elim (Bool-cases (is_live_mse_url page start.url)) [
  | inl m ↦ rw ((eqb_iff start.generation p.generation).1 e, m) (refl, refl, refl)
  | inr m ↦ rw ((eqb_iff start.generation p.generation).1 e, m) (refl, refl, refl)
]

abbrev pub PlaysAfter : Page → Player → String → Type 0
PlaysAfter page p next =
    let q = run page (answers (length p.chain)) p in
    (q.current_url ≡ next) × (q.token ≡ page.new_token p.generation) × (q.chain ≡ [])

begin_source-PlaysAfter :
    (page : Page) (next : String) (query : Option Query) (p : Player)
    → IsSingle p
    → PlaysAfter page (begin_source page next query p) next
unfolding begin_source queue_playback_stop destroy_player_mse update_player_controls
begin_source-PlaysAfter page next query p (o, r, h, f) =
    let start : Start = record {
      generation = suc p.generation;
      url = next;
      token = page.new_token (suc p.generation);
    } in
    let b = begin_source page next query p in
    let (log, e) =
      drained_lem page p.chain (record { url = p.current_url; next = some start }) b
        (IsFresh-AllBelow p.generation p.current_url p.chain f) in
    let (c, t, l) = plays_lem page start (record b { chain = []; log = log }) refl in
    (ap (λ q. q.current_url) e ∙ c, ap (λ q. q.token) e ∙ t, ap (λ q. q.chain) e ∙ l)

set_player_source_lem :
    (page : Page) (url next : String) (query : Option Query) (p : Player)
    → url ≢ ""
    → with_playback_session page url (page.new_token (suc p.generation)) ≡ some next
    → (set_player_source page url query p).0 ≡ begin_source page next query p
unfolding set_player_source
set_player_source_lem page url next query p named e =
    let n : (url == "") ≡ false = ground (arith, eq_iff url "", named) in rw (n, e) refl

-- From every state that is reached: a source that is set, while nothing else happens until the stops
-- are answered and if it starts without an error, is the one that is played then, with its own token,
-- whatever sources still waited before it; no stop is left.
pub set_player_source-PlaysAfter :
    (page : Page) (events : List Event) (url next : String) (query : Option Query)
    → url ≢ ""
    → with_playback_session page url (page.new_token (suc (run page events initial).generation))
      ≡ some next
    → PlaysAfter page (set_player_source page url query (run page events initial)).0 next
set_player_source-PlaysAfter page events url next query named e =
    let p = run page events initial in
    subst (λ q. PlaysAfter page q next) (sym (set_player_source_lem page url next query p named e))
      (begin_source-PlaysAfter page next query p (run-IsSingle page events))

abbrev pub RestsAfter : Page → Player → Type 0
RestsAfter page p =
    let q = run page (answers (length p.chain)) p in
    Runs none q.log none × (q.current_url ≡ "") × (q.chain ≡ [])

stop-RestsAfter : (page : Page) (p : Player) → IsSingle p → RestsAfter page (stop_player_video p)
unfolding stop_player_video queue_playback_stop destroy_player_mse update_player_controls
stop-RestsAfter page p (o, r, h, f) =
    let s = stop_player_video p in
    let (log, e) =
      drained_lem page p.chain (record { url = p.current_url; next = none }) s
        (IsFresh-AllBelow p.generation p.current_url p.chain f) in
    let q = run page (answers (length s.chain)) s in
    let (o', r', h', f') =
      run-IsSingle_from page (answers (length s.chain)) s
        (stop_player_video-IsSingle p (o, r, h, f)) in
    let c = ap (λ q. q.current_url) e in
    let l = ap (λ q. q.chain) e in
    (subst (λ n. Runs none q.log n) (Held-none o' q.current_url q.chain c l h') r', c, l)

-- From every state that is reached: once the player is told to stop and the stops are answered, no
-- session is open, nothing is played and no stop is left.
pub stop_player_video-RestsAfter :
    (page : Page) (events : List Event)
    → RestsAfter page (stop_player_video (run page events initial))
stop_player_video-RestsAfter page events =
    stop-RestsAfter page (run page events initial) (run-IsSingle page events)
