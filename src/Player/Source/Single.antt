-- ===== src/Player/Source/Single.antt =====
-- The sessions of the player's sources (web/app.js: the operations of the player, in any order).
use mathlib.Core.Path.{subst}
use strata_pvr.Base.{
  ℕ, suc, String, Option, none, some, List, [], ◌∷◌, ◌++◌, ◌==◌, eqb, eqb_iff, ◌≡◌, refl, ◌∙◌, inl,
  inr, Bool-cases, arith,
}
use strata_pvr.Player.Query.{Query}
use strata_pvr.Player.Url.Stop.{is_stoppable}
use strata_pvr.Player.Source.{
  Page, Start, Link, Effect, opened, visited, Player, Outcome, started, not_created, not_loaded,
  start_source, continue_with, begin_source, source_with, finish_start, set_player_source,
  on_stopped, settle, start_player_mse, is_live_mse_url, queue_playback_stop, destroy_player_mse,
  update_player_controls, stop_playback_request,
}
use strata_pvr.Player.Source.Sessions.{
  Allowed, opens, plays, visits, Runs, Runs-append, Runs-one, Held, IsFresh, IsFresh-AllBelow,
  AllBelow-IsFresh, AllBelow-append, IsFresh-tail, IsFresh-last, Held-queued, Held-stopped,
  Held-none,
}
use strata_pvr.Player.Source.Dialog.{stop_player_video}

-- What the requests so far leave open, and what the queue of stops says of it.
abbrev pub SingleAt : ℕ → String → List Link → List Effect → Type 0
SingleAt g url chain log =
    (o : Option String) × Runs none log o × Held o url chain × IsFresh g url chain

abbrev pub IsSingle : Player → Type 0
IsSingle p = SingleAt p.generation p.current_url p.chain p.log

module _ (g : ℕ) (url : String) (chain : List Link) (log : List Effect) where
  pub bumped-SingleAt : SingleAt g url chain log → SingleAt (suc g) url chain log
  bumped-SingleAt (o, r, h, f) =
      (o, r, h, AllBelow-IsFresh (suc g) url chain (IsFresh-AllBelow g url chain f))

  pub visited-SingleAt :
      (u : String) → SingleAt g url chain log → SingleAt g url chain (log ++ visited u ∷ [])
  visited-SingleAt u (o, r, h, f) = (o, Runs-one log r visits, h, f)

  stopped-SingleAt :
      SingleAt g url chain log
      → SingleAt (suc g) "" (chain ++ record { url = url; next = none } ∷ []) log
  stopped-SingleAt (o, r, h, f) = (
    o,
    r,
    Held-queued o url chain none h,
    AllBelow-append (suc g) "" chain (record { url = url; next = none })
        (IsFresh-AllBelow g url chain f) tt,
  )

  begun-SingleAt :
      (next token : String)
      → SingleAt g url chain log
      → SingleAt
          (suc g)
          ""
          (chain
            ++ record {
              url = url;
              next = some (record { generation = suc g; url = next; token = token });
            }
              ∷ [])
          log
  begun-SingleAt next token (o, r, h, f) =
      let start : Start = record { generation = suc g; url = next; token = token } in
      (
        o,
        r,
        Held-queued o url chain (some start) h,
        AllBelow-append (suc g) "" chain (record { url = url; next = some start })
            (IsFresh-AllBelow g url chain f) (omega arith, λ _. refl),
      )

pub begin_source-IsSingle :
    (page : Page) (url : String) (query : Option Query) (p : Player)
    → IsSingle p
    → IsSingle (begin_source page url query p)
unfolding begin_source queue_playback_stop destroy_player_mse update_player_controls
begin_source-IsSingle page url query p h =
    begun-SingleAt p.generation p.current_url p.chain p.log url (page.new_token (suc p.generation))
      h

source_with-IsSingle :
    (page : Page) (query : Option Query) (p : Player) (next : Option String)
    → IsSingle p
    → IsSingle (source_with page query p next).0
source_with-IsSingle page query p none h =
    bumped-SingleAt p.generation p.current_url p.chain p.log h
source_with-IsSingle page query p (some next) h = begin_source-IsSingle page next query p h

pub set_player_source-IsSingle :
    (page : Page) (url : String) (query : Option Query) (p : Player)
    → IsSingle p
    → IsSingle (set_player_source page url query p).0
unfolding set_player_source
set_player_source-IsSingle page url query p h = elim (Bool-cases (url == "")) [
  | inl e ↦ rw e h
  | inr e ↦ rw e (source_with-IsSingle page query p _ h)
]

pub stop_player_video-IsSingle : (p : Player) → IsSingle p → IsSingle (stop_player_video p)
unfolding stop_player_video queue_playback_stop destroy_player_mse update_player_controls
stop_player_video-IsSingle p h = stopped-SingleAt p.generation p.current_url p.chain p.log h

-- A source that starts while nothing is open.
opened-Allowed : (url : String) → (o : Option String) × Allowed none (opened url) o × Held o url []
opened-Allowed url = elim (Bool-cases (is_stoppable url)) [
  | inl s ↦ (some url, opens s, (s, inl refl))
  | inr n ↦ (none, plays n, tt)
]

started-SingleAt :
    (g : ℕ) (url : String) (log : List Effect)
    → Runs none log none
    → SingleAt g url [] (log ++ opened url ∷ [])
started-SingleAt g url log r = let (o, a, h) = opened-Allowed url in (o, Runs-one log r a, h, tt)

-- Its failure queues a stop.
abandoned-SingleAt :
    (g : ℕ) (url : String) (log : List Effect)
    → SingleAt g url [] log
    → SingleAt g "" (record { url = url; next = none } ∷ []) log
abandoned-SingleAt g url log (o, r, h, f) = (o, r, Held-queued o url [] none h, tt)

start_player_mse-IsSingle :
    (url : String) (outcome : Outcome) (p : Player)
    → p.chain ≡ []
    → p.current_url ≡ url
    → Runs none p.log none
    → IsSingle (finish_start url (start_player_mse url outcome p))
unfolding start_player_mse update_player_controls queue_playback_stop destroy_player_mse
start_player_mse-IsSingle url started p c u r =
    rw (c, u) (started-SingleAt p.generation url p.log r)
start_player_mse-IsSingle url not_created p c u r =
    rw c (abandoned-SingleAt p.generation url p.log (none, r, tt, tt))
start_player_mse-IsSingle url not_loaded p c u r = rw c (
    abandoned-SingleAt p.generation url (p.log ++ opened url ∷ [])
      (started-SingleAt p.generation url p.log r))

-- The start of a source where nothing is open and no stop is queued.
start_source-IsSingle :
    (page : Page) (url : String) (outcome : Outcome) (p : Player)
    → p.chain ≡ []
    → p.current_url ≡ url
    → Runs none p.log none
    → IsSingle (finish_start url (start_source page url outcome p))
unfolding update_player_controls
start_source-IsSingle page url outcome p c u r = elim (Bool-cases (is_live_mse_url page url)) [
  | inl e ↦ rw e (start_player_mse-IsSingle url outcome p c u r)
  | inr e ↦ rw (e, c, u) (started-SingleAt p.generation url p.log r)
]

continue_with-IsSingle :
    (page : Page) (outcome : Outcome) (link : Link) (chain : List Link) (next : Option Start)
    (p : Player) (o : Option String)
    → link.next ≡ next
    → IsFresh p.generation p.current_url (link ∷ chain)
    → p.chain ≡ chain
    → Runs none p.log o
    → Held o p.current_url chain
    → IsSingle (continue_with page outcome next p)
unfolding on_stopped
continue_with-IsSingle page outcome link chain none p o e f c r h =
    rw c (o, r, h, IsFresh-tail p.generation p.current_url link chain f)
continue_with-IsSingle page outcome link chain (some s) p o e f c r h =
    elim (Bool-cases (eqb s.generation p.generation)) [
      | inl same ↦
          let (l, u) =
            IsFresh-last p.generation p.current_url link chain s f e ((eqb_iff _ _).0 same) in
          rw same (
            start_source-IsSingle page s.url outcome
              (record p { current_url = s.url; token = s.token }) (c ∙ l) refl
              (subst (λ q. Runs none p.log q) (Held-none o p.current_url chain u l h) r))
      | inr other ↦ rw (other, c) (o, r, h, IsFresh-tail p.generation p.current_url link chain f)
    ]

pub settle-IsSingle :
    (page : Page) (outcome : Outcome) (chain : List Link) (p : Player)
    → p.chain ≡ chain
    → SingleAt p.generation p.current_url chain p.log
    → IsSingle (settle page outcome chain p)
unfolding settle
settle-IsSingle page outcome [] p e h = rw e h
settle-IsSingle page outcome (link ∷ chain) p e (o, r, h, f) =
    let (q, s, t) = Held-stopped o p.current_url link chain h in
    continue_with-IsSingle page outcome link chain link.next
      (record p { chain = chain; log = p.log ++ stop_playback_request link.url }) q refl f refl
      (Runs-append p.log _ r s) t
