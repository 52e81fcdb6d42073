-- ===== src/Player/Source/Sessions.antt =====
-- What the player promises the server, which gives each address of a stream a session: an abstract
-- machine with at most one open session, and what the queue of stops (web/app.js:
-- `queuePlaybackStop`) keeps of it.
use strata_pvr.Base.{
  ℕ, suc, ◌<◌, ◌≤◌, String, true, false, ◌||◌, Option, none, some, List, [], ◌∷◌, ◌++◌, ◌==◌, map,
  member, ◌≡◌, ◌≢◌, refl, ◌∙◌, ◌⊎◌, inl, inr, eq_iff, eq_refl, Bool-cases, arith,
}
use mathlib.Core.Path.{subst}
use strata_pvr.Player.Url.Stop.{is_stoppable}
use strata_pvr.Player.Source.{Start, Link, Effect, opened, stopped, visited, stop_playback_request}

-- One request: a session opens only while none is open. An address that cannot be stopped has none.
pub data Allowed : Option String → Effect → Option String → Type 0 where
  opens : {u : String} → is_stoppable u ≡ true → Allowed none (opened u) (some u)
  plays : {u : String} {o : Option String} → is_stoppable u ≡ false → Allowed o (opened u) o
  closes : {u : String} → Allowed (some u) (stopped u) none
  misses : {u : String} {o : Option String} → o ≢ some u → Allowed o (stopped u) o
  visits : {u : String} {o : Option String} → Allowed o (visited u) o

pub data Runs : Option String → List Effect → Option String → Type 0 where
  done : {o : Option String} → Runs o [] o
  then :
      {o p q : Option String} {e : Effect} {es : List Effect}
      → Allowed o e p
      → Runs p es q
      → Runs o (e ∷ es) q

pub Runs-append :
    {o p q : Option String} (es fs : List Effect) → Runs o es p → Runs p fs q → Runs o (es ++ fs) q
Runs-append [] fs done s = s
Runs-append (e ∷ es) fs (then a r) s = then a (Runs-append es fs r s)

pub Runs-one :
    {o p q : Option String} {e : Effect} (es : List Effect)
    → Runs o es p
    → Allowed p e q
    → Runs o (es ++ e ∷ []) q
Runs-one es r a = Runs-append es (_ ∷ []) r (then a done)

abbrev urls : List Link → List String
urls chain = map (λ link. link.url) chain

-- The open session is what is played, or its stop is queued.
abbrev pub Held : Option String → String → List Link → Type 0
Held none url chain = Unit
Held (some u) url chain = (is_stoppable u ≡ true) × ((u ≡ url) ⊎ (member u (urls chain) ≡ true))

-- Every source that waits was asked for before the number `n`.
abbrev StartsBelow : ℕ → Option Start → Type 0
StartsBelow n none = Unit
StartsBelow n (some s) = s.generation < n

abbrev pub AllBelow : ℕ → List Link → Type 0
AllBelow n [] = Unit
AllBelow n (link ∷ chain) = StartsBelow n link.next × AllBelow n chain

abbrev StartsLast : ℕ → String → Option Start → Type 0
StartsLast g url none = Unit
StartsLast g url (some s) = (s.generation ≤ g) × (s.generation ≡ g → url ≡ "")

-- The source of the current generation waits for the last stop, and nothing is played meanwhile.
abbrev pub IsFresh : ℕ → String → List Link → Type 0
IsFresh g url [] = Unit
IsFresh g url (link ∷ []) = StartsLast g url link.next
IsFresh g url (link ∷ next ∷ chain) = StartsBelow g link.next × IsFresh g url (next ∷ chain)

StartsBelow-suc : (g : ℕ) (s : Option Start) → StartsBelow g s → StartsBelow (suc g) s
StartsBelow-suc g none h = tt
StartsBelow-suc g (some s) h = omega (arith, h)

StartsLast-AllBelow :
    (g : ℕ) (url : String) (s : Option Start) → StartsLast g url s → StartsBelow (suc g) s
StartsLast-AllBelow g url none h = tt
StartsLast-AllBelow g url (some s) h = omega (arith, h.0)

pub IsFresh-AllBelow :
    (g : ℕ) (url : String) (chain : List Link) → IsFresh g url chain → AllBelow (suc g) chain
IsFresh-AllBelow g url [] h = tt
IsFresh-AllBelow g url (link ∷ []) h = (StartsLast-AllBelow g url link.next h, tt)
IsFresh-AllBelow g url (link ∷ next ∷ chain) h =
    (StartsBelow-suc g link.next h.0, IsFresh-AllBelow g url (next ∷ chain) h.1)

StartsBelow-Last : (g : ℕ) (url : String) (s : Option Start) → StartsBelow g s → StartsLast g url s
StartsBelow-Last g url none h = tt
StartsBelow-Last g url (some s) h = (omega (arith, h), λ e. absurd (omega (arith, h, e)))

pub AllBelow-IsFresh :
    (g : ℕ) (url : String) (chain : List Link) → AllBelow g chain → IsFresh g url chain
AllBelow-IsFresh g url [] h = tt
AllBelow-IsFresh g url (link ∷ []) h = StartsBelow-Last g url link.next h.0
AllBelow-IsFresh g url (link ∷ next ∷ chain) h = (h.0, AllBelow-IsFresh g url (next ∷ chain) h.1)

-- A link behind older ones.
pub AllBelow-append :
    (g : ℕ) (url : String) (chain : List Link) (link : Link)
    → AllBelow g chain
    → StartsLast g url link.next
    → IsFresh g url (chain ++ link ∷ [])
AllBelow-append g url [] link h k = k
AllBelow-append g url (first ∷ []) link h k = (h.0, k)
AllBelow-append g url (first ∷ next ∷ chain) link h k =
    (h.0, AllBelow-append g url (next ∷ chain) link h.1 k)

pub IsFresh-tail :
    (g : ℕ) (url : String) (link : Link) (chain : List Link)
    → IsFresh g url (link ∷ chain)
    → IsFresh g url chain
IsFresh-tail g url link [] h = tt
IsFresh-tail g url link (next ∷ chain) h = h.1

-- The current source is the last link, and nothing is played.
pub IsFresh-last :
    (g : ℕ) (url : String) (link : Link) (chain : List Link) (s : Start)
    → IsFresh g url (link ∷ chain)
    → link.next ≡ some s
    → s.generation ≡ g
    → (chain ≡ []) × (url ≡ "")
IsFresh-last g url link [] s h e same = (refl, (subst (λ n. StartsLast g url n) e h).1 same)
IsFresh-last g url link (next ∷ chain) s h e same =
    absurd (omega (arith, same, subst (λ n. StartsBelow g n) e h.0))

member-urls-append :
    (u : String) (chain : List Link) (link : Link)
    → member u (urls (chain ++ link ∷ [])) ≡ (member u (urls chain) || (link.url == u || false))
member-urls-append u [] link = refl
member-urls-append u (first ∷ chain) link = ground (arith, member-urls-append u chain link)

-- What was played gets its stop queued.
pub Held-queued :
    (o : Option String) (url : String) (chain : List Link) (next : Option Start)
    → Held o url chain
    → Held o "" (chain ++ record { url = url; next = next } ∷ [])
Held-queued none url chain next h = tt
Held-queued (some u) url chain next (s, inl e) = (
  s,
  inr (
      ground
        (arith, member-urls-append u chain (record { url = url; next = next }), eq_iff url u, e)),
)
Held-queued (some u) url chain next (s, inr m) =
    (s, inr (ground (arith, member-urls-append u chain (record { url = url; next = next }), m)))

-- The stop of the first link, as the server sees it.
pub Held-stopped :
    (o : Option String) (url : String) (link : Link) (chain : List Link)
    → Held o url (link ∷ chain)
    → (p : Option String) × Runs o (stop_playback_request link.url) p × Held p url chain
unfolding stop_playback_request
Held-stopped none url link chain h = elim (Bool-cases (is_stoppable link.url)) [
  | inl s ↦ (none, rw s (then (misses λ e. cc) done), tt)
  | inr n ↦ (none, rw n done, tt)
]
Held-stopped (some u) url link chain (s, k) = elim (Bool-cases (link.url == u)) [
  | inl same ↦
      let e : link.url ≡ u = (eq_iff link.url u).0 same in (none, rw (e, s) (then closes done), tt)
  | inr other ↦
      let kept : (u ≡ url) ⊎ (member u (urls chain) ≡ true) = rw other at k in
      elim (Bool-cases (is_stoppable link.url)) [
        | inl t ↦ (some u, rw t (then (misses λ e. cc (e, other, eq_refl u)) done), (s, kept))
        | inr t ↦ (some u, rw t done, (s, kept))
      ]
]

stoppable-ne-empty : is_stoppable "" ≢ true
unfolding is_stoppable
stoppable-ne-empty e = cc e

-- Nothing is open once no stop is queued and nothing is played.
pub Held-none :
    (o : Option String) (url : String) (chain : List Link)
    → url ≡ ""
    → chain ≡ []
    → Held o url chain
    → o ≡ none
Held-none none url chain a b h = refl
Held-none (some u) url chain a b (s, inl e) =
    absurd (stoppable-ne-empty (subst (λ t. is_stoppable t ≡ true) (e ∙ a) s))
Held-none (some u) url chain a b (s, inr m) = cc
