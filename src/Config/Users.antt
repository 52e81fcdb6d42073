-- ===== src/Config/Users.antt =====
-- The users of the configuration's form (web/app.js: the loop over the rows in
-- `readStrataConfigForm`). A refused row sets the list to `null`, and the next row that is accepted is
-- put behind `null`, which is an exception.
use mathlib.Core.Path.{subst}
use strata_pvr.Base.{
  String, Bool, true, false, not, ◌&&◌, ◌||◌, Option, none, some, List, [], ◌∷◌, ◌++◌, truthy, trim,
  seen_in, map, is_distinct, is_distinct-concat, All, All-append, ◌≡◌, ◌≢◌, refl, ap, inl, inr,
  Bool-cases, if◌then◌else◌, arith,
}

pub record Row : Type 0 where
  pub username : String
  pub password : String
  pub is_configured : Bool

-- An empty password is one that the object does not have.
pub record User : Type 0 where
  pub username : String
  pub password : String
  pub is_configured : Bool

-- The list, which may be `null`, or an exception.
pub data Gathered : Type 0 where
  ended : Option (List User) → Gathered
  broken : Gathered

abbrev pub names : List User → List String
names users = map (λ u. u.username) users

abbrev pub is_refused : List String → Row → Bool
is_refused seen row =
    not (truthy (trim row.username))
    || seen_in (trim row.username) seen
    || (not (truthy row.password) && not row.is_configured)

abbrev pub user_of : Row → User
user_of row = record {
  username = trim row.username;
  password = row.password;
  is_configured = row.is_configured;
}

-- The loop; `seen` holds the names that were accepted. Behind a refused row nothing may be accepted.
unfoldable pub after_refusal : List String → List Row → Gathered
after_refusal seen [] = ended none
after_refusal seen (row ∷ rows) =
    let rest = after_refusal seen rows in if is_refused seen row then rest else broken

unfoldable pub read_rows : List User → List Row → Gathered
unfolding after_refusal
read_rows users [] = ended (some users)
read_rows users (row ∷ rows) =
    let refused = after_refusal (names users) rows in
    let accepted = read_rows (users ++ user_of row ∷ []) rows in
    if is_refused (names users) row then refused else accepted

unfoldable pub read_users : List Row → Gathered
unfolding read_rows
read_users rows = read_rows [] rows

broken-ne-ended : {o : Option (List User)} → broken ≢ ended o
broken-ne-ended h = cc

ended_injective : {a b : List User} → ended (some a) ≡ ended (some b) → a ≡ b
ended_injective h = cc

-- A row that is refused, with one behind it that is accepted, is an exception instead of a refusal.
pub read_rows-broken :
    (users : List User) (row next : Row) (rows : List Row)
    → is_refused (names users) row ≡ true
    → is_refused (names users) next ≡ false
    → read_rows users (row ∷ next ∷ rows) ≡ broken
unfolding read_rows after_refusal
read_rows-broken users row next rows h k = rw (h, k) refl

-- The users that a list is made of: distinct names that are not empty, each with a password.
abbrev pub HasPassword : User → Type 0
HasPassword u = (truthy u.username ≡ true) × ((truthy u.password || u.is_configured) ≡ true)

abbrev pub AreUsers : List User → Type 0
AreUsers users = (is_distinct (names users) ≡ true) × All HasPassword users

names-concat :
    (users : List User) (u : User) → names (users ++ u ∷ []) ≡ names users ++ u.username ∷ []
names-concat [] u = refl
names-concat (v ∷ users) u = ap (v.username ∷◌) (names-concat users u)

after_refusal-none :
    (seen : List String) (rows : List Row) (users : List User)
    → after_refusal seen rows ≢ ended (some users)
unfolding after_refusal
after_refusal-none seen [] users = λ e. cc
after_refusal-none seen (row ∷ rows) users = elim (Bool-cases (is_refused seen row)) [
  | inl e ↦ λ h. after_refusal-none seen rows users (rw e at h)
  | inr e ↦ λ h. broken-ne-ended (rw e at h)
]

read_rows-AreUsers :
    (users made : List User) (rows : List Row)
    → AreUsers users
    → read_rows users rows ≡ ended (some made)
    → AreUsers made
unfolding read_rows
read_rows-AreUsers users made [] a h = subst AreUsers (ended_injective h) a
read_rows-AreUsers users made (row ∷ rows) (d, p) h =
    elim (Bool-cases (is_refused (names users) row)) [
      | inl e ↦ absurd (after_refusal-none (names users) rows made (rw e at h))
      | inr e ↦
          read_rows-AreUsers (users ++ user_of row ∷ []) made rows
            (
              rw (names-concat users (user_of row))
                  (is_distinct-concat (names users) (trim row.username) d (ground (arith, e))),
              All-append HasPassword users (user_of row ∷ []) p
                  ((ground (arith, e), ground (arith, e)), tt),
            )
            (rw e at h)
    ]

pub read_users-AreUsers :
    (made : List User) (rows : List Row) → read_users rows ≡ ended (some made) → AreUsers made
unfolding read_users
read_users-AreUsers made rows h = read_rows-AreUsers [] made rows (refl, tt) h
