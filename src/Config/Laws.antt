-- ===== src/Config/Laws.antt =====
-- What the form of the configuration lets through (web/app.js: `readStrataConfigForm`).
use mathlib.Core.Path.{subst}
use strata_pvr.Rules.Form.Stages.{sid_positive}
use strata_pvr.Base.{
  ℕ, ◌≤◌, ◌<◌, String, Bool, true, false, ◌&&◌, Option, none, some, List, [], ◌∷◌, map, All, ◌≡◌,
  ◌≢◌, refl, ap, ◌∙◌, inl, inr, Bool-cases, ◌>>=◌, arith,
}
use strata_pvr.Status.{split_list}
use strata_pvr.Rules.Form.{Fraction, value_of, is_below_zero, is_sid}
use strata_pvr.Config.Users.{
  Row, User, Gathered, ended, broken, is_refused, AreUsers, read_users, read_users-AreUsers,
  read_rows-broken,
}
use strata_pvr.Config.{
  Signed, between, is_within, integer_from, required_integer, services_from, strata_service_list,
  positive_integers, Command, read_commands, ConfigForm, Former, Config, Fields, check_fields,
  Strings, Numbers, Lists, strings_of, numbers_of, lists_of, build, config_of, with_fields,
  with_commands, with_users, is_empty, made, rejected, thrown, read_strata_config_form,
}

-- The stages of a configuration that is made.
abbrev Stages : (String → Option Fraction) → Former → ConfigForm → Config → Type 0
Stages read former f c =
    (build : List Command → List User → Config) × (commands : List Command) × (users : List User)
    × (config_of read former f (check_fields read f) ≡ some build)
    × (read_commands f.commands ≡ some commands)
    × (read_users f.users ≡ ended (some users))
    × ((f.is_enabled && is_empty users) ≡ false)
    × (build commands users ≡ c)

made_injective : {c d : Config} → made c ≡ made d → c ≡ d
made_injective h = cc

rejected-ne-made : {ms : List String} {c : Config} → rejected ms ≢ made c
rejected-ne-made h = cc

thrown-ne-made : {ms : List String} {c : Config} → thrown ms ≢ made c
thrown-ne-made h = cc

users_stage :
    (is_enabled : Bool) (g : Gathered) (config : List User → Config) (c : Config)
    → with_users is_enabled g config ≡ made c
    → (users : List User) × (g ≡ ended (some users))
      × ((is_enabled && is_empty users) ≡ false)
      × (config users ≡ c)
users_stage is_enabled broken config c h = absurd (thrown-ne-made h)
users_stage is_enabled (ended none) config c h = absurd (rejected-ne-made h)
users_stage is_enabled (ended (some users)) config c h =
    elim (Bool-cases (is_enabled && is_empty users)) [
      | inl e ↦ absurd (rejected-ne-made (rw e at h))
      | inr e ↦ (users, refl, e, made_injective (rw e at h))
    ]

commands_stage :
    (is_enabled : Bool) (o : Option (List Command)) (g : Gathered)
    (build : List Command → List User → Config) (c : Config)
    → with_commands is_enabled o g build ≡ made c
    → (commands : List Command) × (o ≡ some commands)
      × (with_users is_enabled g (build commands) ≡ made c)
commands_stage is_enabled none g build c h = absurd (rejected-ne-made h)
commands_stage is_enabled (some commands) g build c h = (commands, refl, h)

fields_stage :
    (ms : List String) (is_enabled : Bool) (o : Option (List Command)) (g : Gathered)
    (b : Option (List Command → List User → Config)) (c : Config)
    → with_fields ms is_enabled o g b ≡ made c
    → (build : List Command → List User → Config) × (b ≡ some build)
      × (with_commands is_enabled o g build ≡ made c)
fields_stage ms is_enabled o g none c h = absurd (rejected-ne-made h)
fields_stage ms is_enabled o g (some build) c h = (build, refl, h)

stages :
    (read : String → Option Fraction) (former : Former) (f : ConfigForm) (c : Config)
    → read_strata_config_form read former f ≡ made c
    → Stages read former f c
unfolding read_strata_config_form
stages read former f c h =
    let (build, hb, h1) =
      fields_stage _ f.is_enabled (read_commands f.commands) (read_users f.users) _ c h in
    let (commands, hc, h2) =
      commands_stage f.is_enabled (read_commands f.commands) (read_users f.users) build c h1 in
    let (users, hu, e, m) = users_stage f.is_enabled (read_users f.users) (build commands) c h2 in
    (build, commands, users, hb, hc, hu, e, m)

bind-some {ℓ κ} :
    {A : Type ℓ} {B : Type κ} (o : Option A) (k : A → Option B) {b : B}
    → (o >>= k) ≡ some b
    → (a : A) × (o ≡ some a) × (k a ≡ some b)
bind-some (some a) k h = (a, refl, h)
bind-some none k h = cc

none-ne-some {ℓ} : {A : Type ℓ} {a : A} → none ≢ some a
none-ne-some h = cc

some_injective {ℓ} : {A : Type ℓ} {a b : A} → some a ≡ some b → a ≡ b
some_injective h = cc

-- What a configuration that is made holds of the fields' checks.
port_of : (o : Fields) (n : Numbers) → numbers_of o ≡ some n → o.port.0 ≡ some n.port
port_of o n h =
    let (a, e, h1) = bind-some o.port.0 _ h in
    let (b, _, h2) = bind-some o.start_margin.0 _ h1 in
    let (c, _, h3) = bind-some o.end_margin.0 _ h2 in
    let (d, _, h4) = bind-some o.threshold.0 _ h3 in
    let (i, _, h5) = bind-some o.timeout.0 _ h4 in
    let (j, _, h6) = bind-some o.max_concurrent.0 _ h5 in
    let (k, _, h7) = bind-some o.max_age.0 _ h6 in
    let (l, _, h8) = bind-some o.max_size.0 _ h7 in e ∙ ap (λ m. some m.port) (some_injective h8)

services_of :
    (o : Fields) (l : Lists)
    → lists_of o ≡ some l
    → (o.excluded.0 ≡ some l.excluded) × (o.order.0 ≡ some l.order)
services_of o l h =
    let (a, e, h1) = bind-some o.excluded.0 _ h in
    let (b, f, h2) = bind-some o.order.0 _ h1 in
    (
      e ∙ ap (λ m. some m.excluded) (some_injective h2),
      f ∙ ap (λ m. some m.order) (some_injective h2),
    )

built :
    (read : String → Option Fraction) (former : Former) (f : ConfigForm) (o : Fields)
    (b : List Command → List User → Config)
    → config_of read former f o ≡ some b
    → (s : Strings) × (n : Numbers) × (l : Lists) × (o.port.0 ≡ some n.port)
      × (o.excluded.0 ≡ some l.excluded)
      × (o.order.0 ≡ some l.order)
      × (build read former f s n l ≡ b)
built read former f o b h =
    let (s, e, h1) = bind-some (strings_of o) _ h in
    let (n, e', h2) = bind-some (numbers_of o) _ h1 in
    let (l, e'', h3) = bind-some (lists_of o) _ h2 in
    let (x, y) = services_of o l e'' in (s, n, l, port_of o n e', x, y, some_injective h3)

abbrev pub IsPort : Signed → Type 0
IsPort n = (n.is_negative ≡ false) × (1 ≤ n.magnitude) × (n.magnitude ≤ 65535)

integer_from-IsPort :
    (label : String) (o : Option Fraction) (n : Signed)
    → (integer_from label (between 1 65535) o).0 ≡ some n
    → IsPort n
integer_from-IsPort label none n h = absurd (none-ne-some h)
integer_from-IsPort label (some a) n h = elim (Bool-cases (is_within (between 1 65535) a)) [
  | inr e ↦ absurd (none-ne-some (rw e at h))
  | inl e ↦
      let same : record { is_negative = is_below_zero a; magnitude = value_of a } ≡ n =
        some_injective (rw e at h) in
      subst IsPort same (ground (arith, e), ground (arith, e), ground (arith, e))
]

positive_integers-All :
    (os : List (Option Fraction)) (ns : List ℕ)
    → positive_integers os ≡ some ns
    → All (λ n. 0 < n) ns
positive_integers-All [] ns h = subst (All λ n. 0 < n) (some_injective h) tt
positive_integers-All (none ∷ os) ns h = absurd (none-ne-some h)
positive_integers-All (some a ∷ os) ns h = elim (Bool-cases (is_sid a)) [
  | inr e ↦ absurd (none-ne-some (rw e at h))
  | inl e ↦
      let (rest, r, k) = bind-some (positive_integers os) _ (rw e at h) in
      subst (All λ n. 0 < n) (some_injective k) (sid_positive a e, positive_integers-All os rest r)
]

services_from-All :
    (label : String) (o : Option (List ℕ)) (ns : List ℕ)
    → (services_from label o).0 ≡ some ns
    → o ≡ some ns
services_from-All label none ns h = absurd (none-ne-some h)
services_from-All label (some ms) ns h = h

-- A configuration that the form makes has a port from 1 to 65535, positive service ids, and users with
-- distinct names that are not empty, each with a password or one that the server has.
pub read_strata_config_form-valid :
    (read : String → Option Fraction) (former : Former) (f : ConfigForm) (c : Config)
    → read_strata_config_form read former f ≡ made c
    → IsPort c.port
      × All (λ n. 0 < n) c.excluded
      × All (λ n. 0 < n) c.order
      × AreUsers c.users
      × ((c.is_enabled && is_empty c.users) ≡ false)
unfolding check_fields required_integer strata_service_list
read_strata_config_form-valid read former f c h =
    let (b, commands, users, hb, hc, hu, e, m) = stages read former f c h in
    let (s, n, l, p, x, y, made_by) = built read former f (check_fields read f) b hb in
    subst
      (λ (c : Config).
        IsPort c.port
        × All (λ n. 0 < n) c.excluded
        × All (λ n. 0 < n) c.order
        × AreUsers c.users
        × ((c.is_enabled && is_empty c.users) ≡ false))
      (ap (λ b. b commands users) made_by ∙ m)
      (
        integer_from-IsPort "ポート" (read f.port) n.port p,
        positive_integers-All (map read (split_list f.excluded)) l.excluded
            (services_from-All "除外サービス" _ l.excluded x),
        positive_integers-All (map read (split_list f.order)) l.order
            (services_from-All "サービス順" _ l.order y),
        read_users-AreUsers users f.users hu,
        e,
      )

-- If the fields and the commands pass their checks and the row of a user that is refused stands first,
-- with an accepted one behind it, the call ends in an exception: the message about the users is not
-- shown.
pub read_strata_config_form-thrown :
    (read : String → Option Fraction) (former : Former) (f : ConfigForm)
    (b : List Command → List User → Config) (commands : List Command) (row next : Row)
    (rows : List Row)
    → config_of read former f (check_fields read f) ≡ some b
    → read_commands f.commands ≡ some commands
    → f.users ≡ row ∷ next ∷ rows
    → is_refused [] row ≡ true
    → is_refused [] next ≡ false
    → read_strata_config_form read former f ≡ thrown []
unfolding read_strata_config_form read_users
read_strata_config_form-thrown read former f b commands row next rows hb hc hu bad good =
    ap (with_fields _ f.is_enabled (read_commands f.commands) (read_users f.users)) hb
    ∙ ap (λ o. with_commands f.is_enabled o (read_users f.users) b) hc
    ∙ ap (λ us. with_users f.is_enabled (read_users us) (b commands)) hu
    ∙ ap (λ g. with_users f.is_enabled g (b commands)) (read_rows-broken [] row next rows bad good)
