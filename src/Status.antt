-- ===== src/Status.antt =====
-- The uptime on the status page (web/app.js: `formatUptime`) and the lists in the texts of a form
-- (`splitList`).
pub mod Split
use Prim.Native.Char.{code}
use Prim.Native.String.{[], ◌∷◌}
use strata_pvr.Base.{
  ℕ, ◌/◌, ◌%◌, String, Option, none, some, List, eqb, ltb, show, ◌⧺◌, truthy, filter, map, trim,
  ◌≡◌, refl, if◌then◌else◌,
}

-- Of seconds that are whole after `Math.floor`; none is no number, not finite or negative.
unfoldable format_uptime : Option ℕ → String
format_uptime none = "取得不可"
format_uptime (some total) =
    let days = total / 86400 in
    let hours = total % 86400 / 3600 in
    let minutes = total % 3600 / 60 in
    if ltb 0 days
    then show days ⧺ "日 " ⧺ show hours ⧺ "時間"
    else (if ltb 0 hours then show hours ⧺ "時間 " ⧺ show minutes ⧺ "分" else show minutes ⧺ "分")

-- The first part of a list of parts, with a character in front.
abbrev pub put : String → List String → List String
put c List.[] = List.◌∷◌ c List.[]
put c (List.◌∷◌ part parts) = List.◌∷◌ (c ⧺ part) parts

-- `split(separator)` at a character.
abbrev pub split_at : ℕ → String → List String
split_at separator [] = List.◌∷◌ "" List.[]
split_at separator (c ∷ s) =
    let rest = split_at separator s in
    if eqb (code c) separator then List.◌∷◌ "" rest else put (c ∷ "") rest

unfoldable pub split_list : String → List String
unfolding trim
split_list value = filter truthy (map trim (split_at b',' value))

split_list_test : split_list " a, ,b" ≡ List.◌∷◌ "a" (List.◌∷◌ "b" List.[])
unfolding split_list
split_list_test = refl
