-- ===== src/Requests.antt =====
-- Which event another window is told after a request that changes something (web/app.js:
-- `notifyEventForPath`).
mod Tests
pub mod Send
pub mod Realtime
use Prim.Native.Char.{code}
use Prim.Native.String.{[], ◌∷◌}
use strata_pvr.Base.{
  ℕ, String, Bool, true, false, not, ◌&&◌, ◌||◌, ◌==◌, eqb, leb, truthy, ◌≡◌, refl, if◌then◌else◌,
}
use text.Mathlib.Text.{starts_with}

-- A character that `\w` names.
abbrev is_word : ℕ → Bool
is_word c =
    (leb b'0' c && leb c b'9')
    || (leb b'A' c && leb c b'Z')
    || (leb b'a' c && leb c b'z')
    || eqb c b'_'

-- `(\b|\/|\.json)` behind a letter: the word ends here.
abbrev ends_word : String → Bool
ends_word [] = true
ends_word (c ∷ s) = not (is_word (code c))

-- The text behind a word that stands in front, if the word ends there.
abbrev word_first : String → String → Bool
word_first [] s = ends_word s
word_first (c ∷ word) [] = false
word_first (c ∷ word) (d ∷ s) = eqb (code c) (code d) && word_first word s

unfoldable pub notify_event_for_path : String → String → String
notify_event_for_path path method =
    if not (truthy method) || method == "GET"
    then ""
    else (if starts_with path "program/" || word_first "reserve" path || word_first "reserves" path
        then "notify-reserves"
        else (if starts_with path "recording/"
            then "notify-recording"
            else (if starts_with path "recorded/"
                then "notify-recorded"
                else (if word_first "rules" path
                    then "notify-rules"
                    else (if starts_with path "scheduler/" then "notify-schedule" else "")))))

skip_test : notify_event_for_path "reserves/a1/skip" "PUT" ≡ "notify-reserves"
unfolding notify_event_for_path
skip_test = refl

rules_test : notify_event_for_path "rules.json" "POST" ≡ "notify-rules"
unfolding notify_event_for_path
rules_test = refl
