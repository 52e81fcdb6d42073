-- ===== src/Status/Split.antt =====
-- A list in a text and back (web/app.js: `splitList` of what `join(", ")` wrote).
use Prim.Native.Char.{code}
use Prim.Native.String.{[], ◌∷◌}
use mathlib.Core.Bool.{and-eq-true_iff}
use strata_pvr.Base.{
  ℕ, String, Bool, true, false, not, List, eqb, ◌⧺◌, ⧺_assoc, truthy, filter, map, trim, trim_start,
  trim_end, is_space, join, all_chars, all_chars-⧺, All, ◌≡◌, refl, sym, ap, ◌∙◌, inl, inr,
  Bool-cases, arith,
}
use strata_pvr.Status.{put, split_at, split_list}

append_empty : (s : String) → s ⧺ "" ≡ s
append_empty [] = refl
append_empty (c ∷ s) = ap (λ r. c ∷ r) (append_empty s)

put-put : (s t : String) (parts : List String) → put s (put t parts) ≡ put (s ⧺ t) parts
put-put s t List.[] = refl
put-put s t (List.◌∷◌ part parts) = ap (λ p. List.◌∷◌ p parts) (sym (⧺_assoc s t part))

abbrev is_other : ℕ → ℕ → Bool
is_other separator c = not (eqb c separator)

put_nothing : (separator : ℕ) (t : String) → put "" (split_at separator t) ≡ split_at separator t
put_nothing separator [] = refl
put_nothing separator (c ∷ t) = elim (Bool-cases (eqb (code c) separator)) [
  | inl e ↦ rw e refl
  | inr e ↦ rw e (put-put "" (c ∷ "") (split_at separator t))
]

-- A text without the separator stays in front of the first part.
split_at-⧺ :
    (separator : ℕ) (s t : String)
    → all_chars (is_other separator) s ≡ true
    → split_at separator (s ⧺ t) ≡ put s (split_at separator t)
split_at-⧺ separator [] t h = sym (put_nothing separator t)
split_at-⧺ separator (c ∷ s) t h =
    let (here, later) =
      (and-eq-true_iff (is_other separator (code c)) (all_chars (is_other separator) s)).0 h in
    let other : eqb (code c) separator ≡ false = ground (arith, here) in
    rw other (
      ap (put (c ∷ "")) (split_at-⧺ separator s t later)
      ∙ put-put (c ∷ "") s (split_at separator t))

-- A text that a list of texts separated by commas can hold.
abbrev pub IsClean : String → Type 0
IsClean s = (all_chars (is_other b',') s ≡ true) × (trim s ≡ s) × (truthy s ≡ true)

split_at_whole :
    (s : String) → all_chars (is_other b',') s ≡ true → split_at b',' s ≡ List.◌∷◌ s List.[]
split_at_whole s h =
    ap (split_at b',') (sym (append_empty s))
    ∙ split_at-⧺ b',' s "" h
    ∙ ap (λ r. List.◌∷◌ r List.[]) (append_empty s)

split_at_front :
    (s t : String)
    → all_chars (is_other b',') s ≡ true
    → split_at b',' (s ⧺ "," ⧺ t) ≡ List.◌∷◌ s (split_at b',' t)
split_at_front s t h =
    split_at-⧺ b',' s ("," ⧺ t) h ∙ ap (λ r. List.◌∷◌ r (split_at b',' t)) (append_empty s)

abbrev spaced : List String → List String
spaced vs = map (λ v. " " ⧺ v) vs

-- The parts of a joined list, of which the first stands behind `lead`.
split_at-join :
    (lead v : String) (vs : List String)
    → all_chars (is_other b',') lead ≡ true
    → All IsClean (List.◌∷◌ v vs)
    → split_at b',' (lead ⧺ join ", " (List.◌∷◌ v vs)) ≡ List.◌∷◌ (lead ⧺ v) (spaced vs)
split_at-join lead v List.[] l ((free, _, _), _) =
    split_at_whole (lead ⧺ v) (all_chars-⧺ (is_other b',') lead v ∙ rw (l, free) refl)
split_at-join lead v (List.◌∷◌ w vs) l ((free, _, _), rest) =
    let rest_text = join ", " (List.◌∷◌ w vs) in
    ap (split_at b',') (sym (⧺_assoc lead v (", " ⧺ rest_text)))
    ∙ split_at_front (lead ⧺ v) (" " ⧺ rest_text)
        (all_chars-⧺ (is_other b',') lead v ∙ rw (l, free) refl)
    ∙ ap (λ parts. List.◌∷◌ (lead ⧺ v) parts) (split_at-join " " w vs refl rest)

trim-space : (v : String) → trim (" " ⧺ v) ≡ trim v
unfolding trim trim_start is_space
trim-space v = refl

filter-spaced : (vs : List String) → All IsClean vs → filter truthy (map trim (spaced vs)) ≡ vs
filter-spaced List.[] _ = refl
filter-spaced (List.◌∷◌ v vs) ((_, t, n), rest) =
    let e : trim (" " ⧺ v) ≡ v = trim-space v ∙ t in
    rw (e, n) (ap (List.◌∷◌ v) (filter-spaced vs rest))

split_list-empty : split_list "" ≡ List.[]
unfolding split_list trim trim_start trim_end
split_list-empty = refl

-- A list of texts without commas, each trimmed and not empty, is read as it was written.
pub split_list-join : (vs : List String) → All IsClean vs → split_list (join ", " vs) ≡ vs
unfolding split_list
split_list-join List.[] _ = split_list-empty
split_list-join (List.◌∷◌ v vs) ((f, t, n), rest) =
    ap (λ parts. filter truthy (map trim parts)) (split_at-join "" v vs refl ((f, t, n), rest))
    ∙ rw (t, n) (ap (List.◌∷◌ v) (filter-spaced vs rest))
