-- ===== src/Player/Query/Distinct.antt =====
-- The keys of a query stay distinct (web/app.js: `cloneQuery`, `applyQualityToQuery`,
-- `applyAudioToQuery`).
use strata_pvr.Base.{
  String, Bool, false, true, ◌||◌, Option, [], ◌∷◌, ◌==◌, eq_iff, ◌≡◌, refl, inl, inr, Bool-cases,
  if◌then◌else◌, arith,
}
use strata_pvr.Player.Query.{
  Value, text, Query, has, set, remove, HasDistinctKeys, is_set, clone_from, or_empty, clone_query,
  set_all, null_if_empty, preset_query, apply_quality_to_query, apply_audio_to_query,
}

has-set : (j k : String) (v : Value) (q : Query) → has j (set k v q) ≡ (k == j || has j q)
unfolding has set
has-set j k v [] = refl
has-set j k v ((i, w) ∷ q) = ground (arith, eq_iff i k, eq_iff i j, eq_iff k j, has-set j k v q)

has-remove : (j k : String) (q : Query) → has j q ≡ false → has j (remove k q) ≡ false
unfolding has remove
has-remove j k [] h = refl
has-remove j k ((i, w) ∷ q) h = ground (arith, has-remove j k q)

pub set-HasDistinctKeys :
    (k : String) (v : Value) (q : Query) → HasDistinctKeys q → HasDistinctKeys (set k v q)
unfolding set has
set-HasDistinctKeys k v [] d = (refl, tt)
set-HasDistinctKeys k v ((i, w) ∷ q) (n, d) = elim (Bool-cases (i == k)) [
  | inl e ↦ rw e (n, d)
  | inr e ↦
      rw e (ground (arith, has-set i k v q, eq_iff i k, eq_iff k i), set-HasDistinctKeys k v q d)
]

remove-HasDistinctKeys : (k : String) (q : Query) → HasDistinctKeys q → HasDistinctKeys (remove k q)
unfolding remove
remove-HasDistinctKeys k [] d = tt
remove-HasDistinctKeys k ((i, w) ∷ q) (n, d) = elim (Bool-cases (i == k)) [
  | inl e ↦ rw e (remove-HasDistinctKeys k q d)
  | inr e ↦ rw e (has-remove i k q n, remove-HasDistinctKeys k q d)
]

set_all-HasDistinctKeys : (r q : Query) → HasDistinctKeys q → HasDistinctKeys (set_all r q)
set_all-HasDistinctKeys [] q d = d
set_all-HasDistinctKeys ((k, v) ∷ r) q d =
    set_all-HasDistinctKeys r (set k v q) (set-HasDistinctKeys k v q d)

if-HasDistinctKeys :
    (b : Bool) (q r : Query)
    → HasDistinctKeys q
    → HasDistinctKeys r
    → HasDistinctKeys (if b then q else r)
if-HasDistinctKeys true q r d e = d
if-HasDistinctKeys false q r d e = e

clone_from-HasDistinctKeys :
    (clone q : Query) → HasDistinctKeys clone → HasDistinctKeys (clone_from clone q)
unfolding clone_from
clone_from-HasDistinctKeys clone [] d = d
clone_from-HasDistinctKeys clone ((k, v) ∷ q) d =
    clone_from-HasDistinctKeys (if is_set v then set k v clone else clone) q
      (if-HasDistinctKeys (is_set v) (set k v clone) clone (set-HasDistinctKeys k v clone d) d)

pub clone_query-HasDistinctKeys : (query : Option Query) → HasDistinctKeys (clone_query query)
unfolding clone_query
clone_query-HasDistinctKeys query = clone_from-HasDistinctKeys [] (or_empty query) tt

null_if_empty-HasDistinctKeys :
    (q : Query) → HasDistinctKeys q → HasDistinctKeys (or_empty (null_if_empty q))
null_if_empty-HasDistinctKeys [] d = d
null_if_empty-HasDistinctKeys (x ∷ q) d = d

pub apply_quality_to_query-HasDistinctKeys :
    (query : Option Query) (quality : String)
    → HasDistinctKeys (or_empty (apply_quality_to_query query quality))
unfolding apply_quality_to_query
apply_quality_to_query-HasDistinctKeys query quality = null_if_empty-HasDistinctKeys _ (
    set_all-HasDistinctKeys (preset_query quality) _ (
      remove-HasDistinctKeys "b:a" _ (
        remove-HasDistinctKeys "b:v" _
          (remove-HasDistinctKeys "s" _ (clone_query-HasDistinctKeys query)))))

pub apply_audio_to_query-HasDistinctKeys :
    (query : Option Query) (audio : String)
    → HasDistinctKeys (or_empty (apply_audio_to_query query audio))
unfolding apply_audio_to_query
apply_audio_to_query-HasDistinctKeys query audio =
    let q = remove "audio" (clone_query query) in
    let d =
      remove-HasDistinctKeys "audio" (clone_query query) (clone_query-HasDistinctKeys query) in
    null_if_empty-HasDistinctKeys _ (
      if-HasDistinctKeys (audio == "secondary") (set "audio" (text "secondary") q) q
        (set-HasDistinctKeys "audio" (text "secondary") q d) d)
