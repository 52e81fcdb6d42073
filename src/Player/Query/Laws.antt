-- ===== src/Player/Query/Laws.antt =====
-- What the operations on a query do to each property.
use strata_pvr.Base.{String, false, Option, [], ◌∷◌, ◌==◌, eq_iff, ◌≡◌, refl, if◌then◌else◌, arith}
use strata_pvr.Player.Query.{
  Value, undefined, Query, get, has, set, remove, HasDistinctKeys, is_set, clone_from, or_empty,
  clone_query, null_if_empty,
}

pub get-set :
    (j k : String) (v : Value) (q : Query) → get j (set k v q) ≡ (if k == j then v else get j q)
unfolding get set
get-set j k v [] = refl
get-set j k v ((i, w) ∷ q) = ground (arith, eq_iff i k, eq_iff i j, eq_iff k j, get-set j k v q)

pub get-remove :
    (j k : String) (q : Query) → get j (remove k q) ≡ (if k == j then undefined else get j q)
unfolding get remove
get-remove j k [] = ground arith
get-remove j k ((i, w) ∷ q) = ground (arith, eq_iff i k, eq_iff i j, eq_iff k j, get-remove j k q)

pub get-null_if_empty : (j : String) (q : Query) → get j (or_empty (null_if_empty q)) ≡ get j q
get-null_if_empty j [] = refl
get-null_if_empty j (x ∷ q) = refl

get_of_not_has : (j : String) (q : Query) → has j q ≡ false → get j q ≡ undefined
unfolding get has
get_of_not_has j [] h = refl
get_of_not_has j ((i, w) ∷ q) h = ground (arith, get_of_not_has j q)

get-clone_from :
    (j : String) (clone q : Query)
    → HasDistinctKeys q
    → get j (clone_from clone q) ≡ (if is_set (get j q) then get j q else get j clone)
unfolding clone_from get
get-clone_from j clone [] d = refl
get-clone_from j clone ((k, v) ∷ q) d = ground (
  arith,
  eq_iff k j,
  get_of_not_has k q d.0,
  get-clone_from j (if is_set v then set k v clone else clone) q d.1,
  get-set j k v clone,
)

-- A clone has the properties that are set, and no other.
pub get-clone_query :
    (j : String) (query : Option Query)
    → HasDistinctKeys (or_empty query)
    → get j (clone_query query)
      ≡ (if is_set (get j (or_empty query)) then get j (or_empty query) else undefined)
unfolding clone_query get
get-clone_query j query d = get-clone_from j [] (or_empty query) d
