-- ===== src/Rules/Fields.antt =====
-- The properties of an object, and results with a message (web/app.js: the objects that
-- `readRuleForm` builds, and `showError`).
use strata_pvr.Base.{
  String, Bool, true, false, not, Option, none, some, ◌==◌, eqb, truthy, eq_iff, ◌≡◌, ◌≢◌, refl,
  if◌then◌else◌, arith,
}
use strata_pvr.Settings.{
  Json, Properties, null, boolean, number, text, array, object, no_fields, field,
}

-- A value that was read, or the message of `showError` in its place.
pub data Reading {ℓ} (A : Type ℓ) : Type ℓ where
  refused : String → Reading A
  accepted : A → Reading A

infixl 5 ◌>>=◌
abbrev pub ◌>>=◌ {ℓ κ} : {B : Type ℓ} {C : Type κ} → Reading B → (B → Reading C) → Reading C
refused message >>= next = refused message
accepted value >>= next = next value

-- A reading that is accepted came from one that was, and from the next step.
pub >>=-accepted {ℓ κ} :
    {B : Type ℓ} {C : Type κ} (first : Reading B) (next : B → Reading C) {c : C}
    → (first >>= next) ≡ accepted c
    → (value : B) × (first ≡ accepted value) × (next value ≡ accepted c)
>>=-accepted (refused message) next e = cc
>>=-accepted (accepted value) next e = (value, refl, e)

pub accepted_injective {ℓ} : {A : Type ℓ} {a b : A} → accepted a ≡ accepted b → a ≡ b
accepted_injective e = cc

pub refused-ne-accepted {ℓ} : {A : Type ℓ} {e : String} {a : A} → refused e ≢ accepted a
refused-ne-accepted h = cc

-- `object[name]`, `object[name] = value` and `delete object[name]`
unfoldable pub get_field : String → Properties → Option Json
get_field name no_fields = none
get_field name (field k v fields) = if k == name then some v else get_field name fields

unfoldable pub set_field : String → Json → Properties → Properties
set_field name value no_fields = field name value no_fields
set_field name value (field k v fields) =
    if k == name then field k value fields else field k v (set_field name value fields)

unfoldable pub remove_field : String → Properties → Properties
remove_field name no_fields = no_fields
remove_field name (field k v fields) =
    if k == name then remove_field name fields else field k v (remove_field name fields)

-- The truth of a value.
abbrev pub is_true : Option Json → Bool
is_true none = false
is_true (some null) = false
is_true (some (boolean b)) = b
is_true (some (number n)) = not (eqb n 0)
is_true (some (text s)) = truthy s
is_true (some (array vs)) = true
is_true (some (object o)) = true

pub get_field-set_field :
    (j k : String) (v : Json) (o : Properties)
    → get_field j (set_field k v o) ≡ (if k == j then some v else get_field j o)
unfolding get_field set_field
get_field-set_field j k v no_fields = refl
get_field-set_field j k v (field i w o) =
    ground (arith, eq_iff i k, eq_iff i j, eq_iff k j, get_field-set_field j k v o)

pub get_field-remove_field :
    (j k : String) (o : Properties)
    → get_field j (remove_field k o) ≡ (if k == j then none else get_field j o)
unfolding get_field remove_field
get_field-remove_field j k no_fields = ground arith
get_field-remove_field j k (field i w o) =
    ground (arith, eq_iff i k, eq_iff i j, eq_iff k j, get_field-remove_field j k o)
