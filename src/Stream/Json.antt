-- ===== src/Stream/Json.antt =====
-- A value that `JSON.parse` gives. A number is a whole number or lies strictly between two; the
-- program asks no more of it than `Number.isInteger` and an order with a bound.
use carbon_runtime.Common.{
  ℕ, Bool, true, false, Text, text, text_eq, ◌==◌, ◌&&◌, ◌||◌, not, [], Option, none, some,
  if◌then◌else◌, ◌≡◌, refl, arith, text_eq_iff,
}

mutual
  pub data Json : Type 0 where
    null : Json
    boolean : Bool → Json
    integer : ℕ → Json
    -- -(n + 1).
    negative : ℕ → Json
    -- A number strictly between n and n + 1, by its place among them.
    fraction : ℕ → ℕ → Json
    -- A number below 0 that is not whole.
    negative_fraction : ℕ → Json
    str : Text → Json
    arr : Items → Json
    obj : Fields → Json

  pub data Items : Type 0 where
    nil : Items
    cons : Json → Items → Items

  pub data Fields : Type 0 where
    end : Fields
    member : Text → Json → Fields → Fields

-- `Object.prototype` gives every object these names, so `name in {}` is true of them.
unfoldable pub is_inherited : Text → Bool
unfolding text_eq
is_inherited name =
    text_eq name (text "constructor")
    || text_eq name (text "__proto__")
    || text_eq name (text "__defineGetter__")
    || text_eq name (text "__defineSetter__")
    || text_eq name (text "__lookupGetter__")
    || text_eq name (text "__lookupSetter__")
    || text_eq name (text "hasOwnProperty")
    || text_eq name (text "isPrototypeOf")
    || text_eq name (text "propertyIsEnumerable")
    || text_eq name (text "toLocaleString")
    || text_eq name (text "toString")
    || text_eq name (text "valueOf")

-- Whether an object has a member of its own under a name.
unfoldable pub has_member : Text → Fields → Bool
has_member name end = false
has_member name (member other v fields) = text_eq other name || has_member name fields

-- `name in value`.
unfoldable pub is_in : Text → Fields → Bool
unfolding has_member
is_in name fields = has_member name fields || is_inherited name

-- `===` of two values that were parsed apart: two objects or arrays are never the same one.
unfoldable pub strict_eq : Json → Json → Bool
strict_eq null null = true
strict_eq (boolean true) (boolean b) = b
strict_eq (boolean false) (boolean true) = false
strict_eq (boolean false) (boolean false) = true
strict_eq (integer n) (integer m) = n == m
strict_eq (negative n) (negative m) = n == m
strict_eq (fraction n i) (fraction m j) = (n == m) && (i == j)
strict_eq (negative_fraction n) (negative_fraction m) = n == m
strict_eq (str s) (str t) = text_eq s t
strict_eq _ _ = false

-- `fields[name]`, of the object's own members. `none` is undefined.
unfoldable pub get : Text → Fields → Option Json
get name end = none
get name (member other v fields) = if text_eq other name then some v else get name fields

-- `{ ...fields, [name]: v }`.
unfoldable pub set : Text → Json → Fields → Fields
set name v end = member name v end
set name v (member other w fields) =
    let rest = set name v fields in
    if text_eq other name then member other v fields else member other w rest

-- What the object's own member under a name is, as text; no text where it is something else.
unfoldable pub is_text : Option Json → Text → Bool
is_text (some (str s)) t = text_eq s t
is_text _ t = false

-- What JavaScript takes for true.
unfoldable pub truthy : Json → Bool
unfolding text_eq
truthy null = false
truthy (boolean b) = b
truthy (integer n) = not (n == 0)
truthy (str s) = not (text_eq s [])
truthy _ = true

pub get-set :
    (name other : Text) (v : Json) (fields : Fields)
    → get other (set name v fields) ≡ (if text_eq name other then some v else get other fields)
unfolding get set
get-set name other v end = refl
get-set name other v (member key w fields) = ground (
  arith,
  text_eq_iff key name,
  text_eq_iff key other,
  text_eq_iff name other,
  get-set name other v fields,
)
