-- ===== src/Stream/Validate.antt =====
-- stream/validate.ts: the validator for the subset of JSON Schema that the schemas use. The loop
-- over the members of an object, and the one over the items of an array, recur on the value.
pub mod Means
pub mod Conforms
use carbon_runtime.Common.{
  ℕ, ◌+◌, Bool, true, false, not, ◌&&◌, ◌||◌, List, [], ◌∷◌, ◌++◌, Option, none, some, Text,
  text_eq, any, ltb, leb, ◌==◌, if◌then◌else◌, length, lookup,
}
use carbon_runtime.Stream.Platform.{Node}
use carbon_runtime.Stream.Fault.{
  Fault, fault, Subject, field, item, schema_keyword_unsupported, value_not_const,
  value_not_in_enum, type_wrong, pattern_unmatched, string_too_short, below_minimum, field_missing,
  field_unknown,
}
use carbon_runtime.Stream.Json.{
  Json, Items, Fields, null, boolean, integer, negative, fraction, negative_fraction, str, arr, obj,
  nil, cons, end, member, is_in, is_inherited, strict_eq,
}

-- The `type` keyword. `unknown_type` is a word that names no JSON type.
pub data TypeWord : Type 0 where
  null_type boolean_type integer_type number_type string_type array_type object_type unknown_type :
      TypeWord

-- The keywords whose values hold no schema. `unsupported` lists the keys that are not known.
pub record Rules : Type 0 where
  pub unsupported : List Text
  pub const : Option Json
  pub enum : Option (List Json)
  pub type : Option TypeWord
  pub pattern : Option Text
  pub min_length : Option ℕ
  pub minimum : Option ℕ
  pub required : List Text

mutual
  pub data Schema : Type 0 where
    schema : Rules → Properties → Additional → Elements → Schema

  pub data Properties : Type 0 where
    no_more : Properties
    property : Text → Schema → Properties → Properties

  -- additionalProperties: absent or true, false, or a schema.
  pub data Additional : Type 0 where
    open_keys closed_keys : Additional
    each_key : Schema → Additional

  pub data Elements : Type 0 where
    any_items : Elements
    each_item : Schema → Elements

abbrev pub no_rules : Rules
no_rules = record {
  unsupported = [];
  const = none;
  enum = none;
  type = none;
  pattern = none;
  min_length = none;
  minimum = none;
  required = [];
}

-- What validating against a value inherited from `Object.prototype` amounts to: no keyword.
abbrev pub empty_schema : Schema
empty_schema = schema no_rules no_more open_keys any_items

-- `typeOf` against the wanted word: a `number` may be an `integer`.
unfoldable pub matches_type : Json → TypeWord → Bool
matches_type null null_type = true
matches_type (boolean b) boolean_type = true
matches_type (integer n) integer_type = true
matches_type (integer n) number_type = true
matches_type (negative n) integer_type = true
matches_type (negative n) number_type = true
matches_type (fraction n i) number_type = true
matches_type (negative_fraction n) number_type = true
matches_type (str s) string_type = true
matches_type (arr vs) array_type = true
matches_type (obj fs) object_type = true
matches_type _ _ = false

abbrev pub when : Bool → Fault → List Fault
when true f = f ∷ []
when false f = []

unfoldable pub keyword_faults : Subject → List Text → List Fault
keyword_faults subject [] = []
keyword_faults subject (key ∷ keys) =
    fault schema_keyword_unsupported subject ∷ keyword_faults subject keys

-- The three tests that end the validation: const, enum and type.
unfoldable pub const_refuses : Option Json → Json → Bool
const_refuses none v = false
const_refuses (some c) v = not (strict_eq v c)

unfoldable pub enum_refuses : Option (List Json) → Json → Bool
enum_refuses none v = false
enum_refuses (some cs) v = not (any (strict_eq v) cs)

unfoldable pub type_refuses : Option TypeWord → Json → Bool
type_refuses none v = false
type_refuses (some t) v = not (matches_type v t)

-- `value < minimum`.
unfoldable pub below : Json → ℕ → Bool
below (integer n) m = ltb n m
below (negative n) m = true
below (fraction n i) m = ltb n m
below (negative_fraction n) m = true
below _ m = false

unfoldable pub pattern_refuses : Node → Option Text → Text → Bool
pattern_refuses node none s = false
pattern_refuses node (some p) s = not (node.regex_test p s)

unfoldable pub length_refuses : Option ℕ → Text → Bool
length_refuses none s = false
length_refuses (some n) s = ltb (length s) n

unfoldable pub minimum_refuses : Option ℕ → Json → Bool
minimum_refuses none v = false
minimum_refuses (some m) v = below v m

-- The tests of a string and of a number.
unfoldable pub scalar_faults : Node → Rules → Json → Subject → List Fault
scalar_faults node rules (str s) subject =
    when (pattern_refuses node rules.pattern s) (fault pattern_unmatched subject)
    ++ when (length_refuses rules.min_length s) (fault string_too_short subject)
scalar_faults node rules v subject =
    when (minimum_refuses rules.minimum v) (fault below_minimum subject)

unfoldable pub required_faults : List Text → Fields → Subject → List Fault
required_faults [] fields subject = []
required_faults (name ∷ names) fields subject =
    when (not (is_in name fields)) (fault field_missing (field subject name))
    ++ required_faults names fields subject

-- `properties[name]` where `name in properties`.
unfoldable pub property_of : Text → Properties → Option Schema
property_of name no_more = if is_inherited name then some empty_schema else none
property_of name (property other s rest) =
    let below = property_of name rest in if text_eq other name then some s else below

-- The schema that a member is held to, or the refusal of its name.
pub data Held : Type 0 where
  to : Schema → Held
  refused : Held
  free : Held

unfoldable pub held_to : Option Schema → Additional → Held
held_to (some s) additional = to s
held_to none open_keys = free
held_to none closed_keys = refused
held_to none (each_key s) = to s

-- The first fault that ends the validation, if there is one.
unfoldable pub ending : Rules → Json → Subject → List Fault
unfolding const_refuses enum_refuses type_refuses
ending rules v subject =
    if const_refuses rules.const v
    then fault value_not_const subject ∷ []
    else if enum_refuses rules.enum v
    then fault value_not_in_enum subject ∷ []
    else if type_refuses rules.type v
    then fault type_wrong subject ∷ []
    else []

-- Go on only if nothing has ended the validation.
abbrev pub unless_ended : List Fault → List Fault → List Fault
unless_ended [] rest = rest
unless_ended (f ∷ fs) rest = f ∷ fs

unfoldable mutual
  pub validate : Node → Json → Schema → Subject → List Fault
  validate node (arr vs) (schema rules properties additional elements) subject =
      keyword_faults subject rules.unsupported
      ++ unless_ended (ending rules (arr vs) subject) (item_faults node vs elements 0 subject)
  validate node (obj fs) (schema rules properties additional elements) subject =
      keyword_faults subject rules.unsupported
      ++ unless_ended (ending rules (obj fs) subject) (
          required_faults rules.required fs subject
          ++ member_faults node fs properties additional subject)
  validate node v (schema rules properties additional elements) subject =
      keyword_faults subject rules.unsupported
      ++ unless_ended (ending rules v subject) (scalar_faults node rules v subject)

  pub item_faults : Node → Items → Elements → ℕ → Subject → List Fault
  item_faults node nil elements i subject = []
  item_faults node (cons v vs) any_items i subject = []
  item_faults node (cons v vs) (each_item s) i subject =
      validate node v s (item subject i) ++ item_faults node vs (each_item s) (i + 1) subject

  pub member_faults : Node → Fields → Properties → Additional → Subject → List Fault
  member_faults node end properties additional subject = []
  member_faults node (member name v fs) properties additional subject =
      elim (held_to (property_of name properties) additional) [
        | to s ↦ validate node v s (field subject name)
        | refused ↦ fault field_unknown (field subject name) ∷ []
        | free ↦ []
      ]
      ++ member_faults node fs properties additional subject
