-- ===== src/Stream/Validate/Conforms.antt =====
-- A value passes the validator exactly when it conforms to the schema.
use carbon_runtime.Common.{
  append-eq-nil, ℕ, ◌+◌, ◌≡◌, refl, ◌↔◌, Bool, true, false, List, [], ◌∷◌, ◌++◌, Option, none, some,
  arith, Text, All, length, ◌≤◌, not, Bool-cases, inl, inr,
}
use carbon_runtime.Stream.Platform.{Node}
use carbon_runtime.Stream.Fault.{Fault, fault, Subject, field, field_unknown, item}
use carbon_runtime.Stream.Json.{Json, Items, Fields, str, arr, obj, nil, cons, end, member, is_in}
use carbon_runtime.Stream.Validate.{
  Rules, TypeWord, Schema, Properties, Additional, Elements, schema, any_items, each_item, to,
  refused, free, Held, held_to, property_of, validate, item_faults, member_faults, scalar_faults,
  required_faults, keyword_faults, ending, const_refuses, enum_refuses, type_refuses,
  pattern_refuses, length_refuses, minimum_refuses, unless_ended, when,
}
use carbon_runtime.Stream.Validate.Means.{
  IsOfType, matches_type_iff, IsAtLeast, below_iff, IsSame, strict_eq_iff, IsOneOf, any-strict_eq,
  IsPresent, is_in_iff, IsRuled, HeldTo, held_to_iff,
}

-- What a keyword asks, where the schema has it.
abbrev Where {ℓ} : {A : Type ℓ} → Option A → (A → Type 0) → Type 0
Where none P = Unit
Where (some a) P = P a

-- What the keywords that are read first ask of a value.
pub record MeetsHead (rules : Rules) (v : Json) : Type 0 where
  pub supported : rules.unsupported ≡ []
  pub const_met : Where rules.const (IsSame v)
  pub enum_met : Where rules.enum (IsOneOf v)
  pub type_met : Where rules.type (λ t. IsOfType t v)

-- What is asked of a string, of a number, and nothing of another value that holds no other.
abbrev MeetsScalar : Node → Rules → Json → Type 0
MeetsScalar node rules (str s) =
    Where rules.pattern (λ p. node.regex_test p s ≡ true)
    × Where rules.min_length (λ n. n ≤ length s)
MeetsScalar node rules v = Where rules.minimum (λ m. IsAtLeast m v)

abbrev mutual
  pub Conforms : Node → Json → Schema → Type 0
  Conforms node (arr vs) (schema rules properties additional elements) =
      MeetsHead rules (arr vs) × ItemsConform node vs elements
  Conforms node (obj fs) (schema rules properties additional elements) =
      MeetsHead rules (obj fs)
      × All (λ name. IsPresent name fs) rules.required
      × MembersConform node fs properties additional
  Conforms node v (schema rules properties additional elements) =
      MeetsHead rules v × MeetsScalar node rules v

  pub ItemsConform : Node → Items → Elements → Type 0
  ItemsConform node nil elements = Unit
  ItemsConform node (cons v vs) any_items = Unit
  ItemsConform node (cons v vs) (each_item s) =
      Conforms node v s × ItemsConform node vs (each_item s)

  pub MembersConform : Node → Fields → Properties → Additional → Type 0
  MembersConform node end properties additional = Unit
  MembersConform node (member name v fs) properties additional =
      IsRuled name properties additional (Conforms node v)
      × MembersConform node fs properties additional

not_iff : (b : Bool) {P : Type 0} → (b ≡ true) ↔ P → (not b ≡ false) ↔ P
not_iff true p = (λ h. p.0 refl, λ h. refl)
not_iff false p = (λ h. cc, λ h. cc (p.1 h))

both_iff {ℓ} :
    {A : Type ℓ} {P Q : Type 0} (xs ys : List A)
    → (xs ≡ []) ↔ P
    → (ys ≡ []) ↔ Q
    → (xs ++ ys ≡ []) ↔ (P × Q)
both_iff xs ys p q = (
  λ h. let parts = (append-eq-nil xs ys).0 h in (p.0 parts.0, q.0 parts.1),
  λ h. (append-eq-nil xs ys).1 (p.1 h.0, q.1 h.1),
)

const_refuses_iff : (o : Option Json) (v : Json) → (const_refuses o v ≡ false) ↔ Where o (IsSame v)
unfolding const_refuses
const_refuses_iff none v = (λ h. tt, λ h. refl)
const_refuses_iff (some c) v = not_iff _ (strict_eq_iff v c)

enum_refuses_iff :
    (o : Option (List Json)) (v : Json) → (enum_refuses o v ≡ false) ↔ Where o (IsOneOf v)
unfolding enum_refuses
enum_refuses_iff none v = (λ h. tt, λ h. refl)
enum_refuses_iff (some c) v = not_iff _ (any-strict_eq v c)

type_refuses_iff :
    (o : Option TypeWord) (v : Json) → (type_refuses o v ≡ false) ↔ Where o (λ t. IsOfType t v)
unfolding type_refuses
type_refuses_iff none v = (λ h. tt, λ h. refl)
type_refuses_iff (some c) v = not_iff _ (matches_type_iff c v)

ending_iff :
    (rules : Rules) (v : Json) (subject : Subject)
    → (ending rules v subject ≡ []) ↔ (
        (const_refuses rules.const v ≡ false)
        × (enum_refuses rules.enum v ≡ false)
        × (type_refuses rules.type v ≡ false))
unfolding ending
ending_iff rules v subject = (λ h. ground arith, λ h. ground arith)

keyword_faults_iff :
    (subject : Subject) (keys : List Text) → (keyword_faults subject keys ≡ []) ↔ (keys ≡ [])
unfolding keyword_faults
keyword_faults_iff subject [] = (λ h. refl, λ h. refl)
keyword_faults_iff subject (k ∷ keys) = (λ h. cc, λ h. cc)

unless_ended_iff :
    (ends rest : List Fault) → (unless_ended ends rest ≡ []) ↔ ((ends ≡ []) × (rest ≡ []))
unless_ended_iff [] rest = (λ h. (refl, h), λ h. h.1)
unless_ended_iff (f ∷ ends) rest = (λ h. cc, λ h. cc (h.0))

-- The frame that every validation has: the keywords, what ends it, and the rest.
frame_iff :
    (rules : Rules) (v : Json) (subject : Subject) (rest : List Fault)
    → (keyword_faults subject rules.unsupported ++ unless_ended (ending rules v subject) rest ≡ [])
      ↔ (MeetsHead rules v × (rest ≡ []))
frame_iff rules v subject rest = (
  λ h.
      let parts = (append-eq-nil (keyword_faults subject rules.unsupported) _).0 h in
      let ends = (unless_ended_iff (ending rules v subject) rest).0 parts.1 in
      let met = (ending_iff rules v subject).0 ends.0 in
      (
        record {
          supported = (keyword_faults_iff subject rules.unsupported).0 parts.0;
          const_met = (const_refuses_iff rules.const v).0 met.0;
          enum_met = (enum_refuses_iff rules.enum v).0 met.1;
          type_met = (type_refuses_iff rules.type v).0 met.2;
        },
        ends.1,
      ),
  λ h. (append-eq-nil (keyword_faults subject rules.unsupported) _).1 (
    (keyword_faults_iff subject rules.unsupported).1 h.0.supported,
    (unless_ended_iff (ending rules v subject) rest).1 (
      (ending_iff rules v subject).1 (
        (const_refuses_iff rules.const v).1 h.0.const_met,
        (enum_refuses_iff rules.enum v).1 h.0.enum_met,
        (type_refuses_iff rules.type v).1 h.0.type_met,
      ),
      h.1,
    ),
  ),
)

pattern_refuses_iff :
    (node : Node) (o : Option Text) (s : Text)
    → (pattern_refuses node o s ≡ false) ↔ Where o (λ p. node.regex_test p s ≡ true)
unfolding pattern_refuses
pattern_refuses_iff node none s = ground arith
pattern_refuses_iff node (some p) s = ground arith

length_refuses_iff :
    (o : Option ℕ) (s : Text) → (length_refuses o s ≡ false) ↔ Where o (λ n. n ≤ length s)
unfolding length_refuses
length_refuses_iff none s = ground arith
length_refuses_iff (some n) s = ground arith

minimum_refuses_iff :
    (o : Option ℕ) (v : Json) → (minimum_refuses o v ≡ false) ↔ Where o (λ m. IsAtLeast m v)
unfolding minimum_refuses
minimum_refuses_iff none v = (λ h. tt, λ h. refl)
minimum_refuses_iff (some n) v = below_iff v n

when-eq-nil : (b : Bool) (f : Fault) → (when b f ≡ []) ↔ (b ≡ false)
when-eq-nil b f = ground arith

minimum_faults_iff :
    (rules : Rules) (v : Json) (f : Fault)
    → (when (minimum_refuses rules.minimum v) f ≡ []) ↔ Where rules.minimum (λ m. IsAtLeast m v)
minimum_faults_iff rules v f = (
  λ h. (minimum_refuses_iff rules.minimum v).0 ((when-eq-nil _ f).0 h),
  λ h. (when-eq-nil _ f).1 ((minimum_refuses_iff rules.minimum v).1 h),
)

scalar_faults_iff :
    (node : Node) (rules : Rules) (v : Json) (subject : Subject)
    → (scalar_faults node rules v subject ≡ []) ↔ MeetsScalar node rules v
unfolding scalar_faults
scalar_faults_iff node rules (str s) subject = (
  λ h.
      let parts = (append-eq-nil _ _).0 h in
      (
        (pattern_refuses_iff node rules.pattern s).0 ((when-eq-nil _ _).0 parts.0),
        (length_refuses_iff rules.min_length s).0 ((when-eq-nil _ _).0 parts.1),
      ),
  λ h. (append-eq-nil _ _).1 (
    (when-eq-nil _ _).1 ((pattern_refuses_iff node rules.pattern s).1 h.0),
    (when-eq-nil _ _).1 ((length_refuses_iff rules.min_length s).1 h.1),
  ),
)
scalar_faults_iff node rules v subject = minimum_faults_iff rules v _

absent_iff :
    (name : Text) (fs : Fields) (f : Fault)
    → (when (not (is_in name fs)) f ≡ []) ↔ IsPresent name fs
absent_iff name fs f = elim (Bool-cases (is_in name fs)) [
  | inl b ↦ rw b (λ h. (is_in_iff name fs).0 b, λ h. refl)
  | inr b ↦ rw b (λ h. cc, λ h. cc (b, (is_in_iff name fs).1 h))
]

required_faults_iff :
    (names : List Text) (fs : Fields) (subject : Subject)
    → (required_faults names fs subject ≡ []) ↔ All (λ name. IsPresent name fs) names
unfolding required_faults
required_faults_iff [] fs subject = (λ h. tt, λ h. refl)
required_faults_iff (n ∷ names) fs subject =
    let both = both_iff _ _ (absent_iff n fs _) (required_faults_iff names fs subject) in
    (λ h. both.0 h, λ h. both.1 h)

-- One member, held to what its name asks.
held_iff :
    (node : Node) (v : Json) (at : Subject) (name : Text) (h : Held)
    → ((s : Schema) (subject : Subject) → (validate node v s subject ≡ []) ↔ Conforms node v s)
    → ((elim h as (λ _. List Fault) [
      | to s ↦ validate node v s (field at name)
      | refused ↦ fault field_unknown (field at name) ∷ []
      | free ↦ []
    ])
        ≡ [])
      ↔ HeldTo h (Conforms node v)
held_iff node v at name (to s) ih = ih s (field at name)
held_iff node v at name refused ih = (λ h. cc, λ h. absurd h)
held_iff node v at name free ih = (λ h. tt, λ h. refl)

ruled_iff :
    (node : Node) (v : Json) (at : Subject) (name : Text) (properties : Properties)
    (additional : Additional)
    → ((s : Schema) (subject : Subject) → (validate node v s subject ≡ []) ↔ Conforms node v s)
    → ((elim (held_to (property_of name properties) additional) as (λ _. List Fault) [
      | to s ↦ validate node v s (field at name)
      | refused ↦ fault field_unknown (field at name) ∷ []
      | free ↦ []
    ])
        ≡ [])
      ↔ IsRuled name properties additional (Conforms node v)
ruled_iff node v at name properties additional ih =
    let held = held_iff node v at name (held_to (property_of name properties) additional) ih in
    let ruled = held_to_iff name properties additional (Conforms node v) in
    (λ h. ruled.0 (held.0 h), λ h. held.1 (ruled.1 h))

framed :
    (rules : Rules) (v : Json) (subject : Subject) (rest : List Fault) {P : Type 0}
    → (rest ≡ []) ↔ P
    → (keyword_faults subject rules.unsupported ++ unless_ended (ending rules v subject) rest ≡ [])
      ↔ (MeetsHead rules v × P)
framed rules v subject rest p = (
  λ h. let both = (frame_iff rules v subject rest).0 h in (both.0, p.0 both.1),
  λ h. (frame_iff rules v subject rest).1 (h.0, p.1 h.1),
)

mutual
  unfolding validate

  pub validate-iff-Conforms_lem :
      (node : Node) (v : Json) (s : Schema) (subject : Subject)
      → (validate node v s subject ≡ []) ↔ Conforms node v s
  validate-iff-Conforms_lem node (arr vs) (schema rules properties additional elements) subject =
      framed rules (arr vs) subject _ (items_iff node vs elements 0 subject)
  validate-iff-Conforms_lem node (obj fs) (schema rules properties additional elements) subject =
      let inner = framed rules (obj fs) subject _ (
        both_iff (required_faults rules.required fs subject) _
          (required_faults_iff rules.required fs subject)
          (members_iff node fs properties additional subject)) in
      (λ h. let met = inner.0 h in (met.0, met.1.0, met.1.1), λ h. inner.1 (h.0, (h.1, h.2)))
  validate-iff-Conforms_lem node v (schema rules properties additional elements) subject =
      framed rules v subject _ (scalar_faults_iff node rules v subject)

  items_iff :
      (node : Node) (vs : Items) (elements : Elements) (i : ℕ) (subject : Subject)
      → (item_faults node vs elements i subject ≡ []) ↔ ItemsConform node vs elements
  items_iff node nil elements i subject = (λ h. tt, λ h. refl)
  items_iff node (cons v vs) any_items i subject = (λ h. tt, λ h. refl)
  items_iff node (cons v vs) (each_item s) i subject =
      both_iff (validate node v s (item subject i)) _
        (validate-iff-Conforms_lem node v s (item subject i))
        (items_iff node vs (each_item s) (i + 1) subject)

  members_iff :
      (node : Node) (fs : Fields) (properties : Properties) (additional : Additional)
      (subject : Subject)
      → (member_faults node fs properties additional subject ≡ [])
        ↔ MembersConform node fs properties additional
  members_iff node end properties additional subject = (λ h. tt, λ h. refl)
  members_iff node (member name v fs) properties additional subject =
      both_iff _ _
        (ruled_iff node v subject name properties additional (validate-iff-Conforms_lem node v))
        (members_iff node fs properties additional subject)

-- Validation finds no fault exactly in the values that conform to the schema.
pub validate-iff-Conforms :
    (node : Node) (v : Json) (s : Schema) (subject : Subject)
    → (validate node v s subject ≡ []) ↔ Conforms node v s
validate-iff-Conforms = validate-iff-Conforms_lem
