-- ===== src/Stream/Validate/Means.antt =====
-- What the keywords of a schema ask of a value, written apart from the validator's tests, and each
-- test against it.
use carbon_runtime.Common.{
  ℕ, ◌≤◌, ◌≡◌, ◌≢◌, refl, ap, subst, ◌↔◌, ◌⊎◌, inl, inr, Bool, true, false, ◌||◌, Text, text_eq,
  text_eq_iff, ==_iff, arith, Bool-cases, List, [], ◌∷◌, any, none,
}
use carbon_runtime.Stream.Json.{
  Json, Fields, null, boolean, integer, negative, fraction, negative_fraction, str, arr, obj, end,
  member, is_in, has_member, is_inherited, strict_eq,
}
use carbon_runtime.Stream.Validate.{
  TypeWord, null_type, boolean_type, integer_type, number_type, string_type, array_type,
  object_type, unknown_type, Schema, Properties, no_more, property, Additional, open_keys,
  closed_keys, each_key, empty_schema, Held, to, refused, free, held_to, property_of, matches_type,
  below,
}

abbrev IsNull : Json → Type 0
IsNull null = Unit
IsNull _ = ⊥

abbrev IsBoolean : Json → Type 0
IsBoolean (boolean b) = Unit
IsBoolean _ = ⊥

abbrev IsWhole : Json → Type 0
IsWhole (integer n) = Unit
IsWhole (negative n) = Unit
IsWhole _ = ⊥

abbrev IsNumber : Json → Type 0
IsNumber (integer n) = Unit
IsNumber (negative n) = Unit
IsNumber (fraction n i) = Unit
IsNumber (negative_fraction n) = Unit
IsNumber _ = ⊥

abbrev IsString : Json → Type 0
IsString (str s) = Unit
IsString _ = ⊥

abbrev IsArray : Json → Type 0
IsArray (arr vs) = Unit
IsArray _ = ⊥

abbrev IsObject : Json → Type 0
IsObject (obj fs) = Unit
IsObject _ = ⊥

-- The values of a type word.
abbrev pub IsOfType : TypeWord → Json → Type 0
IsOfType null_type v = IsNull v
IsOfType boolean_type v = IsBoolean v
IsOfType integer_type v = IsWhole v
IsOfType number_type v = IsNumber v
IsOfType string_type v = IsString v
IsOfType array_type v = IsArray v
IsOfType object_type v = IsObject v
IsOfType unknown_type v = ⊥

pub matches_type_iff : (t : TypeWord) (v : Json) → (matches_type v t ≡ true) ↔ IsOfType t v
unfolding matches_type
matches_type_iff null_type null = (λ h. tt, λ h. refl)
matches_type_iff null_type (boolean b) = (λ h. cc, λ h. absurd h)
matches_type_iff null_type (integer n) = (λ h. cc, λ h. absurd h)
matches_type_iff null_type (negative n) = (λ h. cc, λ h. absurd h)
matches_type_iff null_type (fraction n i) = (λ h. cc, λ h. absurd h)
matches_type_iff null_type (negative_fraction n) = (λ h. cc, λ h. absurd h)
matches_type_iff null_type (str s) = (λ h. cc, λ h. absurd h)
matches_type_iff null_type (arr vs) = (λ h. cc, λ h. absurd h)
matches_type_iff null_type (obj fs) = (λ h. cc, λ h. absurd h)
matches_type_iff boolean_type null = (λ h. cc, λ h. absurd h)
matches_type_iff boolean_type (boolean b) = (λ h. tt, λ h. refl)
matches_type_iff boolean_type (integer n) = (λ h. cc, λ h. absurd h)
matches_type_iff boolean_type (negative n) = (λ h. cc, λ h. absurd h)
matches_type_iff boolean_type (fraction n i) = (λ h. cc, λ h. absurd h)
matches_type_iff boolean_type (negative_fraction n) = (λ h. cc, λ h. absurd h)
matches_type_iff boolean_type (str s) = (λ h. cc, λ h. absurd h)
matches_type_iff boolean_type (arr vs) = (λ h. cc, λ h. absurd h)
matches_type_iff boolean_type (obj fs) = (λ h. cc, λ h. absurd h)
matches_type_iff integer_type null = (λ h. cc, λ h. absurd h)
matches_type_iff integer_type (boolean b) = (λ h. cc, λ h. absurd h)
matches_type_iff integer_type (integer n) = (λ h. tt, λ h. refl)
matches_type_iff integer_type (negative n) = (λ h. tt, λ h. refl)
matches_type_iff integer_type (fraction n i) = (λ h. cc, λ h. absurd h)
matches_type_iff integer_type (negative_fraction n) = (λ h. cc, λ h. absurd h)
matches_type_iff integer_type (str s) = (λ h. cc, λ h. absurd h)
matches_type_iff integer_type (arr vs) = (λ h. cc, λ h. absurd h)
matches_type_iff integer_type (obj fs) = (λ h. cc, λ h. absurd h)
matches_type_iff number_type null = (λ h. cc, λ h. absurd h)
matches_type_iff number_type (boolean b) = (λ h. cc, λ h. absurd h)
matches_type_iff number_type (integer n) = (λ h. tt, λ h. refl)
matches_type_iff number_type (negative n) = (λ h. tt, λ h. refl)
matches_type_iff number_type (fraction n i) = (λ h. tt, λ h. refl)
matches_type_iff number_type (negative_fraction n) = (λ h. tt, λ h. refl)
matches_type_iff number_type (str s) = (λ h. cc, λ h. absurd h)
matches_type_iff number_type (arr vs) = (λ h. cc, λ h. absurd h)
matches_type_iff number_type (obj fs) = (λ h. cc, λ h. absurd h)
matches_type_iff string_type null = (λ h. cc, λ h. absurd h)
matches_type_iff string_type (boolean b) = (λ h. cc, λ h. absurd h)
matches_type_iff string_type (integer n) = (λ h. cc, λ h. absurd h)
matches_type_iff string_type (negative n) = (λ h. cc, λ h. absurd h)
matches_type_iff string_type (fraction n i) = (λ h. cc, λ h. absurd h)
matches_type_iff string_type (negative_fraction n) = (λ h. cc, λ h. absurd h)
matches_type_iff string_type (str s) = (λ h. tt, λ h. refl)
matches_type_iff string_type (arr vs) = (λ h. cc, λ h. absurd h)
matches_type_iff string_type (obj fs) = (λ h. cc, λ h. absurd h)
matches_type_iff array_type null = (λ h. cc, λ h. absurd h)
matches_type_iff array_type (boolean b) = (λ h. cc, λ h. absurd h)
matches_type_iff array_type (integer n) = (λ h. cc, λ h. absurd h)
matches_type_iff array_type (negative n) = (λ h. cc, λ h. absurd h)
matches_type_iff array_type (fraction n i) = (λ h. cc, λ h. absurd h)
matches_type_iff array_type (negative_fraction n) = (λ h. cc, λ h. absurd h)
matches_type_iff array_type (str s) = (λ h. cc, λ h. absurd h)
matches_type_iff array_type (arr vs) = (λ h. tt, λ h. refl)
matches_type_iff array_type (obj fs) = (λ h. cc, λ h. absurd h)
matches_type_iff object_type null = (λ h. cc, λ h. absurd h)
matches_type_iff object_type (boolean b) = (λ h. cc, λ h. absurd h)
matches_type_iff object_type (integer n) = (λ h. cc, λ h. absurd h)
matches_type_iff object_type (negative n) = (λ h. cc, λ h. absurd h)
matches_type_iff object_type (fraction n i) = (λ h. cc, λ h. absurd h)
matches_type_iff object_type (negative_fraction n) = (λ h. cc, λ h. absurd h)
matches_type_iff object_type (str s) = (λ h. cc, λ h. absurd h)
matches_type_iff object_type (arr vs) = (λ h. cc, λ h. absurd h)
matches_type_iff object_type (obj fs) = (λ h. tt, λ h. refl)
matches_type_iff unknown_type null = (λ h. cc, λ h. absurd h)
matches_type_iff unknown_type (boolean b) = (λ h. cc, λ h. absurd h)
matches_type_iff unknown_type (integer n) = (λ h. cc, λ h. absurd h)
matches_type_iff unknown_type (negative n) = (λ h. cc, λ h. absurd h)
matches_type_iff unknown_type (fraction n i) = (λ h. cc, λ h. absurd h)
matches_type_iff unknown_type (negative_fraction n) = (λ h. cc, λ h. absurd h)
matches_type_iff unknown_type (str s) = (λ h. cc, λ h. absurd h)
matches_type_iff unknown_type (arr vs) = (λ h. cc, λ h. absurd h)
matches_type_iff unknown_type (obj fs) = (λ h. cc, λ h. absurd h)

-- A number is at least a whole one from 0 on; of other values nothing is asked.
abbrev pub IsAtLeast : ℕ → Json → Type 0
IsAtLeast m (integer n) = m ≤ n
IsAtLeast m (negative n) = ⊥
IsAtLeast m (fraction n i) = m ≤ n
IsAtLeast m (negative_fraction n) = ⊥
IsAtLeast m v = Unit

pub below_iff : (v : Json) (m : ℕ) → (below v m ≡ false) ↔ IsAtLeast m v
unfolding below
below_iff null m = (λ h. tt, λ h. refl)
below_iff (boolean b) m = (λ h. tt, λ h. refl)
below_iff (integer n) m = ground arith
below_iff (negative n) m = (λ h. cc, λ h. absurd h)
below_iff (fraction n i) m = ground arith
below_iff (negative_fraction n) m = (λ h. cc, λ h. absurd h)
below_iff (str s) m = (λ h. tt, λ h. refl)
below_iff (arr vs) m = (λ h. tt, λ h. refl)
below_iff (obj fs) m = (λ h. tt, λ h. refl)

-- A value that is the same as another that was parsed apart: no array and no object is.
abbrev IsScalar : Json → Type 0
IsScalar (arr vs) = ⊥
IsScalar (obj fs) = ⊥
IsScalar v = Unit

abbrev pub IsSame : Json → Json → Type 0
IsSame v c = (v ≡ c) × IsScalar v

strict_eq_refl : (v : Json) → IsScalar v → strict_eq v v ≡ true
unfolding strict_eq
strict_eq_refl null h = refl
strict_eq_refl (boolean true) h = refl
strict_eq_refl (boolean false) h = refl
strict_eq_refl (integer n) h = ground arith
strict_eq_refl (negative n) h = ground arith
strict_eq_refl (fraction n i) h = ground arith
strict_eq_refl (negative_fraction n) h = ground arith
strict_eq_refl (str s) h = ground (arith, text_eq_iff s s)
strict_eq_refl (arr vs) h = absurd h
strict_eq_refl (obj fs) h = absurd h

strict_eq-IsSame : (v c : Json) → strict_eq v c ≡ true → IsSame v c
unfolding strict_eq
strict_eq-IsSame null null h = (refl, tt)
strict_eq-IsSame null (boolean true) h = cc
strict_eq-IsSame null (boolean false) h = cc
strict_eq-IsSame null (integer m) h = cc
strict_eq-IsSame null (negative m) h = cc
strict_eq-IsSame null (fraction m j) h = cc
strict_eq-IsSame null (negative_fraction m) h = cc
strict_eq-IsSame null (str t) h = cc
strict_eq-IsSame null (arr ws) h = cc
strict_eq-IsSame null (obj gs) h = cc
strict_eq-IsSame (boolean true) null h = cc
strict_eq-IsSame (boolean true) (boolean true) h = (refl, tt)
strict_eq-IsSame (boolean true) (boolean false) h = cc
strict_eq-IsSame (boolean true) (integer m) h = cc
strict_eq-IsSame (boolean true) (negative m) h = cc
strict_eq-IsSame (boolean true) (fraction m j) h = cc
strict_eq-IsSame (boolean true) (negative_fraction m) h = cc
strict_eq-IsSame (boolean true) (str t) h = cc
strict_eq-IsSame (boolean true) (arr ws) h = cc
strict_eq-IsSame (boolean true) (obj gs) h = cc
strict_eq-IsSame (boolean false) null h = cc
strict_eq-IsSame (boolean false) (boolean true) h = cc
strict_eq-IsSame (boolean false) (boolean false) h = (refl, tt)
strict_eq-IsSame (boolean false) (integer m) h = cc
strict_eq-IsSame (boolean false) (negative m) h = cc
strict_eq-IsSame (boolean false) (fraction m j) h = cc
strict_eq-IsSame (boolean false) (negative_fraction m) h = cc
strict_eq-IsSame (boolean false) (str t) h = cc
strict_eq-IsSame (boolean false) (arr ws) h = cc
strict_eq-IsSame (boolean false) (obj gs) h = cc
strict_eq-IsSame (integer n) null h = cc
strict_eq-IsSame (integer n) (boolean true) h = cc
strict_eq-IsSame (integer n) (boolean false) h = cc
strict_eq-IsSame (integer n) (integer m) h = (ap integer ((==_iff n m).0 h), tt)
strict_eq-IsSame (integer n) (negative m) h = cc
strict_eq-IsSame (integer n) (fraction m j) h = cc
strict_eq-IsSame (integer n) (negative_fraction m) h = cc
strict_eq-IsSame (integer n) (str t) h = cc
strict_eq-IsSame (integer n) (arr ws) h = cc
strict_eq-IsSame (integer n) (obj gs) h = cc
strict_eq-IsSame (negative n) null h = cc
strict_eq-IsSame (negative n) (boolean true) h = cc
strict_eq-IsSame (negative n) (boolean false) h = cc
strict_eq-IsSame (negative n) (integer m) h = cc
strict_eq-IsSame (negative n) (negative m) h = (ap negative ((==_iff n m).0 h), tt)
strict_eq-IsSame (negative n) (fraction m j) h = cc
strict_eq-IsSame (negative n) (negative_fraction m) h = cc
strict_eq-IsSame (negative n) (str t) h = cc
strict_eq-IsSame (negative n) (arr ws) h = cc
strict_eq-IsSame (negative n) (obj gs) h = cc
strict_eq-IsSame (fraction n i) null h = cc
strict_eq-IsSame (fraction n i) (boolean true) h = cc
strict_eq-IsSame (fraction n i) (boolean false) h = cc
strict_eq-IsSame (fraction n i) (integer m) h = cc
strict_eq-IsSame (fraction n i) (negative m) h = cc
strict_eq-IsSame (fraction n i) (fraction m j) h = (ground arith, tt)
strict_eq-IsSame (fraction n i) (negative_fraction m) h = cc
strict_eq-IsSame (fraction n i) (str t) h = cc
strict_eq-IsSame (fraction n i) (arr ws) h = cc
strict_eq-IsSame (fraction n i) (obj gs) h = cc
strict_eq-IsSame (negative_fraction n) null h = cc
strict_eq-IsSame (negative_fraction n) (boolean true) h = cc
strict_eq-IsSame (negative_fraction n) (boolean false) h = cc
strict_eq-IsSame (negative_fraction n) (integer m) h = cc
strict_eq-IsSame (negative_fraction n) (negative m) h = cc
strict_eq-IsSame (negative_fraction n) (fraction m j) h = cc
strict_eq-IsSame (negative_fraction n) (negative_fraction m) h =
    (ap negative_fraction ((==_iff n m).0 h), tt)
strict_eq-IsSame (negative_fraction n) (str t) h = cc
strict_eq-IsSame (negative_fraction n) (arr ws) h = cc
strict_eq-IsSame (negative_fraction n) (obj gs) h = cc
strict_eq-IsSame (str s) null h = cc
strict_eq-IsSame (str s) (boolean true) h = cc
strict_eq-IsSame (str s) (boolean false) h = cc
strict_eq-IsSame (str s) (integer m) h = cc
strict_eq-IsSame (str s) (negative m) h = cc
strict_eq-IsSame (str s) (fraction m j) h = cc
strict_eq-IsSame (str s) (negative_fraction m) h = cc
strict_eq-IsSame (str s) (str t) h = (ap str ((text_eq_iff s t).0 h), tt)
strict_eq-IsSame (str s) (arr ws) h = cc
strict_eq-IsSame (str s) (obj gs) h = cc
strict_eq-IsSame (arr vs) null h = cc
strict_eq-IsSame (arr vs) (boolean true) h = cc
strict_eq-IsSame (arr vs) (boolean false) h = cc
strict_eq-IsSame (arr vs) (integer m) h = cc
strict_eq-IsSame (arr vs) (negative m) h = cc
strict_eq-IsSame (arr vs) (fraction m j) h = cc
strict_eq-IsSame (arr vs) (negative_fraction m) h = cc
strict_eq-IsSame (arr vs) (str t) h = cc
strict_eq-IsSame (arr vs) (arr ws) h = cc
strict_eq-IsSame (arr vs) (obj gs) h = cc
strict_eq-IsSame (obj fs) null h = cc
strict_eq-IsSame (obj fs) (boolean true) h = cc
strict_eq-IsSame (obj fs) (boolean false) h = cc
strict_eq-IsSame (obj fs) (integer m) h = cc
strict_eq-IsSame (obj fs) (negative m) h = cc
strict_eq-IsSame (obj fs) (fraction m j) h = cc
strict_eq-IsSame (obj fs) (negative_fraction m) h = cc
strict_eq-IsSame (obj fs) (str t) h = cc
strict_eq-IsSame (obj fs) (arr ws) h = cc
strict_eq-IsSame (obj fs) (obj gs) h = cc

pub strict_eq_iff : (v c : Json) → (strict_eq v c ≡ true) ↔ IsSame v c
strict_eq_iff v c =
    (strict_eq-IsSame v c, λ h. subst (λ x. strict_eq v x ≡ true) (h.0) (strict_eq_refl v (h.1)))

-- A value that is the same as one of a list.
abbrev pub IsOneOf : Json → List Json → Type 0
IsOneOf v [] = ⊥
IsOneOf v (c ∷ cs) = IsSame v c ⊎ IsOneOf v cs

or_iff : (a b : Bool) {P Q : Type 0} → (a ≡ true) ↔ P → (b ≡ true) ↔ Q → ((a || b) ≡ true) ↔ (P ⊎ Q)
or_iff true b p q = (λ h. inl (p.0 refl), λ h. refl)
or_iff false b p q = (λ h. inr (q.0 h), λ h. elim h [ inl x ↦ cc (p.1 x) | inr y ↦ q.1 y ])

pub any-strict_eq : (v : Json) (cs : List Json) → (any (strict_eq v) cs ≡ true) ↔ IsOneOf v cs
any-strict_eq v [] = (λ h. cc, λ h. absurd h)
any-strict_eq v (c ∷ cs) =
    or_iff (strict_eq v c) (any (strict_eq v) cs) (strict_eq_iff v c) (any-strict_eq v cs)

-- A field of the object's own, or one that every object has.
abbrev IsNamed : Text → Fields → Type 0
IsNamed name end = ⊥
IsNamed name (member other v fields) = (other ≡ name) ⊎ IsNamed name fields

abbrev pub IsPresent : Text → Fields → Type 0
IsPresent name fields = IsNamed name fields ⊎ (is_inherited name ≡ true)

has_member_iff : (name : Text) (fs : Fields) → (has_member name fs ≡ true) ↔ IsNamed name fs
unfolding has_member
has_member_iff name end = (λ h. cc, λ h. absurd h)
has_member_iff name (member other v fields) =
    or_iff (text_eq other name) (has_member name fields) (text_eq_iff other name)
      (has_member_iff name fields)

pub is_in_iff : (name : Text) (fs : Fields) → (is_in name fs ≡ true) ↔ IsPresent name fs
unfolding is_in
is_in_iff name fs =
    or_iff (has_member name fs) (is_inherited name) (has_member_iff name fs) ((λ h. h), (λ h. h))

-- What additionalProperties asks of a member that no property declares.
abbrev IsAllowed : Additional → (Schema → Type 0) → Type 0
IsAllowed open_keys P = Unit
IsAllowed closed_keys P = ⊥
IsAllowed (each_key s) P = P s

-- What is asked of a member by its name: what the property of this name asks; with none, what an
-- inherited one does, which has no keyword; else what additionalProperties asks.
abbrev pub IsRuled : Text → Properties → Additional → (Schema → Type 0) → Type 0
IsRuled name no_more additional P =
    (is_inherited name ≡ true → P empty_schema)
    × (is_inherited name ≡ false → IsAllowed additional P)
IsRuled name (property other s rest) additional P =
    (other ≡ name → P s) × (other ≢ name → IsRuled name rest additional P)

abbrev pub HeldTo : Held → (Schema → Type 0) → Type 0
HeldTo (to s) P = P s
HeldTo refused P = ⊥
HeldTo free P = Unit

held_to-none :
    (additional : Additional) (P : Schema → Type 0)
    → HeldTo (held_to none additional) P ↔ IsAllowed additional P
unfolding held_to
held_to-none open_keys P = ((λ h. h), (λ h. h))
held_to-none closed_keys P = ((λ h. h), (λ h. h))
held_to-none (each_key s) P = ((λ h. h), (λ h. h))

not_both : {b : Bool} → b ≡ true → b ≡ false → ⊥
not_both p q = cc (p, q)

pub held_to_iff :
    (name : Text) (properties : Properties) (additional : Additional) (P : Schema → Type 0)
    → HeldTo (held_to (property_of name properties) additional) P
      ↔ IsRuled name properties additional P
unfolding property_of held_to
held_to_iff name no_more additional P = elim (Bool-cases (is_inherited name)) [
  | inl b ↦ rw b ((λ h. ((λ _. h), (λ e. cc e))), (λ h. h.0 refl))
  | inr b ↦ rw b (
    (λ h. ((λ e. cc e), (λ _. (held_to-none additional P).0 h))),
    (λ h. (held_to-none additional P).1 (h.1 refl)),
  )
]
held_to_iff name (property other s rest) additional P = elim (Bool-cases (text_eq other name)) [
  | inl b ↦
      (let same = (text_eq_iff other name).0 b in
        rw b ((λ h. ((λ _. h), (λ apart. elim (apart same) [ ]))), (λ h. h.0 same)))
  | inr b ↦
      (let apart : other ≢ name = λ e. not_both ((text_eq_iff other name).1 e) b in
        let ih = held_to_iff name rest additional P in
        rw b ((λ h. ((λ e. elim (apart e) [ ]), (λ _. ih.0 h))), (λ h. ih.1 (h.1 apart))))
]
