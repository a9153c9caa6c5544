-- ===== src/Stream/Teachings/Order.antt =====
-- stream/teachings.ts: inSchemaOrder changes the order of a record's fields and no field.
use carbon_runtime.Common.{
  ◌≡◌, refl, sym, ap, ap₂, subst, ◌∙◌, inl, inr, Bool, true, false, List, [], ◌∷◌, Option, none,
  some, any, Text, text_eq, text_eq_iff, text_eq_refl, if◌then◌else◌, if_same, text_eq_comm,
  Option-cases, Bool-cases,
}
use carbon_runtime.Stream.Json.{Json, Fields, end, member, get}
use carbon_runtime.Stream.Paths.{text_key}
use carbon_runtime.Stream.Teachings.Write.{pick, others_of, append_fields, in_schema_order}

abbrev first_of : Option Json → Option Json → Option Json
first_of none w = w
first_of (some v) w = some v

get-append :
    (key : Text) (q r : Fields) → get key (append_fields q r) ≡ first_of (get key q) (get key r)
unfolding get
get-append key end r = refl
get-append key (member other v q) r = elim (Bool-cases (text_eq other key)) [
  | inl b ↦ rw b refl
  | inr b ↦ rw b (get-append key q r)
]

get-pick_self :
    (keys : List Text) (key : Text) (r : Fields)
    → get key (pick keys r) ≡ (if any (text_eq key) keys then get key r else none)
    → get key (pick (key ∷ keys) r) ≡ get key r
unfolding get pick
get-pick_self keys key r h = elim (Option-cases (get key r)) [
  | inl e ↦ rw e (
      h
      ∙ ap (λ x. if any (text_eq key) keys then x else none) e
      ∙ if_same (any (text_eq key) keys) none)
  | inr (v, e) ↦ rw (e, text_eq_refl key) refl
]

get-pick_other :
    (keys : List Text) (other key : Text) (r : Fields)
    → text_eq other key ≡ false
    → get key (pick (other ∷ keys) r) ≡ get key (pick keys r)
unfolding get pick
get-pick_other keys other key r h = elim (Option-cases (get other r)) [
  | inl e ↦ rw e refl
  | inr (v, e) ↦ rw (e, h) refl
]

get-pick :
    (keys : List Text) (key : Text) (r : Fields)
    → get key (pick keys r) ≡ (if any (text_eq key) keys then get key r else none)
unfolding get pick
get-pick [] key r = refl
get-pick (other ∷ keys) key r = elim (Bool-cases (text_eq other key)) [
  | inl b ↦ rw (text_eq_comm key other ∙ b) (
      subst (λ x. get key (pick (x ∷ keys) r) ≡ get key r) (sym ((text_eq_iff other key).0 b))
        (get-pick_self keys key r (get-pick keys key r)))
  | inr b ↦
      rw (text_eq_comm key other ∙ b) (get-pick_other keys other key r b ∙ get-pick keys key r)
]

others_of_self :
    (keys : List Text) (key : Text) (v : Json) (r : Fields)
    → get key (others_of keys r) ≡ (if any (text_eq key) keys then none else get key r)
    → get key (others_of keys (member key v r)) ≡ (if any (text_eq key) keys then none else some v)
unfolding get others_of
others_of_self keys key v r h = elim (Bool-cases (any (text_eq key) keys)) [
  | inl b ↦ rw b (rw b at h)
  | inr b ↦ rw (b, text_eq_refl key) refl
]

others_of_other :
    (keys : List Text) (other key : Text) (v : Json) (r : Fields)
    → text_eq other key ≡ false
    → get key (others_of keys (member other v r)) ≡ get key (others_of keys r)
unfolding get others_of
others_of_other keys other key v r h = elim (Bool-cases (any (text_eq other) keys)) [
  | inl b ↦ rw b refl
  | inr b ↦ rw (b, h) refl
]

get-others_of :
    (keys : List Text) (key : Text) (r : Fields)
    → get key (others_of keys r) ≡ (if any (text_eq key) keys then none else get key r)
unfolding get others_of
get-others_of keys key end = sym (if_same (any (text_eq key) keys) none)
get-others_of keys key (member other v r) = elim (Bool-cases (text_eq other key)) [
  | inl b ↦ rw b (
      subst
        (λ x.
          get key (others_of keys (member x v r))
          ≡ (if any (text_eq key) keys then none else some v))
        (sym ((text_eq_iff other key).0 b))
        (others_of_self keys key v r (get-others_of keys key r)))
  | inr b ↦ rw b (others_of_other keys other key v r b ∙ get-others_of keys key r)
]

-- A field is among those that are declared or among the others.
either_lem :
    (b : Bool) (o : Option Json) → first_of (if b then o else none) (if b then none else o) ≡ o
either_lem true none = refl
either_lem true (some v) = refl
either_lem false none = refl
either_lem false (some v) = refl

-- The order of the fields changes none of them.
pub get-in_schema_order :
    (keys : List Text) (key : Text) (r : Fields) → get key (in_schema_order keys r) ≡ get key r
unfolding in_schema_order
get-in_schema_order keys key r =
    get-append key (pick keys r) (others_of keys r)
    ∙ ap₂ first_of (get-pick keys key r) (get-others_of keys key r)
    ∙ either_lem (any (text_eq key) keys) (get key r)
