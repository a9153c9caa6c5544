-- ===== src/Stream/Spread.antt =====
-- A JSON object as its fields in their order, and the spread of one object over another,
-- `{ ...others, ...fields }`.
use carbon_runtime.Common.{
  ◌≡◌, refl, sym, ap, ◌∙◌, inl, inr, Bool-cases, List, [], ◌∷◌, Option, none, some, or_else,
  if◌then◌else◌, Text, text_eq, text_eq_iff, lookup, put, lookup-put_self, lookup-put_other,
}
use carbon_runtime.Stream.Paths.{text_key}

-- The fields given replace those of the same name, in the order of the names.
unfoldable pub overlay {ℓ} : {A : Type ℓ} → List (Text × A) → List (Text × A) → List (Text × A)
unfolding put
overlay others [] = others
overlay others ((key, v) ∷ fields) = overlay (put ⦃k = text_key⦄ key v others) fields

-- `{ ...(old ?? {}), ...fields }`.
unfoldable pub spread_on {ℓ} :
    {A : Type ℓ} → Option (List (Text × A)) → List (Text × A) → Option (List (Text × A))
unfolding overlay
spread_on none fields = some (overlay [] fields)
spread_on (some old) fields = some (overlay old fields)

-- The first of two values that is there.
abbrev pub over {ℓ} : {A : Type ℓ} → Option A → Option A → Option A
over (some v) o = some v
over none o = o

-- What the last field of a name has.
unfoldable pub last_of {ℓ} : {A : Type ℓ} → Text → List (Text × A) → Option A
last_of name [] = none
last_of name ((key, v) ∷ fields) =
    over (last_of name fields) (if text_eq key name then some v else none)

lookup-put {ℓ} :
    {A : Type ℓ} (name key : Text) (v : A) (others : List (Text × A))
    → lookup name (put ⦃k = text_key⦄ key v others)
      ≡ over (if text_eq key name then some v else none) (lookup name others)
lookup-put name key v others = elim (Bool-cases (text_eq key name)) [
  | inl h ↦
      (let same = (text_eq_iff key name).0 h in
        rw h (ap (λ k. lookup k (put key v others)) (sym same) ∙ lookup-put_self key v others))
  | inr h ↦ rw h (lookup-put_other key name v others (λ e. cc (h, (text_eq_iff key name).1 e)))
]

over_assoc {ℓ} : {A : Type ℓ} (a b c : Option A) → over a (over b c) ≡ over (over a b) c
over_assoc none b c = refl
over_assoc (some v) b c = refl

-- A name has the last value that is given it, and else what it had.
pub lookup-overlay {ℓ} :
    {A : Type ℓ} (name : Text) (others fields : List (Text × A))
    → lookup name (overlay others fields) ≡ over (last_of name fields) (lookup name others)
unfolding overlay last_of
lookup-overlay name others [] = refl
lookup-overlay name others ((key, v) ∷ fields) =
    lookup-overlay name (put ⦃k = text_key⦄ key v others) fields
    ∙ ap (over (last_of name fields)) (lookup-put name key v others)
    ∙ over_assoc (last_of name fields) (if text_eq key name then some v else none)
        (lookup name others)

-- A name that is not spread on an object keeps what it has.
pub spread_on-kept {ℓ} :
    {A : Type ℓ} (name : Text) (old : Option (List (Text × A))) (fields : List (Text × A))
    → last_of name fields ≡ none
    → lookup name (or_else (spread_on old fields) []) ≡ lookup name (or_else old [])
unfolding spread_on
spread_on-kept name none fields e = lookup-overlay name [] fields ∙ rw e refl
spread_on-kept name (some old) fields e = lookup-overlay name old fields ∙ rw e refl
