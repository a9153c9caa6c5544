-- ===== src/Stream/Teachings/Parts.antt =====
-- stream/teachings.ts: the fields of a new record and of a revoked one, and what `find` gives.
use carbon_runtime.Common.{
  ◌≡◌, ◌≢◌, refl, sym, subst, ◌∙◌, ◌⊎◌, inl, inr, Bool, true, false, List, [], ◌∷◌, Option, none,
  some, or_else, Text, text, text_eq, text_eq_iff, if◌then◌else◌, Bool-cases, Has,
}
use carbon_runtime.Stream.Json.{Json, obj, str, Fields, get, set, get-set}
use carbon_runtime.Stream.Record.{MessageRecord}
use carbon_runtime.Stream.Teachings.Learn.{
  TeachingOptions, base, release_of, taught_by, forgotten_of, find,
}

module _ (options : TeachingOptions) (source id : Text) (capture : MessageRecord)
    (kind : Fields) where
  pub base_id : get (text "id") (base options source id capture kind) ≡ some (str id)
  unfolding base get text_eq
  base_id = refl

  pub base_source :
      get (text "source_message_id") (base options source id capture kind) ≡ some (str source)
  unfolding base get text_eq
  base_source = refl

  pub base-text :
      get (text "text") (base options source id capture kind)
      ≡ some (str (or_else options.message []))
  unfolding base get text_eq
  base-text = refl

  pub base-taught_by :
      get (text "taught_by") (base options source id capture kind) ≡ some (obj (taught_by capture))
  unfolding base get text_eq
  base-taught_by = refl

  get_below :
      (key : Text) (release : Option Text)
      → text_eq (text "release_id") key ≡ false
      → get key (release_of release kind) ≡ get key kind
  unfolding get
  get_below key none h = refl
  get_below key (some []) h = refl
  get_below key (some (c ∷ s)) h = rw h refl

  pub base_kind : get (text "kind") (base options source id capture kind) ≡ get (text "kind") kind
  unfolding base get text_eq
  base_kind = get_below (text "kind") options.release_id refl

  pub base_status :
      get (text "status") (base options source id capture kind) ≡ get (text "status") kind
  unfolding base get text_eq
  base_status = get_below (text "status") options.release_id refl

-- A revocation changes the status and what says who revoked it, and no other field.
pub forgotten_other :
    (source now : Text) (held : Fields) (key : Text)
    → key ≢ text "status"
    → key ≢ text "forgotten"
    → get key (forgotten_of source now held) ≡ get key held
unfolding forgotten_of
forgotten_other source now held key s f =
    other (text "forgotten") _ (set (text "status") _ held) f ∙ other (text "status") _ held s
  where
    other : (name : Text) (v : Json) (r : Fields) → key ≢ name → get key (set name v r) ≡ get key r
    other name v r apart = elim (Bool-cases (text_eq name key)) [
      | inl b ↦ elim (apart (sym ((text_eq_iff name key).0 b))) [ ]
      | inr b ↦ get-set name key v r ∙ rw b refl
    ]

pub forgotten_status :
    (source now : Text) (held : Fields)
    → get (text "status") (forgotten_of source now held) ≡ some (str (text "forgotten"))
unfolding forgotten_of text_eq
forgotten_status source now held =
    get-set (text "forgotten") (text "status") _ (set (text "status") _ held)
    ∙ get-set (text "status") (text "status") _ held

found_case :
    (b : Bool) (q r : Fields) (rest : Option Fields)
    → (if b then some q else rest) ≡ some r
    → ((q ≡ r) × (b ≡ true)) ⊎ (rest ≡ some r)
found_case true q r rest h = inl (cc h, refl)
found_case false q r rest h = inr h

-- What is found is in the list and meets the test.
pub find-Has :
    (test : Fields → Bool) (rs : List Fields) (r : Fields)
    → find test rs ≡ some r
    → Has r rs × (test r ≡ true)
unfolding find
find-Has test [] r h = cc
find-Has test (q ∷ rs) r h = elim (found_case (test q) q r (find test rs) h) [
  | inl p ↦ (inl (p.0), subst (λ x. test x ≡ true) (p.0) (p.1))
  | inr h' ↦ (let (there, holds) = find-Has test rs r h' in (inr there, holds))
]

one_of : (b : Bool) (q p : Fields) → (x : Fields) × ((if b then some q else some p) ≡ some x)
one_of true q p = (q, refl)
one_of false q p = (p, refl)

-- Something is found where something in the list meets the test.
pub Has-find :
    (test : Fields → Bool) (rs : List Fields) (r : Fields)
    → Has r rs
    → test r ≡ true
    → (q : Fields) × (find test rs ≡ some q)
unfolding find
Has-find test [] r h t = elim h [ ]
Has-find test (q ∷ rs) r (inl e) t = (q, rw (subst (λ x. test x ≡ true) (sym e) t) refl)
Has-find test (q ∷ rs) r (inr h) t =
    let (p, f) = Has-find test rs r h t in rw f (one_of (test q) q p)
