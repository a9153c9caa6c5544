-- ===== src/Common/Member.antt =====
-- Membership by recursion, and what keeps it.
use Prim.Native.Nat.{ℕ, zero, suc, ◌+◌, ◌-◌}
use mathlib.Core.Path.{◌≡◌, refl, sym, subst, ap, ap₂}
use mathlib.Core.Logic.{◌⊎◌, inl, inr}
use mathlib.Core.Bool.{Bool, true, false}
use mathlib.Core.List.{List, [], ◌∷◌, ◌++◌, map}
use mathlib.Core.Option.{some}
use native.Mathlib.Omega.{arith}
use carbon_runtime.Common.Tests.{if◌then◌else◌, Bool-cases, some-injective}
use carbon_runtime.Common.Lists.{length, keep, take, drop, length-append}
use carbon_runtime.Common.Sort.{insert_by, sort_by}
use carbon_runtime.Common.Assoc.{Key, lookup}

module _ {A : Type 0} where
  abbrev pub Has : A → List A → Type 0
  Has x [] = ⊥
  Has x (y ∷ ys) = (y ≡ x) ⊎ Has x ys

  -- A head that may be there.
  Has-if :
      (b : Bool) (x y : A) (ys : List A)
      → Has x (if b then y ∷ ys else ys)
      → ((y ≡ x) × (b ≡ true)) ⊎ Has x ys
  Has-if true x y ys (inl e) = inl (e, refl)
  Has-if true x y ys (inr h) = inr h
  Has-if false x y ys h = inr h

  pub Has-keep :
      (test : A → Bool) (x : A) (xs : List A) → Has x (keep test xs) → Has x xs × (test x ≡ true)
  Has-keep test x [] h = elim h [ ]
  Has-keep test x (y ∷ ys) h = elim (Has-if (test y) x y (keep test ys) h) [
    | inl p ↦ (inl (p.0), subst (λ z. test z ≡ true) (p.0) (p.1))
    | inr h' ↦ (let (there, holds) = Has-keep test x ys h' in (inr there, holds))
  ]

  pub keep-Has :
      (test : A → Bool) (x : A) (xs : List A) → Has x xs → test x ≡ true → Has x (keep test xs)
  keep-Has test x [] h t = elim h [ ]
  keep-Has test x (y ∷ ys) (inl e) t = rw (subst (λ z. test z ≡ true) (sym e) t) (inl e)
  keep-Has test x (y ∷ ys) (inr h) t = elim (Bool-cases (test y)) [
    | inl b ↦ rw b (inr (keep-Has test x ys h t))
    | inr b ↦ rw b (keep-Has test x ys h t)
  ]

  module _ (after : A → A → Bool) where
    -- The three places of an insertion.
    Has-step :
        (b : Bool) (x y z : A) (zs rest : List A)
        → (Has x rest → (y ≡ x) ⊎ Has x zs)
        → Has x (if b then z ∷ rest else y ∷ z ∷ zs)
        → (y ≡ x) ⊎ Has x (z ∷ zs)
    Has-step true x y z zs rest f (inl e) = inr (inl e)
    Has-step true x y z zs rest f (inr h) = elim (f h) [ inl e ↦ inl e | inr h' ↦ inr (inr h') ]
    Has-step false x y z zs rest f h = h

    step-Has :
        (b : Bool) (x y z : A) (zs rest : List A)
        → ((y ≡ x) ⊎ Has x zs → Has x rest)
        → (y ≡ x) ⊎ Has x (z ∷ zs)
        → Has x (if b then z ∷ rest else y ∷ z ∷ zs)
    step-Has true x y z zs rest f (inl e) = inr (f (inl e))
    step-Has true x y z zs rest f (inr (inl e)) = inl e
    step-Has true x y z zs rest f (inr (inr h)) = inr (f (inr h))
    step-Has false x y z zs rest f h = h

    Has-insert_by : (x y : A) (ys : List A) → Has x (insert_by after y ys) → (y ≡ x) ⊎ Has x ys
    unfolding insert_by
    Has-insert_by x y [] = λ h. h
    Has-insert_by x y (z ∷ zs) =
        Has-step (after y z) x y z zs (insert_by after y zs) (Has-insert_by x y zs)

    insert_by-Has : (x y : A) (ys : List A) → (y ≡ x) ⊎ Has x ys → Has x (insert_by after y ys)
    unfolding insert_by
    insert_by-Has x y [] = λ h. h
    insert_by-Has x y (z ∷ zs) =
        step-Has (after y z) x y z zs (insert_by after y zs) (insert_by-Has x y zs)

    pub Has-sort_by : (x : A) (xs : List A) → Has x (sort_by after xs) → Has x xs
    unfolding sort_by
    Has-sort_by x [] h = h
    Has-sort_by x (y ∷ ys) h = elim (Has-insert_by x y (sort_by after ys) h) [
      | inl e ↦ inl e
      | inr h' ↦ inr (Has-sort_by x ys h')
    ]

    pub sort_by-Has : (x : A) (xs : List A) → Has x xs → Has x (sort_by after xs)
    unfolding sort_by
    sort_by-Has x [] h = elim h [ ]
    sort_by-Has x (y ∷ ys) (inl e) = insert_by-Has x y (sort_by after ys) (inl e)
    sort_by-Has x (y ∷ ys) (inr h) = insert_by-Has x y (sort_by after ys) (inr (sort_by-Has x ys h))

    length-insert_by : (y : A) (ys : List A) → length (insert_by after y ys) ≡ length ys + 1
    unfolding insert_by
    length-insert_by y [] = omega arith
    length-insert_by y (z ∷ zs) = elim (Bool-cases (after y z)) [
      | inl b ↦ rw b (omega (arith, length-insert_by y zs))
      | inr b ↦ rw b (omega arith)
    ]

    pub length-sort_by : (xs : List A) → length (sort_by after xs) ≡ length xs
    unfolding sort_by
    length-sort_by [] = refl
    length-sort_by (x ∷ xs) =
        omega (arith, length-insert_by x (sort_by after xs), length-sort_by xs)

  -- The sum of a weight over a list, which a sort keeps.
  abbrev pub sum_by : (A → ℕ) → List A → ℕ
  sum_by w [] = 0
  sum_by w (x ∷ xs) = w x + sum_by w xs

  module _ (after : A → A → Bool) (w : A → ℕ) where
    sum_by-insert_by : (y : A) (ys : List A) → sum_by w (insert_by after y ys) ≡ w y + sum_by w ys
    unfolding insert_by
    sum_by-insert_by y [] = refl
    sum_by-insert_by y (z ∷ zs) = elim (Bool-cases (after y z)) [
      | inl b ↦ rw b (omega (arith, sum_by-insert_by y zs))
      | inr b ↦ rw b refl
    ]

    pub sum_by-sort_by : (xs : List A) → sum_by w (sort_by after xs) ≡ sum_by w xs
    unfolding sort_by
    sum_by-sort_by [] = refl
    sum_by-sort_by (x ∷ xs) =
        omega (arith, sum_by-insert_by x (sort_by after xs), sum_by-sort_by xs)

  pub take-append-drop : (n : ℕ) (xs : List A) → take n xs ++ drop n xs ≡ xs
  take-append-drop zero xs = refl
  take-append-drop (suc n) [] = refl
  take-append-drop (suc n) (x ∷ xs) = ap (λ ys. x ∷ ys) (take-append-drop n xs)

  take-length : (xs ys : List A) → take (length xs) (xs ++ ys) ≡ xs
  take-length [] ys = refl
  take-length (x ∷ xs) ys = ap (λ zs. x ∷ zs) (take-length xs ys)

  drop-length : (xs ys : List A) → drop (length xs) (xs ++ ys) ≡ ys
  drop-length [] ys = refl
  drop-length (x ∷ xs) ys = drop-length xs ys

  left_length : (xs ys : List A) → length (xs ++ ys) - length ys ≡ length xs
  left_length xs ys = omega (arith, length-append xs ys)

  pub take-append : (xs ys : List A) → take (length (xs ++ ys) - length ys) (xs ++ ys) ≡ xs
  take-append xs ys = rw (left_length xs ys) (take-length xs ys)

  pub drop-append : (xs ys : List A) → drop (length (xs ++ ys) - length ys) (xs ++ ys) ≡ ys
  drop-append xs ys = rw (left_length xs ys) (drop-length xs ys)

module _ {A : Type 0} (x : A) where
  pub Has-append_left : (xs ys : List A) → Has x xs → Has x (xs ++ ys)
  Has-append_left [] ys h = elim h [ ]
  Has-append_left (y ∷ xs) ys (inl e) = inl e
  Has-append_left (y ∷ xs) ys (inr h) = inr (Has-append_left xs ys h)

  pub Has-append_right : (xs ys : List A) → Has x ys → Has x (xs ++ ys)
  Has-append_right [] ys h = h
  Has-append_right (y ∷ xs) ys h = inr (Has-append_right xs ys h)

  pub Has-map : {B : Type 0} (f : A → B) (xs : List A) → Has x xs → Has (f x) (map f xs)
  Has-map f [] h = elim h [ ]
  Has-map f (y ∷ xs) (inl e) = inl (ap f e)
  Has-map f (y ∷ xs) (inr h) = inr (Has-map f xs h)

module _ {K V : Type 0} ⦃k : Key K⦄ where
  -- What a lookup gives is in the map.
  pub lookup-Has : (a : K) (v : V) (m : List (K × V)) → lookup a m ≡ some v → Has (a, v) m
  unfolding lookup
  lookup-Has a v [] h = cc
  lookup-Has a v ((b, w) ∷ m) h = elim (Bool-cases (k.same b a)) [
    | inl e ↦ inl (ap₂ (λ x y. (x, y)) ((k.same_iff b a).0 e) (some-injective (rw e at h)))
    | inr e ↦ inr (lookup-Has a v m (rw e at h))
  ]
