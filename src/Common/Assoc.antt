-- ===== src/Common/Assoc.antt =====
-- The files of a directory, or a map, as an association list in the order of first insertion.
use mathlib.Core.Path.{◌≡◌, refl, sym, ap, ◌∙◌}
use mathlib.Core.Logic.{◌≢◌, ◌↔◌, inl, inr}
use mathlib.Core.Bool.{Bool, true, false}
use mathlib.Core.List.{List, [], ◌∷◌, ◌++◌}
use mathlib.Core.Option.{Option, none, some}
use native.Mathlib.Omega.{arith}
use carbon_runtime.Common.Tests.{if◌then◌else◌, Bool-cases, some-injective}

-- A key's equality test.
pub record Key {ℓ} (K : Type ℓ) : Type ℓ where
  pub same : K → K → Bool
  pub same_iff : (a b : K) → (same a b ≡ true) ↔ (a ≡ b)

pub same_refl {ℓ} : {K : Type ℓ} ⦃k : Key K⦄ (a : K) → k.same a a ≡ true
same_refl ⦃k⦄ a = (k.same_iff a a).1 refl

module _ {ℓ κ} {K : Type ℓ} {V : Type κ} ⦃k : Key K⦄ where
  unfoldable pub lookup : K → List (K × V) → Option V
  lookup a [] = none
  lookup a ((b, v) ∷ m) = if k.same b a then some v else lookup a m

  -- A write: it replaces the value in its place, or comes last.
  unfoldable pub put : K → V → List (K × V) → List (K × V)
  put a v [] = (a, v) ∷ []
  put a v ((b, w) ∷ m) = if k.same b a then (b, v) ∷ m else (b, w) ∷ put a v m

  unfoldable pub keys : List (K × V) → List K
  keys [] = []
  keys ((b, v) ∷ m) = b ∷ keys m

  pub lookup-put :
      (a b : K) (v : V) (m : List (K × V))
      → lookup b (put a v m) ≡ (if k.same a b then some v else lookup b m)
  unfolding lookup put
  lookup-put a b v [] = refl
  lookup-put a b v ((c, w) ∷ m) =
      ground (arith, k.same_iff c a, k.same_iff c b, k.same_iff a b, lookup-put a b v m)

  pub lookup-put_self : (a : K) (v : V) (m : List (K × V)) → lookup a (put a v m) ≡ some v
  lookup-put_self a v m = rw (lookup-put, same_refl)

  pub lookup-put_other :
      (a b : K) (v : V) (m : List (K × V)) → a ≢ b → lookup b (put a v m) ≡ lookup b m
  lookup-put_other a b v m apart = elim (Bool-cases (k.same a b)) [
    | inl h ↦ elim (apart ((k.same_iff a b).0 h)) [ ]
    | inr h ↦ lookup-put a b v m ∙ rw h refl
  ]

  -- A write of what is there changes nothing.
  pub put-lookup : (a : K) (v : V) (m : List (K × V)) → lookup a m ≡ some v → put a v m ≡ m
  unfolding lookup put
  put-lookup a v [] h = cc
  put-lookup a v ((b, w) ∷ m) h = elim (Bool-cases (k.same b a)) [
    | inl e ↦ rw e (ap (λ u. (b, u) ∷ m) (sym (some-injective (rw e at h))))
    | inr e ↦ rw e (ap (λ n. (b, w) ∷ n) (put-lookup a v m (rw e at h)))
  ]

  -- A write of another key leaves a key absent.
  put_absent :
      (a b : K) (v : V) (m : List (K × V))
      → k.same b a ≡ false
      → lookup b m ≡ none
      → lookup b (put a v m) ≡ none
  put_absent a b v m h absent =
      lookup-put_other a b v m (λ e. cc (h, (k.same_iff b a).1 (sym e))) ∙ absent

  -- A write of a new key comes last; one of an old key keeps the keys.
  pub keys-put_new :
      (a : K) (v : V) (m : List (K × V)) → lookup a m ≡ none → keys (put a v m) ≡ keys m ++ a ∷ []
  unfolding lookup put keys
  keys-put_new a v [] h = refl
  keys-put_new a v ((b, w) ∷ m) h = ground (arith, keys-put_new a v m)

  pub keys-put_old :
      (a : K) (v w : V) (m : List (K × V)) → lookup a m ≡ some w → keys (put a v m) ≡ keys m
  unfolding lookup put keys
  keys-put_old a v u [] h = cc
  keys-put_old a v u ((b, w) ∷ m) h = ground (arith, keys-put_old a v u m)

  -- Every key once.
  abbrev pub Distinct : List (K × V) → Type κ
  Distinct [] = Unit
  Distinct ((b, v) ∷ m) = (lookup b m ≡ none) × Distinct m

  pub put-Distinct : (a : K) (v : V) (m : List (K × V)) → Distinct m → Distinct (put a v m)
  unfolding lookup put
  put-Distinct a v [] d = (refl, tt)
  put-Distinct a v ((b, w) ∷ m) d = elim (Bool-cases (k.same b a)) [
    | inl h ↦ rw h d
    | inr h ↦ rw h (put_absent a b v m h (d.0), put-Distinct a v m (d.1))
  ]
