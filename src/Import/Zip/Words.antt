-- ===== src/Import/Zip/Words.antt =====
-- Exclusive or on the words of crc32, and the step of a bit, which it passes through.
use carbon_runtime.Common.{
  ℕ, zero, suc, ◌+◌, ◌/◌, ◌≡◌, refl, sym, ap, ap₂, ◌∙◌, Bool, true, false, [], ◌∷◌, ◌++◌, arith,
  length, length-append, subst,
}
use carbon_runtime.Import.Zip.Crc.{Word, differ, xor, zeros, bits_of, polynomial, crc_bit}

-- Words on which `xor` is as long as either.
abbrev pub Same : Word → Word → Type 0
Same [] [] = Unit
Same [] (b ∷ v) = ⊥
Same (a ∷ u) [] = ⊥
Same (a ∷ u) (b ∷ v) = Same u v

pub Same-of_length : (u v : Word) → length u ≡ length v → Same u v
Same-of_length [] [] e = tt
Same-of_length [] (b ∷ v) e = absurd (omega arith)
Same-of_length (a ∷ u) [] e = absurd (omega arith)
Same-of_length (a ∷ u) (b ∷ v) e = Same-of_length u v (omega arith)

differ_assoc : (a b c : Bool) → differ (differ a b) c ≡ differ a (differ b c)
differ_assoc true true true = refl
differ_assoc true true false = refl
differ_assoc true false true = refl
differ_assoc true false false = refl
differ_assoc false b c = refl

pub differ_comm : (a b : Bool) → differ a b ≡ differ b a
differ_comm true true = refl
differ_comm true false = refl
differ_comm false true = refl
differ_comm false false = refl

pub xor_comm : (u v : Word) → xor u v ≡ xor v u
unfolding xor
xor_comm [] [] = refl
xor_comm [] (b ∷ v) = refl
xor_comm (a ∷ u) [] = refl
xor_comm (a ∷ u) (b ∷ v) = ap₂ (λ c w. c ∷ w) (differ_comm a b) (xor_comm u v)

pub xor_assoc : (u v w : Word) → xor (xor u v) w ≡ xor u (xor v w)
unfolding xor
xor_assoc [] v w = refl
xor_assoc (a ∷ u) [] w = refl
xor_assoc (a ∷ u) (b ∷ v) [] = refl
xor_assoc (a ∷ u) (b ∷ v) (c ∷ w) = ap₂ (λ d x. d ∷ x) (differ_assoc a b c) (xor_assoc u v w)

pub xor-append : (u v s t : Word) → Same u v → xor (u ++ s) (v ++ t) ≡ xor u v ++ xor s t
unfolding xor
xor-append [] [] s t h = refl
xor-append [] (b ∷ v) s t h = elim h [ ]
xor-append (a ∷ u) [] s t h = elim h [ ]
xor-append (a ∷ u) (b ∷ v) s t h = ap (λ w. differ a b ∷ w) (xor-append u v s t h)

pub length-xor : (u v : Word) → Same u v → length (xor u v) ≡ length u
unfolding xor
length-xor [] [] h = refl
length-xor [] (b ∷ v) h = elim h [ ]
length-xor (a ∷ u) [] h = elim h [ ]
length-xor (a ∷ u) (b ∷ v) h = omega (arith, length-xor u v h)

pub length-zeros : (n : ℕ) → length (zeros n) ≡ n
unfolding zeros
length-zeros zero = refl
length-zeros (suc n) = omega (arith, length-zeros n)

pub length-bits_of : (k n : ℕ) → length (bits_of k n) ≡ k
unfolding bits_of
length-bits_of zero n = refl
length-bits_of (suc k) n = omega (arith, length-bits_of k (n / 2))

pub xor-zeros : (u : Word) → xor u (zeros (length u)) ≡ u
unfolding xor zeros
xor-zeros [] = refl
xor-zeros (true ∷ u) = ap (λ w. true ∷ w) (xor-zeros u)
xor-zeros (false ∷ u) = ap (λ w. false ∷ w) (xor-zeros u)

pub xor_self : (u : Word) → xor u u ≡ zeros (length u)
unfolding xor zeros
xor_self [] = refl
xor_self (true ∷ u) = ap (λ w. false ∷ w) (xor_self u)
xor_self (false ∷ u) = ap (λ w. false ∷ w) (xor_self u)

xor_medial : (p q r s : Word) → xor (xor p q) (xor r s) ≡ xor (xor p r) (xor q s)
xor_medial p q r s =
    xor_assoc p q (xor r s)
    ∙ ap (xor p) (sym (xor_assoc q r s) ∙ ap (λ w. xor w s) (xor_comm q r) ∙ xor_assoc r q s)
    ∙ sym (xor_assoc p r (xor q s))

-- What a bit that leaves the register puts back.
pub mask : Bool → Word
mask true = polynomial
mask false = zeros 32

mask-differ : (a b : Bool) → mask (differ a b) ≡ xor (mask a) (mask b)
unfolding mask xor zeros polynomial bits_of
mask-differ true true = refl
mask-differ true false = refl
mask-differ false true = refl
mask-differ false false = refl

length-snoc : (w : Word) (b : Bool) → length (w ++ b ∷ []) ≡ length w + 1
length-snoc w b = omega (arith, length-append w (b ∷ []))

length-mask : (b : Bool) → length (mask b) ≡ 32
unfolding mask zeros polynomial bits_of
length-mask true = refl
length-mask false = refl

crc_bit-mask :
    (b : Bool) (w : Word) → length w ≡ 31 → crc_bit (b ∷ w) ≡ xor (w ++ false ∷ []) (mask b)
unfolding crc_bit mask
crc_bit-mask true w h = refl
crc_bit-mask false w h = sym (
    subst (λ n. xor (w ++ false ∷ []) (zeros n) ≡ w ++ false ∷ [])
      (length-snoc w false ∙ ap (λ n. n + 1) h) (xor-zeros (w ++ false ∷ [])))

xor-snoc : (u v : Word) → Same u v → xor (u ++ false ∷ []) (v ++ false ∷ []) ≡ xor u v ++ false ∷ []
unfolding xor
xor-snoc u v h = xor-append u v (false ∷ []) (false ∷ []) h

pub length-crc_bit : (w : Word) → length w ≡ 32 → length (crc_bit w) ≡ 32
length-crc_bit [] h = absurd (omega arith)
length-crc_bit (b ∷ w) h =
    ap length (crc_bit-mask b w (omega arith))
    ∙ length-xor (w ++ false ∷ []) (mask b) (
        Same-of_length (w ++ false ∷ []) (mask b)
          (omega (arith, length-snoc w false, length-mask b)))
    ∙ omega (arith, length-snoc w false)

pub crc_bit-xor :
    (u v : Word) → length u ≡ 32 → length v ≡ 32 → crc_bit (xor u v) ≡ xor (crc_bit u) (crc_bit v)
unfolding xor
crc_bit-xor [] v h k = absurd (omega arith)
crc_bit-xor (a ∷ u) [] h k = absurd (omega arith)
crc_bit-xor (a ∷ u) (b ∷ v) h k =
    let same = Same-of_length u v (omega arith) in
    crc_bit-mask (differ a b) (xor u v) (omega (arith, length-xor u v same))
    ∙ ap₂ xor (sym (xor-snoc u v same)) (mask-differ a b)
    ∙ xor_medial (u ++ false ∷ []) (v ++ false ∷ []) (mask a) (mask b)
    ∙ sym (ap₂ xor (crc_bit-mask a u (omega arith)) (crc_bit-mask b v (omega arith)))
