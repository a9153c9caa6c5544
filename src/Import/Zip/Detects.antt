-- ===== src/Import/Zip/Detects.antt =====
-- What the checksum detects: every change within four bytes in a row.
use carbon_runtime.Common.{
  ℕ, zero, suc, ◌+◌, ◌≡◌, refl, sym, ap, ap₂, ◌∙◌, Bool, true, false, List, [], ◌∷◌, ◌++◌, arith,
  length, length-append, take, drop, subst,
}
use carbon_runtime.Import.Zip.Crc.{Word, xor, zeros, bits_of, polynomial, crc_bit, crc_bits}
use carbon_runtime.Import.Zip.Words.{
  xor_comm, xor_assoc, length-zeros, xor_self, length-crc_bit, crc_bit-xor,
}
use carbon_runtime.Import.Zip.Register.{
  take_in, take_all, zeros-xor, crc_bits-take_all, length-take_in,
}
use carbon_runtime.Import.Zip.Checksum.{drop-xor, length-xor_word}

-- The register may be cancelled.
xor-cancel : (w u v : Word) → length u ≡ length w → length v ≡ length w → xor w u ≡ xor w v → u ≡ v
xor-cancel w u v h g e = sym (back u h) ∙ ap (xor w) e ∙ back v g
  where
    back : (u : Word) → length u ≡ length w → xor w (xor w u) ≡ u
    back u h =
        sym (xor_assoc w w u)
        ∙ ap (λ x. xor x u) (xor_self w)
        ∙ subst (λ n. xor (zeros n) u ≡ u) h (zeros-xor u)

pub xor-cancel_left :
    (w u v : Word) → length u ≡ length w → length v ≡ length w → xor u w ≡ xor v w → u ≡ v
xor-cancel_left w u v h g e = xor-cancel w u v h g (xor_comm w u ∙ e ∙ xor_comm v w)

drop-snoc : (w : Word) (b : Bool) → drop (length w) (w ++ b ∷ []) ≡ b ∷ []
drop-snoc [] b = refl
drop-snoc (c ∷ w) b = drop-snoc w b

take-snoc : (w : Word) (b : Bool) → take (length w) (w ++ b ∷ []) ≡ w
take-snoc [] b = refl
take-snoc (c ∷ w) b = ap (λ v. c ∷ v) (take-snoc w b)

last-polynomial : drop 31 polynomial ≡ true ∷ []
unfolding polynomial bits_of
last-polynomial = refl

single-xor : xor (false ∷ []) (true ∷ []) ≡ true ∷ []
unfolding xor
single-xor = refl

drop-zeros : drop 31 (zeros 32) ≡ false ∷ []
unfolding zeros
drop-zeros = refl

take-zeros : take 31 (zeros 32) ≡ zeros 31
unfolding zeros
take-zeros = refl

-- A register from which a one goes out has a one at the top.
crc_bit-true : (w : Word) → length w ≡ 31 → drop 31 (crc_bit (true ∷ w)) ≡ true ∷ []
unfolding crc_bit
crc_bit-true w h =
    drop-xor 31 (w ++ false ∷ []) polynomial
    ∙ ap₂ xor (subst (λ n. drop n (w ++ false ∷ []) ≡ false ∷ []) h (drop-snoc w false))
        last-polynomial
    ∙ single-xor

true-not_false : true ∷ [] ≡ false ∷ [] → ⊥
true-not_false e = cc

take-word : (w : Word) → length w ≡ 31 → take 31 (w ++ false ∷ []) ≡ w
take-word w h = subst (λ n. take n (w ++ false ∷ []) ≡ w) h (take-snoc w false)

crc_bit-false : (w : Word) → crc_bit (false ∷ w) ≡ w ++ false ∷ []
unfolding crc_bit
crc_bit-false w = refl

cons-zeros : (n : ℕ) → false ∷ zeros n ≡ zeros (suc n)
unfolding zeros
cons-zeros n = refl

-- Only the empty register is left empty.
crc_bit-kernel : (u : Word) → length u ≡ 32 → crc_bit u ≡ zeros 32 → u ≡ zeros 32
crc_bit-kernel [] h e = absurd (omega arith)
crc_bit-kernel (true ∷ w) h e =
    elim (true-not_false (sym (crc_bit-true w (omega arith)) ∙ ap (drop 31) e ∙ drop-zeros)) [ ]
crc_bit-kernel (false ∷ w) h e =
    ap (λ v. false ∷ v)
      (sym (take-word w (omega arith)) ∙ ap (take 31) (sym (crc_bit-false w) ∙ e) ∙ take-zeros)
    ∙ cons-zeros 31

xor-zero : (u v : Word) → length u ≡ 32 → length v ≡ 32 → xor u v ≡ zeros 32 → u ≡ v
xor-zero u v h g e =
    xor-cancel_left v u v (h ∙ sym g) refl (e ∙ ap zeros (sym g) ∙ sym (xor_self v))

xor-same : (w : Word) → length w ≡ 32 → xor w w ≡ zeros 32
xor-same w h = xor_self w ∙ ap zeros h

crc_bit-injective : (u v : Word) → length u ≡ 32 → length v ≡ 32 → crc_bit u ≡ crc_bit v → u ≡ v
crc_bit-injective u v h g e = xor-zero u v h g (
    crc_bit-kernel (xor u v) (length-xor_word u v h g) (
      crc_bit-xor u v h g
      ∙ ap (λ w. xor w (crc_bit v)) e
      ∙ xor-same (crc_bit v) (length-crc_bit v g)))

crc_bits-injective :
    (k : ℕ) (u v : Word) → length u ≡ 32 → length v ≡ 32 → crc_bits k u ≡ crc_bits k v → u ≡ v
unfolding crc_bits
crc_bits-injective zero u v h g e = e
crc_bits-injective (suc k) u v h g e =
    crc_bit-injective u v h g
      (crc_bits-injective k (crc_bit u) (crc_bit v) (length-crc_bit u h) (length-crc_bit v g) e)

length-one : (b : Bool) → length (b ∷ zeros 31) ≡ 32
length-one b = omega (arith, length-zeros 31)

take_in-crc_bit :
    (u v : Word) (b : Bool)
    → take_in u b ≡ take_in v b
    → crc_bit (xor u (b ∷ zeros 31)) ≡ crc_bit (xor v (b ∷ zeros 31))
unfolding take_in
take_in-crc_bit u v b e = e

-- What comes after a change does not undo it.
pub take_all-injective :
    (u v : Word) (bits : List Bool)
    → length u ≡ 32
    → length v ≡ 32
    → take_all u bits ≡ take_all v bits
    → u ≡ v
unfolding take_all
take_all-injective u v [] h g e = e
take_all-injective u v (b ∷ bits) h g e =
    xor-cancel_left (b ∷ zeros 31) u v (h ∙ sym (length-one b)) (g ∙ sym (length-one b)) (
      crc_bit-injective (xor u (b ∷ zeros 31)) (xor v (b ∷ zeros 31))
        (length-xor_word u (b ∷ zeros 31) h (length-one b))
        (length-xor_word v (b ∷ zeros 31) g (length-one b))
        (take_in-crc_bit u v b (
          take_all-injective (take_in u b) (take_in v b) bits (length-take_in u b h)
            (length-take_in v b g) e)))

append-cancel : (u v w : Word) → length u ≡ length v → u ++ w ≡ v ++ w → u ≡ v
append-cancel [] [] w h e = refl
append-cancel [] (b ∷ v) w h e = absurd (omega arith)
append-cancel (a ∷ u) [] w h e = absurd (omega arith)
append-cancel (a ∷ u) (b ∷ v) w h e = cc (e, append-cancel u v w (omega arith) (ap tail_of e))
  where
    tail_of : Word → Word
    tail_of [] = []
    tail_of (a ∷ u) = u

-- As many bits as the register has leave as many states.
pub take_all-bits_injective :
    (w : Word) (bits more : List Bool) (n : ℕ)
    → length w ≡ 32
    → length bits + n ≡ 32
    → length more ≡ length bits
    → take_all w bits ≡ take_all w more
    → bits ≡ more
take_all-bits_injective w bits more n h fit same e =
    let long : length (bits ++ zeros n) ≡ 32 =
      omega (arith, length-append bits (zeros n), length-zeros n) in
    let long' : length (more ++ zeros n) ≡ 32 =
      omega (arith, length-append more (zeros n), length-zeros n) in
    append-cancel bits more (zeros n) (sym same) (
      xor-cancel w (bits ++ zeros n) (more ++ zeros n) (long ∙ sym h) (long' ∙ sym h) (
        crc_bits-injective (length bits) (xor w (bits ++ zeros n)) (xor w (more ++ zeros n))
          (length-xor_word w (bits ++ zeros n) h long) (length-xor_word w (more ++ zeros n) h long')
          (crc_bits-take_all w bits n h fit
            ∙ e
            ∙ sym (crc_bits-take_all w more n h (omega arith))
            ∙ ap (λ k. crc_bits k (xor w (more ++ zeros n))) same)))
