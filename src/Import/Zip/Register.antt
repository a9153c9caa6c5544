-- ===== src/Import/Zip/Register.antt =====
-- The register of a checksum that takes in one bit of the message after the other.
use carbon_runtime.Common.{
  ℕ, zero, suc, ◌+◌, ◌≡◌, refl, sym, ap, ap₂, ◌∙◌, Bool, true, false, List, [], ◌∷◌, ◌++◌, arith,
  length, length-append, subst,
}
use mathlib.Core.List.{append_assoc, append-nil}
use carbon_runtime.Import.Zip.Crc.{Word, differ, xor, zeros, crc_bit, crc_bits}
use carbon_runtime.Import.Zip.Words.{
  Same-of_length, xor_comm, xor_assoc, length-xor, length-zeros, xor-zeros, length-crc_bit,
  crc_bit-xor,
}

-- The register takes in one bit of the message.
unfoldable pub take_in : Word → Bool → Word
take_in register b = crc_bit (xor register (b ∷ zeros 31))

unfoldable pub take_all : Word → List Bool → Word
take_all register [] = register
take_all register (b ∷ bits) = take_all (take_in register b) bits

pub take_all-append :
    (register : Word) (bits more : List Bool)
    → take_all register (bits ++ more) ≡ take_all (take_all register bits) more
unfolding take_all
take_all-append register [] more = refl
take_all-append register (b ∷ bits) more = take_all-append (take_in register b) bits more

length-single : (b : Bool) (u : Word) → length u ≡ 31 → length (b ∷ u) ≡ 32
length-single b u h = omega (arith, h)

pub length-take_in : (w : Word) (b : Bool) → length w ≡ 32 → length (take_in w b) ≡ 32
unfolding take_in
length-take_in w b h =
    let single = length-single b (zeros 31) (length-zeros 31) in
    length-crc_bit (xor w (b ∷ zeros 31))
      (length-xor w (b ∷ zeros 31) (Same-of_length w (b ∷ zeros 31) (omega (arith, h, single))) ∙ h)

pub crc_bits-xor :
    (k : ℕ) (u v : Word)
    → length u ≡ 32
    → length v ≡ 32
    → crc_bits k (xor u v) ≡ xor (crc_bits k u) (crc_bits k v)
unfolding crc_bits
crc_bits-xor zero u v h g = refl
crc_bits-xor (suc k) u v h g =
    ap (crc_bits k) (crc_bit-xor u v h g)
    ∙ crc_bits-xor k (crc_bit u) (crc_bit v) (length-crc_bit u h) (length-crc_bit v g)

snoc-zeros : (w : Word) (k : ℕ) → (w ++ false ∷ []) ++ zeros k ≡ w ++ zeros (suc k)
unfolding zeros
snoc-zeros w k = append_assoc w (false ∷ []) (zeros k)

-- Zeros at the low end go out at no cost.
pub crc_bits-zeros : (k : ℕ) (w : Word) → crc_bits k (zeros k ++ w) ≡ w ++ zeros k
unfolding crc_bits crc_bit zeros
crc_bits-zeros zero w = sym (append-nil w)
crc_bits-zeros (suc k) w =
    ap (crc_bits k) (append_assoc (zeros k) w (false ∷ []))
    ∙ crc_bits-zeros k (w ++ false ∷ [])
    ∙ snoc-zeros w k

zeros-snoc : (n : ℕ) → zeros n ++ false ∷ [] ≡ zeros (suc n)
unfolding zeros
zeros-snoc zero = refl
zeros-snoc (suc n) = ap (λ w. false ∷ w) (zeros-snoc n)

differ-false : (b : Bool) → differ b false ≡ b
differ-false true = refl
differ-false false = refl

pub zeros-xor : (u : Word) → xor (zeros (length u)) u ≡ u
zeros-xor u = xor_comm (zeros (length u)) u ∙ xor-zeros u

split_head :
    (b : Bool) (rest : Word) → length rest ≡ 31 → xor (b ∷ zeros 31) (false ∷ rest) ≡ b ∷ rest
unfolding xor
split_head b rest h =
    ap₂ (λ c w. c ∷ w) (differ-false b) (subst (λ n. xor (zeros n) rest ≡ rest) h (zeros-xor rest))

crc_bit-low : (rest : Word) → crc_bit (false ∷ rest) ≡ rest ++ false ∷ []
unfolding crc_bit
crc_bit-low rest = refl

-- The lowest bit comes in, and the others move down.
take_in-first :
    (w : Word) (b : Bool) (rest : Word)
    → length w ≡ 32
    → length rest ≡ 31
    → crc_bit (xor w (b ∷ rest)) ≡ xor (take_in w b) (rest ++ false ∷ [])
unfolding take_in
take_in-first w b rest h g =
    let single = length-single b (zeros 31) (length-zeros 31) in
    let same = Same-of_length w (b ∷ zeros 31) (omega (arith, h, single)) in
    ap (λ v. crc_bit (xor w v)) (sym (split_head b rest g))
    ∙ ap crc_bit (sym (xor_assoc w (b ∷ zeros 31) (false ∷ rest)))
    ∙ crc_bit-xor (xor w (b ∷ zeros 31)) (false ∷ rest) (length-xor w (b ∷ zeros 31) same ∙ h)
        (length-single false rest g)
    ∙ ap (xor (crc_bit (xor w (b ∷ zeros 31)))) (crc_bit-low rest)

-- Bits that stand in the register together leave it as if they came one by one.
pub crc_bits-take_all :
    (w : Word) (bits : List Bool) (n : ℕ)
    → length w ≡ 32
    → length bits + n ≡ 32
    → crc_bits (length bits) (xor w (bits ++ zeros n)) ≡ take_all w bits
unfolding crc_bits take_all
crc_bits-take_all w [] n h e = subst (λ k. xor w (zeros k) ≡ w) (omega (arith, h, e)) (xor-zeros w)
crc_bits-take_all w (b ∷ bits) n h e =
    let rest : length (bits ++ zeros n) ≡ 31 =
      omega (arith, length-append bits (zeros n), length-zeros n) in
    ap (crc_bits (length bits)) (take_in-first w b (bits ++ zeros n) h rest)
    ∙ ap (λ v. crc_bits (length bits) (xor (take_in w b) v))
        (append_assoc bits (zeros n) (false ∷ []) ∙ ap (λ v. bits ++ v) (zeros-snoc n))
    ∙ crc_bits-take_all (take_in w b) bits (suc n) (length-take_in w b h) (omega arith)

pub length-take_all : (w : Word) (bits : List Bool) → length w ≡ 32 → length (take_all w bits) ≡ 32
unfolding take_all
length-take_all w [] h = h
length-take_all w (b ∷ bits) h = length-take_all (take_in w b) bits (length-take_in w b h)
