-- ===== src/Import/Zip/Checksum.antt =====
-- The table of crc32 against the checksum's definition, which divides the message bit by bit.
use carbon_runtime.Common.{
  ℕ, zero, suc, ◌-◌, ◌/◌, ◌<◌, ◌≡◌, refl, sym, ap, ap₂, ◌∙◌, Bool, false, List, [], ◌∷◌, ◌++◌,
  arith, length, length-append, take, drop, subst, All, take-append-drop,
}
use carbon_runtime.Import.Zip.Crc.{
  Word, xor, zeros, bits_of, value_of, crc_bits, table_at, crc_byte, crc_from, ones, crc32,
}
use carbon_runtime.Import.Zip.Register.{
  take_all, take_all-append, crc_bits-xor, crc_bits-zeros, zeros-xor, crc_bits-take_all,
  length-take_all,
}
use carbon_runtime.Import.Zip.Words.{
  Same-of_length, xor_comm, xor-append, length-xor, length-zeros, length-bits_of, xor-zeros,
}

unfoldable pub message_bits : List ℕ → List Bool
message_bits [] = []
message_bits (byte ∷ bytes) = bits_of 8 byte ++ message_bits bytes

-- The definition: the bits of the message, the lowest of each byte first, go through a register of
-- 32 ones, which is inverted at the end.
unfoldable pub plain_crc : List ℕ → ℕ
plain_crc bytes = value_of (xor (take_all (ones 32) (message_bits bytes)) (ones 32))

-- A word in its two parts.
two_parts :
    (low high : Word)
    → length low ≡ 8
    → length high ≡ 24
    → xor (low ++ zeros 24) (zeros 8 ++ high) ≡ low ++ high
two_parts low high h g =
    xor-append low (zeros 8) (zeros 24) high
      (Same-of_length low (zeros 8) (h ∙ sym (length-zeros 8)))
    ∙ ap₂ (λ u v. u ++ v) (subst (λ n. xor low (zeros n) ≡ low) h (xor-zeros low))
        (subst (λ n. xor (zeros n) high ≡ high) g (zeros-xor high))

table_at_lem : (low : Word) → crc_bits 8 (low ++ zeros 24) ≡ table_at low
unfolding table_at
table_at_lem low = refl

-- The table looks at the low byte, and the rest of the register moves down past it.
table-split :
    (low high : Word)
    → length low ≡ 8
    → length high ≡ 24
    → crc_bits 8 (low ++ high) ≡ xor (high ++ zeros 8) (table_at low)
table-split low high h g =
    ap (crc_bits 8) (sym (two_parts low high h g))
    ∙ crc_bits-xor 8 (low ++ zeros 24) (zeros 8 ++ high)
        (omega (arith, length-append low (zeros 24), length-zeros 24))
        (omega (arith, length-append (zeros 8) high, length-zeros 8))
    ∙ ap₂ xor (table_at_lem low) (crc_bits-zeros 8 high)
    ∙ xor_comm (table_at low) (high ++ zeros 8)

xor-nil : (u : Word) → xor u [] ≡ []
unfolding xor
xor-nil [] = refl
xor-nil (a ∷ u) = refl

pub drop-xor : (k : ℕ) (u v : Word) → drop k (xor u v) ≡ xor (drop k u) (drop k v)
unfolding xor
drop-xor zero u v = refl
drop-xor (suc k) [] v = refl
drop-xor (suc k) (a ∷ u) [] = sym (xor-nil (drop k u))
drop-xor (suc k) (a ∷ u) (b ∷ v) = drop-xor k u v

length-drop : {A : Type 0} (k : ℕ) (u : List A) → length (drop k u) ≡ length u - k
length-drop zero u = omega arith
length-drop (suc k) [] = omega arith
length-drop (suc k) (a ∷ u) = omega (arith, length-drop k u)

bits_of-zero : (k : ℕ) → bits_of k 0 ≡ zeros k
unfolding bits_of zeros
bits_of-zero zero = refl
bits_of-zero (suc k) = ap (λ w. false ∷ w) (bits_of-zero k)

abbrev high_bits : ℕ → ℕ
high_bits byte = byte / 2 / 2 / 2 / 2 / 2 / 2 / 2 / 2

bits_of-parts : (byte : ℕ) → bits_of 32 byte ≡ bits_of 8 byte ++ bits_of 24 (high_bits byte)
unfolding bits_of
bits_of-parts byte = refl

-- The bits of a byte stop after eight.
bits_of-byte : (byte : ℕ) → byte < 256 → bits_of 32 byte ≡ bits_of 8 byte ++ zeros 24
bits_of-byte byte h =
    let none_high : high_bits byte ≡ 0 = omega arith in
    bits_of-parts byte
    ∙ ap (λ n. bits_of 8 byte ++ bits_of 24 n) none_high
    ∙ ap (λ w. bits_of 8 byte ++ w) (bits_of-zero 24)

drop-bits_of : (byte : ℕ) (w : Word) → drop 8 (bits_of 8 byte ++ w) ≡ w
unfolding bits_of
drop-bits_of byte w = refl

length-take : {A : Type 0} (k : ℕ) (u : List A) → k < length u → length (take k u) ≡ k
length-take zero u h = refl
length-take (suc k) [] h = absurd (omega arith)
length-take (suc k) (a ∷ u) h = omega (arith, length-take k u (omega arith))

pub length-xor_word : (u v : Word) → length u ≡ 32 → length v ≡ 32 → length (xor u v) ≡ 32
length-xor_word u v h g = length-xor u v (Same-of_length u v (h ∙ sym g)) ∙ h

-- The high part of a register is out of a byte's reach.
drop-byte :
    (w : Word) (byte : ℕ) → length w ≡ 32 → byte < 256 → drop 8 (xor w (bits_of 32 byte)) ≡ drop 8 w
drop-byte w byte h b =
    drop-xor 8 w (bits_of 32 byte)
    ∙ ap (λ v. xor (drop 8 w) (drop 8 v)) (bits_of-byte byte b)
    ∙ ap (xor (drop 8 w)) (drop-bits_of byte (zeros 24))
    ∙ subst (λ n. xor (drop 8 w) (zeros n) ≡ drop 8 w) (omega (arith, length-drop 8 w, h))
        (xor-zeros (drop 8 w))

crc_byte_lem :
    (w : Word) (byte : ℕ)
    → crc_byte w byte ≡ xor (drop 8 w ++ zeros 8) (table_at (take 8 (xor w (bits_of 32 byte))))
unfolding crc_byte
crc_byte_lem w byte = refl

crc_bits-bits_of :
    (w : Word) (byte : ℕ)
    → length w ≡ 32
    → crc_bits 8 (xor w (bits_of 8 byte ++ zeros 24)) ≡ take_all w (bits_of 8 byte)
crc_bits-bits_of w byte h =
    let eight = length-bits_of 8 byte in
    ap (λ k. crc_bits k (xor w (bits_of 8 byte ++ zeros 24))) (sym eight)
    ∙ crc_bits-take_all w (bits_of 8 byte) 24 h (omega (arith, eight))

-- A step of the table takes in eight bits.
pub crc_byte-take_all :
    (w : Word) (byte : ℕ)
    → length w ≡ 32
    → byte < 256
    → crc_byte w byte ≡ take_all w (bits_of 8 byte)
crc_byte-take_all w byte h b =
    let word = length-xor_word w (bits_of 32 byte) h (length-bits_of 32 byte) in
    let x = xor w (bits_of 32 byte) in
    crc_byte_lem w byte
    ∙ ap (λ v. xor (v ++ zeros 8) (table_at (take 8 x))) (sym (drop-byte w byte h b))
    ∙ sym (
        table-split (take 8 x) (drop 8 x) (length-take 8 x (omega (arith, word)))
          (omega (arith, length-drop 8 x, word)))
    ∙ ap (crc_bits 8) (take-append-drop 8 x ∙ ap (xor w) (bits_of-byte byte b))
    ∙ crc_bits-bits_of w byte h

crc_from-take_all :
    (w : Word) (bytes : List ℕ)
    → length w ≡ 32
    → All (λ b. b < 256) bytes
    → crc_from w bytes ≡ take_all w (message_bits bytes)
unfolding crc_from message_bits take_all
crc_from-take_all w [] h b = refl
crc_from-take_all w (byte ∷ bytes) h (b, bs) =
    ap (λ v. crc_from v bytes) (crc_byte-take_all w byte h b)
    ∙ crc_from-take_all (take_all w (bits_of 8 byte)) bytes (length-take_all w (bits_of 8 byte) h)
        bs
    ∙ sym (take_all-append w (bits_of 8 byte) (message_bits bytes))

-- The checksum that runs through the table byte by byte is, on any bytes, the one that takes the
-- message bit by bit through the register.
pub crc32-plain_crc : (bytes : List ℕ) → All (λ b. b < 256) bytes → crc32 bytes ≡ plain_crc bytes
unfolding crc32 plain_crc
crc32-plain_crc bytes b =
    ap (λ w. value_of (xor w (ones 32))) (crc_from-take_all (ones 32) bytes refl b)
