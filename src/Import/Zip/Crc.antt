-- ===== src/Import/Zip/Crc.antt =====
-- import/zip.ts: crc32 and its table. A word of 32 bits is the list of them, the lowest first, so that
-- `>>> 1` drops the head and `^` goes bit by bit; the sign of JavaScript's words plays no part.
use carbon_runtime.Common.{
  ℕ, zero, suc, ◌+◌, ◌*◌, ◌/◌, ◌%◌, Bool, true, false, not, List, [], ◌∷◌, ◌++◌, ◌==◌, take, drop,
}

abbrev pub Word : Type 0
Word = List Bool

abbrev pub differ : Bool → Bool → Bool
differ true b = not b
differ false b = b

unfoldable pub xor : Word → Word → Word
xor [] v = []
xor (a ∷ u) [] = []
xor (a ∷ u) (b ∷ v) = differ a b ∷ xor u v

unfoldable pub zeros : ℕ → Word
zeros zero = []
zeros (suc n) = false ∷ zeros n

-- The lowest bits of a number.
unfoldable pub bits_of : ℕ → ℕ → Word
bits_of zero n = []
bits_of (suc k) n = (n % 2 == 1) ∷ bits_of k (n / 2)

-- The number that a word stands for, `>>> 0`.
unfoldable pub value_of : Word → ℕ
value_of [] = 0
value_of (true ∷ w) = 1 + 2 * value_of w
value_of (false ∷ w) = 2 * value_of w

unfoldable pub polynomial : Word
unfolding bits_of
polynomial = bits_of 32 0xedb88320

-- `value & 1 ? (value >>> 1) ^ 0xedb88320 : value >>> 1`.
unfoldable pub crc_bit : Word → Word
unfolding xor polynomial
crc_bit [] = []
crc_bit (true ∷ w) = xor (w ++ false ∷ []) polynomial
crc_bit (false ∷ w) = w ++ false ∷ []

unfoldable pub crc_bits : ℕ → Word → Word
unfolding crc_bit
crc_bits zero w = w
crc_bits (suc n) w = crc_bits n (crc_bit w)

-- CRC_TABLE at an index of eight bits.
unfoldable pub table_at : Word → Word
unfolding crc_bits zeros
table_at index = crc_bits 8 (index ++ zeros 24)

-- `(crc >>> 8) ^ CRC_TABLE[(crc ^ byte) & 0xff]`.
unfoldable pub crc_byte : Word → ℕ → Word
unfolding xor table_at bits_of
crc_byte crc byte = xor (drop 8 crc ++ zeros 8) (table_at (take 8 (xor crc (bits_of 32 byte))))

unfoldable pub crc_from : Word → List ℕ → Word
unfolding crc_byte
crc_from crc [] = crc
crc_from crc (byte ∷ bytes) = crc_from (crc_byte crc byte) bytes

-- -1.
abbrev pub ones : ℕ → Word
ones zero = []
ones (suc n) = true ∷ ones n

unfoldable pub crc32 : List ℕ → ℕ
unfolding crc_from value_of
crc32 bytes = value_of (xor (crc_from (ones 32) bytes) (ones 32))
