-- ===== src/Import/Zip/Bursts.antt =====
-- What the checksum detects: every change within four bytes in a row.
use carbon_runtime.Common.{
  ℕ, zero, suc, ◌-◌, ◌*◌, ◌/◌, ◌%◌, ◌<◌, ◌≤◌, ◌==◌, ◌≡◌, ◌≢◌, refl, sym, ap, ap₂, ◌∙◌, Bool, true,
  false, List, [], ◌∷◌, ◌++◌, arith, length, length-append, drop, All, All-append,
}
use mathlib.Core.List.{append_assoc}
use carbon_runtime.Stream.Fault.{fault, name, err, zip_entry_corrupt}
use carbon_runtime.Import.Zip.{ZipEntry}
use carbon_runtime.Import.Zip.Open.{check_crc}
use carbon_runtime.Import.Zip.Crc.{Word, xor, bits_of, value_of, ones, crc32}
use carbon_runtime.Import.Zip.Words.{length-bits_of}
use carbon_runtime.Import.Zip.Register.{take_all, take_all-append, length-take_all}
use carbon_runtime.Import.Zip.Checksum.{message_bits, plain_crc, crc32-plain_crc, length-xor_word}
use carbon_runtime.Import.Zip.Detects.{xor-cancel_left, take_all-injective, take_all-bits_injective}

value_of-injective : (u v : Word) → length u ≡ length v → value_of u ≡ value_of v → u ≡ v
unfolding value_of
value_of-injective [] [] h e = refl
value_of-injective [] (b ∷ v) h e = absurd (omega arith)
value_of-injective (a ∷ u) [] h e = absurd (omega arith)
value_of-injective (true ∷ u) (true ∷ v) h e =
    ap (λ w. true ∷ w) (value_of-injective u v (omega arith) (omega arith))
value_of-injective (true ∷ u) (false ∷ v) h e = absurd (omega arith)
value_of-injective (false ∷ u) (true ∷ v) h e = absurd (omega arith)
value_of-injective (false ∷ u) (false ∷ v) h e =
    ap (λ w. false ∷ w) (value_of-injective u v (omega arith) (omega arith))

message_bits-append :
    (xs ys : List ℕ) → message_bits (xs ++ ys) ≡ message_bits xs ++ message_bits ys
unfolding message_bits
message_bits-append [] ys = refl
message_bits-append (x ∷ xs) ys =
    ap (λ w. bits_of 8 x ++ w) (message_bits-append xs ys)
    ∙ sym (append_assoc (bits_of 8 x) (message_bits xs) (message_bits ys))

length-message_bits : (xs : List ℕ) → length (message_bits xs) ≡ 8 * length xs
unfolding message_bits
length-message_bits [] = omega arith
length-message_bits (x ∷ xs) = omega (
  arith,
  length-append (bits_of 8 x) (message_bits xs),
  length-bits_of 8 x,
  length-message_bits xs,
)

low_bit : (a b : ℕ) → (a % 2 == 1) ≡ (b % 2 == 1) → a / 2 ≡ b / 2 → a ≡ b
low_bit a b e h = ground arith

head_of : Word → Bool
head_of [] = false
head_of (b ∷ w) = b

-- What is left of a number above its lowest bits.
abbrev above : ℕ → ℕ → ℕ
above zero n = n
above (suc k) n = above k (n / 2)

bits_of-injective :
    (k a b : ℕ) (u v : Word) → bits_of k a ++ u ≡ bits_of k b ++ v → above k a ≡ above k b → a ≡ b
unfolding bits_of head_of
bits_of-injective zero a b u v e h = h
bits_of-injective (suc k) a b u v e h =
    low_bit a b (ap head_of e) (bits_of-injective k (a / 2) (b / 2) u v (ap (drop 1) e) h)

byte-injective :
    (a b : ℕ) (u v : Word) → a < 256 → b < 256 → bits_of 8 a ++ u ≡ bits_of 8 b ++ v → a ≡ b
byte-injective a b u v p q e = bits_of-injective 8 a b u v e (omega arith)

drop-byte : (a : ℕ) (u : Word) → drop 8 (bits_of 8 a ++ u) ≡ u
unfolding bits_of
drop-byte a u = refl

message_bits-injective :
    (xs ys : List ℕ)
    → length xs ≡ length ys
    → All (λ b. b < 256) xs
    → All (λ b. b < 256) ys
    → message_bits xs ≡ message_bits ys
    → xs ≡ ys
unfolding message_bits
message_bits-injective [] [] h p q e = refl
message_bits-injective [] (y ∷ ys) h p q e = absurd (omega arith)
message_bits-injective (x ∷ xs) [] h p q e = absurd (omega arith)
message_bits-injective (x ∷ xs) (y ∷ ys) h (px, pxs) (qy, qys) e =
    ap₂ (λ z zs. z ∷ zs) (byte-injective x y (message_bits xs) (message_bits ys) px qy e)
      (message_bits-injective xs ys (omega arith) pxs qys
        (sym (drop-byte x (message_bits xs)) ∙ ap (drop 8) e ∙ drop-byte y (message_bits ys)))

-- The register after a message, from its value.
register : List ℕ → Word
register bytes = take_all (ones 32) (message_bits bytes)

length-register : (bytes : List ℕ) → length (register bytes) ≡ 32
unfolding register
length-register bytes = length-take_all (ones 32) (message_bits bytes) refl

register-split :
    (before change after : List ℕ)
    → register (before ++ (change ++ after))
      ≡ take_all (take_all (register before) (message_bits change)) (message_bits after)
unfolding register
register-split before change after =
    ap (take_all (ones 32)) (
      message_bits-append before (change ++ after)
      ∙ ap (λ w. message_bits before ++ w) (message_bits-append change after))
    ∙ take_all-append (ones 32) (message_bits before) (message_bits change ++ message_bits after)
    ∙ take_all-append (register before) (message_bits change) (message_bits after)

plain_crc-injective : (xs ys : List ℕ) → plain_crc xs ≡ plain_crc ys → register xs ≡ register ys
unfolding plain_crc register
plain_crc-injective xs ys e =
    xor-cancel_left (ones 32) (register xs) (register ys) (length-register xs) (length-register ys)
      (value_of-injective (xor (register xs) (ones 32)) (xor (register ys) (ones 32))
        (length-xor_word (register xs) (ones 32) (length-register xs) refl
          ∙ sym (length-xor_word (register ys) (ones 32) (length-register ys) refl))
        e)

abbrev pub IsBytes : List ℕ → Type 0
IsBytes xs = All (λ b. b < 256) xs

joined : (xs ys zs : List ℕ) → IsBytes xs → IsBytes ys → IsBytes zs → IsBytes (xs ++ (ys ++ zs))
joined xs ys zs p q r =
    All-append (λ b. b < 256) xs (ys ++ zs) p (All-append (λ b. b < 256) ys zs q r)

-- Messages that agree but for at most four bytes in a row have different checksums.
crc32-injective_within :
    (before old new after : List ℕ)
    → All (λ b. b < 256) before
    → All (λ b. b < 256) old
    → All (λ b. b < 256) new
    → All (λ b. b < 256) after
    → length old ≡ length new
    → length old ≤ 4
    → crc32 (before ++ (old ++ after)) ≡ crc32 (before ++ (new ++ after))
    → old ≡ new
crc32-injective_within before old new after b o n a same short e =
    let whole = plain_crc-injective (before ++ (old ++ after)) (before ++ (new ++ after)) (
      sym (crc32-plain_crc (before ++ (old ++ after)) (joined before old after b o a))
      ∙ e
      ∙ crc32-plain_crc (before ++ (new ++ after)) (joined before new after b n a)) in
    let at = register before in
    let old_bits = length-message_bits old in
    let new_bits = length-message_bits new in
    message_bits-injective old new same o n (
      take_all-bits_injective at (message_bits old) (message_bits new)
        (32 - length (message_bits old)) (length-register before) (omega arith) (omega arith)
        (take_all-injective (take_all at (message_bits old)) (take_all at (message_bits new))
          (message_bits after) (length-take_all at (message_bits old) (length-register before))
          (length-take_all at (message_bits new) (length-register before))
          (sym (register-split before old after) ∙ whole ∙ register-split before new after)))

-- Bytes that differ from those with the checksum that the archive states, which is not 0, in at most
-- four bytes in a row, none missing and none added, are refused as corrupt.
pub check_crc-corrupt :
    (entry : ZipEntry) (before old new after : List ℕ)
    → IsBytes before
    → IsBytes old
    → IsBytes new
    → IsBytes after
    → length old ≡ length new
    → length old ≤ 4
    → old ≢ new
    → entry.crc ≡ crc32 (before ++ (old ++ after))
    → entry.crc ≢ 0
    → check_crc entry (before ++ (new ++ after))
      ≡ err (fault zip_entry_corrupt (name entry.entry_name) ∷ [])
unfolding check_crc
check_crc-corrupt entry before old new after b o n a same short apart stated nonzero =
    let differs : (crc32 (before ++ (new ++ after)) ≡ entry.crc → ⊥) = λ e.
      apart (crc32-injective_within before old new after b o n a same short (sym stated ∙ sym e)) in
    ground arith
