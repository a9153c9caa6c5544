-- ===== src/Stream/Encode/RoundTrip.antt =====
-- decodeComponent undoes encodeComponent, and the alphabet of an encoded component.
use carbon_runtime.Common.{
  ℕ, ◌+◌, ◌*◌, ◌/◌, ◌%◌, ◌<◌, ◌≤◌, ◌≡◌, refl, ap, ◌∙◌, inl, inr, Bool, true, false, ◌||◌, some,
  List, [], ◌∷◌, ◌++◌, arith, ◌==◌, Bool-cases, length, Text, text, starts_with, All, All-append,
}
use carbon_runtime.Stream.Platform.{Node, IsWellFormed}
use carbon_runtime.Stream.Encode.{
  is_safe_byte, hex_digit, hex_value, is_space, two_digits, parse_hex, encode_byte, encode_bytes,
  encode_component, decode_bytes, decode_component, max_encoded,
}

hex_value-hex_digit : (d : ℕ) → d < 16 → hex_value (hex_digit d) ≡ some d
unfolding hex_value hex_digit
hex_value-hex_digit d h = ground arith

hex_digit_bounds : (d : ℕ) → d < 16 → (48 ≤ hex_digit d) × (hex_digit d ≤ 70)
unfolding hex_digit
hex_digit_bounds d h = ground arith

hex_digit_plain : (c : ℕ) → 48 ≤ c → c ≤ 70 → is_space c ≡ false
unfolding is_space
hex_digit_plain c h k = ground arith

parse_hex-hex_digit :
    (h l : ℕ) → h < 16 → l < 16 → parse_hex (hex_digit h ∷ hex_digit l ∷ []) ≡ h * 16 + l
unfolding parse_hex two_digits
parse_hex-hex_digit h l p q = ground (
  arith,
  hex_digit_bounds h p,
  hex_digit_plain (hex_digit h),
  hex_value-hex_digit h p,
  hex_value-hex_digit l q,
)

encode_byte-safe : (b : ℕ) → is_safe_byte b ≡ true → encode_byte b ≡ b ∷ []
unfolding encode_byte
encode_byte-safe b h = rw h

encode_byte-other :
    (b : ℕ)
    → is_safe_byte b ≡ false
    → encode_byte b ≡ b'~' ∷ hex_digit (b / 16) ∷ hex_digit (b % 16) ∷ []
unfolding encode_byte
encode_byte-other b h = rw h

safe-ne-tilde : (b : ℕ) → is_safe_byte b ≡ true → (b == b'~') ≡ false
unfolding is_safe_byte
safe-ne-tilde b h = ground arith

decode-safe :
    (b : ℕ) (rest : Text)
    → b < 256
    → is_safe_byte b ≡ true
    → decode_bytes (b ∷ rest) ≡ b ∷ decode_bytes rest
unfolding decode_bytes
decode-safe b [] h safe = ground (arith, safe-ne-tilde b safe)
decode-safe b (c ∷ []) h safe = ground (arith, safe-ne-tilde b safe)
decode-safe b (c ∷ d ∷ rest) h safe = ground (arith, safe-ne-tilde b safe)

decode-other :
    (b : ℕ) (rest : Text)
    → b < 256
    → decode_bytes (b'~' ∷ hex_digit (b / 16) ∷ hex_digit (b % 16) ∷ rest) ≡ b ∷ decode_bytes rest
unfolding decode_bytes
decode-other b rest h =
    ground (arith, parse_hex-hex_digit (b / 16) (b % 16) (omega arith) (omega arith))

-- One encoded byte is read back, whatever follows it.
decode-encode_byte :
    (b : ℕ) (rest : Text) → b < 256 → decode_bytes (encode_byte b ++ rest) ≡ b ∷ decode_bytes rest
decode-encode_byte b rest h = elim (Bool-cases (is_safe_byte b)) [
  | inl safe ↦ rw (encode_byte-safe b safe) (decode-safe b rest h safe)
  | inr other ↦ rw (encode_byte-other b other) (decode-other b rest h)
]

decode-encode_bytes : (bs : List ℕ) → All (λ b. b < 256) bs → decode_bytes (encode_bytes bs) ≡ bs
unfolding encode_bytes
decode-encode_bytes [] h = unfold decode_bytes in refl
decode-encode_bytes (b ∷ bs) h =
    decode-encode_byte b (encode_bytes bs) h.0 ∙ ap (◌∷◌ b) (decode-encode_bytes bs h.1)

-- What an encoded component is made of.
abbrev pub is_path_unit : ℕ → Bool
is_path_unit c = is_safe_byte c || c == b'~'

hex_digit-safe : (d : ℕ) → d < 16 → is_safe_byte (hex_digit d) ≡ true
unfolding hex_digit is_safe_byte
hex_digit-safe d h = ground arith

encode_byte-units : (b : ℕ) → b < 256 → All (λ c. is_path_unit c ≡ true) (encode_byte b)
encode_byte-units b h = elim (Bool-cases (is_safe_byte b)) [
  | inl safe ↦ rw (encode_byte-safe b safe) (ground arith)
  | inr other ↦
      rw (encode_byte-other b other) (
        ground
          (arith, hex_digit-safe (b / 16) (omega arith), hex_digit-safe (b % 16) (omega arith)))
]

pub encode_bytes-units :
    (bs : List ℕ) → All (λ b. b < 256) bs → All (λ c. is_path_unit c ≡ true) (encode_bytes bs)
unfolding encode_bytes
encode_bytes-units [] h = tt
encode_bytes-units (b ∷ bs) h =
    All-append _ (encode_byte b) (encode_bytes bs) (encode_byte-units b h.0)
      (encode_bytes-units bs h.1)

-- No encoding of bytes begins like the hashed form: `h` is no hex digit of an encoding.
hex_digit-ne-h : (d : ℕ) → d < 16 → (hex_digit d == b'h') ≡ false
unfolding hex_digit
hex_digit-ne-h d h = ground arith

encode_byte-ne-hashed :
    (b : ℕ) (rest : Text) → b < 256 → starts_with (encode_byte b ++ rest) (text "~h") ≡ false
unfolding starts_with
encode_byte-ne-hashed b rest h = elim (Bool-cases (is_safe_byte b)) [
  | inl safe ↦ rw (encode_byte-safe b safe) (ground (arith, safe-ne-tilde b safe))
  | inr other ↦
      rw (encode_byte-other b other) (ground (arith, hex_digit-ne-h (b / 16) (omega arith)))
]

pub encode_bytes-ne-hashed :
    (bs : List ℕ) → All (λ b. b < 256) bs → starts_with (encode_bytes bs) (text "~h") ≡ false
unfolding encode_bytes
encode_bytes-ne-hashed [] h = unfold starts_with in refl
encode_bytes-ne-hashed (b ∷ bs) h = encode_byte-ne-hashed b (encode_bytes bs) h.0

pub encode_component-short :
    (node : Node) (raw : Text)
    → length (encode_bytes (node.to_utf8 raw)) ≤ max_encoded
    → encode_component node raw ≡ encode_bytes (node.to_utf8 raw)
unfolding encode_component
encode_component-short node raw short = ground arith

decode_component-plain :
    (node : Node) (encoded : Text)
    → starts_with encoded (text "~h") ≡ false
    → decode_component node encoded ≡ some (node.from_utf8 (decode_bytes encoded))
unfolding decode_component
decode_component-plain node encoded h = rw h

-- An identifier that Node encodes without loss, and whose encoding is not too long, is read back
-- from its component as it was.
pub decode-encode_component :
    (node : Node) (raw : Text)
    → IsWellFormed node raw
    → length (encode_bytes (node.to_utf8 raw)) ≤ max_encoded
    → decode_component node (encode_component node raw) ≡ some raw
decode-encode_component node raw w short = rw (encode_component-short node raw short) (
    rw (
      decode_component-plain node _ (encode_bytes-ne-hashed (node.to_utf8 raw) w.bytes),
      decode-encode_bytes (node.to_utf8 raw) w.bytes,
      w.back,
    ))
