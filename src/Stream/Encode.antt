-- ===== src/Stream/Encode.antt =====
-- stream/encode.ts: path derivation. Identifiers are refused by `component_faults`, encoded byte
-- by byte by `encode_component`, and joined under the store by `resolve_under_store`.
pub mod RoundTrip
use carbon_runtime.Common.{
  ℕ, zero, suc, ◌+◌, ◌-◌, ◌*◌, ◌/◌, ◌%◌, Bool, true, false, not, ◌&&◌, ◌||◌, Option, none, some,
  List, [], ◌∷◌, ◌++◌, ltb, leb, ◌==◌, if◌then◌else◌, or_else, length, any, Text, text, text_eq,
  starts_with, has_unit,
}
use carbon_runtime.Stream.Platform.{Node}
use carbon_runtime.Stream.Fault.{
  Fault, fault, Subject, identifier_empty, identifier_has_separator, identifier_has_dot_segment,
  identifier_has_control_byte, identifier_too_long,
}

abbrev pub max_encoded : ℕ
max_encoded = 200

abbrev pub max_raw : ℕ
max_raw = 1024

unfoldable pub is_safe_byte : ℕ → Bool
is_safe_byte byte =
    leb 0x41 byte && leb byte 0x5a
    || leb 0x61 byte && leb byte 0x7a
    || leb 0x30 byte && leb byte 0x39
    || byte == 0x5f
    || byte == 0x2d

-- `raw.includes('..')`.
has_dots : Text → Bool
has_dots [] = false
has_dots (c ∷ []) = false
has_dots (c ∷ d ∷ s) = (c == b'.' && d == b'.') || has_dots (d ∷ s)

is_control_byte : ℕ → Bool
is_control_byte byte = ltb byte 0x20 || byte == 0x7f

abbrev when : Bool → Fault → List Fault
when true f = f ∷ []
when false f = []

-- The separator, dot-segment, control-byte and length refusals of a non-empty identifier.
shape_faults : Node → Subject → Text → List Fault
unfolding has_dots is_control_byte has_unit
shape_faults node subject raw =
    when (has_unit b'/' raw || has_unit 0x5c raw) (fault identifier_has_separator subject)
    ++ when (text_eq raw (text ".") || has_dots raw) (fault identifier_has_dot_segment subject)
    ++ when (any is_control_byte (node.to_utf8 raw)) (fault identifier_has_control_byte subject)
    ++ when (ltb max_raw (length raw)) (fault identifier_too_long subject)

-- An identifier that is no string is `none`.
unfoldable pub component_faults : Node → Subject → Option Text → List Fault
unfolding shape_faults
component_faults node subject none = fault identifier_empty subject ∷ []
component_faults node subject (some []) = fault identifier_empty subject ∷ []
component_faults node subject (some (c ∷ s)) = shape_faults node subject (c ∷ s)

-- A digit of `toString(16).toUpperCase()`.
hex_digit : ℕ → ℕ
hex_digit d = if ltb d 10 then 0x30 + d else 0x37 + d

unfoldable pub encode_byte : ℕ → Text
unfolding hex_digit
encode_byte byte =
    if is_safe_byte byte
    then byte ∷ []
    else b'~' ∷ hex_digit (byte / 16) ∷ hex_digit (byte % 16) ∷ []

unfoldable pub encode_bytes : List ℕ → Text
encode_bytes [] = []
encode_bytes (byte ∷ bytes) = encode_byte byte ++ encode_bytes bytes

unfoldable pub encode_component : Node → Text → Text
encode_component node raw =
    let encoded = encode_bytes (node.to_utf8 raw) in
    if ltb max_encoded (length encoded)
    then text "~h" ++ node.sha256 (node.to_utf8 raw)
    else encoded

-- A hex digit's value, in either case.
hex_value : ℕ → Option ℕ
hex_value c =
    if leb 0x30 c && leb c 0x39
    then some (c - 0x30)
    else if leb 0x41 c && leb c 0x46
    then some (c - 0x37)
    else if leb 0x61 c && leb c 0x66
    then some (c - 0x57)
    else none

-- The white space that `parseInt` skips.
unfoldable pub is_space : ℕ → Bool
is_space c =
    leb 9 c && leb c 13
    || c == 0x20
    || c == 0xa0
    || c == 0x1680
    || leb 0x2000 c && leb c 0x200a
    || c == 0x2028
    || c == 0x2029
    || c == 0x202f
    || c == 0x205f
    || c == 0x3000
    || c == 0xfeff

two_digits : Option ℕ → Option ℕ → ℕ
two_digits none low = 0
two_digits (some high) none = high
two_digits (some high) (some low) = high * 16 + low

-- `parseInt(slice, 16)` of at most two code units, as the byte that `Buffer.from` makes of it: NaN
-- becomes 0 and a negative number wraps.
parse_hex : Text → ℕ
parse_hex [] = 0
parse_hex (a ∷ []) = or_else (hex_value a) 0
parse_hex (a ∷ b ∷ rest) =
    if is_space a || a == b'+'
    then or_else (hex_value b) 0
    else if a == b'-'
    then (256 - or_else (hex_value b) 0) % 256
    else two_digits (hex_value a) (hex_value b)

-- The loop of `decodeComponent`. `Buffer.from` keeps the low byte of a code unit.
decode_bytes : Text → List ℕ
decode_bytes [] = []
decode_bytes (c ∷ []) = (if c == b'~' then 0 else c % 256) ∷ []
decode_bytes (c ∷ a ∷ []) = elim (c == b'~') [
  | true ↦ parse_hex (a ∷ []) ∷ []
  | false ↦ c % 256 ∷ decode_bytes (a ∷ [])
]
decode_bytes (c ∷ a ∷ b ∷ rest) = elim (c == b'~') [
  | true ↦ parse_hex (a ∷ b ∷ []) ∷ decode_bytes rest
  | false ↦ c % 256 ∷ decode_bytes (a ∷ b ∷ rest)
]

-- `none` is the error that is thrown on the hashed form.
unfoldable pub decode_component : Node → Text → Option Text
unfolding decode_bytes parse_hex is_space hex_value two_digits
decode_component node encoded =
    if starts_with encoded (text "~h") then none else some (node.from_utf8 (decode_bytes encoded))
