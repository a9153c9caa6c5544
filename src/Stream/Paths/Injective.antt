-- ===== src/Stream/Paths/Injective.antt =====
-- Two records never share a file: `record_path` is injective on identifiers that are not hashed.
use carbon_runtime.Common.{
  ℕ, zero, suc, ◌+◌, ◌-◌, ◌*◌, ◌/◌, ◌%◌, ◌<◌, ◌≤◌, ◌≡◌, refl, sym, ap, ◌∙◌, inl, inr, false, List,
  [], ◌∷◌, ◌++◌, arith, ltb, Bool-cases, Text, has_unit, length,
}
use carbon_runtime.Stream.Platform.{Node, IsWellFormed}
use carbon_runtime.Stream.Fault.{Fault, Result, ok, refuse_all}
use carbon_runtime.Stream.Encode.{encode_component, encode_bytes, max_encoded}
use carbon_runtime.Stream.Encode.RoundTrip.{
  encode_bytes-units, encode_component-short, decode-encode_component,
}
use carbon_runtime.Stream.Paths.{RecordPath, decimal_fuel, decimal, record_stem, record_path}
use carbon_runtime.Stream.Paths.Containment.{units-no_dot}

-- The number that decimal digits spell.
unfoldable pub value_from : ℕ → Text → ℕ
value_from acc [] = acc
value_from acc (c ∷ s) = value_from (acc * 10 + (c - 0x30)) s

value_from-append :
    (acc : ℕ) (s : Text) (c : ℕ) → value_from acc (s ++ c ∷ []) ≡ value_from acc s * 10 + (c - 0x30)
unfolding value_from
value_from-append acc [] c = refl
value_from-append acc (x ∷ s) c = value_from-append (acc * 10 + (x - 0x30)) s c

value-decimal_fuel : (f n : ℕ) → n < f → value_from 0 (decimal_fuel f n) ≡ n
unfolding decimal_fuel
value-decimal_fuel zero n h = elim h [ ]
value-decimal_fuel (suc f) n h = elim (Bool-cases (ltb n 10)) [
  | inl small ↦ rw small (unfold value_from in ground arith)
  | inr big ↦ rw big (
      rw (value_from-append 0 (decimal_fuel f (n / 10)) (0x30 + n % 10))
        (rw (value-decimal_fuel f (n / 10) (ground arith)) (omega arith)))
]

pub value-decimal : (n : ℕ) → value_from 0 (decimal n) ≡ n
unfolding decimal
value-decimal n = value-decimal_fuel (n + 1) n (omega arith)

decimal-injective : (n m : ℕ) → decimal n ≡ decimal m → n ≡ m
decimal-injective n m e = sym (value-decimal n) ∙ ap (value_from 0) e ∙ value-decimal m

-- The first dot splits a stem.
dot_split-left :
    (s t x y : Text)
    → has_unit b'.' s ≡ false
    → has_unit b'.' t ≡ false
    → s ++ b'.' ∷ x ≡ t ++ b'.' ∷ y
    → (s ≡ t) × (x ≡ y)
unfolding has_unit
dot_split-left [] [] x y h k e = (refl, cc)
dot_split-left [] (d ∷ t) x y h k e = ground arith
dot_split-left (c ∷ s) [] x y h k e = ground arith
dot_split-left (c ∷ s) (d ∷ t) x y h k e = ground (arith, dot_split-left s t x y)

no_dot-ne-dotted : (s t x : Text) → has_unit b'.' s ≡ false → s ≡ t ++ b'.' ∷ x → ⊥
unfolding has_unit
no_dot-ne-dotted [] [] x h e = cc
no_dot-ne-dotted [] (d ∷ t) x h e = cc
no_dot-ne-dotted (c ∷ s) [] x h e = ground arith
no_dot-ne-dotted (c ∷ s) (d ∷ t) x h e = ground (arith, no_dot-ne-dotted s t x)

record_stem-injective :
    (s t : Text) (r q : ℕ)
    → has_unit b'.' s ≡ false
    → has_unit b'.' t ≡ false
    → record_stem s r ≡ record_stem t q
    → (s ≡ t) × (r ≡ q)
unfolding record_stem
record_stem-injective s t r q h k e = ground (
  arith,
  no_dot-ne-dotted s t (decimal q) h,
  no_dot-ne-dotted t s (decimal r) k,
  dot_split-left s t (decimal r) (decimal q) h k,
  decimal-injective r q,
)

-- An identifier that Node encodes without loss and whose encoding is not hashed.
pub record IsShort (node : Node) (raw : Text) : Type 0 where
  pub formed : IsWellFormed node raw
  pub fits : length (encode_bytes (node.to_utf8 raw)) ≤ max_encoded

encode_component-injective :
    (node : Node) (a b : Text)
    → IsShort node a
    → IsShort node b
    → encode_component node a ≡ encode_component node b
    → a ≡ b
encode_component-injective node a b s t e = cc (
  e,
  decode-encode_component node a s.formed s.fits,
  decode-encode_component node b t.formed t.fits,
)

encode_component-no_dot :
    (node : Node) (a : Text) → IsShort node a → has_unit b'.' (encode_component node a) ≡ false
encode_component-no_dot node a s =
    rw (encode_component-short node a s.fits)
      (units-no_dot _ (encode_bytes-units (node.to_utf8 a) s.formed.bytes))

pub refuse_all-ok {ℓ} :
    {A : Type ℓ} (faults : List Fault) (r : Result A) {a : A}
    → refuse_all faults r ≡ ok a
    → (faults ≡ []) × (r ≡ ok a)
refuse_all-ok [] r e = (refl, e)
refuse_all-ok (f ∷ faults) r e = cc

-- What a path that was derived is.
pub record_path-parts :
    (node : Node) (c m : Text) (r : ℕ) (p : RecordPath)
    → record_path node c m r ≡ ok p
    → (p.directory ≡ encode_component node c) × (p.stem ≡ record_stem (encode_component node m) r)
unfolding record_path
record_path-parts node c m r p e =
    let place : RecordPath = record {
      directory = encode_component node c;
      stem = record_stem (encode_component node m) r;
    } in
    let found : ◌≡◌ {A = Result RecordPath} (ok place) (ok p) = (refuse_all-ok _ (ok place) e).1 in
    (cc found, cc found)

-- Two records whose identifiers Node encodes without loss, and none of whose encodings is hashed,
-- have one path only if they agree in conversation, message and revision.
pub record_path-injective :
    (node : Node) (c d m n : Text) (r q : ℕ) (p : RecordPath)
    → IsShort node c
    → IsShort node d
    → IsShort node m
    → IsShort node n
    → record_path node c m r ≡ ok p
    → record_path node d n q ≡ ok p
    → (c ≡ d) × (m ≡ n) × (r ≡ q)
record_path-injective node c d m n r q p sc sd sm sn e f =
    let left = record_path-parts node c m r p e in
    let right = record_path-parts node d n q p f in
    let stems =
      record_stem-injective (encode_component node m) (encode_component node n) r q
        (encode_component-no_dot node m sm) (encode_component-no_dot node n sn)
        (sym left.1 ∙ right.1) in
    (
      encode_component-injective node c d sc sd (sym left.0 ∙ right.0),
      encode_component-injective node m n sm sn stems.0,
      stems.1,
    )
