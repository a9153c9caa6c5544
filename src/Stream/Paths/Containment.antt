-- ===== src/Stream/Paths/Containment.antt =====
-- What the encoding guarantees of `resolveUnderStore`: components that are no dot segments and hold
-- no separator land below the root, one directory each.
use carbon_runtime.Common.{
  ℕ, ◌<◌, ◌≡◌, refl, sym, ap, ◌∙◌, true, false, some, List, [], ◌∷◌, ◌++◌, arith, ◌==◌, Text, text,
  text_eq, text_eq_refl, starts_with, has_unit, length, ltb, All, ◌≢◌, inl, inr, Bool-cases, ==_iff,
}
use mathlib.Core.List.{append_assoc, append-nil}
use carbon_runtime.Stream.Platform.{Node}
use carbon_runtime.Stream.Encode.{
  encode_component, encode_bytes, encode_byte, is_safe_byte, max_encoded,
}
use carbon_runtime.Stream.Encode.RoundTrip.{is_path_unit, encode_bytes-units}
use carbon_runtime.Stream.Paths.{
  split_slash, push_segment, push_segments, resolve, tail_text, path_text, resolve_under_store,
}

-- A component that names one file or directory.
pub record IsPlain (part : Text) : Type 0 where
  pub no_slash : has_unit b'/' part ≡ false
  pub not_empty : text_eq part [] ≡ false
  pub not_dot : text_eq part (text ".") ≡ false
  pub not_dots : text_eq part (text "..") ≡ false

split_slash-plain : (s : Text) → has_unit b'/' s ≡ false → split_slash s ≡ s ∷ []
unfolding split_slash has_unit
split_slash-plain [] h = refl
split_slash-plain (c ∷ s) h = ground (arith, split_slash-plain s)

starts_with-plain : (s : Text) → has_unit b'/' s ≡ false → starts_with s (text "/") ≡ false
unfolding starts_with has_unit
starts_with-plain [] h = refl
starts_with-plain (c ∷ s) h = ground arith

push_segment-plain : (at : List Text) (s : Text) → IsPlain s → push_segment at s ≡ at ++ s ∷ []
unfolding push_segment
push_segment-plain at s p = ground arith

resolve-plain : (at parts : List Text) → All IsPlain parts → resolve at parts ≡ at ++ parts
unfolding resolve push_segments
resolve-plain at [] h = rw append-nil
resolve-plain at (p ∷ parts) h =
    rw (starts_with-plain p h.0.no_slash, split_slash-plain p h.0.no_slash)
      (rw (push_segment-plain at p h.0)
        (resolve-plain (at ++ p ∷ []) parts h.1 ∙ append_assoc at (p ∷ []) parts))

tail_text-append : (xs ys : List Text) → tail_text (xs ++ ys) ≡ tail_text xs ++ tail_text ys
unfolding tail_text
tail_text-append [] ys = refl
tail_text-append (x ∷ xs) ys =
    ap (λ t. b'/' ∷ x ++ t) (tail_text-append xs ys)
    ∙ ap (◌∷◌ b'/') (sym (append_assoc x (tail_text xs) (tail_text ys)))

starts_with-append : (s t u : Text) → starts_with ((s ++ t) ++ u) (s ++ t) ≡ true
unfolding starts_with
starts_with-append [] [] u = refl
starts_with-append [] (y ∷ t) u = ground (arith, starts_with-append [] t u)
starts_with-append (x ∷ s) t u = ground (arith, starts_with-append s t u)

-- The stored path, from its root's first segment on.
path_text-append :
    (r : Text) (rs : List Text) (p : Text) (parts : List Text)
    → path_text ((r ∷ rs) ++ p ∷ parts) ≡ (path_text (r ∷ rs) ++ text "/") ++ (p ++ tail_text parts)
unfolding path_text
path_text-append r rs p parts =
    tail_text-append (r ∷ rs) (p ∷ parts)
    ∙ sym (append_assoc (tail_text (r ∷ rs)) (text "/") (p ++ tail_text parts))

-- A store that is not the file system's root answers every list of plain components with the path
-- below it that they spell, and never with a refusal.
pub resolve_under_store-contained :
    (r : Text) (rs parts : List Text)
    → All IsPlain parts
    → resolve_under_store (r ∷ rs) parts ≡ some (path_text ((r ∷ rs) ++ parts))
unfolding resolve_under_store
resolve_under_store-contained r rs [] h =
    rw (resolve-plain (r ∷ rs) [] h)
      (rw append-nil (ground (arith, text_eq_refl (path_text (r ∷ rs)))))
resolve_under_store-contained r rs (p ∷ parts) h =
    rw (resolve-plain (r ∷ rs) (p ∷ parts) h, path_text-append)
      (ground (arith, starts_with-append (path_text (r ∷ rs)) (text "/") (p ++ tail_text parts)))

encode_byte-ne-nil : (b : ℕ) (rest : Text) → encode_byte b ++ rest ≢ []
unfolding encode_byte
encode_byte-ne-nil b rest = ground arith

-- Path units are neither separators nor dots.
units-no_unit :
    (u : ℕ) (s : Text)
    → is_path_unit u ≡ false
    → All (λ c. is_path_unit c ≡ true) s
    → has_unit u s ≡ false
unfolding has_unit
units-no_unit u [] h k = refl
units-no_unit u (c ∷ s) h k = elim (Bool-cases (c == u)) [
  | inl e ↦ cc (ap is_path_unit ((==_iff c u).0 e))
  | inr ne ↦ rw ne (units-no_unit u s h k.1)
]

pub units-no_slash : (s : Text) → All (λ c. is_path_unit c ≡ true) s → has_unit b'/' s ≡ false
unfolding is_safe_byte
units-no_slash s k = units-no_unit b'/' s refl k

pub units-no_dot : (s : Text) → All (λ c. is_path_unit c ≡ true) s → has_unit b'.' s ≡ false
unfolding is_safe_byte
units-no_dot s k = units-no_unit b'.' s refl k

no_dot-IsPlain : (s : Text) → s ≢ [] → has_unit b'/' s ≡ false → has_unit b'.' s ≡ false → IsPlain s
unfolding has_unit text_eq
no_dot-IsPlain [] e h k = absurd (e refl)
no_dot-IsPlain (c ∷ s) e h k = record {
  no_slash = h;
  not_empty = refl;
  not_dot = ground arith;
  not_dots = ground arith;
}

-- With a hash that answers in lower-case hex digits, every encoded identifier is made of path units.
pub encode_component-units :
    (node : Node) (raw : Text)
    → All (λ b. b < 256) (node.to_utf8 raw)
    → All (λ c. is_path_unit c ≡ true) (node.sha256 (node.to_utf8 raw))
    → All (λ c. is_path_unit c ≡ true) (encode_component node raw)
unfolding encode_component
encode_component-units node raw w h =
    elim (Bool-cases (ltb max_encoded (length (encode_bytes (node.to_utf8 raw))))) [
      | inl long ↦ rw long (unfold is_safe_byte in (refl, (refl, h)))
      | inr short ↦ rw short (encode_bytes-units (node.to_utf8 raw) w)
    ]

encode_bytes-ne-nil : (bs : List ℕ) → bs ≢ [] → encode_bytes bs ≢ []
unfolding encode_bytes
encode_bytes-ne-nil [] h e = h refl
encode_bytes-ne-nil (b ∷ bs) h e = encode_byte-ne-nil b (encode_bytes bs) e

encode_component-ne-nil :
    (node : Node) (raw : Text) → node.to_utf8 raw ≢ [] → encode_component node raw ≢ []
unfolding encode_component
encode_component-ne-nil node raw h = ground (arith, encode_bytes-ne-nil (node.to_utf8 raw))

-- Every identifier whose UTF-8 form is not empty becomes a component that names one file: under a
-- hash that answers in hex digits the encoding is not empty, holds no separator, and is no dot segment.
pub encode_component-IsPlain :
    (node : Node) (raw : Text)
    → All (λ b. b < 256) (node.to_utf8 raw)
    → All (λ c. is_path_unit c ≡ true) (node.sha256 (node.to_utf8 raw))
    → node.to_utf8 raw ≢ []
    → IsPlain (encode_component node raw)
encode_component-IsPlain node raw w h ne =
    no_dot-IsPlain (encode_component node raw) (encode_component-ne-nil node raw ne)
      (units-no_slash (encode_component node raw) (encode_component-units node raw w h))
      (units-no_dot (encode_component node raw) (encode_component-units node raw w h))

-- A store that is not the file system's root: the directory of a conversation is the directory of its
-- encoding directly below `captures`, whatever the characters of its identifier, lone surrogates
-- included. What Node writes of the identifier in UTF-8 is bytes and not empty, and the digest is
-- made of letters, digits and the like, as hex digits are.
pub conversation_directory-contained :
    (node : Node) (r : Text) (rs : List Text) (conversation_id : Text)
    → All (λ b. b < 256) (node.to_utf8 conversation_id)
    → All (λ c. is_path_unit c ≡ true) (node.sha256 (node.to_utf8 conversation_id))
    → node.to_utf8 conversation_id ≢ []
    → resolve_under_store (r ∷ rs) (text "captures" ∷ encode_component node conversation_id ∷ [])
      ≡ some (path_text ((r ∷ rs) ++ text "captures" ∷ encode_component node conversation_id ∷ []))
conversation_directory-contained node r rs conversation_id w h ne =
    resolve_under_store-contained r rs
      (text "captures" ∷ encode_component node conversation_id ∷ [])
      (
        no_dot-IsPlain (text "captures") (λ e. cc) (unfold has_unit in refl)
            (unfold has_unit in refl),
        (encode_component-IsPlain node conversation_id w h ne, tt),
      )
