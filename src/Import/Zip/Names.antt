-- ===== src/Import/Zip/Names.antt =====
-- A name that is read stays where it is put: no accepted name walks out of a directory.
use carbon_runtime.Common.{
  ◌≡◌, refl, sym, ap, ◌∙◌, Bool, true, false, List, [], ◌∷◌, ◌++◌, some, arith, Text, text, text_eq,
  any, starts_with, Bool-cases, ◌||◌, inl, inr,
}
use mathlib.Core.List.{append_assoc, append-nil}
use carbon_runtime.Stream.Paths.{split_slash, push_segment, push_segments, resolve}
use carbon_runtime.Import.Zip.Open.{EntryKind, is_dots, entry_kind}

-- A path that only goes down from a directory.
abbrev pub IsBelow : List Text → List Text → Type 0
IsBelow at path = (rest : List Text) × (path ≡ at ++ rest)

push_segment-IsBelow :
    (at : List Text) (part : Text) → is_dots part ≡ false → IsBelow at (push_segment at part)
unfolding push_segment is_dots
push_segment-IsBelow at part h = elim (Bool-cases (text_eq part [] || text_eq part (text "."))) [
  | inl e ↦ ([], rw append-nil (ground arith))
  | inr e ↦ (part ∷ [], ground arith)
]

or-false : (a b : Bool) → (a || b) ≡ false → (a ≡ false) × (b ≡ false)
or-false true b h = cc
or-false false b h = (refl, h)

push_segments-IsBelow :
    (at parts : List Text) → any is_dots parts ≡ false → IsBelow at (push_segments at parts)
unfolding push_segments
push_segments-IsBelow at [] h = ([], sym (append-nil at))
push_segments-IsBelow at (part ∷ parts) h =
    let (first, others) = or-false (is_dots part) (any is_dots parts) h in
    let (one, e) = push_segment-IsBelow at part first in
    let (rest, f) = push_segments-IsBelow (push_segment at part) parts others in
    (one ++ rest, f ∙ ap (λ path. path ++ rest) e ∙ append_assoc at one rest)

entry_kind_accepted :
    (s : Text) (k : EntryKind)
    → entry_kind s ≡ some k
    → (starts_with s (text "/") ≡ false) × (any is_dots (split_slash s) ≡ false)
unfolding entry_kind
entry_kind_accepted [] k e = cc
entry_kind_accepted (c ∷ s) k e = ground arith

-- A name that is accepted as any kind, joined to any directory, resolves to that directory or a
-- path below it.
pub resolve-IsBelow :
    (at : List Text) (s : Text) (k : EntryKind)
    → entry_kind s ≡ some k
    → IsBelow at (resolve at (s ∷ []))
unfolding resolve
resolve-IsBelow at s k e =
    let (relative, plain) = entry_kind_accepted s k e in
    rw relative (push_segments-IsBelow at (split_slash s) plain)
