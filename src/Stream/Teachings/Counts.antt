-- ===== src/Stream/Teachings/Counts.antt =====
-- stream/teachings.ts: the count of active instructions, and the cap on it.
use carbon_runtime.Common.{
  ℕ, suc, ◌+◌, ◌≡◌, refl, sym, ap, some-injective, ◌∙◌, inl, inr, Bool, true, false, List, [], ◌∷◌,
  Option, none, some, arith, Text, text, text_eq, text_eq_iff, if◌then◌else◌, Bool-cases, keep,
  length, lookup, put, length-sort_by, sum_by, sum_by-sort_by, sort_by,
}
use carbon_runtime.Stream.Json.{Json, obj, str, Fields, get}
use carbon_runtime.Stream.Paths.{text_key}
use carbon_runtime.Stream.Teachings.{
  Library, Directory, Entry, readable, unreadable, file_name, stem_of, is_read, entry_of,
  entries_of, records_of, read_teachings, name_after, is_of, taught_after, group_of, active_of,
}
use carbon_runtime.Stream.Teachings.Listing.{OnDisk, is_text_of, stem-file_name}
use carbon_runtime.Stream.Teachings.Fresh.{IsFree}

-- What a file adds to the count of a kind and a status.
entry_weight : Text → Text → Entry → ℕ
entry_weight kind status (readable r) = if is_of kind status r then 1 else 0
entry_weight kind status (unreadable f) = 0

file_weight : Text → Text → Text × Option Json → ℕ
unfolding entry_weight
file_weight kind status (file, content) =
    if is_read file then entry_weight kind status (entry_of file content) else 0

keep_weight :
    (kind status : Text) (e : Entry) (rs : List Entry)
    → length (keep (is_of kind status) (records_of (e ∷ rs)))
      ≡ entry_weight kind status e + length (keep (is_of kind status) (records_of rs))
unfolding entry_weight
keep_weight kind status (readable r) rs = elim (Bool-cases (is_of kind status r)) [
  | inl b ↦ rw b (omega arith)
  | inr b ↦ rw b (omega arith)
]
keep_weight kind status (unreadable f) rs = omega arith

length_weight :
    (kind status : Text) (files : Directory)
    → length (keep (is_of kind status) (records_of (entries_of files)))
      ≡ sum_by (file_weight kind status) files
unfolding entries_of file_weight
length_weight kind status [] = refl
length_weight kind status ((file, content) ∷ files) = elim (Bool-cases (is_read file)) [
  | inl b ↦ rw b (
      omega (
        arith,
        keep_weight kind status (entry_of file content) (entries_of files),
        length_weight kind status files,
      ))
  | inr b ↦ rw b (omega (arith, length_weight kind status files))
]

length-group_of :
    (library : Library) (kind status : Text) (files : Directory)
    → length (group_of library kind status files) ≡ sum_by (file_weight kind status) files
unfolding group_of read_teachings
length-group_of library kind status files =
    length-sort_by (taught_after library) _
    ∙ length_weight kind status (sort_by name_after files)
    ∙ sum_by-sort_by name_after (file_weight kind status) files

module _ (w : Text × Option Json → ℕ) where
  sum_put_new :
      (file : Text) (content : Option Json) (files : Directory)
      → lookup file files ≡ none
      → sum_by w (put file content files) ≡ sum_by w files + w (file, content)
  unfolding lookup put
  sum_put_new file content [] h = omega arith
  sum_put_new file content ((other, c) ∷ files) h = elim (Bool-cases (text_eq other file)) [
    | inl b ↦ cc (rw b at h)
    | inr b ↦ rw b (omega (arith, sum_put_new file content files (rw b at h)))
  ]

  sum_put_old :
      (file : Text) (content old : Option Json) (files : Directory)
      → lookup file files ≡ some old
      → sum_by w (put file content files) + w (file, old) ≡ sum_by w files + w (file, content)
  unfolding lookup put
  sum_put_old file content old [] h = cc
  sum_put_old file content old ((other, c) ∷ files) h = elim (Bool-cases (text_eq other file)) [
    | inl b ↦
        let e = (text_eq_iff other file).0 b in
        let same = some-injective (rw b at h) in
        rw b (
          omega
            (arith, ap (λ x. w (x, content)) e, ap (λ x. w (x, c)) e, ap (λ x. w (file, x)) same))
    | inr b ↦ rw b (omega (arith, sum_put_old file content old files (rw b at h)))
  ]

-- What a file weighs that a record is written to, under the record's own id.
written_weight :
    (kind status id : Text) (r : Fields)
    → is_read (file_name id) ≡ true
    → get (text "id") r ≡ some (str id)
    → file_weight kind status (file_name id, some (obj r)) ≡ (if is_of kind status r then 1 else 0)
unfolding file_weight entry_of entry_weight
written_weight kind status id r seen named =
    rw
      (
        seen,
        is_text_of (get (text "id") r) (stem_of (file_name id))
            (named ∙ ap (λ x. some (str x)) (sym (stem-file_name id))),
      )
      refl

counted_weight :
    (kind status id : Text) (r : Fields) (b : Bool)
    → is_read (file_name id) ≡ true
    → get (text "id") r ≡ some (str id)
    → is_of kind status r ≡ b
    → file_weight kind status (file_name id, some (obj r)) ≡ (if b then 1 else 0)
counted_weight kind status id r b seen named e =
    written_weight kind status id r seen named ∙ ap (λ x. if x then 1 else 0) e

-- A record added to the active instructions.
pub active_new :
    (library : Library) (id : Text) (r : Fields) (files : Directory)
    → IsFree files id
    → get (text "id") r ≡ some (str id)
    → is_of (text "instruction") (text "active") r ≡ true
    → length (active_of library (put (file_name id) (some (obj r)) files))
      ≡ suc (length (active_of library files))
unfolding active_of
active_new library id r files free named active = omega (
  arith,
  length-group_of library (text "instruction") (text "active") files,
  length-group_of library (text "instruction") (text "active")
      (put (file_name id) (some (obj r)) files),
  sum_put_new (file_weight (text "instruction") (text "active")) (file_name id) (some (obj r)) files
      free.free,
  counted_weight (text "instruction") (text "active") id r true free.seen named active,
)

-- A record written over one that was among them.
pub active_over :
    (library : Library) (held r : Fields) (files : Directory) (p : OnDisk files held)
    → get (text "id") r ≡ some (str p.id)
    → is_of (text "instruction") (text "active") held ≡ true
    → is_of (text "instruction") (text "active") r ≡ false
    → length (active_of library (put (file_name p.id) (some (obj r)) files)) + 1
      ≡ length (active_of library files)
unfolding active_of
active_over library held r files p named was is = omega (
  arith,
  length-group_of library (text "instruction") (text "active") files,
  length-group_of library (text "instruction") (text "active")
      (put (file_name p.id) (some (obj r)) files),
  sum_put_old (file_weight (text "instruction") (text "active")) (file_name p.id) (some (obj r))
      (some (obj held)) files p.there,
  counted_weight (text "instruction") (text "active") p.id r false p.seen named is,
  counted_weight (text "instruction") (text "active") p.id held true p.seen p.named was,
)
