-- ===== src/Stream/Teachings/Listing.antt =====
-- stream/teachings.ts: what a reading of the directory gives, against the files that are there.
use carbon_runtime.Common.{
  ◌-◌, ◌≡◌, refl, sym, ap, subst, ◌∙◌, inl, inr, Bool, true, false, [], ◌∷◌, ◌++◌, Option, none,
  some, arith, Text, text, text_eq, text_eq_iff, text_eq_refl, if◌then◌else◌, Bool-cases, take,
  length, lookup, lookup-Has, Distinct, Has, Has-keep, keep-Has, Has-sort_by, sort_by-Has, sort_by,
  take-append-drop, take-append,
}
use carbon_runtime.Stream.Fault.{Fault}
use carbon_runtime.Stream.Json.{Json, obj, str, Fields, get, is_text}
use carbon_runtime.Stream.Paths.{text_key}
use carbon_runtime.Stream.Teachings.{
  Library, Directory, Entry, readable, unreadable, file_name, stem_of, ends_with, is_read, entry_of,
  entries_of, records_of, read_teachings, name_after, is_of, taught_after, group_of,
}

-- A record that is on disk under its own id.
pub record OnDisk (files : Directory) (r : Fields) : Type 0 where
  pub id : Text
  pub named : get (text "id") r ≡ some (str id)
  pub there : lookup (file_name id) files ≡ some (some (obj r))
  pub seen : is_read (file_name id) ≡ true

pub is_text_of : (v : Option Json) (t : Text) → v ≡ some (str t) → is_text v t ≡ true
unfolding is_text
is_text_of v t e = rw e (text_eq_refl t)

pub text_of_is : (v : Option Json) (t : Text) → is_text v t ≡ true → v ≡ some (str t)
unfolding is_text
text_of_is none t h = cc
text_of_is (some (str s)) t h = ap (λ x. some (str x)) ((text_eq_iff s t).0 h)
text_of_is (some Json.null) t h = cc
text_of_is (some (Json.boolean b)) t h = cc
text_of_is (some (Json.integer n)) t h = cc
text_of_is (some (Json.negative n)) t h = cc
text_of_is (some (Json.fraction n i)) t h = cc
text_of_is (some (Json.negative_fraction n)) t h = cc
text_of_is (some (Json.arr vs)) t h = cc
text_of_is (some (obj fs)) t h = cc

pub stem-file_name : (id : Text) → stem_of (file_name id) ≡ id
stem-file_name id = take-append id (text ".json")

ends_with_lem :
    (s suffix : Text) → ends_with s suffix ≡ true → take (length s - length suffix) s ++ suffix ≡ s
ends_with_lem s suffix h =
    ap (λ x. take (length s - length suffix) s ++ x) (sym ((text_eq_iff _ suffix).0 h))
    ∙ take-append-drop (length s - length suffix) s

file_name-stem : (file : Text) → is_read file ≡ true → file_name (stem_of file) ≡ file
unfolding is_read
file_name-stem file h = ends_with_lem file (text ".json") (ground (arith, h))

chosen_lem :
    (b : Bool) (fs r : Fields) (f : Fault)
    → (if b then readable fs else unreadable f) ≡ readable r
    → (b ≡ true) × (fs ≡ r)
chosen_lem true fs r f e = (refl, cc e)
chosen_lem false fs r f e = cc

-- An entry that is a record is that of its file.
readable_lem :
    (file : Text) (content : Option Json) (r : Fields)
    → entry_of file content ≡ readable r
    → (content ≡ some (obj r)) × (get (text "id") r ≡ some (str (stem_of file)))
unfolding entry_of
readable_lem file none r h = cc
readable_lem file (some (obj fs)) r h =
    let (named, same) = chosen_lem (is_text (get (text "id") fs) (stem_of file)) fs r _ h in
    (
      ap (λ x. some (obj x)) same,
      subst (λ x. get (text "id") x ≡ some (str (stem_of file))) same
          (text_of_is (get (text "id") fs) (stem_of file) named),
    )
readable_lem file (some v) r h = cc

-- A record that is read is that of a file of the directory.
record From (files : Directory) (r : Fields) : Type 0 where
  file : Text
  content : Option Json
  there : Has (file, content) files
  seen : is_read file ≡ true
  entry : entry_of file content ≡ readable r

From-cons :
    (e : Text × Option Json) (files : Directory) (r : Fields) → From files r → From (e ∷ files) r
From-cons e files r p = record {
  file = p.file;
  content = p.content;
  there = inr p.there;
  seen = p.seen;
  entry = p.entry;
}

entry-From :
    (file : Text) (content : Option Json) (files : Directory) (r : Fields) (e : Entry)
    → is_read file ≡ true
    → entry_of file content ≡ e
    → (Has r (records_of (entries_of files)) → From files r)
    → Has r (records_of (e ∷ entries_of files))
    → From ((file, content) ∷ files) r
entry-From file content files r (readable x) seen e f (inl same) = record {
  file = file;
  content = content;
  there = inl refl;
  seen = seen;
  entry = e ∙ ap readable same;
}
entry-From file content files r (readable x) seen e f (inr h) =
    From-cons (file, content) files r (f h)
entry-From file content files r (unreadable x) seen e f h = From-cons (file, content) files r (f h)

entries-From :
    (files : Directory) (r : Fields) → Has r (records_of (entries_of files)) → From files r
unfolding entries_of
entries-From [] r h = elim h [ ]
entries-From ((file, content) ∷ files) r h = elim (Bool-cases (is_read file)) [
  | inl b ↦
      entry-From file content files r (entry_of file content) b refl (entries-From files r)
        (rw b at h)
  | inr b ↦ From-cons (file, content) files r (entries-From files r (rw b at h))
]

From-entry :
    (file : Text) (content : Option Json) (files : Directory) (r : Fields)
    → Has (file, content) files
    → is_read file ≡ true
    → entry_of file content ≡ readable r
    → Has r (records_of (entries_of files))
unfolding entries_of
From-entry file content [] r h seen e = elim h [ ]
From-entry file content ((other, c) ∷ files) r (inl same) seen e =
    rw (ap (λ x. is_read (x.0)) same ∙ seen, ap (λ x. entry_of (x.0) (x.1)) same ∙ e) (inl refl)
From-entry file content ((other, c) ∷ files) r (inr h) seen e =
    skip (is_read other) (entry_of other c) (From-entry file content files r h seen e)
  where
    skip :
        (b : Bool) (x : Entry)
        → Has r (records_of (entries_of files))
        → Has r (records_of (if b then x ∷ entries_of files else entries_of files))
    skip true (readable y) p = inr p
    skip true (unreadable y) p = p
    skip false x p = p

-- What is in a directory where every name is there once, a lookup gives.
Has-lookup :
    (file : Text) (content : Option Json) (files : Directory)
    → Distinct files
    → Has (file, content) files
    → lookup file files ≡ some content
unfolding lookup
Has-lookup file content [] d h = elim h [ ]
Has-lookup file content ((other, c) ∷ files) d (inl same) =
    rw ((text_eq_iff other file).1 (ap (λ x. x.0) same)) (ap (λ x. some x.1) same)
Has-lookup file content ((other, c) ∷ files) d (inr h) = elim (Bool-cases (text_eq other file)) [
  | inl b ↦ cc (d.0, (text_eq_iff other file).0 b, Has-lookup file content files (d.1) h)
  | inr b ↦ rw b (Has-lookup file content files (d.1) h)
]

-- A record that is read is on disk under its id.
records-OnDisk :
    (files : Directory) (r : Fields)
    → Distinct files
    → Has r (read_teachings files).records
    → OnDisk files r
unfolding read_teachings
records-OnDisk files r d h =
    let p = entries-From (sort_by name_after files) r h in
    let (content, named) = readable_lem p.file p.content r p.entry in
    record {
      id = stem_of p.file;
      named = named;
      there =
          subst (λ x. lookup x files ≡ some (some (obj r))) (sym (file_name-stem p.file p.seen))
            (Has-lookup p.file p.content files d
                (Has-sort_by name_after (p.file, p.content) files p.there)
              ∙ ap some content);
      seen = subst (λ x. is_read x ≡ true) (sym (file_name-stem p.file p.seen)) p.seen;
    }

-- A record that is on disk under its id is read.
OnDisk-records :
    (files : Directory) (r : Fields) → OnDisk files r → Has r (read_teachings files).records
unfolding read_teachings entry_of
OnDisk-records files r p =
    From-entry (file_name p.id) (some (obj r)) (sort_by name_after files) r
      (sort_by-Has name_after (file_name p.id, some (obj r)) files
        (lookup-Has (file_name p.id) (some (obj r)) files p.there))
      p.seen
      (rw
        (is_text_of (get (text "id") r) (stem_of (file_name p.id))
          (p.named ∙ ap (λ x. some (str x)) (sym (stem-file_name p.id))))
        refl)

pub group-OnDisk :
    (library : Library) (kind status : Text) (files : Directory) (r : Fields)
    → Distinct files
    → Has r (group_of library kind status files)
    → OnDisk files r × (is_of kind status r ≡ true)
unfolding group_of
group-OnDisk library kind status files r d h =
    let (there, holds) =
      Has-keep (is_of kind status) r _ (Has-sort_by (taught_after library) r _ h) in
    (records-OnDisk files r d there, holds)

pub OnDisk-group :
    (library : Library) (kind status : Text) (files : Directory) (r : Fields)
    → OnDisk files r
    → is_of kind status r ≡ true
    → Has r (group_of library kind status files)
unfolding group_of
OnDisk-group library kind status files r p h =
    sort_by-Has (taught_after library) r _
      (keep-Has (is_of kind status) r _ (OnDisk-records files r p) h)
