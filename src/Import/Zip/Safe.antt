-- ===== src/Import/Zip/Safe.antt =====
-- What the opening of an export answers, and what its media may be.
use carbon_runtime.Common.{
  ◌≡◌, ◌≢◌, ℕ, ◌+◌, take, drop, refl, sym, ap, ◌∙◌, ◌⊎◌, inl, inr, Bool, true, false, ◌&&◌, List,
  [], ◌∷◌, Option, none, some, arith, Text, text_eq, text_eq_iff, map, lookup, if◌then◌else◌,
  Bool-cases, ==_iff, Option-cases, ◌==◌, subst, some-injective,
}
use carbon_runtime.Stream.Platform.{Node}
use carbon_runtime.Stream.Fault.{
  Fault, fault, name, Result, ok, err, broken, refuse_all, ok-injective, zip_messages_missing,
}
use carbon_runtime.Stream.Paths.{text_key}
use carbon_runtime.Import.Zip.{Buffer, read16, read32, local_mark, ZipEntry, entries}
use carbon_runtime.Import.Zip.Crc.{crc32}
use carbon_runtime.Import.Zip.Bounds.{bind-ok, guarded-ok}
use carbon_runtime.Import.Zip.Open.{
  EntryKind, messages, directory, media, messages_entry, entry_kind, Inflate, check_crc, unpack,
  raw_entry, located, read_some, read_entry, sort_entries, nothing_yet, Export, with_messages,
  export_of, open_export, read_media,
}
use carbon_runtime.Import.Zip.Sorting.{
  bad, outside, later, later-none, last_where, is_index, is_named, is_media, kind_of,
  sort_entries-IsSorted,
}

-- Which entries an opened export reads.
pub record IsIndexOf (all : List ZipEntry) (export : Export) : Type 0 where
  pub clean : bad all ≡ []
  pub index : last_where is_index all ≡ some export.messages_from
  pub named : (n : Text) → lookup n export.media_from ≡ last_where (is_named n) all

-- What an opening answers: the faults of all entries that are refused, that there are no
-- messages, or the export.
pub Opened : List ZipEntry → Result Export → Type 0
Opened all (ok export) = IsIndexOf all export
Opened all (err faults) =
    ((bad all ≢ []) × (faults ≡ map outside (bad all)))
    ⊎ ((bad all ≡ [])
        × (last_where is_index all ≡ none)
        × (faults ≡ fault zip_messages_missing (name messages_entry) ∷ []))
Opened all broken = ⊥

export_of-Opened :
    (all bads : List ZipEntry) (index : Option ZipEntry) (media_at : List (Text × ZipEntry))
    → bad all ≡ bads
    → last_where is_index all ≡ index
    → ((n : Text) → lookup n media_at ≡ last_where (is_named n) all)
    → Opened all (refuse_all (map outside bads) (with_messages media_at index))
unfolding Opened with_messages
export_of-Opened all [] none media_at b i m = inr (b, i, refl)
export_of-Opened all [] (some entry) media_at b i m = record { clean = b; index = i; named = m }
export_of-Opened all (first ∷ bads) index media_at b i m =
    inl (λ e. cc (b, e), ap (map outside) (sym b))

nothing_named : (n : Text) (o : Option ZipEntry) → later o (lookup n nothing_yet.media_at) ≡ o
unfolding lookup
nothing_named n o = later-none o

-- An archive whose directory is read either answers with a fault for each entry that is refused,
-- in their order; or, with none such, says that the messages are missing; or it is opened, the
-- messages are its last entry of that name, and a media file is the last that has its name.
pub open_export-Opened :
    (node : Node) (buffer : Buffer) (all : List ZipEntry)
    → entries node buffer ≡ ok all
    → Opened all (open_export node buffer)
unfolding open_export export_of
open_export-Opened node buffer all e =
    let sorted = sort_entries-IsSorted nothing_yet all in
    let t = sort_entries nothing_yet all in
    rw (e, sorted.refused_lem)
      (export_of-Opened all (bad all) t.messages_at t.media_at refl
        (sym (sorted.index_lem ∙ later-none (last_where is_index all)))
        (λ n. sorted.media_lem n ∙ nothing_named n (last_where (is_named n) all)))

-- The last entry under a test passes it.
last_where-test :
    (test : ZipEntry → Bool) (all : List ZipEntry) (entry : ZipEntry)
    → last_where test all ≡ some entry
    → test entry ≡ true
unfolding last_where
last_where-test test [] entry e = cc
last_where-test test (first ∷ all) entry e = elim (Option-cases (last_where test all)) [
  | inl h ↦
      only (test first) first entry refl
        (ap (λ o. later o (if test first then some first else none)) (sym h) ∙ e)
  | inr (other, h) ↦
      (let same =
          some-injective
            (ap (λ o. later o (if test first then some first else none)) (sym h) ∙ e) in
        subst (λ z. test z ≡ true) same (last_where-test test all other h))
]
  where
    only :
        (b : Bool) (first entry : ZipEntry)
        → test first ≡ b
        → (if b then some first else none) ≡ some entry
        → test entry ≡ true
    only true first entry t e = subst (λ z. test z ≡ true) (some-injective e) t
    only false first entry t e = cc

-- How the packed bytes of an entry give its bytes: as they are, or inflated.
abbrev IsUnpacked : Inflate → ZipEntry → Buffer → Buffer → Type 0
IsUnpacked inflate entry raw bytes =
    ((entry.method ≡ 0) × (bytes ≡ raw)) ⊎ ((entry.method ≡ 8) × (inflate raw ≡ ok bytes))

-- What is read of an entry. Behind the local header at the entry's place, which starts with its mark
-- and takes 30 bytes, its name and its extra field, stand the packed bytes, as many as the directory
-- says unless the buffer ends; they are stored or deflated, and the bytes have the checksum that
-- the archive states for them, where it states one.
pub record IsWhole (inflate : Inflate) (buffer : Buffer) (entry : ZipEntry) (bytes : Buffer)
    : Type 0 where
  pub name_length : ℕ
  pub extra_length : ℕ
  pub marked : read32 buffer entry.local_offset ≡ ok local_mark
  pub name_there : read16 buffer (entry.local_offset + 26) ≡ ok name_length
  pub extra_there : read16 buffer (entry.local_offset + 28) ≡ ok extra_length
  pub unpacked :
      IsUnpacked inflate entry
        (take entry.compressed_size
          (drop (entry.local_offset + 30 + name_length + extra_length) buffer))
        bytes
  pub checksum : (entry.crc ≡ 0) ⊎ (crc32 bytes ≡ entry.crc)

not_ok : {A : Type 0} {faults : List Fault} {a : A} → err faults ≡ ok a → ⊥
not_ok e = cc

-- The check gives the bytes that it got.
check_crc-checksum :
    (entry : ZipEntry) (found bytes : Buffer)
    → check_crc entry found ≡ ok bytes
    → (found ≡ bytes) × ((entry.crc ≡ 0) ⊎ (crc32 bytes ≡ entry.crc))
unfolding check_crc
check_crc-checksum entry found bytes e = elim (Bool-cases (entry.crc == 0)) [
  | inl h ↦ (ok-injective (rw h at e), inl ((==_iff entry.crc 0).0 h))
  | inr h ↦ elim (Bool-cases (crc32 found == entry.crc)) [
    | inl g ↦
        (let same = ok-injective (rw (h, g) at e) in
          (
            same,
            inr (subst (λ b. crc32 b ≡ entry.crc) same ((==_iff (crc32 found) entry.crc).0 g)),
          ))
    | inr g ↦ elim (not_ok (rw (h, g) at e)) [ ]
  ]
]

unpack-IsUnpacked :
    (inflate : Inflate) (entry : ZipEntry) (raw bytes : Buffer)
    → unpack inflate entry raw ≡ ok bytes
    → IsUnpacked inflate entry raw bytes
unfolding unpack
unpack-IsUnpacked inflate entry raw bytes e = elim (Bool-cases (entry.method == 0)) [
  | inl h ↦ inl ((==_iff entry.method 0).0 h, sym (ok-injective (rw h at e)))
  | inr h ↦ elim (Bool-cases (entry.method == 8)) [
    | inl g ↦ inr ((==_iff entry.method 8).0 g, rw (h, g) at e)
    | inr g ↦ elim (not_ok (rw (h, g) at e)) [ ]
  ]
]

-- The packed bytes, where they are read, stand behind the local header.
record IsLocated (buffer : Buffer) (entry : ZipEntry) (mark : ℕ) (raw : Buffer) : Type 0 where
  name_length : ℕ
  extra_length : ℕ
  marked : mark ≡ local_mark
  name_there : read16 buffer (entry.local_offset + 26) ≡ ok name_length
  extra_there : read16 buffer (entry.local_offset + 28) ≡ ok extra_length
  behind :
      take entry.compressed_size
        (drop (entry.local_offset + 30 + name_length + extra_length) buffer)
      ≡ raw

located-IsLocated :
    (buffer : Buffer) (entry : ZipEntry) (mark : ℕ) (raw : Buffer)
    → located buffer entry mark ≡ ok raw
    → IsLocated buffer entry mark raw
unfolding located raw_entry
located-IsLocated buffer entry mark raw e =
    let (there, read) = guarded-ok (mark == local_mark) _ _ raw e in
    let (n, e1, f1) = bind-ok (read16 buffer (entry.local_offset + 26)) _ raw read in
    let (x, e2, f2) = bind-ok (read16 buffer (entry.local_offset + 28)) _ raw f1 in
    record {
      name_length = n;
      extra_length = x;
      marked = (==_iff mark local_mark).0 there;
      name_there = e1;
      extra_there = e2;
      behind = ok-injective f2;
    }

read_entry-IsWhole :
    (inflate : Inflate) (buffer : Buffer) (entry : ZipEntry) (bytes : Buffer)
    → read_entry inflate buffer entry ≡ ok bytes
    → IsWhole inflate buffer entry bytes
unfolding read_entry
read_entry-IsWhole inflate buffer entry bytes e =
    let (mark, e1, f1) = bind-ok (read32 buffer entry.local_offset) _ bytes e in
    let (raw, e2, f2) = bind-ok (located buffer entry mark) _ bytes f1 in
    let (found, e3, f3) = bind-ok (unpack inflate entry raw) _ bytes f2 in
    let at = located-IsLocated buffer entry mark raw e2 in
    let (same, sum) = check_crc-checksum entry found bytes f3 in
    record {
      name_length = at.name_length;
      extra_length = at.extra_length;
      marked = e1 ∙ ap ok at.marked;
      name_there = at.name_there;
      extra_there = at.extra_there;
      unpacked =
          subst (λ r. IsUnpacked inflate entry r bytes) (sym at.behind)
            (subst (IsUnpacked inflate entry raw) same
              (unpack-IsUnpacked inflate entry raw found e3));
      checksum = sum;
    }

read_some-found :
    (inflate : Inflate) (buffer : Buffer) (o : Option ZipEntry) (bytes : Buffer)
    → read_some inflate buffer o ≡ ok (some bytes)
    → (entry : ZipEntry) × (o ≡ some entry) × IsWhole inflate buffer entry bytes
unfolding read_some
read_some-found inflate buffer none bytes e = cc
read_some-found inflate buffer (some entry) bytes e =
    let (found, e1, f1) = bind-ok (read_entry inflate buffer entry) _ (some bytes) e in
    (
      entry,
      refl,
      read_entry-IsWhole inflate buffer entry bytes (e1 ∙ ap ok (some-injective (ok-injective f1))),
    )

Opened-IsIndexOf :
    (all : List ZipEntry) (r : Result Export) (export : Export)
    → r ≡ ok export
    → Opened all r
    → IsIndexOf all export
unfolding Opened
Opened-IsIndexOf all (ok found) export e h = subst (IsIndexOf all) (ok-injective e) h
Opened-IsIndexOf all (err faults) export e h = cc
Opened-IsIndexOf all broken export e h = cc

named_media :
    (s n : Text) (k : Option EntryKind)
    → (text_eq s n && is_media k) ≡ true
    → (s ≡ n) × (k ≡ some media)
unfolding is_media
named_media s n none h = ground (arith, text_eq_iff s n)
named_media s n (some messages) h = ground (arith, text_eq_iff s n)
named_media s n (some directory) h = ground (arith, text_eq_iff s n)
named_media s n (some media) h = ground (arith, text_eq_iff s n)

-- The bytes of the last entry of a media file's name.
abbrev pub IsMediaOf : Inflate → Buffer → List ZipEntry → Text → Buffer → Type 0
IsMediaOf inflate buffer all n bytes =
    (entry : ZipEntry) × (last_where (is_named n) all ≡ some entry)
    × (entry.entry_name ≡ n)
    × (entry_kind n ≡ some media)
    × IsWhole inflate buffer entry bytes

-- Where an export was opened, the bytes that it gives for a media name are those of the archive's
-- last entry of exactly that name, and the name is one of a media file: as many bytes of the buffer
-- as the entry says, unless the buffer ends, behind the 30 bytes, the name and the extra field of
-- the local header at the entry's place, stored, or deflated and inflated, with the entry's checksum,
-- where it states one.
pub read_media-IsMediaOf :
    (node : Node) (inflate : Inflate) (buffer : Buffer) (all : List ZipEntry) (export : Export)
    (n : Text) (bytes : Buffer)
    → entries node buffer ≡ ok all
    → open_export node buffer ≡ ok export
    → read_media inflate buffer export n ≡ ok (some bytes)
    → IsMediaOf inflate buffer all n bytes
unfolding read_media
read_media-IsMediaOf node inflate buffer all export n bytes e o r =
    let indexed =
      Opened-IsIndexOf all (open_export node buffer) export o
        (open_export-Opened node buffer all e) in
    let (entry, found, whole) =
      read_some-found inflate buffer (lookup n export.media_from) bytes r in
    let last = sym (indexed.named n) ∙ found in
    let named = last_where-test (is_named n) all entry last in
    let (same, kind) = named_media entry.entry_name n (kind_of entry) named in
    (entry, last, same, subst (λ s. entry_kind s ≡ some media) same kind, whole)
