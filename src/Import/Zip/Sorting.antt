-- ===== src/Import/Zip/Sorting.antt =====
-- The loop of `open`, over the whole directory.
use carbon_runtime.Common.{
  ◌≡◌, refl, sym, ap, ◌∙◌, Bool, true, false, ◌&&◌, List, [], ◌∷◌, ◌++◌, Option, none, some, arith,
  Text, text_eq, keep, map, lookup, if◌then◌else◌, lookup-put,
}
use mathlib.Core.List.{append_assoc, append-nil}
use carbon_runtime.Stream.Fault.{Fault, fault, name, zip_entry_outside_media}
use carbon_runtime.Stream.Paths.{text_key}
use carbon_runtime.Import.Zip.{ZipEntry}
use carbon_runtime.Import.Zip.Open.{
  EntryKind, messages, directory, media, entry_kind, Sorted, sort_entry, sort_entries,
}

-- The entries of a kind.
pub is_refused : Option EntryKind → Bool
is_refused none = true
is_refused (some k) = false

unfoldable pub is_messages : Option EntryKind → Bool
is_messages (some messages) = true
is_messages _ = false

unfoldable pub is_media : Option EntryKind → Bool
is_media (some media) = true
is_media _ = false

abbrev pub kind_of : ZipEntry → Option EntryKind
kind_of entry = entry_kind entry.entry_name

abbrev pub bad : List ZipEntry → List ZipEntry
bad all = keep (λ entry. is_refused (kind_of entry)) all

abbrev pub outside : ZipEntry → Fault
outside entry = fault zip_entry_outside_media (name entry.entry_name)

-- The last entry of a list that passes a test.
abbrev pub later : Option ZipEntry → Option ZipEntry → Option ZipEntry
later none o = o
later (some entry) o = some entry

unfoldable pub last_where : (ZipEntry → Bool) → List ZipEntry → Option ZipEntry
last_where test [] = none
last_where test (entry ∷ all) =
    later (last_where test all) (if test entry then some entry else none)

abbrev pub is_index : ZipEntry → Bool
is_index entry = is_messages (kind_of entry)

abbrev pub is_named : Text → ZipEntry → Bool
is_named media_name entry = text_eq entry.entry_name media_name && is_media (kind_of entry)

later_assoc : (a b c : Option ZipEntry) → later a (later b c) ≡ later (later a b) c
later_assoc none b c = refl
later_assoc (some a) b c = refl

pub later-none : (a : Option ZipEntry) → later a none ≡ a
later-none none = refl
later-none (some a) = refl

-- One turn of the loop.
refused_step :
    (s : Sorted) (entry : ZipEntry) (k : Option EntryKind)
    → (sort_entry s entry k).refused
      ≡ s.refused ++ (if is_refused k then outside entry ∷ [] else [])
unfolding sort_entry is_refused
refused_step s entry none = refl
refused_step s entry (some messages) = sym (append-nil s.refused)
refused_step s entry (some directory) = sym (append-nil s.refused)
refused_step s entry (some media) = sym (append-nil s.refused)

index_step :
    (s : Sorted) (entry : ZipEntry) (k : Option EntryKind)
    → (sort_entry s entry k).messages_at
      ≡ later (if is_messages k then some entry else none) s.messages_at
unfolding sort_entry is_messages
index_step s entry none = refl
index_step s entry (some messages) = refl
index_step s entry (some directory) = refl
index_step s entry (some media) = refl

media_step :
    (s : Sorted) (entry : ZipEntry) (k : Option EntryKind) (n : Text)
    → lookup n (sort_entry s entry k).media_at
      ≡ later
          (if text_eq entry.entry_name n && is_media k then some entry else none)
          (lookup n s.media_at)
unfolding sort_entry is_media
media_step s entry none n = ground arith
media_step s entry (some messages) n = ground arith
media_step s entry (some directory) n = ground arith
media_step s entry (some media) n = ground (arith, lookup-put entry.entry_name n entry s.media_at)

pub record IsSorted (s : Sorted) (all : List ZipEntry) (t : Sorted) : Type 0 where
  pub refused_lem : t.refused ≡ s.refused ++ map outside (bad all)
  pub index_lem : t.messages_at ≡ later (last_where is_index all) s.messages_at
  pub media_lem :
      (n : Text) → lookup n t.media_at ≡ later (last_where (is_named n) all) (lookup n s.media_at)

map-head :
    (b : Bool) (entry : ZipEntry) (rest : List ZipEntry)
    → map outside (if b then entry ∷ rest else rest)
      ≡ (if b then outside entry ∷ [] else []) ++ map outside rest
map-head true entry rest = refl
map-head false entry rest = refl

pub sort_entries-IsSorted : (s : Sorted) (all : List ZipEntry) → IsSorted s all (sort_entries s all)
unfolding sort_entries last_where
sort_entries-IsSorted s [] = record {
  refused_lem = sym (append-nil s.refused);
  index_lem = refl;
  media_lem = λ n. refl;
}
sort_entries-IsSorted s (entry ∷ all) =
    let k = kind_of entry in
    let ih = sort_entries-IsSorted (sort_entry s entry k) all in
    record {
      refused_lem =
          ih.refused_lem
          ∙ ap (λ fs. fs ++ map outside (bad all)) (refused_step s entry k)
          ∙ append_assoc s.refused (if is_refused k then outside entry ∷ [] else [])
              (map outside (bad all))
          ∙ ap (λ fs. s.refused ++ fs) (sym (map-head (is_refused k) entry (bad all)));
      index_lem =
          ih.index_lem
          ∙ ap (later (last_where is_index all)) (index_step s entry k)
          ∙ later_assoc (last_where is_index all) (if is_messages k then some entry else none)
              s.messages_at;
      media_lem = λ n.
          ih.media_lem n
          ∙ ap (later (last_where (is_named n) all)) (media_step s entry k n)
          ∙ later_assoc (last_where (is_named n) all)
              (if text_eq entry.entry_name n && is_media k then some entry else none)
              (lookup n s.media_at);
    }
