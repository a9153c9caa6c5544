-- ===== src/Import/Zip/Open.antt =====
-- import/zip.ts: which entries are read, how one is read, and the opening of an export.
use carbon_runtime.Common.{
  ℕ, ◌+◌, Bool, false, not, ◌&&◌, ◌||◌, List, [], ◌∷◌, ◌++◌, Option, none, some, Text, text,
  text_eq, starts_with, has_unit, if◌then◌else◌, ltb, leb, ◌==◌, length, any, lookup, put,
}
use carbon_runtime.Stream.Platform.{Node}
use carbon_runtime.Stream.Fault.{
  Fault, fault, name, Result, ok, err, refuse_all, zip_unreadable, zip_method_unsupported,
  zip_entry_corrupt, zip_entry_outside_media, zip_messages_missing,
}
use carbon_runtime.Stream.Paths.{split_slash, text_key}
use carbon_runtime.Import.Zip.{Buffer, read16, read32, slice, local_mark, ZipEntry, entries, ◌>>=◌}
use carbon_runtime.Import.Zip.Crc.{crc32}

pub data EntryKind : Type 0 where
  messages directory media : EntryKind

abbrev pub messages_entry : Text
messages_entry = text "messages.json"

abbrev pub media_prefix : Text
media_prefix = text "media/"

is_letter : ℕ → Bool
is_letter c = leb 0x41 c && leb c 0x5a || leb 0x61 c && leb c 0x7a

-- /^[A-Za-z]:/.
unfoldable pub has_drive : Text → Bool
unfolding is_letter
has_drive (c ∷ d ∷ s) = is_letter c && d == b':'
has_drive _ = false

unfoldable pub is_control : ℕ → Bool
is_control c = ltb c 0x20 || c == 0x7f

unfoldable pub is_dots : Text → Bool
is_dots part = text_eq part (text ".") || text_eq part (text "..")

unfoldable pub ends_slash : Text → Bool
ends_slash [] = false
ends_slash (c ∷ []) = c == b'/'
ends_slash (c ∷ d ∷ s) = ends_slash (d ∷ s)

unfoldable pub entry_kind : Text → Option EntryKind
unfolding has_drive is_control is_dots
entry_kind [] = none
entry_kind (c ∷ s) =
    let entry : Text = c ∷ s in
    if has_unit 0x5c entry
    then none
    else if starts_with entry (text "/")
    then none
    else if has_drive entry
    then none
    else if any is_control entry
    then none
    else if any is_dots (split_slash entry)
    then none
    else if text_eq entry messages_entry
    then some messages
    else if text_eq entry media_prefix
    then some directory
    else if ends_slash entry
    then none
    else if starts_with entry media_prefix && ltb (length media_prefix) (length entry)
    then some media
    else none

-- `zlib.inflateRawSync`, which may throw.
abbrev pub Inflate : Type 0
Inflate = Buffer → Result Buffer

-- The bytes of an entry by its method: stored or deflated.
unfoldable pub unpack : Inflate → ZipEntry → Buffer → Result Buffer
unpack inflate entry raw =
    if entry.method == 0
    then ok raw
    else if entry.method == 8
    then inflate raw
    else err (fault zip_method_unsupported (name entry.entry_name) ∷ [])

unfoldable pub check_crc : ZipEntry → Buffer → Result Buffer
check_crc entry bytes =
    if not (entry.crc == 0) && not (crc32 bytes == entry.crc)
    then err (fault zip_entry_corrupt (name entry.entry_name) ∷ [])
    else ok bytes

unfoldable pub raw_entry : Buffer → ZipEntry → Result Buffer
unfolding read16
raw_entry buffer entry = do
  name_length ← read16 buffer (entry.local_offset + 26)
  extra_length ← read16 buffer (entry.local_offset + 28)
  ok (slice buffer (entry.local_offset + 30 + name_length + extra_length) entry.compressed_size)

-- The packed bytes behind a local header, which starts with its mark.
unfoldable pub located : Buffer → ZipEntry → ℕ → Result Buffer
unfolding raw_entry
located buffer entry mark =
    if mark == local_mark
    then raw_entry buffer entry
    else err (fault zip_unreadable (name entry.entry_name) ∷ [])

unfoldable pub read_entry : Inflate → Buffer → ZipEntry → Result Buffer
unfolding read32 located unpack check_crc
read_entry inflate buffer entry = do
  mark ← read32 buffer entry.local_offset
  raw ← located buffer entry mark
  bytes ← unpack inflate entry raw
  check_crc entry bytes

-- What the loop of `open` has gathered.
pub record Sorted : Type 0 where
  pub refused : List Fault
  pub messages_at : Option ZipEntry
  pub media_at : List (Text × ZipEntry)

unfoldable pub sort_entry : Sorted → ZipEntry → Option EntryKind → Sorted
unfolding put
sort_entry s entry none = record {
  refused = s.refused ++ fault zip_entry_outside_media (name entry.entry_name) ∷ [];
  messages_at = s.messages_at;
  media_at = s.media_at;
}
sort_entry s entry (some messages) = record {
  refused = s.refused;
  messages_at = some entry;
  media_at = s.media_at;
}
sort_entry s entry (some directory) = s
sort_entry s entry (some media) = record {
  refused = s.refused;
  messages_at = s.messages_at;
  media_at = put entry.entry_name entry s.media_at;
}

unfoldable pub sort_entries : Sorted → List ZipEntry → Sorted
unfolding sort_entry entry_kind
sort_entries s [] = s
sort_entries s (entry ∷ all) = sort_entries (sort_entry s entry (entry_kind entry.entry_name)) all

abbrev pub nothing_yet : Sorted
nothing_yet = record { refused = []; messages_at = none; media_at = [] }

-- An opened export: where its messages and its media stand.
pub record Export : Type 0 where
  pub messages_from : ZipEntry
  pub media_from : List (Text × ZipEntry)

unfoldable pub with_messages : List (Text × ZipEntry) → Option ZipEntry → Result Export
with_messages media_at none = err (fault zip_messages_missing (name messages_entry) ∷ [])
with_messages media_at (some entry) = ok (record { messages_from = entry; media_from = media_at })

unfoldable pub export_of : Sorted → Result Export
unfolding with_messages
export_of s = refuse_all s.refused (with_messages s.media_at s.messages_at)

unfoldable pub open_export : Node → Buffer → Result Export
unfolding entries sort_entries export_of
open_export node buffer = do all ← entries node buffer; export_of (sort_entries nothing_yet all)

-- The closures of an opened export, less the `JSON.parse` of the messages.
unfoldable pub messages_text : Node → Inflate → Buffer → Export → Result Text
unfolding read_entry
messages_text node inflate buffer export = do
  bytes ← read_entry inflate buffer export.messages_from
  ok (node.from_utf8 bytes)

unfoldable pub read_some : Inflate → Buffer → Option ZipEntry → Result (Option Buffer)
unfolding read_entry
read_some inflate buffer none = ok none
read_some inflate buffer (some entry) = do bytes ← read_entry inflate buffer entry; ok (some bytes)

unfoldable pub read_media : Inflate → Buffer → Export → Text → Result (Option Buffer)
unfolding read_some lookup
read_media inflate buffer export media_name =
    read_some inflate buffer (lookup media_name export.media_from)
