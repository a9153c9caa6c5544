-- ===== src/Import/Zip/Tests.antt =====
-- Runs of the zip reader on small archives, and each theorem at one of them.
use carbon_runtime.Common.{
  map, none, drop, sym, ◌≡◌, ◌≢◌, text_eq_iff, refl, List, [], ◌∷◌, some, text, arith, text_eq,
  starts_with, has_unit, lookup, put, text_eq_iff,
}
use carbon_runtime.Stream.Fault.{
  ok, err, fault, name, zip_entry_corrupt, zip_unreadable, item, root,
}
use carbon_runtime.Stream.Paths.{split_slash, resolve}
use carbon_runtime.Stream.Samples.{ascii}
use carbon_runtime.Import.Zip.{
  Buffer, ZipEntry, entries, directory_of, find_end, find_from, read_central, entries_from, read8,
  read16, read32,
}
use carbon_runtime.Import.Zip.Crc.{
  crc32, crc_from, crc_byte, xor, zeros, bits_of, value_of, polynomial, crc_bit, crc_bits, table_at,
}
use carbon_runtime.Import.Zip.Open.{
  entry_kind, media, has_drive, is_control, is_dots, ends_slash, check_crc, unpack, raw_entry,
  located, read_entry, sort_entry, sort_entries, with_messages, export_of, open_export, Export,
  Inflate, read_some, read_media,
}
use carbon_runtime.Import.Zip.Bounds.{HasRoom, entries-HasRoom}
use carbon_runtime.Import.Zip.Checksum.{plain_crc, crc32-plain_crc}
use carbon_runtime.Import.Zip.Bursts.{check_crc-corrupt}
use carbon_runtime.Import.Zip.Names.{IsBelow, resolve-IsBelow}
use carbon_runtime.Import.Zip.Safe.{Opened, open_export-Opened, IsMediaOf, read_media-IsMediaOf}

-- messages.json with two bytes, and media/a with the bytes of "hi", both stored.
abbrev archive : Buffer
archive =
    80 ∷ 75 ∷ 3 ∷ 4 ∷ 20 ∷ 0 ∷ 0 ∷ 0 ∷ 0 ∷ 0 ∷ 0 ∷ 0 ∷ 0 ∷ 0 ∷ 41 ∷ 187 ∷ 76 ∷ 13 ∷ 2 ∷ 0 ∷ 0 ∷ 0
    ∷ 2 ∷ 0 ∷ 0 ∷ 0 ∷ 13 ∷ 0 ∷ 0 ∷ 0 ∷ 109 ∷ 101 ∷ 115 ∷ 115 ∷ 97 ∷ 103 ∷ 101 ∷ 115 ∷ 46 ∷ 106 ∷ 115
    ∷ 111 ∷ 110 ∷ 91 ∷ 93 ∷ 80 ∷ 75 ∷ 3 ∷ 4 ∷ 20 ∷ 0 ∷ 0 ∷ 0 ∷ 0 ∷ 0 ∷ 0 ∷ 0 ∷ 0 ∷ 0 ∷ 172 ∷ 42
    ∷ 147 ∷ 216 ∷ 2 ∷ 0 ∷ 0 ∷ 0 ∷ 2 ∷ 0 ∷ 0 ∷ 0 ∷ 7 ∷ 0 ∷ 0 ∷ 0 ∷ 109 ∷ 101 ∷ 100 ∷ 105 ∷ 97 ∷ 47
    ∷ 97 ∷ 104 ∷ 105 ∷ 80 ∷ 75 ∷ 1 ∷ 2 ∷ 20 ∷ 0 ∷ 20 ∷ 0 ∷ 0 ∷ 0 ∷ 0 ∷ 0 ∷ 0 ∷ 0 ∷ 0 ∷ 0 ∷ 41 ∷ 187
    ∷ 76 ∷ 13 ∷ 2 ∷ 0 ∷ 0 ∷ 0 ∷ 2 ∷ 0 ∷ 0 ∷ 0 ∷ 13 ∷ 0 ∷ 0 ∷ 0 ∷ 0 ∷ 0 ∷ 0 ∷ 0 ∷ 0 ∷ 0 ∷ 0 ∷ 0 ∷ 0
    ∷ 0 ∷ 0 ∷ 0 ∷ 0 ∷ 0 ∷ 109 ∷ 101 ∷ 115 ∷ 115 ∷ 97 ∷ 103 ∷ 101 ∷ 115 ∷ 46 ∷ 106 ∷ 115 ∷ 111 ∷ 110
    ∷ 80 ∷ 75 ∷ 1 ∷ 2 ∷ 20 ∷ 0 ∷ 20 ∷ 0 ∷ 0 ∷ 0 ∷ 0 ∷ 0 ∷ 0 ∷ 0 ∷ 0 ∷ 0 ∷ 172 ∷ 42 ∷ 147 ∷ 216 ∷ 2
    ∷ 0 ∷ 0 ∷ 0 ∷ 2 ∷ 0 ∷ 0 ∷ 0 ∷ 7 ∷ 0 ∷ 0 ∷ 0 ∷ 0 ∷ 0 ∷ 0 ∷ 0 ∷ 0 ∷ 0 ∷ 0 ∷ 0 ∷ 0 ∷ 0 ∷ 45 ∷ 0 ∷ 0
    ∷ 0 ∷ 109 ∷ 101 ∷ 100 ∷ 105 ∷ 97 ∷ 47 ∷ 97 ∷ 80 ∷ 75 ∷ 5 ∷ 6 ∷ 0 ∷ 0 ∷ 0 ∷ 0 ∷ 2 ∷ 0 ∷ 2 ∷ 0
    ∷ 112 ∷ 0 ∷ 0 ∷ 0 ∷ 84 ∷ 0 ∷ 0 ∷ 0 ∷ 0 ∷ 0 ∷ []

abbrev index_entry : ZipEntry
index_entry = record {
  entry_name = text "messages.json";
  method = 0;
  crc = 223132457;
  compressed_size = 2;
  size = 2;
  local_offset = 0;
}

abbrev media_entry : ZipEntry
media_entry = record {
  entry_name = text "media/a";
  method = 0;
  crc = 3633523372;
  compressed_size = 2;
  size = 2;
  local_offset = 45;
}

abbrev listing : List ZipEntry
listing = index_entry ∷ media_entry ∷ []

listing_test : entries ascii archive ≡ ok listing
unfolding entries directory_of find_end find_from entries_from read_central read8 read16 read32
listing_test = refl

crc32_test : crc32 (text "hi") ≡ 3633523372
unfolding crc32 crc_from crc_byte xor zeros bits_of value_of polynomial crc_bit crc_bits table_at
crc32_test = refl

abbrev export : Export
export = record { messages_from = index_entry; media_from = (text "media/a", media_entry) ∷ [] }

open_export_test : open_export ascii archive ≡ ok export
unfolding open_export export_of with_messages sort_entries sort_entry entry_kind has_drive
    is_control is_dots ends_slash split_slash has_unit starts_with text_eq put
open_export_test = refl

abbrev stored : Inflate
stored = λ bytes. ok bytes

read_media_test : read_media stored archive export (text "media/a") ≡ ok (some (text "hi"))
unfolding read_media read_some lookup read_entry located raw_entry unpack check_crc read8 read16
    read32 text_eq crc32 crc_from crc_byte xor zeros bits_of value_of polynomial crc_bit crc_bits
    table_at
read_media_test = refl

missing_test : read_media stored archive export (text "media/b") ≡ ok none
unfolding read_media read_some lookup text_eq
missing_test = refl

-- Names that are refused, whatever stands in the archive under them.
refused_test :
    map entry_kind
      (text "media/../a" ∷ text "/media/a" ∷ text "C:media" ∷ text "media/b/" ∷ text "a" ∷ [])
    ≡ none ∷ none ∷ none ∷ none ∷ none ∷ []
unfolding entry_kind has_drive is_control is_dots ends_slash split_slash has_unit starts_with
    text_eq
refused_test = refl

accepted : entry_kind (text "media/a") ≡ some media
unfolding entry_kind has_drive is_control is_dots ends_slash split_slash has_unit starts_with
    text_eq
accepted = refl

-- The example of a truncated archive: the first byte of its end record is gone.
truncated_test : entries ascii (drop 1 archive) ≡ err (fault zip_unreadable (item root 1) ∷ [])
unfolding entries directory_of find_end find_from entries_from read_central read8 read16 read32
truncated_test = refl

entries-HasRoom_example : HasRoom archive listing
entries-HasRoom_example = entries-HasRoom ascii archive listing listing_test

open_export-Opened_example : Opened listing (open_export ascii archive)
open_export-Opened_example = open_export-Opened ascii archive listing listing_test

read_media-IsMediaOf_example : IsMediaOf stored archive listing (text "media/a") (text "hi")
read_media-IsMediaOf_example =
    read_media-IsMediaOf ascii stored archive listing export (text "media/a") (text "hi")
      listing_test open_export_test read_media_test

resolve-IsBelow_example : IsBelow (text "s" ∷ []) (resolve (text "s" ∷ []) (text "media/a" ∷ []))
resolve-IsBelow_example = resolve-IsBelow (text "s" ∷ []) (text "media/a") media accepted

crc32-plain_crc_example : crc32 (text "hi") ≡ plain_crc (text "hi")
crc32-plain_crc_example = crc32-plain_crc (text "hi") (omega arith)

letters_apart : text "i" ≢ text "o"
unfolding text_eq
letters_apart e = cc ((text_eq_iff (text "i") (text "o")).1 e)

-- "hi" that became "ho" on the way.
check_crc-corrupt_example :
    check_crc media_entry (text "ho") ≡ err (fault zip_entry_corrupt (name (text "media/a")) ∷ [])
check_crc-corrupt_example =
    check_crc-corrupt media_entry (text "h") (text "i") (text "o") [] (omega arith) (omega arith)
      (omega arith) tt refl (omega arith) letters_apart (sym crc32_test) (omega arith)
