-- ===== src/Import/Zip.antt =====
-- import/zip.ts: the reader of a zip. A buffer is the list of its bytes, and a read outside it is the
-- error that Node throws. `zlib.inflateRawSync` is a parameter. A 64-bit field is read exactly, where
-- the source rounds it above 2 ^ 53: no buffer is that long.
pub mod Crc
pub mod Open
pub mod Bounds
pub mod Words
pub mod Register
pub mod Checksum
pub mod Detects
pub mod Bursts
pub mod Sorting
pub mod Safe
mod Tests
pub mod Names
use carbon_runtime.Common.{
  ℕ, zero, suc, ◌+◌, ◌-◌, ◌*◌, Bool, true, false, not, ◌&&◌, ◌||◌, List, [], ◌∷◌, ◌++◌, Option,
  none, some, Text, text, if◌then◌else◌, ltb, leb, ◌==◌, take, drop, length,
}
use carbon_runtime.Stream.Platform.{Node}
use carbon_runtime.Stream.Fault.{
  Fault, fault, name, item, root, Subject, Result, ok, err, broken, zip_unreadable,
}

abbrev pub Buffer : Type 0
Buffer = List ℕ

-- `m` gives the value that `f` goes on with.
infixl 5 ◌>>=◌
abbrev pub ◌>>=◌ : {A B : Type 0} → Result A → (A → Result B) → Result B
ok a >>= f = f a
err faults >>= f = err faults
broken >>= f = broken

abbrev first_byte : Buffer → Result ℕ
first_byte [] = broken
first_byte (b ∷ bytes) = ok b

-- `buffer[at]`, of a read that Node checks.
unfoldable pub read8 : Buffer → ℕ → Result ℕ
read8 buffer at = first_byte (drop at buffer)

-- readUInt16LE, readUInt32LE, and readBigUInt64LE as a number.
unfoldable pub read16 : Buffer → ℕ → Result ℕ
unfolding read8
read16 buffer at = do low ← read8 buffer at; high ← read8 buffer (at + 1); ok (low + 256 * high)

unfoldable pub read32 : Buffer → ℕ → Result ℕ
unfolding read16
read32 buffer at = do low ← read16 buffer at; high ← read16 buffer (at + 2); ok (low + 65536 * high)

unfoldable pub read64 : Buffer → ℕ → Result ℕ
unfolding read32
read64 buffer at = do
  low ← read32 buffer at
  high ← read32 buffer (at + 4)
  ok (low + 4294967296 * high)

-- `buffer.subarray(start, end)`, which stops at the buffer's end.
abbrev pub slice : Buffer → ℕ → ℕ → Buffer
slice buffer start size = take size (drop start buffer)

abbrev pub eocd_mark : ℕ
eocd_mark = 0x06054b50

abbrev pub eocd64_mark : ℕ
eocd64_mark = 0x06064b50

abbrev pub locator_mark : ℕ
locator_mark = 0x07064b50

abbrev pub central_mark : ℕ
central_mark = 0x02014b50

abbrev pub local_mark : ℕ
local_mark = 0x04034b50

-- The loop of `findEndOfCentralDirectory`, with the places left and the present one.
unfoldable pub find_from : Buffer → ℕ → ℕ → Result (Option ℕ)
unfolding read32
find_from buffer zero at = ok none
find_from buffer (suc left) at = do
  mark ← read32 buffer at
  let rest = find_from buffer left (at - 1)
  if mark == eocd_mark then ok (some at) else rest

-- From the last place that an end record fits, back over 66,000 bytes of the file.
unfoldable pub find_end : Buffer → Result (Option ℕ)
unfolding find_from
find_end buffer =
    if ltb (length buffer) 22
    then ok none
    else find_from buffer (suc (length buffer - 22 - (length buffer - 66000))) (length buffer - 22)

pub record DirectoryAt : Type 0 where
  pub count : ℕ
  pub offset : ℕ

abbrev pub unreadable : {A : Type 0} → Result A
unreadable = err (fault zip_unreadable (name (text "the export")) ∷ [])

-- Where the sixteen-bit fields are outgrown, the 64-bit record that the locator points at.
unfoldable pub directory64 : Buffer → ℕ → Result DirectoryAt
unfolding read32 read64
directory64 buffer eocd = if ltb eocd 20 then unreadable else (do
  mark ← read32 buffer (eocd - 20)
  at ← (if mark == locator_mark then read64 buffer (eocd - 12) else unreadable)
  there ← read32 buffer at
  let read = do
    count ← read64 buffer (at + 32)
    offset ← read64 buffer (at + 48)
    ok (record { count = count; offset = offset })
  if there == eocd64_mark then read else unreadable)

abbrev directory_from : Buffer → Option ℕ → Result DirectoryAt
directory_from buffer none = unreadable
directory_from buffer (some eocd) = do
  count ← read16 buffer (eocd + 10)
  offset ← read32 buffer (eocd + 16)
  if count == 0xffff || offset == 0xffffffff
      then directory64 buffer eocd
      else ok (record { count = count; offset = offset })

unfoldable pub directory_of : Buffer → Result DirectoryAt
unfolding find_end directory64
directory_of buffer = find_end buffer >>= directory_from buffer

pub record ZipEntry : Type 0 where
  pub entry_name : Text
  pub method : ℕ
  pub crc : ℕ
  pub compressed_size : ℕ
  pub size : ℕ
  pub local_offset : ℕ

-- One entry of the directory, and the place of the next.
unfoldable pub read_central : Node → Buffer → ℕ → Result (ZipEntry × ℕ)
unfolding read16 read32
read_central node buffer at = do
  name_length ← read16 buffer (at + 28)
  extra_length ← read16 buffer (at + 30)
  comment_length ← read16 buffer (at + 32)
  method ← read16 buffer (at + 10)
  crc ← read32 buffer (at + 16)
  compressed_size ← read32 buffer (at + 20)
  size ← read32 buffer (at + 24)
  local_offset ← read32 buffer (at + 42)
  ok (
    record {
      entry_name = node.from_utf8 (slice buffer (at + 46) name_length);
      method = method;
      crc = crc;
      compressed_size = compressed_size;
      size = size;
      local_offset = local_offset;
    },
    at + 46 + name_length + extra_length + comment_length,
  )

-- The loop of `entries`: the entries left, the number of the present one, and its place.
unfoldable pub entries_from : Node → Buffer → ℕ → ℕ → ℕ → Result (List ZipEntry)
unfolding read_central
entries_from node buffer zero i at = ok []
entries_from node buffer (suc left) i at = do
  mark ← read32 buffer at
  (entry, next) ←
      (if mark == central_mark
        then read_central node buffer at
        else err (fault zip_unreadable (item root (i + 1)) ∷ []))
  found ← entries_from node buffer left (i + 1) next
  ok (entry ∷ found)

unfoldable pub entries : Node → Buffer → Result (List ZipEntry)
unfolding directory_of entries_from
entries node buffer = do at ← directory_of buffer; entries_from node buffer at.count 0 at.offset
