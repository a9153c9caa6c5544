-- ===== src/Stream/Teachings.antt =====
-- stream/teachings.ts: what a client taught the agent. A record is the JSON object that its file
-- holds, with every field that it has, known or not; a file is read back as it was written. The
-- directory is the list of its files by name. The schema, `toISOString`, `localeCompare` and `String`
-- of what is no string are parameters.
pub mod Write
pub mod Learn
pub mod Listing
pub mod Order
pub mod Parts
pub mod Keeps
pub mod Counts
pub mod Outcome
pub mod Teacher
pub mod Added
pub mod Remembers
pub mod Twice
pub mod Forgets
pub mod Tests
pub mod Fresh
use carbon_runtime.Common.{
  ℕ, Bool, true, false, not, ◌&&◌, ◌||◌, List, [], ◌∷◌, ◌++◌, Option, none, some, or_else, Text,
  text, text_eq, text_lt, starts_with, keep, if◌then◌else◌, sort_by, take, drop, length, ◌-◌,
}
use carbon_runtime.Stream.Platform.{Node}
use carbon_runtime.Stream.Fault.{
  Fault, fault, name, Result, ok, err, broken, teaching_unreadable, teaching_misplaced,
}
use carbon_runtime.Stream.Json.{Json, obj, str, Fields, get, is_text}
use carbon_runtime.Stream.Validate.{Schema}

-- What the library takes from outside.
pub record Library : Type 0 where
  pub node : Node
  -- carbon.teaching.v1.json.
  pub teaching_schema : Schema
  -- new Date(milliseconds).toISOString().
  pub iso : ℕ → Text
  -- one.localeCompare(other): whether it is above 0, and whether it is 0.
  pub locale_after : Text → Text → Bool
  pub locale_same : Text → Text → Bool
  -- String(value) of a value that is no string; `none` is undefined.
  pub string_of : Option Json → Text

-- The directory `teachings/`: a file by its name, with what parses. `none` does not parse.
abbrev pub Directory : Type 0
Directory = List (Text × Option Json)

-- `${id}.json`.
abbrev pub file_name : Text → Text
file_name id = id ++ text ".json"

abbrev pub ends_with : Text → Text → Bool
ends_with s suffix = text_eq (drop (length s - length suffix) s) suffix

-- The name that stands before `.json`.
abbrev pub stem_of : Text → Text
stem_of file = take (length file - 5) file

-- The files that are read, of those in the directory.
unfoldable pub is_read : Text → Bool
is_read file = ends_with file (text ".json") && not (starts_with file (text "."))

-- What a file is to the reader: a record, or a fault that names it.
pub data Entry : Type 0 where
  readable : Fields → Entry
  unreadable : Fault → Entry

-- `record?.id !== name.slice(…)`, where a value that is no object has no `id`.
unfoldable pub entry_of : Text → Option Json → Entry
entry_of file none = unreadable (fault teaching_unreadable (name file))
entry_of file (some (obj fields)) =
    if is_text (get (text "id") fields) (stem_of file)
    then readable fields
    else unreadable (fault teaching_misplaced (name file))
entry_of file (some v) = unreadable (fault teaching_misplaced (name file))

-- The names in order, `names.sort()`.
abbrev pub name_after : Text × Option Json → Text × Option Json → Bool
name_after one other = text_lt other.0 one.0

unfoldable pub entries_of : Directory → List Entry
unfolding is_read entry_of
entries_of [] = []
entries_of ((file, content) ∷ files) =
    let rest = entries_of files in if is_read file then entry_of file content ∷ rest else rest

abbrev pub records_of : List Entry → List Fields
records_of [] = []
records_of (readable r ∷ entries) = r ∷ records_of entries
records_of (unreadable f ∷ entries) = records_of entries

abbrev pub faults_of : List Entry → List Fault
faults_of [] = []
faults_of (readable r ∷ entries) = faults_of entries
faults_of (unreadable f ∷ entries) = f ∷ faults_of entries

pub record Reading : Type 0 where
  pub records : List Fields
  pub unread : List Fault

unfoldable pub read_teachings : Directory → Reading
unfolding entries_of
read_teachings files = record {
  records = records_of (entries_of (sort_by name_after files));
  unread = faults_of (entries_of (sort_by name_after files));
}

-- `String(r[name])`.
abbrev pub string_at : Library → Text → Fields → Text
string_at library key r = elim (get key r) [ some (str s) ↦ s | v ↦ library.string_of v ]

-- By the time, and at one time by the id.
unfoldable pub taught_after : Library → Fields → Fields → Bool
taught_after library a b =
    library.locale_after (string_at library (text "taught_at") a)
      (string_at library (text "taught_at") b)
    || (library.locale_same (string_at library (text "taught_at") a)
          (string_at library (text "taught_at") b)
        && library.locale_after (string_at library (text "id") a) (string_at library (text "id") b))

-- `r.kind === kind && r.status === status`.
unfoldable pub is_of : Text → Text → Fields → Bool
is_of kind status r = is_text (get (text "kind") r) kind && is_text (get (text "status") r) status

-- The records of one kind and one status, in the order of their times.
unfoldable pub group_of : Library → Text → Text → Directory → List Fields
group_of library kind status files =
    sort_by (taught_after library) (keep (is_of kind status) (read_teachings files).records)

unfoldable pub active_of : Library → Directory → List Fields
active_of library files = group_of library (text "instruction") (text "active") files

unfoldable pub open_of : Library → Directory → List Fields
open_of library files = group_of library (text "change-request") (text "open") files

pub record Teachings : Type 0 where
  pub all : List Fields
  pub active : List Fields
  pub forgotten : List Fields
  pub opened : List Fields
  pub closed : List Fields
  pub unread : List Fault

unfoldable pub list_teachings : Library → Directory → Teachings
unfolding group_of active_of open_of taught_after
list_teachings library files = record {
  all = sort_by (taught_after library) (read_teachings files).records;
  active = active_of library files;
  forgotten = group_of library (text "instruction") (text "forgotten") files;
  opened = open_of library files;
  closed = group_of library (text "change-request") (text "closed") files;
  unread = (read_teachings files).unread;
}

-- What was recorded under one release; no release, or an empty one, is none.
unfoldable pub teachings_under_release : Library → Option Text → Directory → List Fields
unfolding list_teachings
teachings_under_release library none files = []
teachings_under_release library (some []) files = []
teachings_under_release library (some (c ∷ id)) files =
    keep (λ r. is_text (get (text "release_id") r) (c ∷ id)) (list_teachings library files).all
