-- ===== src/Stream/Teachings/Write.antt =====
-- stream/teachings.ts: writeTeaching, the one way onto disk, and the id that a new record takes. An id
-- is one segment of a path, as the schema's pattern has it.
use carbon_runtime.Common.{
  ℕ, zero, suc, ◌+◌, Bool, false, not, ◌&&◌, ◌||◌, List, [], ◌∷◌, ◌++◌, Option, none, some, is_some,
  any, Text, text, text_eq, if◌then◌else◌, keep, take, lookup, put, ◌==◌, leb,
}
use carbon_runtime.Stream.Fault.{
  Fault, fault, name, root, Result, ok, err, broken, teaching_kind_unknown,
  teaching_status_not_for_kind, teaching_readback_disagrees, teaching_id_unavailable,
}
use carbon_runtime.Stream.Json.{Json, obj, str, Fields, end, member, get, is_text}
use carbon_runtime.Stream.Paths.{text_key}
use carbon_runtime.Stream.Validate.{Schema, schema, Properties, no_more, property, validate}
use carbon_runtime.Stream.Teachings.{Library, Directory, file_name}

-- Object.keys(SCHEMA.properties).
abbrev pub property_names : Properties → List Text
property_names no_more = []
property_names (property key s rest) = key ∷ property_names rest

abbrev pub declared_in : Schema → List Text
declared_in (schema rules properties additional elements) = property_names properties

abbrev pub add_member : Text → Option Json → Fields → Fields
add_member key none r = r
add_member key (some v) r = member key v r

-- The members that are declared, in the schema's order.
unfoldable pub pick : List Text → Fields → Fields
pick [] r = end
pick (key ∷ keys) r = add_member key (get key r) (pick keys r)

-- The members that are not, in the record's order.
unfoldable pub others_of : List Text → Fields → Fields
others_of keys end = end
others_of keys (member key v r) =
    let rest = others_of keys r in if any (text_eq key) keys then rest else member key v rest

abbrev pub append_fields : Fields → Fields → Fields
append_fields end r = r
append_fields (member key v q) r = member key v (append_fields q r)

unfoldable pub in_schema_order : List Text → Fields → Fields
unfolding pick others_of
in_schema_order keys r = append_fields (pick keys r) (others_of keys r)

-- `STATUSES[kind].includes(status)`.
unfoldable pub kind_faults : Fields → List Fault
kind_faults r =
    if is_text (get (text "kind") r) (text "instruction")
    then (if is_text (get (text "status") r) (text "active")
          || is_text (get (text "status") r) (text "forgotten")
        then []
        else fault teaching_status_not_for_kind (name (text "status")) ∷ [])
    else if is_text (get (text "kind") r) (text "change-request")
    then (if is_text (get (text "status") r) (text "open")
          || is_text (get (text "status") r) (text "closed")
        then []
        else fault teaching_status_not_for_kind (name (text "status")) ∷ [])
    else fault teaching_kind_unknown (name (text "kind")) ∷ []

pub record Written : Type 0 where
  pub id : Text
  pub written : Fields

-- The file is written, read back, and must name the id that the record named.
unfoldable pub store_record : List Text → Text → Fields → Directory → Result Written × Directory
unfolding in_schema_order
store_record keys id r files = (
  (if is_text (get (text "id") (in_schema_order keys r)) id
      then ok (record { id = id; written = in_schema_order keys r })
      else err (fault teaching_readback_disagrees (name (file_name id)) ∷ [])),
  put ⦃k = text_key⦄ (file_name id) (some (obj (in_schema_order keys r))) files,
)

-- An id that is no string is one that the schema refuses.
abbrev pub store_named : List Text → Option Json → Fields → Directory → Result Written × Directory
store_named keys (some (str id)) r files = store_record keys id r files
store_named keys _ r files = (broken, files)

abbrev pub write_unless :
    List Fault → Result Written × Directory → Directory → Result Written × Directory
write_unless [] done files = done
write_unless (f ∷ fs) done files = (err (f ∷ fs), files)

unfoldable pub write_teaching : Library → Fields → Directory → Result Written × Directory
unfolding kind_faults store_record
write_teaching library r files =
    write_unless (kind_faults r ++ validate library.node (obj r) library.teaching_schema root)
      (store_named (declared_in library.teaching_schema) (get (text "id") r) r files) files

-- `.replace(/[-:]/g, '')`, then `.replace(/\.\d+Z$/, 'Z')`: the fraction is from the dot on.
is_digit : ℕ → Bool
is_digit c = leb 0x30 c && leb c 0x39

-- `\d*Z` and the end.
ends_digits : Text → Bool
ends_digits [] = false
ends_digits (c ∷ []) = c == b'Z'
ends_digits (c ∷ d ∷ s) = is_digit c && ends_digits (d ∷ s)

-- `\.\d+Z` and the end.
is_fraction : Text → Bool
is_fraction [] = false
is_fraction (c ∷ []) = false
is_fraction (c ∷ d ∷ s) = c == b'.' && is_digit d && ends_digits s

drop_fraction : Text → Text
drop_fraction [] = []
drop_fraction (c ∷ s) =
    let rest = drop_fraction s in if is_fraction (c ∷ s) then b'Z' ∷ [] else c ∷ rest

unfoldable pub stamp : Text → Text
unfolding drop_fraction is_fraction ends_digits is_digit
stamp at = drop_fraction (keep (λ c. not (c == b'-' || c == b':')) at)

-- What `teachingId` adds to its `teach-`.
unfoldable pub id_rest : Library → Text → ℕ → Text
unfolding stamp
id_rest library source ms =
    stamp (library.iso ms) ++ text "-" ++ take 8 (library.node.sha256 (library.node.to_utf8 source))

-- An instant that is none is an error of `toISOString`.
abbrev pub id_at : Library → Text → Option ℕ → Result Text
id_at library source none = broken
id_at library source (some ms) = ok (text "teach-" ++ id_rest library source ms)

unfoldable pub teaching_id : Library → Text → Text → Result Text
teaching_id library source at = id_at library source (library.node.date_parse at)

abbrev pub try_next : Directory → Result Text → Result Text → Result Text
try_next files (ok id) next =
    if is_some (lookup ⦃k = text_key⦄ (file_name id) files) then next else ok id
try_next files (err faults) next = err faults
try_next files broken next = broken

-- The loop of `freeId`: the tries left, and the instant in milliseconds.
unfoldable pub free_from : Library → Text → ℕ → ℕ → Directory → Result Text
free_from library source zero ms files = err (fault teaching_id_unavailable (name source) ∷ [])
free_from library source (suc tries) ms files =
    try_next files (teaching_id library source (library.iso ms))
      (free_from library source tries (ms + 1000) files)

abbrev pub id_tries : ℕ
id_tries = 120

abbrev pub free_at : Library → Text → Option ℕ → Directory → Result Text
free_at library source none files = broken
free_at library source (some ms) files = free_from library source id_tries ms files

unfoldable pub free_id : Library → Text → Text → Directory → Result Text
unfolding free_from
free_id library source at files = free_at library source (library.node.date_parse at) files
