-- ===== src/Stream/Store/Files.antt =====
-- stream/store.ts: the ordinals, the reads, the one way a record is rewritten in place, and what the
-- browser's listeners are told.
use carbon_runtime.Common.{
  ℕ, ◌+◌, Bool, true, false, List, [], ◌∷◌, ◌++◌, Option, none, some, or_else, Text, text, text_eq,
  ltb, if◌then◌else◌, lookup, put, ◌≡◌, arith,
}
use carbon_runtime.Stream.Platform.{Node}
use carbon_runtime.Stream.Fault.{fault, name, Result, ok, err, broken, refuse_all, record_misplaced}
use carbon_runtime.Stream.Encode.{component_faults, encode_component}
use carbon_runtime.Stream.Paths.{RecordPath, record_path, same_path, path_key, text_key}
use carbon_runtime.Stream.Json.{Json, integer, truthy}
use carbon_runtime.Stream.Spread.{spread_on}
use carbon_runtime.Stream.Record.{MessageRecord, AdapterFields, no_fields}
use carbon_runtime.Stream.Store.{
  Store, Exec, Identity, identity_key, ProjectionUpdate, EvidenceVersion, BrowserEvent, ChangeKind,
  capture_change, state_change, ◌>>=◌, ◌>>◌, modify, return,
}

unfoldable pub next_seq : Exec ℕ
next_seq s = (ok (s.seq + 1), record s { seq = s.seq + 1 })

unfoldable pub is_browser : MessageRecord → Bool
is_browser r = text_eq r.source (text "browser")

unfoldable pub identity_of : MessageRecord → Identity
identity_of r = record {
  conversation_id = r.conversation_id;
  message_id = r.message_id;
  revision = r.revision;
}

larger : ℕ → ℕ → ℕ
larger a b = if ltb a b then b else a

abbrev is_truthy : Option Json → Bool
is_truthy none = false
is_truthy (some v) = truthy v

carries_evidence : MessageRecord → Bool
unfolding truthy lookup
carries_evidence r =
    is_truthy (lookup (text "evidence_change") (or_else r.adapter_fields no_fields))

-- The ordinal of a field, which the store writes as a whole number; the model takes 0 for another.
abbrev whole : Option Json → ℕ
whole (some (integer n)) = n
whole _ = 0

abbrev event_seq : Option AdapterFields → ℕ
event_seq none = 0
event_seq (some fields) = whole (lookup (text "browser_event_seq") fields)

abbrev version_of : Option EvidenceVersion → ℕ
version_of none = 0
version_of (some v) = v.version

abbrev seq_of : Option ProjectionUpdate → ℕ
seq_of none = 0
seq_of (some u) = u.seq

-- A captured record that changes the evidence counts the conversation's evidence version up.
count_evidence : MessageRecord → Store → Store
count_evidence r s =
    if carries_evidence r
    then record s {
      evidence_versions =
          put r.conversation_id
            (record {
              version = version_of (lookup r.conversation_id s.evidence_versions) + 1;
              message_id = r.message_id;
              revision = r.revision;
            })
            s.evidence_versions;
    }
    else s

-- The update's ordinal: the capture's, else the one that is known, else 0.
project : MessageRecord → Option ℕ → Store → Store
unfolding identity_of larger
project r capture_seq s =
    let seq = or_else capture_seq (seq_of (lookup (identity_of r) s.projection_updates)) in
    record s {
      projection_version = s.projection_version + 1;
      projection_updates =
          put (identity_of r)
            (record {
              at = identity_of r;
              seq = seq;
              cursor = larger seq (event_seq r.adapter_fields);
            })
            s.projection_updates;
    }

abbrev event_of : MessageRecord → ChangeKind → BrowserEvent
event_of r kind = record {
  kind = kind;
  conversation_id = r.conversation_id;
  direction = r.direction;
  message_id = r.message_id;
  revision = r.revision;
}

abbrev is_capture : ChangeKind → Bool
is_capture capture_change = true
is_capture state_change = false

-- `publishBrowserChange`: nothing is published of a record of another channel.
unfoldable pub publish : MessageRecord → ChangeKind → Option ℕ → Store → Store
unfolding project count_evidence carries_evidence identity_of larger
publish r kind capture_seq s =
    if is_browser r
    then (let t = project r capture_seq (if is_capture kind then count_evidence r s else s) in
        record t { told = event_of r kind ∷ t.told })
    else s

-- A record of the browser takes a new ordinal each time that it is rewritten.
unfoldable pub mark_browser : MessageRecord → Exec MessageRecord
unfolding next_seq spread_on
mark_browser r s =
    if is_browser r
    then (
      ok (record r {
        adapter_fields =
            spread_on r.adapter_fields ((text "browser_event_seq", integer (s.seq + 1)) ∷ []);
      }),
      record s { seq = s.seq + 1 },
    )
    else (ok r, s)

unfoldable pub write_record : RecordPath → MessageRecord → Exec Unit
write_record place r s = (ok tt, record s { captures = put place r s.captures })

-- Rewrite a record that is on disk, and publish that its state has changed.
unfoldable pub rewrite_record : RecordPath → MessageRecord → Exec MessageRecord
rewrite_record place r = do
  written ← mark_browser r
  write_record place written
  modify (publish written state_change none)
  return written

-- `JSON.parse(fs.readFileSync(places.record))`.
unfoldable pub parse_file : RecordPath → Store → Result MessageRecord
parse_file place s = elim (lookup place s.captures) [ none ↦ broken | some r ↦ ok r ]

unfoldable pub path_of : Node → MessageRecord → Result RecordPath
path_of node r = record_path node r.conversation_id r.message_id r.revision

-- `readAt` of a file with this content: the path that the content derives must be the file's own.
abbrev pub placed_at : RecordPath → MessageRecord → Result RecordPath → Result MessageRecord
placed_at place r (ok expected) =
    if same_path expected place
    then ok r
    else err (fault record_misplaced (name (place.directory ++ text "/" ++ place.stem)) ∷ [])
placed_at place r (err faults) = err faults
placed_at place r broken = broken

unfoldable pub read_content : Node → RecordPath → MessageRecord → Result MessageRecord
unfolding path_of
read_content node place r = placed_at place r (path_of node r)

unfoldable pub read_at : Node → RecordPath → Store → Result MessageRecord
read_at node place s = elim (lookup place s.captures) [
  | none ↦ broken
  | some r ↦ read_content node place r
]

-- `read`: `none` is null.
abbrev pub read_found : Node → RecordPath → Option MessageRecord → Result (Option MessageRecord)
read_found node place none = ok none
read_found node place (some r) = elim (read_content node place r) [
  | ok found ↦ ok (some found)
  | err faults ↦ err faults
  | broken ↦ broken
]

unfoldable pub read : Node → Text → Text → ℕ → Store → Result (Option MessageRecord)
read node conversation_id message_id revision s =
    elim (record_path node conversation_id message_id revision) [
      | ok place ↦ read_found node place (lookup place s.captures)
      | err faults ↦ err faults
      | broken ↦ broken
    ]

abbrev pub prepend :
    Result MessageRecord → Result (List MessageRecord) → Result (List MessageRecord)
prepend (ok r) (ok rs) = ok (r ∷ rs)
prepend (ok r) (err faults) = err faults
prepend (ok r) broken = broken
prepend (err faults) rest = err faults
prepend broken rest = broken

-- The records of one directory, each read as `readAt` reads it.
unfoldable pub read_directory :
    Node → Text → List (RecordPath × MessageRecord) → Result (List MessageRecord)
read_directory node directory [] = ok []
read_directory node directory ((place, r) ∷ captures) =
    let rest = read_directory node directory captures in
    if text_eq place.directory directory then prepend (read_content node place r) rest else rest

unfoldable pub records_in : Node → Text → Store → Result (List MessageRecord)
records_in node conversation_id s =
    refuse_all (component_faults node (name (text "conversation_id")) (some conversation_id))
      (read_directory node (encode_component node conversation_id) s.captures)

-- `rebuild`: every record, read from the files themselves.
pub rebuild_from : Node → List (RecordPath × MessageRecord) → Result (List MessageRecord)
rebuild_from node [] = ok []
rebuild_from node ((place, r) ∷ captures) =
    prepend (read_content node place r) (rebuild_from node captures)

pub rebuild : Node → Store → Result (List MessageRecord)
rebuild node s = rebuild_from node s.captures

-- The files that the store is made of, less the ordinal and the raw payloads.
pub record SameFiles (s t : Store) : Type 0 where
  pub same_captures : t.captures ≡ s.captures
  pub same_index : t.index ≡ s.index
  pub same_requests : t.requests ≡ s.requests
  pub same_cursors : t.cursor_files ≡ s.cursor_files

count_evidence-SameFiles : (r : MessageRecord) (s : Store) → SameFiles s (count_evidence r s)
unfolding count_evidence
count_evidence-SameFiles r s = ground arith

-- Publishing writes no file.
pub publish-SameFiles :
    (r : MessageRecord) (kind : ChangeKind) (seq : Option ℕ) (s : Store)
    → SameFiles s (publish r kind seq s)
unfolding publish project
publish-SameFiles r kind seq s = ground (arith, count_evidence-SameFiles r s)

pub mark_browser-SameFiles : (r : MessageRecord) (s : Store) → SameFiles s (mark_browser r s).1
unfolding mark_browser
mark_browser-SameFiles r s = ground arith
