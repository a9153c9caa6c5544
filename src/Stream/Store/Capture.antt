-- ===== src/Stream/Store/Capture.antt =====
-- stream/store.ts: `capture` with its write order, the merge of a repeated write, and the methods
-- that put carbon's own fields on a record: park, parkFailed, annotate, setDisposition. An
-- attachment's own file is not modelled.
pub mod Merge
pub mod Effect
use carbon_runtime.Common.{
  ℕ, ◌+◌, Bool, true, false, not, ◌&&◌, ◌||◌, List, [], ◌∷◌, ◌++◌, Option, none, some, or_else, any,
  Text, text, text_eq, starts_with, ltb, leb, ◌==◌, if◌then◌else◌, length, lookup, put, Key, ◌↔◌,
  ◌≡◌, arith, text_eq_iff, is_some,
}
use carbon_runtime.Stream.Platform.{Node}
use carbon_runtime.Stream.Fault.{
  Fault, fault, name, root, Result, ok, err, broken, refuse_all, message_id_claimed,
}
use carbon_runtime.Stream.Json.{Json, str}
use carbon_runtime.Stream.Spread.{spread_on}
use carbon_runtime.Stream.Validate.{validate}
use carbon_runtime.Stream.Paths.{
  RecordPath, record_path, same_path, same_path_iff, path_key, text_key,
}
use carbon_runtime.Stream.Record.{
  MessageRecord, MessageDisposition, parked, same_disposition, Attachment, AdapterFields, no_fields,
}
use carbon_runtime.Stream.Store.{
  Store, Setup, Exec, CursorState, IndexEntry, capture_change, ◌>>=◌, ◌>>◌, lift, reads, modify,
  return, after,
}
use carbon_runtime.Stream.Store.Files.{
  next_seq, publish, write_record, rewrite_record, parse_file, path_of,
}
use carbon_runtime.Stream.Store.Cursor.{CursorKind, advance_cursor}

-- An import merges into what another source wrote.
unfoldable pub merges : Text → Bool
merges source = starts_with source (text "import:")

unfoldable pub has_digest : Text → List Attachment → Bool
has_digest digest [] = false
has_digest digest (a ∷ attachments) = text_eq a.sha256 digest || has_digest digest attachments

-- The loop over the incoming attachments: `kept` grows by each digest not yet seen.
unfoldable pub merge_attachments : List Attachment → List Attachment → List Attachment
unfolding has_digest
merge_attachments kept [] = kept
merge_attachments kept (a ∷ incoming) =
    merge_attachments (if has_digest a.sha256 kept then kept else kept ++ a ∷ []) incoming

unfoldable pub merge_records : MessageRecord → MessageRecord → MessageRecord
merge_records existing incoming = record existing {
  attachments = merge_attachments existing.attachments incoming.attachments;
}

unfoldable pub set_disposition : Node → MessageRecord → MessageDisposition → Exec MessageRecord
set_disposition node r disposition = do
  place ← lift (path_of node r)
  on_disk ← reads (parse_file place)
  rewrite_record place (record on_disk { disposition = disposition })

pub record CursorMove : Type 0 where
  pub kind : CursorKind
  pub position : Text

pub record CaptureOptions : Type 0 where
  pub raw : Option Text
  pub cursor : Option CursorMove
  pub disposition : Option MessageDisposition

abbrev pub no_options : CaptureOptions
no_options = record { raw = none; cursor = none; disposition = none }

pub record CaptureResult : Type 0 where
  pub file : RecordPath
  pub seq : ℕ
  pub merged : Bool
  pub written : MessageRecord

-- The payload's line, ended by a line feed if it is not.
ends_line : Text → Bool
ends_line [] = false
ends_line (c ∷ []) = c == 10
ends_line (c ∷ d ∷ s) = ends_line (d ∷ s)

raw_line : Text → Text
unfolding ends_line
raw_line raw = if ends_line raw then raw else raw ++ 10 ∷ []

-- The raw payload's path below the store.
raw_file : RecordPath → Text
raw_file place = text "captures/" ++ place.directory ++ text "/" ++ place.stem ++ text ".raw"

-- The raw payload is appended first, and the record says where.
unfoldable pub append_raw : RecordPath → Option Text → MessageRecord → Exec MessageRecord
unfolding raw_file raw_line
append_raw place none r s = (ok r, s)
append_raw place (some raw) r s = (
  ok (record r { raw = some (raw_file place) }),
  record s { raws = put place (or_else (lookup place s.raws) [] ++ raw_line raw ∷ []) s.raws },
)

unfoldable pub append_index : MessageRecord → ℕ → RecordPath → Exec Unit
append_index r seq place s = (
  ok tt,
  record s {
    index =
        s.index
        ++ record {
          seq = seq;
          message_id = r.message_id;
          revision = r.revision;
          conversation_id = r.conversation_id;
          source = r.source;
          direction = r.direction;
          historical = r.historical;
          file = place;
        }
          ∷ [];
  },
)

-- Write the record where it is new, or merge it into the one that is there. A merge that adds
-- nothing writes nothing. The answer says whether it merged.
unfoldable pub write_or_merge :
    RecordPath → ℕ → MessageRecord → Option MessageRecord → Exec (MessageRecord × Bool)
unfolding write_record append_index
write_or_merge place seq r none s =
    (write_record place r >> append_index r seq place >> return (r, false)) s
write_or_merge place seq r (some existing) s =
    if not (text_eq existing.source r.source) && not (merges r.source)
    then (err (fault message_id_claimed (name r.message_id) ∷ []), s)
    else if leb (length (merge_records existing r).attachments) (length existing.attachments)
    then (ok (merge_records existing r, true), s)
    else (
      ok (merge_records existing r, true),
      record s { captures = put place (merge_records existing r) s.captures },
    )

-- `options.disposition`, written as its own step.
unfoldable pub settle_disposition :
    Node → Option MessageDisposition → MessageRecord → Exec MessageRecord
settle_disposition node none r = return r
settle_disposition node (some d) r =
    if same_disposition d r.disposition then return r else set_disposition node r d

-- The steps of the `try`.
unfoldable pub capture_steps :
    Setup → RecordPath → ℕ → MessageRecord → CaptureOptions → Exec CaptureResult
capture_steps setup place seq r options = do
  r' ← append_raw place options.raw r
  (written, merged) ← (λ s. write_or_merge place seq r' (lookup place s.captures) s)
  final ← settle_disposition setup.node options.disposition written
  modify (λ s. if merged then s else publish final capture_change (some seq) s)
  return (record { file = place; seq = seq; merged = merged; written = final })

-- The `finally`: the cursor moves whether the steps threw or not, and a throw of its own replaces
-- what they gave.
abbrev finish : {A : Type 0} → Result A → Result CursorState × Store → Result A × Store
finish r (ok c, s) = (r, s)
finish r (err faults, s) = (err faults, s)
finish r (broken, s) = (broken, s)

unfoldable pub with_cursor :
    Node → Text → Option CursorMove → Result CaptureResult × Store → Result CaptureResult × Store
with_cursor node conversation_id none done = done
with_cursor node conversation_id (some move) (r, s) =
    finish r (advance_cursor node conversation_id move.kind move.position s)

unfoldable pub capture_at : Setup → MessageRecord → CaptureOptions → RecordPath → Exec CaptureResult
unfolding next_seq
capture_at setup r options place s =
    with_cursor setup.node r.conversation_id options.cursor
      ((next_seq >>= λ seq. capture_steps setup place seq r options) s)

unfoldable pub capture : Setup → MessageRecord → CaptureOptions → Exec CaptureResult
capture setup r options = do
  place ← lift (
      refuse_all (validate setup.node (setup.record_json r) setup.message_schema root)
        (path_of setup.node r))
  capture_at setup r options place

unfoldable pub park : Setup → MessageRecord → Text → CaptureOptions → Exec CaptureResult
park setup r reason options =
    capture setup
      (record r {
        disposition = parked;
        adapter_fields = spread_on r.adapter_fields ((text "park_reason", str reason) ∷ []);
      })
      options

unfoldable pub park_failed : Setup → MessageRecord → List Fault → Option Text → Exec MessageRecord
park_failed setup r faults reason = do
  place ← lift (path_of setup.node r)
  on_disk ← reads (parse_file place)
  rewrite_record place (record on_disk {
    disposition = parked;
    adapter_fields = spread_on on_disk.adapter_fields (
        (text "park_reason", str (or_else reason (setup.fault_text faults)))
        ∷ (text "park_faults", setup.fault_json faults)
        ∷ []);
  })

unfoldable pub annotate : Node → MessageRecord → AdapterFields → Exec MessageRecord
unfolding spread_on
annotate node r fields = do
  place ← lift (path_of node r)
  on_disk ← reads (parse_file place)
  rewrite_record place (record on_disk { adapter_fields = spread_on on_disk.adapter_fields fields })
