-- ===== src/Stream/Tests.antt =====
-- Concrete runs of the store library, and each theorem at an input that meets its hypotheses.
use carbon_runtime.Common.{
  ℕ, ◌≡◌, refl, ◌↔◌, arith, ◌||◌, true, false, List, [], ◌∷◌, ◌++◌, none, some, Text, text, lookup,
  put, All, text_eq, starts_with, has_unit,
}
use carbon_runtime.Stream.Samples.{ascii, setup, message, delivery_of, question}
use carbon_runtime.Stream.Platform.{IsWellFormed}
use carbon_runtime.Stream.Fault.{root, ok}
use carbon_runtime.Stream.Json.{str, null, obj, member, end}
use carbon_runtime.Stream.Validate.{
  empty_schema, validate, keyword_faults, ending, minimum_refuses, scalar_faults,
}
use carbon_runtime.Stream.Encode.{
  component_faults, encode_component, encode_bytes, encode_byte, is_safe_byte, decode_component,
}
use carbon_runtime.Stream.Paths.{
  RecordPath, record_path, record_stem, decimal, same_path, path_key, text_key,
}
use carbon_runtime.Stream.Record.{
  MessageRecord, Attachment, outbound, parked, pending, sent, failed,
}
use carbon_runtime.Stream.Store.{Store, opened, ReplyRequest, CursorState}
use carbon_runtime.Stream.Store.Files.{
  next_seq, is_browser, publish, mark_browser, write_record, rewrite_record, parse_file, path_of,
  read_content, read_at, read, read_directory, records_in,
}
use carbon_runtime.Stream.Store.Cursor.{cursors, cursor_file, advance_cursor}
use carbon_runtime.Stream.Store.Capture.{
  capture, capture_at, capture_steps, append_raw, append_index, write_or_merge, merges,
  merge_records, merge_attachments, settle_disposition, with_cursor, no_options,
}
use carbon_runtime.Stream.Store.Reply.{
  reply, reply_to_request, reply_faults, read_request, request_file, fence_of, pass_fence,
  write_reply, write_request, settle_delivery, write_settled, settled, mark_failed, written,
}
use carbon_runtime.Stream.Store.Reply.Once.{reply-reply, reply-closed, RequestAt}
use carbon_runtime.Stream.Store.Reply.Retry.{reply-retry_stale, SameReply}
use carbon_runtime.Stream.Spread.{spread_on}
use carbon_runtime.Stream.Store.Steps.{
  run_all, run_all-Kept, run_all-IsIndexed, annotations, Call, call_annotate, call_capture,
  call_set_disposition,
}
use carbon_runtime.Stream.Store.Grows.{Grown, IsIndexed}
use carbon_runtime.Stream.Store.Hold.{ReleaseOptions, release_place, is_held}
use carbon_runtime.Stream.Store.Hold.Allowed.{release_place_iff, is_held_iff, MayRelease, AnyHolds}
use carbon_runtime.Stream.Store.Cursor.{message_cursor}
use carbon_runtime.Stream.Store.Cursor.Monotone.{cursors-advance_cursor, HasMoved}
use carbon_runtime.Stream.Store.Capture.{has_digest}
use carbon_runtime.Stream.Store.Capture.Merge.{merge_records_lem}
use carbon_runtime.Stream.Validate.Conforms.{Conforms, validate-iff-Conforms}
use carbon_runtime.Stream.Store.Reply.{Settlement}
use carbon_runtime.Stream.Store.Reply.Settle.{IsSettled, settle_delivery-IsSettled}
use carbon_runtime.Stream.Store.Thread.{thread_file, IsThreadWritten, write_thread-IsThreadWritten}
use carbon_runtime.Stream.Encode.RoundTrip.{decode-encode_component, is_path_unit}
use carbon_runtime.Stream.Paths.{path_text, resolve_under_store}
use carbon_runtime.Stream.Paths.Containment.{conversation_directory-contained}
use carbon_runtime.Stream.Paths.Injective.{IsShort, record_path-injective}

abbrev answer : MessageRecord
answer = message (text "m2") outbound (some (delivery_of (text "q")))

-- What a run of the store computes with.
runs : ℕ
unfolding reply reply_to_request reply_faults read_request request_file fence_of pass_fence
    write_reply write_request capture capture_at capture_steps append_raw append_index
    write_or_merge merges merge_records settle_disposition with_cursor next_seq is_browser publish
    mark_browser write_record rewrite_record parse_file path_of read_content read_at read
    read_directory records_in record_path record_stem decimal same_path component_faults
    encode_component encode_bytes encode_byte is_safe_byte validate keyword_faults ending
    minimum_refuses scalar_faults merge_attachments text_eq starts_with has_unit lookup put
    settle_delivery write_settled settled mark_failed
runs = 0

abbrev asked : Store
unfolding runs
asked = (capture setup question no_options opened).1

-- The reply to the question, and the store after it.
abbrev replied : Store
unfolding runs
replied = (reply setup answer pending asked).1

abbrev place_of : Text → RecordPath
place_of stem = record { directory = text "c~2E1"; stem = stem }

replied_once :
    reply setup answer pending asked ≡ (ok (written answer (place_of (text "m2"))), replied)
unfolding runs
replied_once = refl

reply-reply_example : (reply setup answer pending replied).1 ≡ replied
reply-reply_example =
    reply-reply setup answer answer (delivery_of (text "q")) (delivery_of (text "q")) pending
      pending asked replied answer (place_of (text "m2")) refl refl refl replied_once

abbrev request : ReplyRequest
request = record {
  request_id = text "q";
  status = pending;
  conversation_id = text "c.1";
  message_id = text "m2";
  revision = 0;
  chunk_ids = [];
}

request_pending : read_request ascii (text "q") replied ≡ ok (some request)
unfolding runs
request_pending = refl

reply-closed_example : (reply setup answer pending replied).1 ≡ replied
reply-closed_example =
    reply-closed setup answer (delivery_of (text "q")) pending request replied refl request_pending
      tt

found_answer : read ascii (text "c.1") (text "m2") 0 replied ≡ ok (some answer)
unfolding runs
found_answer = refl

settled_path : path_of ascii answer ≡ ok (place_of (text "m2"))
unfolding runs
settled_path = refl

abbrev receipt : Settlement
receipt = record { chunk_ids = some (text "x" ∷ []); completed_at = some (text "t2") }

settle_delivery-IsSettled_example :
    IsSettled ascii
      (text "q")
      sent
      receipt
      request
      answer
      (place_of (text "m2"))
      (settle_delivery ascii (text "q") sent receipt replied)
settle_delivery-IsSettled_example =
    settle_delivery-IsSettled ascii (text "q") sent receipt request answer (place_of (text "m2"))
      replied request_pending found_answer settled_path

unit_file : thread_file ascii (text "u") ≡ ok (text "u")
unfolding thread_file component_faults encode_component encode_bytes encode_byte is_safe_byte
    has_unit text_eq
unit_file = refl

write_thread-IsThreadWritten_example :
    IsThreadWritten ascii (text "u") ((text "thread_id", null) ∷ []) replied
write_thread-IsThreadWritten_example =
    write_thread-IsThreadWritten ascii (text "u") ((text "thread_id", null) ∷ []) replied (text "u")
      unit_file

-- A retry, with another text, of the reply that has failed.
abbrev refused : Store
unfolding runs
refused = (mark_failed ascii (text "q") (text "t2") replied).1

abbrev second : MessageRecord
second = record answer { body = text "again" }

abbrev old_answer : MessageRecord
old_answer = record answer {
  delivery =
      some (record (delivery_of (text "q")) { status = failed; completed_at = some (text "t2") });
}

abbrev retried : Store
unfolding runs
retried = (reply setup second pending refused).1

retried_once :
    reply setup second pending refused ≡ (ok (written old_answer (place_of (text "m2"))), retried)
unfolding runs
retried_once = refl

there_refused : lookup (place_of (text "m2")) refused.captures ≡ some old_answer
unfolding runs
there_refused = refl

answer_path : path_of ascii second ≡ ok (place_of (text "m2"))
unfolding runs
answer_path = refl

reply-retry_stale_example :
    (old_answer.delivery ≡ old_answer.delivery)
    × (old_answer.body ≡ old_answer.body)
    × SameReply old_answer (place_of (text "m2")) retried
    × RequestAt setup (text "q") pending retried
reply-retry_stale_example =
    reply-retry_stale setup second old_answer old_answer (place_of (text "m2"))
      (place_of (text "m2")) (delivery_of (text "q")) pending refused retried answer_path
      there_refused refl retried_once

abbrev calls : List Call
calls =
    call_capture question no_options
    ∷ call_set_disposition question parked
    ∷ call_capture (record question { body = text "other" }) no_options
    ∷ call_annotate question ((text "ticket_key", str (text "t")) ∷ [])
    ∷ []

there_asked : lookup (place_of (text "m1")) asked.captures ≡ some question
unfolding runs
there_asked = refl

-- An annotation replaces a field that the store writes too, and leaves the others.
annotated_test :
    (spread_on
      (some ((text "model_effect", null) ∷ (text "ticket_key", null) ∷ []))
      ((text "model_effect", str (text "uncertain")) ∷ []))
    ≡ some ((text "model_effect", str (text "uncertain")) ∷ (text "ticket_key", null) ∷ [])
unfolding spread_on put text_eq
annotated_test = refl

run_all-Kept_example :
    (e' : MessageRecord) × (lookup (place_of (text "m1")) (run_all setup calls asked).captures
      ≡ some e')
    × Grown ⦃notes = annotations calls⦄ question e'
run_all-Kept_example = run_all-Kept setup calls asked (place_of (text "m1")) question there_asked

run_all-IsIndexed_example : IsIndexed (run_all setup calls opened)
run_all-IsIndexed_example = run_all-IsIndexed setup calls

validate-iff-Conforms_example :
    (validate ascii (obj (member (text "a") null end)) empty_schema root ≡ [])
    ↔ Conforms ascii (obj (member (text "a") null end)) empty_schema
validate-iff-Conforms_example =
    validate-iff-Conforms ascii (obj (member (text "a") null end)) empty_schema root

dotted-IsWellFormed : IsWellFormed ascii (text "c.1")
dotted-IsWellFormed = record { bytes = omega arith; back = refl }

dotted-IsShort : IsShort ascii (text "c.1")
unfolding runs
dotted-IsShort = record { formed = dotted-IsWellFormed; fits = omega arith }

decode-encode_component_example :
    decode_component ascii (encode_component ascii (text "c.1")) ≡ some (text "c.1")
decode-encode_component_example =
    decode-encode_component ascii (text "c.1") dotted-IsWellFormed dotted-IsShort.fits

hash_units : All (λ c. is_path_unit c ≡ true) (text "0a")
unfolding is_safe_byte
hash_units = (refl, (refl, tt))

conversation_directory-contained_example :
    resolve_under_store
      (text "srv" ∷ text "store" ∷ [])
      (text "captures" ∷ encode_component ascii (text "c.1") ∷ [])
    ≡ some (
        path_text (
          (text "srv" ∷ text "store" ∷ [])
          ++ text "captures" ∷ encode_component ascii (text "c.1") ∷ []))
conversation_directory-contained_example =
    conversation_directory-contained ascii (text "srv") (text "store" ∷ []) (text "c.1")
      dotted-IsWellFormed.bytes hash_units (λ e. cc e)

dotted_path : record_path ascii (text "c.1") (text "c.1") 2 ≡ ok (place_of (text "c~2E1.2"))
unfolding runs decimal
dotted_path = refl

record_path-injective_example :
    (text "c.1" ≡ text "c.1") × (text "c.1" ≡ text "c.1") × (◌≡◌ {A = ℕ} 2 2)
record_path-injective_example =
    record_path-injective ascii (text "c.1") (text "c.1") (text "c.1") (text "c.1") 2 2
      (place_of (text "c~2E1.2")) dotted-IsShort dotted-IsShort dotted-IsShort dotted-IsShort
      dotted_path dotted_path

unread : cursors ascii (text "c.1") opened ≡ ok (record { message = none; revision = none })
unfolding runs cursors cursor_file
unread = refl

cursors-advance_cursor_example :
    (d : CursorState) × (cursors ascii
        (text "c.1")
        (advance_cursor ascii (text "c.1") message_cursor (text "07") opened).1
      ≡ ok d)
    × HasMoved message_cursor (text "07") (record { message = none; revision = none }) d
cursors-advance_cursor_example =
    cursors-advance_cursor ascii (text "c.1") message_cursor (text "07") opened
      (record { message = none; revision = none }) tt unread

asked_records : records_in ascii (text "c.1") asked ≡ ok (question ∷ [])
unfolding runs
asked_records = refl

is_held_iff_example :
    (is_held ascii (text "c.1") 50 asked ≡ ok true) ↔ AnyHolds ascii 50 (question ∷ [])
is_held_iff_example = is_held_iff ascii (text "c.1") 50 asked (question ∷ []) asked_records

abbrev options : ReleaseOptions
options = record {
  released_at = text "t";
  thread_id = text "th";
  turn_id = text "tu";
  now = 50;
  hold_applies = true;
}

question_path : path_of ascii question ≡ ok (place_of (text "m1"))
unfolding runs
question_path = refl

release_place_iff_example :
    (release_place ascii question options asked ≡ ok (place_of (text "m1")))
    ↔ MayRelease ascii question options
        (question ∷ [])
        (lookup (place_of (text "m1")) asked.captures)
release_place_iff_example =
    release_place_iff ascii question options asked (question ∷ []) (place_of (text "m1"))
      question_path asked_records

abbrev picture : Text → Attachment
picture digest = record {
  attachment_id = none;
  file = text "f";
  mime = text "image/png";
  bytes = 3;
  sha256 = digest;
  download_failed = false;
  filename = none;
}

abbrev with_pictures : List Attachment → MessageRecord
with_pictures pictures = record question { attachments = pictures }

merge_records_lem_example :
    ((more : List Attachment) × (merge_records
          (with_pictures (picture (text "a") ∷ []))
          (with_pictures (picture (text "b") ∷ []))
        ≡ record question { attachments = picture (text "a") ∷ [] ++ more }))
    × ((d : Text)
        → has_digest d
            (merge_records
              (with_pictures (picture (text "a") ∷ []))
              (with_pictures (picture (text "b") ∷ []))).attachments
          ≡ (has_digest d (picture (text "a") ∷ []) || has_digest d (picture (text "b") ∷ [])))
    × (merge_records
          (merge_records
            (with_pictures (picture (text "a") ∷ []))
            (with_pictures (picture (text "b") ∷ [])))
          (with_pictures (picture (text "b") ∷ []))
        ≡ merge_records
            (with_pictures (picture (text "a") ∷ []))
            (with_pictures (picture (text "b") ∷ [])))
merge_records_lem_example =
    merge_records_lem (with_pictures (picture (text "a") ∷ []))
      (with_pictures (picture (text "b") ∷ []))
