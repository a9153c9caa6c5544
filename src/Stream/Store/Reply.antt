-- ===== src/Stream/Store/Reply.antt =====
-- stream/store.ts: the outbound records and the reply fence.
pub mod Once
pub mod Retry
pub mod Settle
use carbon_runtime.Common.{
  ℕ, Bool, true, false, not, ◌&&◌, ◌||◌, List, [], ◌∷◌, ◌++◌, Option, none, some, or_else, any,
  keep, Text, text, text_eq, if◌then◌else◌, lookup, put,
}
use carbon_runtime.Stream.Platform.{Node}
use carbon_runtime.Stream.Fault.{
  Fault, fault, name, Result, ok, err, broken, refuse_all, reply_status_unwritable,
  reply_not_outbound, reply_without_request_id, conversation_not_owned, reply_account_mismatch,
  request_already_pending, delivery_unknown_never_retried, request_unknown, reply_not_held,
}
use carbon_runtime.Stream.Encode.{component_faults, encode_component}
use carbon_runtime.Stream.Paths.{RecordPath, record_path, text_key, path_key}
use carbon_runtime.Stream.Record.{
  MessageRecord, Delivery, Status, pending, pending_teach_check, sent, unknown, failed,
  other_status, is_outbound, is_inbound,
}
use carbon_runtime.Stream.Store.{
  Store, Setup, Exec, ReplyRequest, state_change, ◌>>=◌, ◌>>◌, lift, reads, modify, return, after,
}
use carbon_runtime.Stream.Store.Files.{
  records_in, read, path_of, rewrite_record, mark_browser, write_record, publish,
}
use carbon_runtime.Stream.Store.Capture.{capture, no_options}

unfoldable pub request_file : Node → Text → Result Text
request_file node request_id =
    refuse_all (component_faults node (name (text "request_id")) (some request_id))
      (ok (encode_component node request_id))

-- `readRequest`: `none` is null.
unfoldable pub read_request : Node → Text → Store → Result (Option ReplyRequest)
read_request node request_id s = elim (request_file node request_id) [
  | ok file ↦ ok (lookup file s.requests)
  | err faults ↦ err faults
  | broken ↦ broken
]

unfoldable pub write_request : Text → ReplyRequest → Exec Unit
write_request file request s = (ok tt, record s { requests = put file request s.requests })

-- The two statuses that a reply is written at.
unfoldable pub is_writable : Status → Bool
is_writable pending = true
is_writable pending_teach_check = true
is_writable _ = false

abbrev when : Bool → Fault → List Fault
when true f = f ∷ []
when false f = []

-- `!record.delivery || !record.delivery.request_id`.
abbrev lacks_request : Option Delivery → Bool
lacks_request none = true
lacks_request (some d) = text_eq d.request_id []

abbrev ownership_faults : MessageRecord → List MessageRecord → List Fault
ownership_faults r [] = fault conversation_not_owned (name r.conversation_id) ∷ []
ownership_faults r (o ∷ owned) =
    when (not (any (λ p. text_eq p.account r.account) (o ∷ owned)))
      (fault reply_account_mismatch (name r.account))

-- Every refusal of a reply that does not look at its request, `found` being the conversation's
-- records.
unfoldable pub reply_faults : MessageRecord → Status → List MessageRecord → List Fault
unfolding is_writable
reply_faults r status found =
    when (not (is_writable status)) (fault reply_status_unwritable (name (text "status")))
    ++ when (not (is_outbound r.direction)) (fault reply_not_outbound (name r.message_id))
    ++ when (lacks_request r.delivery) (fault reply_without_request_id (name r.message_id))
    ++ ownership_faults r (keep (λ p. is_inbound p.direction) found)

-- `fenced: 'sent'` gives back what was sent before; `fenced: null` has written the reply.
pub data ReplyOutcome : Type 0 where
  fenced_sent : List Text → Text → ReplyOutcome
  written : MessageRecord → RecordPath → ReplyOutcome

-- What the request on disk says to a reply under its id: send nothing and give back what was
-- sent, refuse, or write it.
pub data Fence : Type 0 where
  give_back : ReplyRequest → Fence
  refuse : Fault → Fence
  let_pass : Fence

unfoldable pub fence_of : Text → Option ReplyRequest → Fence
fence_of request_id none = let_pass
fence_of request_id (some q) = elim q.status [
  | sent ↦ give_back q
  | pending ↦ refuse (fault request_already_pending (name request_id))
  | pending_teach_check ↦ refuse (fault request_already_pending (name request_id))
  | unknown ↦ refuse (fault delivery_unknown_never_retried (name request_id))
  | failed ↦ let_pass
  | other_status w ↦ let_pass
]

-- Capture the record as pending, then write the request's file.
unfoldable pub write_reply : Setup → MessageRecord → Delivery → Status → Exec ReplyOutcome
unfolding write_request
write_reply setup r delivery status = do
  result ←
      capture setup (record r { delivery = some (record delivery { status = status }) }) no_options
  file ← lift (request_file setup.node delivery.request_id)
  write_request file (record {
    request_id = delivery.request_id;
    status = status;
    conversation_id = r.conversation_id;
    message_id = r.message_id;
    revision = r.revision;
    chunk_ids = [];
  })
  return (written result.written result.file)

unfoldable pub pass_fence : Setup → MessageRecord → Delivery → Status → Fence → Exec ReplyOutcome
pass_fence setup r delivery status (give_back q) = return (fenced_sent q.chunk_ids q.message_id)
pass_fence setup r delivery status (refuse f) = lift (err (f ∷ []))
pass_fence setup r delivery status let_pass = write_reply setup r delivery status

-- A record that passed `reply_faults` has a delivery.
unfoldable pub reply_to_request :
    Setup → MessageRecord → Option Delivery → Status → Exec ReplyOutcome
reply_to_request setup r none status = lift broken
reply_to_request setup r (some delivery) status = do
  existing ← reads (read_request setup.node delivery.request_id)
  pass_fence setup r delivery status (fence_of delivery.request_id existing)

unfoldable pub reply : Setup → MessageRecord → Status → Exec ReplyOutcome
unfolding reply_to_request pass_fence
reply setup r status = do
  found ← reads (records_in setup.node r.conversation_id)
  lift (refuse_all (reply_faults r status found) (ok tt))
  reply_to_request setup r r.delivery status

-- What a settlement adds to the delivery.
pub record Settlement : Type 0 where
  pub chunk_ids : Option (List Text)
  pub completed_at : Option Text

abbrev pub first_some {ℓ} : {A : Type ℓ} → Option A → Option A → Option A
first_some (some a) b = some a
first_some none b = b

-- `{ ...record.delivery, status, ...extra }`. A delivery that is not there leaves its request out:
-- the model has it as the empty text.
unfoldable pub settled : Status → Settlement → Option Delivery → Delivery
settled status extra none = record {
  request_id = [];
  status = status;
  text_sha256 = none;
  chunk_ids = extra.chunk_ids;
  completed_at = extra.completed_at;
}
settled status extra (some d) = record d {
  status = status;
  chunk_ids = first_some extra.chunk_ids d.chunk_ids;
  completed_at = first_some extra.completed_at d.completed_at;
}

abbrev pub or_unknown : Text → Option ReplyRequest → Result ReplyRequest
or_unknown request_id none = err (fault request_unknown (name request_id) ∷ [])
or_unknown request_id (some q) = ok q

-- A request whose record is gone is the error of a null read.
abbrev pub or_broken : Option MessageRecord → Result MessageRecord
or_broken none = broken
or_broken (some r) = ok r

-- The writes of a settlement: the record, then the request's file.
unfoldable pub write_settled :
    Node
    → Text
    → ReplyRequest
    → Status
    → Settlement
    → MessageRecord
    → RecordPath
    → Exec MessageRecord
unfolding write_request
write_settled node request_id request status extra r place = do
  marked ← mark_browser (record r { delivery = some (settled status extra r.delivery) })
  write_record place marked
  file ← lift (request_file node request_id)
  write_request file
      (record request { status = status; chunk_ids = or_else extra.chunk_ids request.chunk_ids })
  modify (publish marked state_change none)
  return marked

unfoldable pub settle_delivery : Node → Text → Status → Settlement → Exec MessageRecord
settle_delivery node request_id status extra = do
  found ← reads (read_request node request_id)
  request ← lift (or_unknown request_id found)
  at ← reads (read node request.conversation_id request.message_id request.revision)
  r ← lift (or_broken at)
  place ← lift (path_of node r)
  write_settled node request_id request status extra r place

abbrev pub is_held_reply : Option ReplyRequest → Bool
is_held_reply none = false
is_held_reply (some q) = elim q.status [ pending_teach_check ↦ true | _ ↦ false ]

-- The reply under this request is let go if it is held, and nothing else is.
unfoldable pub let_go : Node → Text → Option ReplyRequest → Exec MessageRecord
let_go node request_id found =
    if is_held_reply found
    then settle_delivery node request_id pending (record { chunk_ids = none; completed_at = none })
    else lift (err (fault reply_not_held (name request_id) ∷ []))

unfoldable pub release_held_reply : Node → Text → Exec MessageRecord
release_held_reply node request_id = do
  found ← reads (read_request node request_id)
  let_go node request_id found

unfoldable pub mark_sent : Node → Text → List Text → Text → Exec MessageRecord
mark_sent node request_id chunk_ids completed_at =
    settle_delivery node request_id sent
      (record { chunk_ids = some chunk_ids; completed_at = some completed_at })

unfoldable pub mark_unknown : Node → Text → Text → Exec MessageRecord
mark_unknown node request_id completed_at =
    settle_delivery node request_id unknown
      (record { chunk_ids = none; completed_at = some completed_at })

unfoldable pub mark_failed : Node → Text → Text → Exec MessageRecord
mark_failed node request_id completed_at =
    settle_delivery node request_id failed
      (record { chunk_ids = none; completed_at = some completed_at })
