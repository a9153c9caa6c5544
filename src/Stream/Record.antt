-- ===== src/Stream/Record.antt =====
-- stream/store.ts: the record of one message and what hangs on it. Optional fields are `Option`s. The
-- adapter's fields are an object of JSON, by name.
use carbon_runtime.Common.{ℕ, Bool, true, false, List, [], Option, Text}
use carbon_runtime.Stream.Json.{Json}

pub data MessageDisposition : Type 0 where
  captured held parked policy_drop unsupported permanent_error : MessageDisposition

pub data Direction : Type 0 where
  inbound outbound : Direction

pub data MessageRole : Type 0 where
  contact operator agent_role system : MessageRole

pub data ConversationKind : Type 0 where
  direct group thread : ConversationKind

-- A delivery's status; `other_status` is a string that is none of the five.
pub data Status : Type 0 where
  pending pending_teach_check sent unknown failed : Status
  other_status : Text → Status

pub record Attachment : Type 0 where
  pub attachment_id : Option Text
  pub file : Text
  pub mime : Text
  pub bytes : ℕ
  pub sha256 : Text
  pub download_failed : Bool
  pub filename : Option Text

pub record Hold : Type 0 where
  pub reason : Text
  pub set_at : Text
  pub release_after_ms : Option ℕ

pub record Release : Type 0 where
  pub released_at : Text
  pub thread_id : Text
  pub turn_id : Text
  pub completed_at : Option Text

pub record Delivery : Type 0 where
  pub request_id : Text
  pub status : Status
  pub text_sha256 : Option Text
  pub chunk_ids : Option (List Text)
  pub completed_at : Option Text

-- The object of the adapter's fields, as its fields.
abbrev pub AdapterFields : Type 0
AdapterFields = List (Text × Json)

pub record MessageRecord : Type 0 where
  pub schema : Text
  pub agent : Text
  pub source : Text
  pub account : Text
  pub conversation_id : Text
  pub conversation_kind : ConversationKind
  pub message_id : Text
  pub platform_message_id : Text
  pub revision : ℕ
  pub direction : Direction
  pub role : MessageRole
  pub sender_id : Text
  pub sender_name : Option Text
  pub received_at : Text
  pub sent_at : Option Text
  pub body : Text
  pub attachments : List Attachment
  pub historical : Bool
  pub disposition : MessageDisposition
  pub hold : Option Hold
  pub release : Option Release
  pub delivery : Option Delivery
  pub adapter_fields : Option AdapterFields
  pub raw : Option Text
  pub reply_to : Option Text

-- `{}` where a record has no adapter fields.
abbrev pub no_fields : AdapterFields
no_fields = []

pub MessageDisposition-discrete : Discrete MessageDisposition
MessageDisposition-discrete = hlevel

abbrev pub is_parked : MessageDisposition → Bool
is_parked parked = true
is_parked _ = false

abbrev pub is_outbound : Direction → Bool
is_outbound outbound = true
is_outbound inbound = false

abbrev pub is_inbound : Direction → Bool
is_inbound inbound = true
is_inbound outbound = false

abbrev pub same_disposition : MessageDisposition → MessageDisposition → Bool
same_disposition captured captured = true
same_disposition held held = true
same_disposition parked parked = true
same_disposition policy_drop policy_drop = true
same_disposition unsupported unsupported = true
same_disposition permanent_error permanent_error = true
same_disposition _ _ = false
