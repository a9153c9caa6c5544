-- ===== src/Stream/Samples.antt =====
-- Small inputs that the tests of the store library share.
use carbon_runtime.Common.{true, false, [], Option, none, some, Text, text}
use carbon_runtime.Stream.Platform.{Node}
use carbon_runtime.Stream.Json.{null}
use carbon_runtime.Stream.Validate.{empty_schema}
use carbon_runtime.Stream.Paths.{path_key, text_key}
use carbon_runtime.Stream.Record.{
  MessageRecord, Delivery, inbound, direct, contact, captured, pending, Direction,
}
use carbon_runtime.Stream.Store.{Setup}

-- An engine for ASCII identifiers.
abbrev pub ascii : Node
ascii = record {
  to_utf8 = λ s. s;
  from_utf8 = λ bytes. bytes;
  sha256 = λ bytes. text "0a";
  date_parse = λ s. some 100;
  regex_test = λ p s. true;
}

abbrev pub setup : Setup
setup = record {
  node = ascii;
  message_schema = empty_schema;
  record_json = λ r. null;
  fault_text = λ faults. [];
  fault_json = λ faults. null;
}

abbrev pub message : Text → Direction → Option Delivery → MessageRecord
message id direction delivery = record {
  schema = text "carbon.message.v1";
  agent = text "a";
  source = text "email";
  account = text "acc";
  conversation_id = text "c.1";
  conversation_kind = direct;
  message_id = id;
  platform_message_id = id;
  revision = 0;
  direction = direction;
  role = contact;
  sender_id = text "s";
  sender_name = none;
  received_at = text "t";
  sent_at = none;
  body = text "hello";
  attachments = [];
  historical = false;
  disposition = captured;
  hold = none;
  release = none;
  delivery = delivery;
  adapter_fields = none;
  raw = none;
  reply_to = none;
}

abbrev pub delivery_of : Text → Delivery
delivery_of id = record {
  request_id = id;
  status = pending;
  text_sha256 = none;
  chunk_ids = none;
  completed_at = none;
}

abbrev pub question : MessageRecord
question = message (text "m1") inbound none
