-- ===== src/Stream/Fault.antt =====
-- stream/faults.ts: a fault says what is wrong about what. Of its four fields the model keeps the
-- code and the subject; `problem` and `fix` are prose for a reader.
use carbon_runtime.Common.{◌≡◌, ℕ, Text, List, [], ◌∷◌}

pub data FaultCode : Type 0 where
  schema_keyword_unsupported value_not_const value_not_in_enum type_wrong : FaultCode
  pattern_unmatched string_too_short below_minimum field_missing field_unknown : FaultCode
  identifier_empty identifier_has_separator identifier_has_dot_segment : FaultCode
  identifier_has_control_byte identifier_too_long : FaultCode
  message_id_claimed record_misplaced cursor_kind_unknown : FaultCode
  historical_never_releases parked_never_releases conversation_held : FaultCode
  capture_before_release : FaultCode
  reply_status_unwritable reply_not_outbound reply_without_request_id : FaultCode
  conversation_not_owned reply_account_mismatch request_already_pending : FaultCode
  delivery_unknown_never_retried request_unknown reply_not_held : FaultCode
  poll_interval_missing poll_interval_below_floor channel_poll_failed channel_poll_hold : FaultCode
  adapter_lock_held : FaultCode
  teaching_unreadable teaching_misplaced teaching_source_not_a_capture : FaultCode
  teaching_max_chars_ungiven teaching_text_empty teaching_text_too_long : FaultCode
  teaching_kind_unknown teaching_status_not_for_kind teaching_readback_disagrees : FaultCode
  teaching_id_unavailable teaching_agent_ungiven teaching_agent_mismatch : FaultCode
  teaching_max_active_ungiven teaching_at_cap teaching_question_unknown : FaultCode
  teaching_not_active : FaultCode
  zip_unreadable zip_method_unsupported zip_entry_corrupt : FaultCode
  zip_entry_outside_media zip_messages_missing : FaultCode

-- `$`, a field or an item below a subject, or the name of an identifier.
pub data Subject : Type 0 where
  root : Subject
  field : Subject → Text → Subject
  item : Subject → ℕ → Subject
  name : Text → Subject

pub record Fault : Type 0 where
  pub code : FaultCode
  pub subject : Subject

abbrev pub fault : FaultCode → Subject → Fault
fault code subject = record { code = code; subject = subject }

pub data Result {ℓ} (A : Type ℓ) : Type ℓ where
  ok : A → Result A
  err : List Fault → Result A
  -- An error of the engine or of the file system, such as a file that is not there.
  broken : Result A

-- Throw what was found, or go on.
abbrev pub refuse_all {ℓ} : {A : Type ℓ} → List Fault → Result A → Result A
refuse_all [] r = r
refuse_all (f ∷ fs) r = err (f ∷ fs)

pub ok-injective {ℓ} : {A : Type ℓ} {a b : A} → ok a ≡ ok b → a ≡ b
ok-injective e = cc
