-- ===== src/Stream/Teachings/Added.antt =====
-- stream/teachings.ts: the record that `remember` adds.
use carbon_runtime.Common.{
  ℕ, suc, ◌≡◌, refl, ap, ◌∙◌, true, [], Option, some, Text, text, text_eq, text_eq_refl, length,
  lookup-put_self, or_else,
}
use carbon_runtime.Stream.Json.{Json, obj, str, Fields, get}
use carbon_runtime.Stream.Paths.{text_key}
use carbon_runtime.Stream.Record.{MessageRecord}
use carbon_runtime.Stream.Teachings.{Library, Directory, file_name, is_of, active_of}
use carbon_runtime.Stream.Teachings.Write.{declared_in}
use carbon_runtime.Stream.Teachings.Learn.{
  TeachingOptions, Learned, base, taught_by, instruction_fields, same_teaching, same_text,
}
use carbon_runtime.Stream.Teachings.Order.{get-in_schema_order}
use carbon_runtime.Stream.Teachings.Parts.{
  base_id, base_source, base-text, base_kind, base_status, base-taught_by,
}
use carbon_runtime.Stream.Teachings.Listing.{OnDisk, is_text_of}
use carbon_runtime.Stream.Teachings.Fresh.{free_id-IsFree}
use carbon_runtime.Stream.Teachings.Counts.{active_new}
use carbon_runtime.Stream.Teachings.Outcome.{on_disk, IsNew}

same_text_lem :
    (v : Option Json) (o : Option Text) (t : Text)
    → v ≡ some (str t)
    → o ≡ some t
    → same_text v o ≡ true
same_text_lem v o t e f = rw (e, f) (text_eq_refl t)

-- A record that a call has added to the active instructions.
module _ (library : Library) (options : TeachingOptions) (capture : Option MessageRecord) (n : ℕ)
    (files files' : Directory) (l : Learned)
    (p : IsNew library options capture instruction_fields n files files' l) where
  abbrev pub new_record : Fields
  new_record = on_disk library (base options p.source p.id p.cited instruction_fields)

  field_of :
      (key : Text)
      → get key new_record ≡ get key (base options p.source p.id p.cited instruction_fields)
  field_of key = get-in_schema_order (declared_in library.teaching_schema) key _

  new_named : get (text "id") new_record ≡ some (str p.id)
  new_named = field_of (text "id") ∙ base_id options p.source p.id p.cited instruction_fields

  pub new_active : is_of (text "instruction") (text "active") new_record ≡ true
  unfolding is_of get text_eq
  new_active =
      rw
        (
          is_text_of (get (text "kind") new_record) (text "instruction")
              (field_of (text "kind") ∙ base_kind options p.source p.id p.cited instruction_fields),
          is_text_of (get (text "status") new_record) (text "active") (
              field_of (text "status")
              ∙ base_status options p.source p.id p.cited instruction_fields),
        )
        refl

  pub IsNew-count : length (active_of library files') ≡ suc (length (active_of library files))
  IsNew-count = rw p.put_there (
      active_new library p.id new_record files
        (free_id-IsFree library p.source options.now files p.id p.is_free) new_named new_active)

  pub IsNew-OnDisk : OnDisk files' new_record
  IsNew-OnDisk = record {
    id = p.id;
    named = new_named;
    there = rw p.put_there (lookup-put_self (file_name p.id) _ files);
    seen = (free_id-IsFree library p.source options.now files p.id p.is_free).seen;
  }

  pub IsNew-teacher : get (text "taught_by") l.record_of ≡ some (obj (taught_by p.cited))
  IsNew-teacher =
      ap (get (text "taught_by")) p.given_back
      ∙ field_of (text "taught_by")
      ∙ base-taught_by options p.source p.id p.cited instruction_fields

  pub IsNew-same : (t : Text) → options.message ≡ some t → same_teaching options new_record ≡ true
  unfolding same_teaching
  IsNew-same t given =
      rw
        (
          same_text_lem (get (text "source_message_id") new_record) options.source_message_id
              p.source
              (field_of (text "source_message_id")
                ∙ base_source options p.source p.id p.cited instruction_fields)
              p.has_source,
          same_text_lem (get (text "text") new_record) options.message t
              (field_of (text "text")
                ∙ base-text options p.source p.id p.cited instruction_fields
                ∙ ap (λ o. some (str (or_else o []))) given)
              given,
        )
        refl
